-- ===== src/Safety/Confirmations.antt =====
-- `ConfirmationManager` of src/mcp_venus_os/safety.py. The UUID that a request draws is an argument.
use mcp_venus_os.Prelude.{
  ◌≡◌, refl, String, Bool, true, false, Option, none, some, List, lookup, insert, remove,
  lookup-insert, lookup-remove, take, arith, str_eq, str_eq_iff, str_eq_refl, if◌then◌else◌,
}
use mcp_venus_os.Safety.{Params}

pub record PendingEntry : Type 0 where
  pub operation : String
  pub params : Params
  pub message : String
  pub confirmed : Bool

-- `_pending`
abbrev pub Pending : Type 0
Pending = List (String × PendingEntry)

-- Returns the identifier with the new table.
pub request_confirmation : String → String → Params → String → Pending → String × Pending
request_confirmation uuid operation params message pending =
    let confirmation_id = take 8 uuid in
    (
      confirmation_id,
      insert confirmation_id
          (record { operation = operation; params = params; message = message; confirmed = false })
          pending,
    )

abbrev mark_confirmed : String → Pending → Option PendingEntry → Bool × Pending
mark_confirmed confirmation_id pending none = (false, pending)
mark_confirmed confirmation_id pending (some e) =
    (true, insert confirmation_id (record e { confirmed = true }) pending)

pub confirm : String → Pending → Bool × Pending
confirm confirmation_id pending =
    mark_confirmed confirmation_id pending (lookup confirmation_id pending)

pub get_pending : String → Pending → Option PendingEntry
get_pending confirmation_id pending = lookup confirmation_id pending

pub clear : String → Pending → Pending
clear confirmation_id pending = remove confirmation_id pending

-- A request confirmed and cleared: what each step leaves for the table's readers.
pub record Lifecycle (uuid operation : String) (params : Params) (message : String)
    (pending : Pending) : Type 0 where
  pub requested :
      get_pending (take 8 uuid) (request_confirmation uuid operation params message pending).1
      ≡ some
          (record { operation = operation; params = params; message = message; confirmed = false })
  pub accepted :
      (confirm (take 8 uuid) (request_confirmation uuid operation params message pending).1).0
      ≡ true
  pub confirmed :
      get_pending
        (take 8 uuid)
        (confirm (take 8 uuid) (request_confirmation uuid operation params message pending).1).1
      ≡ some
          (record { operation = operation; params = params; message = message; confirmed = true })
  pub cleared :
      get_pending (take 8 uuid) (
        clear
          (take 8 uuid)
          (confirm (take 8 uuid) (request_confirmation uuid operation params message pending).1).1)
      ≡ none

module _ (uuid operation : String) (params : Params) (message : String) (pending : Pending) where
  -- A request is pending and unconfirmed under the first eight characters of its UUID, `confirm`
  -- accepts it and sets nothing but its mark, and `clear` removes it.
  pub confirmation-Lifecycle : Lifecycle uuid operation params message pending
  unfolding request_confirmation confirm get_pending clear
  confirmation-Lifecycle = record {
    requested = simp (lookup-insert, str_eq_refl);
    accepted = simp (lookup-insert, str_eq_refl);
    confirmed = simp (lookup-insert, str_eq_refl);
    cleared = simp (lookup-remove, str_eq_refl);
  }

abbrev pub marked : Option PendingEntry → Option PendingEntry
marked none = none
marked (some e) = some (record e { confirmed = true })

abbrev pub is_pending : Option PendingEntry → Bool
is_pending none = false
is_pending (some e) = true

marks :
    (confirmation_id j : String) (pending : Pending) (o : Option PendingEntry)
    → lookup confirmation_id pending ≡ o
    → lookup j (mark_confirmed confirmation_id pending o).1
      ≡ (if str_eq confirmation_id j then marked (lookup j pending) else lookup j pending)
marks i j pending none e = ground (arith, str_eq_iff i j)
marks i j pending (some entry) e =
    ground (arith, lookup-insert i j (record entry { confirmed = true }) pending, str_eq_iff i j)

-- `confirm` returns whether the identifier is pending; it marks that entry, every other entry
-- keeps its value, and an unknown identifier changes nothing.
pub confirm_exact :
    (confirmation_id j : String) (pending : Pending)
    → ((confirm confirmation_id pending).0 ≡ is_pending (get_pending confirmation_id pending))
      × (get_pending j (confirm confirmation_id pending).1 ≡ (
          if str_eq confirmation_id j
          then marked (get_pending j pending)
          else get_pending j pending))
unfolding confirm get_pending
confirm_exact i j pending = (ground arith, marks i j pending (lookup i pending) refl)
