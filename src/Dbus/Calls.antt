-- ===== src/Dbus/Calls.antt =====
-- Which calls an operation of src/mcp_venus_os/dbus_client.py makes, in sequences of operations.
use mathlib.Core.List.{append-nil, append_assoc}
use mcp_venus_os.Prelude.{
  ℕ, String, Bool, true, false, List, [], ◌∷◌, ◌++◌, length, ◌≡◌, refl, sym, ap, ◌∙◌, if◌then◌else◌,
}
use mcp_venus_os.Dbus.{
  transport_error, not_connected, Result, ok, err, Call, Answer, Bus, Op, follow, ◌>>=◌, pure,
  connect, call, get_of, get_property, property_of,
}

-- What an operation calls between two states: all of the calls, in their order, if it returns, and
-- only the first ones of them if it fails.
abbrev pub Called : {A : Type 0} → List Call → Bus → Result A × Bus → Type 0
Called calls before (ok a, after) = after.calls ≡ before.calls ++ calls
Called calls before (err e, after) =
    (made : List Call) × (rest : List Call) × (calls ≡ made ++ rest)
    × (after.calls ≡ before.calls ++ made)

abbrev pub Calls : {A : Type 0} → List Call → Op A → Type 0
Calls calls m = (b : Bus) → Called calls b (m b)

pub bind-Calls :
    {A B : Type 0} (xs ys : List Call) (x : Op A) (f : A → Op B)
    → Calls xs x
    → ((a : A) → Calls ys (f a))
    → Calls (xs ++ ys) (x >>= f)
unfolding ◌>>=◌
bind-Calls {A} {B} xs ys x f h k b = by_first (x b) (h b)
  where
    by_second :
        (c : Bus) (r : Result B × Bus)
        → c.calls ≡ b.calls ++ xs
        → Called ys c r
        → Called (xs ++ ys) b r
    by_second c (ok v, d) e g = g ∙ (ap (λ (l : List Call). l ++ ys) e ∙ append_assoc b.calls xs ys)
    by_second c (err w, d) e (made, rest, p, g) = (
      xs ++ made,
      rest,
      ap (λ (l : List Call). xs ++ l) p ∙ sym (append_assoc xs made rest),
      g ∙ (ap (λ (l : List Call). l ++ made) e ∙ append_assoc b.calls xs made),
    )

    by_first : (r : Result A × Bus) → Called xs b r → Called (xs ++ ys) b (follow f r)
    by_first (ok a, c) e = by_second c (f a c) e (k a c)
    by_first (err w, c) (made, rest, p, g) =
        (made, rest ++ ys, ap (λ (l : List Call). l ++ ys) p ∙ append_assoc made rest ys, g)

pub pure-Calls : {A : Type 0} (r : Result A) → Calls [] (pure r)
unfolding pure
pure-Calls (ok a) b = sym (append-nil b.calls)
pure-Calls (err e) b = ([], [], refl, sym (append-nil b.calls))

-- A computation that does not use the bus, before the rest.
pub then-Calls :
    {A B : Type 0} (ys : List Call) (r : Result A) (f : A → Op B)
    → ((a : A) → Calls ys (f a))
    → Calls ys (pure r >>= f)
then-Calls ys r f k = bind-Calls [] ys (pure r) f (pure-Calls r) k

module _ (connects : ℕ → Bool) (answer : List Call → Call → Answer) where
  pub connect-Calls : Calls [] (connect connects answer)
  unfolding connect
  connect-Calls b = by_tests b.connected (connects (length b.calls))
    where
      by_tests :
          (x y : Bool)
          → Called {A = Unit {0}} [] b (
              if x
              then (ok tt, b)
              else if y
              then (ok tt, record b { has_bus = true; connected = true })
              else (err transport_error, b))
      by_tests true y = sym (append-nil b.calls)
      by_tests false true = sym (append-nil b.calls)
      by_tests false false = ([], [], refl, sym (append-nil b.calls))

  pub call-Calls : (c : Call) → Calls (c ∷ []) (call connects answer c)
  call-Calls c b = by_bus b.has_bus
    where
      by_bus :
          (x : Bool)
          → Called {A = Answer} (c ∷ []) b (
              if x
              then (ok (answer b.calls c), record b { calls = b.calls ++ c ∷ [] })
              else (err not_connected, b))
      by_bus true = refl
      by_bus false = ([], c ∷ [], refl, sym (append-nil b.calls))

  pub property-Calls :
      (service path interface name : String)
      → Calls
          (get_of connects answer service path interface name ∷ [])
          (get_property connects answer service path interface name)
  unfolding get_property
  property-Calls service path interface name =
      bind-Calls (get_of connects answer service path interface name ∷ []) [] _ _
        (call-Calls (get_of connects answer service path interface name))
        (λ a. pure-Calls (property_of connects answer a))
