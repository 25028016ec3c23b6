-- ===== src/Reads/Registry/Counts.antt =====
-- How many of each tool src/mcp_venus_os/server.py registers with a capability.
use mcp_venus_os.Prelude.{
  ℕ, ◌+◌, ◌≤◌, String, Bool, true, false, not, ◌&&◌, ◌||◌, none, some, List, [], ◌∷◌, ◌++◌, elem,
  add, elem-add, all, lookup, distinct, str_eq, str_eq_iff, if◌then◌else◌, ◌≡◌, refl, sym, ap, ◌∙◌,
  arith, Bool-cases, inl, inr,
}
use mcp_venus_os.Reads.Registry.{
  capability_tools, ssh_tools, Registry, tools_of, register, register_all, register_ssh,
}

-- How often a text stands in a list.
abbrev pub count : String → List String → ℕ
count t [] = 0
count t (x ∷ xs) = if str_eq t x then 1 + count t xs else count t xs

pub count-++ : (t : String) (xs ys : List String) → count t (xs ++ ys) ≡ count t xs + count t ys
count-++ t [] ys = omega arith
count-++ t (x ∷ xs) ys = ground (arith, count-++ t xs ys)

count-absent : (t : String) (xs : List String) → elem t xs ≡ false → count t xs ≡ 0
count-absent t [] h = refl
count-absent t (x ∷ xs) h = ground (arith, count-absent t xs)

pub count-distinct : (t : String) (xs : List String) → distinct xs ≡ true → count t xs ≤ 1
count-distinct t [] h = omega arith
count-distinct t (x ∷ xs) h = ground (arith, count-distinct t xs, count-absent t xs, str_eq_iff t x)

-- What the three groups contribute, of which each has so many.
abbrev pub total : ℕ → ℕ → ℕ → List String → ℕ
total c p h registered =
    (if elem "control" registered then c else 0)
    + (if elem "pump" registered then p else 0)
    + (if elem "ssh" registered then h else 0)

abbrev offered : ℕ → ℕ → ℕ → String → ℕ
offered c p h cap =
    if str_eq "control" cap
    then c
    else if str_eq "pump" cap
    then p
    else if str_eq "ssh" cap
    then h
    else 0

elem-same :
    (x y : String) (r : List String) → str_eq x y ≡ true → elem y r ≡ false → elem x r ≡ false
elem-same x y r e n = ap (λ (z : String). elem z r) ((str_eq_iff x y).0 e) ∙ n

-- No text is equal to two that differ.
differ : (x y z : String) → str_eq x y ≡ false → str_eq x z ≡ true → str_eq y z ≡ false
differ x y z n e = elim (Bool-cases (str_eq y z)) [
  | inr f ↦ f
  | inl f ↦
      let same : x ≡ y = (str_eq_iff x z).0 e ∙ sym ((str_eq_iff y z).0 f) in
      absurd (cc (n, (str_eq_iff x y).1 same))
]

total-add :
    (c p h : ℕ) (cap : String) (r : List String)
    → elem cap r ≡ false
    → total c p h (add cap r) ≡ total c p h r + offered c p h cap
total-add c p h cap r n =
    let control = elem-add "control" cap r in
    let pump = elem-add "pump" cap r in
    let ssh = elem-add "ssh" cap r in
    rw (control, pump, ssh)
      (ground (
        arith,
        elem-same "control" cap r,
        elem-same "pump" cap r,
        elem-same "ssh" cap r,
        differ "control" "pump" cap refl,
        differ "control" "ssh" cap refl,
        differ "pump" "ssh" cap refl,
      ))

-- How often a tool is to be registered: once for each registered group that it belongs to.
abbrev pub expected : String → List String → ℕ
expected t registered =
    total (count t ("get_control_state" ∷ [])) (count t ("get_tank_level" ∷ [])) (count t ssh_tools)
      registered

-- Each tool is registered as often as its group calls for.
abbrev pub IsConsistent : Registry → Type 0
IsConsistent r = (t : String) → count t r.tools ≡ expected t r.registered

count-offered :
    (t cap : String)
    → str_eq "ssh" cap ≡ false
    → count t (tools_of (lookup cap capability_tools))
      ≡ offered
          (count t ("get_control_state" ∷ []))
          (count t ("get_tank_level" ∷ []))
          (count t ssh_tools)
          cap
unfolding lookup
count-offered t cap n = by_tests (str_eq "control" cap) (str_eq "pump" cap)
  where
    by_tests :
        (a b : Bool)
        → count t (
            tools_of (
              if a
              then some ("get_control_state" ∷ [])
              else if b
              then some ("get_tank_level" ∷ [])
              else none))
          ≡ (if a
              then count t ("get_control_state" ∷ [])
              else if b
              then count t ("get_tank_level" ∷ [])
              else if str_eq "ssh" cap
              then count t ssh_tools
              else 0)
    by_tests true b = refl
    by_tests false true = refl
    by_tests false false = rw n refl

register-IsConsistent :
    (cap : String) (tools : List String) (r : Registry)
    → elem cap r.registered ≡ false
    → ((t : String)
        → count t tools
          ≡ offered
              (count t ("get_control_state" ∷ []))
              (count t ("get_tank_level" ∷ []))
              (count t ssh_tools)
              cap)
    → IsConsistent r
    → IsConsistent (register cap tools r)
register-IsConsistent cap tools r n offers c t =
    count-++ t r.tools tools ∙ (rw (c t, offers t) (sym (total-add _ _ _ cap r.registered n)))

-- None of the capabilities is registered.
abbrev pub fresh : List String → List String → Bool
fresh registered caps = all (λ x. not (elem x registered)) caps

fresh-add :
    (cap : String) (registered caps : List String)
    → fresh registered caps ≡ true
    → elem cap caps ≡ false
    → fresh (add cap registered) caps ≡ true
fresh-add cap registered [] h n = refl
fresh-add cap registered (x ∷ xs) h n = ground (
  arith,
  fresh-add cap registered xs,
  elem-add x cap registered,
  str_eq_iff x cap,
  str_eq_iff cap x,
)

pub register_all-IsConsistent :
    (caps : List String) (r : Registry)
    → distinct caps ≡ true
    → elem "ssh" caps ≡ false
    → fresh r.registered caps ≡ true
    → IsConsistent r
    → IsConsistent (register_all caps r)
unfolding register_all
register_all-IsConsistent [] r d n f c = c
register_all-IsConsistent (cap ∷ caps) r d n f c =
    let tools = tools_of (lookup cap capability_tools) in
    register_all-IsConsistent caps (register cap tools r) (ground arith) (ground arith)
      (fresh-add cap r.registered caps (ground arith) (ground arith))
      (register-IsConsistent cap tools r (ground arith) (λ t. count-offered t cap (ground arith)) c)

pub register_all-elem :
    (x : String) (caps : List String) (r : Registry)
    → elem x (register_all caps r).registered ≡ (elem x caps || elem x r.registered)
unfolding register_all
register_all-elem x [] r = refl
register_all-elem x (cap ∷ caps) r =
    let tools = tools_of (lookup cap capability_tools) in
    register_all-elem x caps (register cap tools r) ∙ ground (arith, elem-add x cap r.registered)

pub register_ssh-IsConsistent :
    (configured : Bool) (r : Registry) → IsConsistent r → IsConsistent (register_ssh configured r)
register_ssh-IsConsistent configured r c =
    by_test (configured && not (elem "ssh" r.registered)) refl
  where
    by_test :
        (b : Bool)
        → (configured && not (elem "ssh" r.registered)) ≡ b
        → IsConsistent (if b then register "ssh" ssh_tools r else r)
    by_test false e = c
    by_test true e = register-IsConsistent "ssh" ssh_tools r (ground arith) (λ t. refl) c

elem-eq : (x y : String) (r : List String) → str_eq x y ≡ true → elem x r ≡ elem y r
elem-eq x y r e = ap (λ (z : String). elem z r) ((str_eq_iff x y).0 e)

pub register_ssh-elem :
    (x : String) (configured : Bool) (r : Registry)
    → elem x (register_ssh configured r).registered
      ≡ ((str_eq x "ssh" && configured) || elem x r.registered)
register_ssh-elem x configured r = by_test (configured && not (elem "ssh" r.registered)) refl
  where
    by_test :
        (b : Bool)
        → (configured && not (elem "ssh" r.registered)) ≡ b
        → elem x (if b then register "ssh" ssh_tools r else r).registered
          ≡ ((str_eq x "ssh" && configured) || elem x r.registered)
    by_test false e = ground (arith, elem-eq x "ssh" r.registered)
    by_test true e = elem-add x "ssh" r.registered ∙ ground arith
