-- ===== src/Reads/Registry/Consistent.antt =====
-- The tools of src/mcp_venus_os/server.py stay in step with the capabilities that are registered.
use mcp_venus_os.Prelude.{
  ℕ, ◌+◌, ◌≤◌, String, Bool, true, false, not, ◌&&◌, ◌||◌, List, [], ◌∷◌, keep, elem, add,
  elem-sorted, any, str_eq_refl, distinct, distinct-add, distinct-keep, distinct-sorted, str_eq,
  str_eq_iff, if◌then◌else◌, ◌≡◌, refl, ap, ◌∙◌, arith,
}
use mcp_venus_os.Capabilities.{
  marks, capability_markers, is_capability_topic, caps_of_topic, detect_from, detect_capabilities,
}
use mcp_venus_os.Capabilities.Detection.{detect_capabilities_lem}
use mcp_venus_os.Reads.Registry.{
  ssh_tools, Registry, register_all, new_capabilities, apply_capability_tools,
}
use mcp_venus_os.Reads.Registry.Counts.{
  count, count-++, count-distinct, total, expected, IsConsistent, fresh, register_all-IsConsistent,
  register_all-elem, register_ssh-IsConsistent, register_ssh-elem,
}

caps_of_topic-distinct :
    (t : String) (entries : List (String × List String)) (caps : List String)
    → distinct caps ≡ true
    → distinct (caps_of_topic t entries caps) ≡ true
unfolding caps_of_topic
caps_of_topic-distinct t [] caps d = d
caps_of_topic-distinct t ((cap, markers) ∷ entries) caps d =
    by_mark (any (marks t) markers) (λ l e. caps_of_topic-distinct t entries l e)
  where
    by_mark :
        (b : Bool)
        → ((l : List String) → distinct l ≡ true → distinct (caps_of_topic t entries l) ≡ true)
        → distinct (caps_of_topic t entries (if b then add cap caps else caps)) ≡ true
    by_mark true ih = ih (add cap caps) (distinct-add cap caps d)
    by_mark false ih = ih caps d

detect_from-distinct :
    (topics caps : List String) → distinct caps ≡ true → distinct (detect_from topics caps) ≡ true
unfolding detect_from
detect_from-distinct [] caps d = d
detect_from-distinct (t ∷ ts) caps d =
    by_topic (is_capability_topic t) (λ l e. detect_from-distinct ts l e)
  where
    by_topic :
        (b : Bool)
        → ((l : List String) → distinct l ≡ true → distinct (detect_from ts l) ≡ true)
        → distinct (detect_from ts (if b then caps_of_topic t capability_markers caps else caps))
          ≡ true
    by_topic true ih =
        ih (caps_of_topic t capability_markers caps)
          (caps_of_topic-distinct t capability_markers caps d)
    by_topic false ih = ih caps d

elem-kept :
    (p : String → Bool) (x : String) (xs : List String) → elem x (keep p xs) ≡ (p x && elem x xs)
elem-kept p x [] = ground arith
elem-kept p x (y ∷ ys) = by_same (str_eq x y) refl (elem-kept p x ys)
  where
    by_same :
        (b : Bool)
        → str_eq x y ≡ b
        → elem x (keep p ys) ≡ (p x && elem x ys)
        → elem x (if p y then y ∷ keep p ys else keep p ys) ≡ (p x && (b || elem x ys))
    by_same true e ih = let same : p x ≡ p y = ap p ((str_eq_iff x y).0 e) in ground arith
    by_same false e ih = ground arith

elem-new :
    (x : String) (topics : List String) (r : Registry)
    → elem x (new_capabilities topics r)
      ≡ (not (elem x r.registered) && elem x (detect_capabilities topics))
elem-new x topics r =
    elem-sorted x (keep (λ cap. not (elem cap r.registered)) (detect_capabilities topics))
    ∙ elem-kept (λ cap. not (elem cap r.registered)) x (detect_capabilities topics)

fresh_of :
    (registered caps : List String)
    → ((x : String) → elem x caps ≡ true → elem x registered ≡ false)
    → fresh registered caps ≡ true
fresh_of registered [] h = refl
fresh_of registered (x ∷ xs) h =
    let head = h x (ground (arith, str_eq_refl x)) in
    let tail = fresh_of registered xs (λ y e. h y (ground arith)) in ground arith

none_new :
    (topics : List String) (r : Registry)
    → ((x : String) → elem x (detect_capabilities topics) ≡ true → elem x r.registered ≡ true)
    → new_capabilities topics r ≡ []
none_new topics r h =
    empty_of (new_capabilities topics r) (λ x. elem-new x topics r ∙ ground (arith, h x))
  where
    empty_of : (xs : List String) → ((x : String) → elem x xs ≡ false) → xs ≡ []
    empty_of [] k = refl
    empty_of (x ∷ xs) k = let head = k x in absurd (ground (arith, str_eq_refl x))

total_below : (c p h : ℕ) (r : List String) → total c p h r ≤ c + (p + h)
total_below c p h r = ground arith

at_most_one : (a b n : ℕ) → a ≤ b → n ≡ b → n ≤ 1 → a ≤ 1
at_most_one a b n h e k = omega arith

tools_once : (t : String) (registered : List String) → expected t registered ≤ 1
tools_once t registered =
    at_most_one _ _ _ (total_below _ _ _ registered)
      (count-++ t ("get_control_state" ∷ []) ("get_tank_level" ∷ ssh_tools)
        ∙ ap (λ (n : ℕ). count t ("get_control_state" ∷ []) + n)
            (count-++ t ("get_tank_level" ∷ []) ssh_tools))
      (count-distinct t ("get_control_state" ∷ "get_tank_level" ∷ ssh_tools) refl)

apply-elem :
    (x : String) (topics : List String) (configured : Bool) (r : Registry)
    → elem x (apply_capability_tools topics configured r).1.registered ≡ (
        elem x r.registered
        || elem x (detect_capabilities topics)
        || (str_eq x "ssh" && configured))
unfolding apply_capability_tools
apply-elem x topics configured r =
    register_ssh-elem x configured (register_all (new_capabilities topics r) r)
    ∙ ground (arith, register_all-elem x (new_capabilities topics r) r, elem-new x topics r)

apply-IsConsistent :
    (topics : List String) (configured : Bool) (r : Registry)
    → IsConsistent r
    → IsConsistent (apply_capability_tools topics configured r).1
unfolding apply_capability_tools detect_capabilities
apply-IsConsistent topics configured r c =
    let new = new_capabilities topics r in
    let kept = keep (λ cap. not (elem cap r.registered)) (detect_capabilities topics) in
    register_ssh-IsConsistent configured (register_all new r) (
      register_all-IsConsistent new r
        (distinct-sorted kept
          ∙ distinct-keep (λ cap. not (elem cap r.registered)) (detect_capabilities topics)
              (detect_from-distinct topics [] refl))
        (ground (arith, elem-new "ssh" topics r, detect_capabilities_lem "ssh" topics))
        (fresh_of r.registered new (λ x e. ground (arith, elem-new x topics r))) c)

apply_again :
    (topics : List String) (configured : Bool) (r : Registry)
    → ((x : String) → elem x (detect_capabilities topics) ≡ true → elem x r.registered ≡ true)
    → (configured && not (elem "ssh" r.registered)) ≡ false
    → apply_capability_tools topics configured r ≡ ([], r)
unfolding apply_capability_tools register_all
apply_again topics configured r h s = rw (none_new topics r h) (rw s refl)

-- While every tool is registered as often as its group calls for, which is once at most, a scan keeps
-- it so; afterwards exactly the capabilities are registered that were, that the topics show, and, if
-- SSH is configured, "ssh"; and scanning the same topics again registers nothing.
pub apply_capability_tools-IsConsistent :
    (topics : List String) (configured : Bool) (r : Registry)
    → IsConsistent r
    → let after = (apply_capability_tools topics configured r).1 in
      IsConsistent after
      × ((t : String) → count t after.tools ≤ 1)
      × ((x : String)
          → elem x after.registered ≡ (
              elem x r.registered
              || elem x (detect_capabilities topics)
              || (str_eq x "ssh" && configured)))
      × (apply_capability_tools topics configured after ≡ ([], after))
apply_capability_tools-IsConsistent topics configured r c =
    let after = (apply_capability_tools topics configured r).1 in
    let kept = apply-IsConsistent topics configured r c in
    (
      kept,
      λ t. rw (kept t) (tools_once t after.registered),
      λ x. apply-elem x topics configured r,
      apply_again topics configured after (λ x e. ground (arith, apply-elem x topics configured r))
          (ground (arith, apply-elem "ssh" topics configured r)),
    )
