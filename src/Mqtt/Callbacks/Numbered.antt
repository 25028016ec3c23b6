-- ===== src/Mqtt/Callbacks/Numbered.antt =====
-- Registrations keep different numbers, all below the next one, in src/mcp_venus_os/mqtt_client.py.
use mcp_venus_os.Prelude.{
  some_injective, ℕ, ◌+◌, ◌≡◌, refl, String, Bool, true, Option, none, some, List, [], ◌∷◌, leb,
  ◌==◌, lookup, insert, remove, if◌then◌else◌, arith, subst, ◌++◌,
}
use mcp_venus_os.Mqtt.{Registration, Client, Effect}
use mcp_venus_os.Mqtt.Callbacks.{
  register, subscribe, remove_callback, put_back, unregister, unsubscribe, unsubscribe_effects,
  matching,
}
use mcp_venus_os.Mqtt.Callbacks.Delivery.{count}
use mcp_venus_os.Mqtt.Callbacks.Sorting.{has_sequence, Distinct}

abbrev Dictionary : Type 0
Dictionary = List (String × Registration)

-- The number of entries with a sequence number.
abbrev numbers : ℕ → Dictionary → ℕ
numbers n [] = 0
numbers n ((pattern, r) ∷ d) = (if r.sequence == n then 1 else 0) + numbers n d

numbers-insert_new :
    (n : ℕ) (k : String) (v : Registration) (d : Dictionary)
    → lookup k d ≡ none
    → numbers n (insert k v d) ≡ (if v.sequence == n then 1 else 0) + numbers n d
unfolding lookup insert
numbers-insert_new n k v [] h = refl
numbers-insert_new n k v ((j, w) ∷ d) h = ground (arith, numbers-insert_new n k v d)

numbers-insert_same :
    (n : ℕ) (k : String) (v r : Registration) (d : Dictionary)
    → lookup k d ≡ some r
    → v.sequence ≡ r.sequence
    → numbers n (insert k v d) ≡ numbers n d
unfolding lookup insert
numbers-insert_same n k v r [] h e = ground arith
numbers-insert_same n k v r ((j, w) ∷ d) h e = ground (arith, numbers-insert_same n k v r d)

numbers-remove :
    (n : ℕ) (k : String) (d : Dictionary) → leb (numbers n (remove k d)) (numbers n d) ≡ true
unfolding remove
numbers-remove n k [] = refl
numbers-remove n k ((j, w) ∷ d) = ground (arith, numbers-remove n k d)

-- The numbers of the registrations differ, and are below the number of the next one.
pub record IsNumbered (d : Dictionary) (next : ℕ) : Type 0 where
  pub below : (n : ℕ) → leb next n ≡ true → numbers n d ≡ 0
  pub differ : (n : ℕ) → leb (numbers n d) 1 ≡ true

numbers-leb-IsNumbered :
    (d e : Dictionary) (next : ℕ)
    → IsNumbered d next
    → ((n : ℕ) → leb (numbers n e) (numbers n d) ≡ true)
    → IsNumbered e next
numbers-leb-IsNumbered d e next i h = record {
  below = λ n l. let z = i.below n l in let k = h n in ground arith;
  differ = λ n. let z = i.differ n in let k = h n in ground arith;
}

insert_same-IsNumbered :
    (k : String) (v r : Registration) (d : Dictionary) (next : ℕ)
    → IsNumbered d next
    → lookup k d ≡ some r
    → v.sequence ≡ r.sequence
    → IsNumbered (insert k v d) next
insert_same-IsNumbered k v r d next i h e =
    numbers-leb-IsNumbered d (insert k v d) next i
      (λ n. let s = numbers-insert_same n k v r d h e in ground arith)

pub register-IsNumbered :
    (callback : ℕ) (pattern : String) (o : Option Registration) (c : Client)
    → lookup pattern c.callbacks ≡ o
    → IsNumbered c.callbacks c.callback_sequence
    → IsNumbered
        (register callback pattern o c).callbacks
        (register callback pattern o c).callback_sequence
register-IsNumbered callback pattern none c h i =
    let v : Registration = record { sequence = c.callback_sequence; callbacks = callback ∷ [] } in
    record {
      below = λ n l.
          let s = numbers-insert_new n pattern v c.callbacks h in
          let z = i.below n (ground arith) in ground arith;
      differ = λ n.
          let s = numbers-insert_new n pattern v c.callbacks h in
          let z = i.below c.callback_sequence (ground arith) in let k = i.differ n in ground arith;
    }
register-IsNumbered callback pattern (some r) c h i =
    insert_same-IsNumbered pattern (record r { callbacks = r.callbacks ++ callback ∷ [] }) r
      c.callbacks c.callback_sequence i h refl

put_back-IsNumbered :
    (pattern : String) (r : Registration) (rest : List ℕ) (c : Client)
    → lookup pattern c.callbacks ≡ some r
    → IsNumbered c.callbacks c.callback_sequence
    → IsNumbered
        (put_back pattern r rest c).0.callbacks
        (put_back pattern r rest c).0.callback_sequence
put_back-IsNumbered pattern r [] c h i =
    numbers-leb-IsNumbered c.callbacks (remove pattern c.callbacks) c.callback_sequence i
      (λ n. numbers-remove n pattern c.callbacks)
put_back-IsNumbered pattern r (x ∷ xs) c h i =
    insert_same-IsNumbered pattern (record r { callbacks = x ∷ xs }) r c.callbacks
      c.callback_sequence i h refl

unregister-IsNumbered :
    (callback : ℕ) (pattern : String) (o : Option Registration) (c : Client) (q : Client × Bool)
    → lookup pattern c.callbacks ≡ o
    → IsNumbered c.callbacks c.callback_sequence
    → unregister callback pattern o c ≡ some q
    → IsNumbered q.0.callbacks q.0.callback_sequence
unregister-IsNumbered callback pattern none c q h i e =
    subst (λ x. IsNumbered x.0.callbacks x.0.callback_sequence) (some_injective e) i
unregister-IsNumbered callback pattern (some r) c q h i e =
    by_rest (remove_callback callback r.callbacks) e
  where
    by_rest :
        (o : Option (List ℕ))
        → elim o [ none ↦ none | some rest ↦ some (put_back pattern r rest c) ] ≡ some q
        → IsNumbered q.0.callbacks q.0.callback_sequence
    by_rest none f = absurd (cc f)
    by_rest (some rest) f =
        subst (λ x. IsNumbered x.0.callbacks x.0.callback_sequence) (some_injective f)
          (put_back-IsNumbered pattern r rest c h i)

module _ (matches : String → String → Bool) where
  pub unsubscribe-IsNumbered :
      (pattern : String) (callback : ℕ) (c : Client) (r : Client × List Effect)
      → IsNumbered c.callbacks c.callback_sequence
      → unsubscribe matches pattern callback c ≡ some r
      → IsNumbered r.0.callbacks r.0.callback_sequence
  unfolding unsubscribe
  unsubscribe-IsNumbered pattern callback c r i e =
      by_result (unregister callback pattern (lookup pattern c.callbacks) c) refl e
    where
      by_result :
          (o : Option (Client × Bool))
          → unregister callback pattern (lookup pattern c.callbacks) c ≡ o
          → elim o [ none ↦ none | some q ↦ some (q.0, unsubscribe_effects matches pattern q) ]
            ≡ some r
          → IsNumbered r.0.callbacks r.0.callback_sequence
      by_result none u f = absurd (cc f)
      by_result (some q) u f =
          subst (λ x. IsNumbered x.0.callbacks x.0.callback_sequence) (some_injective f)
            (unregister-IsNumbered callback pattern _ c q refl i u)

  pub subscribe-IsNumbered :
      (pattern : String) (callback : ℕ) (c : Client)
      → IsNumbered c.callbacks c.callback_sequence
      → IsNumbered
          (subscribe matches pattern callback c).0.callbacks
          (subscribe matches pattern callback c).0.callback_sequence
  unfolding subscribe
  subscribe-IsNumbered pattern callback c i =
      register-IsNumbered callback pattern (lookup pattern c.callbacks) c refl i

  count-matching_leb :
      (n : ℕ) (topic : String) (d : Dictionary)
      → leb (count (has_sequence n) (matching matches topic d)) (numbers n d) ≡ true
  unfolding matching
  count-matching_leb n topic [] = refl
  count-matching_leb n topic ((pattern, r) ∷ d) = ground (arith, count-matching_leb n topic d)

  -- The registrations that match a topic have different numbers.
  pub matching-Distinct :
      (topic : String) (d : Dictionary) (next : ℕ)
      → IsNumbered d next
      → Distinct (matching matches topic d)
  matching-Distinct topic d next i n =
      let k = count-matching_leb n topic d in let h = i.differ n in ground arith
