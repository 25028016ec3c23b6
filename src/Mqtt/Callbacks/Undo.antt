-- ===== src/Mqtt/Callbacks/Undo.antt =====
-- A registration is undone by taking the callback back, in src/mcp_venus_os/mqtt_client.py.
use mcp_venus_os.Prelude.{
  ℕ, ◌≡◌, ◌⊎◌, inl, inr, refl, sym, ap, ◌∙◌, String, Bool, true, false, not, ◌||◌, Option, none,
  some, List, [], ◌∷◌, ◌++◌, lookup, insert, remove, lookup-insert, lookup-remove, ◌==◌, str_eq,
  str_eq_refl, str_eq_iff, if◌then◌else◌, arith, Bool-cases,
}
use mcp_venus_os.Mqtt.{Registration, Client, Effect}
use mcp_venus_os.Mqtt.Callbacks.{
  register, subscribe, remove_callback, put_back, unregister, unsubscribe, unsubscribe_effects,
}

-- `callback in callbacks`
abbrev pub registered : ℕ → List ℕ → Bool
registered callback [] = false
registered callback (x ∷ xs) = x == callback || registered callback xs

remove_callback-snoc :
    (callback : ℕ) (xs : List ℕ)
    → registered callback xs ≡ false
    → remove_callback callback (xs ++ callback ∷ []) ≡ some xs
unfolding remove_callback
remove_callback-snoc callback [] h = ground arith
remove_callback-snoc callback (x ∷ xs) h = ground (arith, remove_callback-snoc callback xs)

-- A pattern is not registered, or it has callbacks and not this one.
abbrev pub is_new : ℕ → Option Registration → Bool
is_new callback none = true
is_new callback (some r) = elim r.callbacks [
  | [] ↦ false
  | x ∷ xs ↦ not (registered callback (x ∷ xs))
]

module _ {ℓ} {V : Type ℓ} where
  -- A key that was not there is set and popped.
  remove_of_insert :
      (k j : String) (v : V) (d : List (String × V))
      → lookup k d ≡ none
      → lookup j (remove k (insert k v d)) ≡ lookup j d
  remove_of_insert k j v d e =
      lookup-remove k j (insert k v d)
      ∙ (ap (λ (o : Option V). if str_eq k j then none else o) (lookup-insert k j v d)
          ∙ by_cases (Bool-cases (str_eq k j)))
    where
      by_cases :
          (str_eq k j ≡ true) ⊎ (str_eq k j ≡ false)
          → (if str_eq k j then none else if str_eq k j then some v else lookup j d) ≡ lookup j d
      by_cases (inl h) = rw h (sym e ∙ ap (λ (i : String). lookup i d) ((str_eq_iff k j).0 h))
      by_cases (inr h) = rw h refl

  -- A key is set to another value and back.
  insert_back :
      (k j : String) (w v : V) (d : List (String × V))
      → lookup k d ≡ some v
      → lookup j (insert k v (insert k w d)) ≡ lookup j d
  insert_back k j w v d e =
      lookup-insert k j v (insert k w d)
      ∙ (ap (λ (o : Option V). if str_eq k j then some v else o) (lookup-insert k j w d)
          ∙ by_cases (Bool-cases (str_eq k j)))
    where
      by_cases :
          (str_eq k j ≡ true) ⊎ (str_eq k j ≡ false)
          → (if str_eq k j then some v else if str_eq k j then some w else lookup j d) ≡ lookup j d
      by_cases (inl h) = rw h (sym e ∙ ap (λ (i : String). lookup i d) ((str_eq_iff k j).0 h))
      by_cases (inr h) = rw h refl

module _ (pattern : String) (callback : ℕ) where
  abbrev SameEntries : List (String × Registration) → List (String × Registration) → Type 0
  SameEntries d e = (j : String) → lookup j d ≡ lookup j e

  -- What `unregister` leaves of a registration.
  abbrev Undone : Client → Client → Type 0
  Undone c d =
      (r : Client × Bool) × (unregister callback pattern (lookup pattern d.callbacks) d ≡ some r)
      × SameEntries r.0.callbacks c.callbacks

  lookup_same :
      (v : Registration) (d : List (String × Registration))
      → lookup pattern (insert pattern v d) ≡ some v
  lookup_same v d = lookup-insert pattern pattern v d ∙ rw (str_eq_refl pattern) refl

  Undone-of :
      (c d : Client) (g : Registration) (rest : List ℕ)
      → lookup pattern d.callbacks ≡ some g
      → remove_callback callback g.callbacks ≡ some rest
      → SameEntries (put_back pattern g rest d).0.callbacks c.callbacks
      → Undone c d
  Undone-of c d g rest e k h = (put_back pattern g rest d, rw e (rw (k, unregister) refl), h)

  register-Undone :
      (o : Option Registration) (c : Client)
      → lookup pattern c.callbacks ≡ o
      → is_new callback o ≡ true
      → Undone c (register callback pattern o c)
  register-Undone none c e h =
      let g : Registration = record { sequence = c.callback_sequence; callbacks = callback ∷ [] } in
      Undone-of c (register callback pattern none c) g [] (lookup_same g c.callbacks)
        (remove_callback-snoc callback [] refl) (λ j. remove_of_insert pattern j g c.callbacks e)
  register-Undone (some g) c e h = keeps_rest g.callbacks refl
    where
      keeps_rest : (l : List ℕ) → g.callbacks ≡ l → Undone c (register callback pattern (some g) c)
      keeps_rest [] p = absurd (ground arith)
      keeps_rest (x ∷ xs) p =
          let more : Registration = record g { callbacks = g.callbacks ++ callback ∷ [] } in
          let without : Registration = record g { callbacks = x ∷ xs } in
          let same : g ≡ without =
            ap (λ (l : List ℕ). record { sequence = g.sequence; callbacks = l }) p in
          Undone-of c (register callback pattern (some g) c) more (x ∷ xs)
            (lookup_same more c.callbacks)
            (rw p (remove_callback-snoc callback (x ∷ xs) (ground arith)))
            (λ j.
              insert_back pattern j more without c.callbacks
                (e ∙ ap (λ (r : Registration). some r) same))

  unsubscribe_of :
      (matches : String → String → Bool) (c d : Client)
      → Undone c d
      → (e : Client × List Effect) × (unsubscribe matches pattern callback d ≡ some e)
        × SameEntries e.0.callbacks c.callbacks
  unfolding unsubscribe
  unsubscribe_of matches c d (r, e, h) =
      ((r.0, unsubscribe_effects matches pattern r), rw (e, unsubscribe) refl, h)

  -- Registering a callback that the pattern does not have, and taking it back, succeeds and leaves
  -- every pattern with the registration that it had.
  pub unsubscribe-subscribe :
      (matches : String → String → Bool) (c : Client)
      → is_new callback (lookup pattern c.callbacks) ≡ true
      → (r : Client × List Effect) × (unsubscribe matches pattern callback
            (subscribe matches pattern callback c).0
          ≡ some r)
        × ((j : String) → lookup j r.0.callbacks ≡ lookup j c.callbacks)
  unfolding subscribe
  unsubscribe-subscribe matches c h =
      unsubscribe_of matches c (register callback pattern (lookup pattern c.callbacks) c)
        (register-Undone (lookup pattern c.callbacks) c refl h)
