-- ===== src/Mqtt/Steps/Registering.antt =====
-- subscribe and unsubscribe of src/mcp_venus_os/mqtt_client.py keep the session's invariant.
use mcp_venus_os.Prelude.{
  some_injective, ℕ, ◌+◌, ◌≡◌, refl, String, Bool, Option, none, some, List, [], ◌∷◌, lookup, subst,
}
use mcp_venus_os.Mqtt.{Client, Registration, Effect}
use mcp_venus_os.Mqtt.Callbacks.{
  subscribe, unsubscribe, register, unregister, put_back, remove_callback, unsubscribe_effects,
}
use mcp_venus_os.Mqtt.Session.Invariant.{WellFormed}
use mcp_venus_os.Mqtt.Steps.{relisted-WellFormed}

module _ (matches : String → String → Bool) where
  register-WellFormed :
      (callback : ℕ) (pattern : String) (o : Option Registration) (c : Client)
      → WellFormed c
      → WellFormed (register callback pattern o c)
  register-WellFormed callback pattern none c w =
      relisted-WellFormed _ (c.callback_sequence + 1) c w
  register-WellFormed callback pattern (some r) c w = relisted-WellFormed _ c.callback_sequence c w

  pub subscribe-WellFormed :
      (pattern : String) (callback : ℕ) (c : Client)
      → WellFormed c
      → WellFormed (subscribe matches pattern callback c).0
  unfolding subscribe
  subscribe-WellFormed pattern callback c w = register-WellFormed callback pattern _ c w

  put_back-WellFormed :
      (pattern : String) (r : Registration) (rest : List ℕ) (c : Client)
      → WellFormed c
      → WellFormed (put_back pattern r rest c).0
  put_back-WellFormed pattern r [] c w = relisted-WellFormed _ c.callback_sequence c w
  put_back-WellFormed pattern r (x ∷ xs) c w = relisted-WellFormed _ c.callback_sequence c w

  unregister-WellFormed :
      (callback : ℕ) (pattern : String) (o : Option Registration) (c : Client) (r : Client × Bool)
      → WellFormed c
      → unregister callback pattern o c ≡ some r
      → WellFormed r.0
  unregister-WellFormed callback pattern none c r w e =
      subst (λ x. WellFormed x.0) (some_injective e) w
  unregister-WellFormed callback pattern (some g) c r w e =
      kept (remove_callback callback g.callbacks) e
    where
      kept :
          (o : Option (List ℕ))
          → elim o [ none ↦ none | some rest ↦ some (put_back pattern g rest c) ] ≡ some r
          → WellFormed r.0
      kept none f = absurd (cc f)
      kept (some rest) f =
          subst (λ x. WellFormed x.0) (some_injective f) (put_back-WellFormed pattern g rest c w)

  pub unsubscribe-WellFormed :
      (pattern : String) (callback : ℕ) (c : Client) (r : Client × List Effect)
      → WellFormed c
      → unsubscribe matches pattern callback c ≡ some r
      → WellFormed r.0
  unfolding unsubscribe
  unsubscribe-WellFormed pattern callback c r w e =
      kept (unregister callback pattern (lookup pattern c.callbacks) c) refl e
    where
      kept :
          (o : Option (Client × Bool))
          → unregister callback pattern (lookup pattern c.callbacks) c ≡ o
          → elim o [ none ↦ none | some q ↦ some (q.0, unsubscribe_effects matches pattern q) ]
            ≡ some r
          → WellFormed r.0
      kept none u f = absurd (cc f)
      kept (some q) u f =
          subst (λ x. WellFormed x.0) (some_injective f)
            (unregister-WellFormed callback pattern _ c q w u)
