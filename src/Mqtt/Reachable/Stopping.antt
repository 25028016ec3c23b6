-- ===== src/Mqtt/Reachable/Stopping.antt =====
-- What the threads of src/mcp_venus_os/mqtt_client.py can change while its transport is stopped.
use mathlib.Core.List.{append_assoc}
use mcp_venus_os.Prelude.{
  ℕ, ◌≡◌, refl, sym, ap, subst, ◌∙◌, String, Bool, true, false, Option, none, some, List, [], ◌∷◌,
  ◌++◌, lookup, some_injective, if◌then◌else◌,
}
use mcp_venus_os.Value.{Payload}
use mcp_venus_os.Hardware.{HardwareWriteContract}
use mcp_venus_os.Mqtt.{Client, Registration, Received, Effect, warned_overflow}
use mcp_venus_os.Mqtt.Messages.Caching.{fst_of}
use mcp_venus_os.Mqtt.Callbacks.{
  register, remove_callback, put_back, unregister, unsubscribe_effects, subscribe, unsubscribe,
}
use mcp_venus_os.Mqtt.Lifecycle.{begin_stop, put_sentinel}
use mcp_venus_os.Mqtt.Lifecycle.Quiet.{IsQuiet, stopping-IsQuiet}
use mcp_venus_os.Mqtt.Reachable.{Step, Move, Phase, unlocked, in_stop, Reachable}

module _ (matches : String → String → Bool) (loads : List ℕ → Option Payload)
    (sample_socket : Option ℕ → Payload) where
  -- All but the registrations, the inbox and the time of the last warning is as it was, and entries were
  -- only taken from the inbox.
  record IsKept (c d : Client) : Type 0 where
    pub same : d ≡ record c {
      callbacks = d.callbacks;
      callback_sequence = d.callback_sequence;
      inbox = d.inbox;
      last_drop_log = d.last_drop_log;
    }
    pub only_taken : (taken : List (Option Received)) × (c.inbox ≡ taken ++ d.inbox)

  same-IsKept : (c d : Client) → d ≡ c → IsKept c d
  same-IsKept c d e = subst (IsKept c) (sym e) (record { same = refl; only_taken = ([], refl) })

  warned-IsKept :
      (c : Client) (b : Bool) (now : ℕ)
      → IsKept c
          (fst_of (if b then (record c { last_drop_log = now }, warned_overflow ∷ []) else (c, [])))
  warned-IsKept c true now = record { same = refl; only_taken = ([], refl) }
  warned-IsKept c false now = record { same = refl; only_taken = ([], refl) }

  registered-IsKept :
      (pattern : String) (callback : ℕ) (o : Option Registration) (c : Client)
      → IsKept c (register callback pattern o c)
  registered-IsKept pattern callback none c = record { same = refl; only_taken = ([], refl) }
  registered-IsKept pattern callback (some r) c = record { same = refl; only_taken = ([], refl) }

  put_back-IsKept :
      (pattern : String) (r : Registration) (rest : List ℕ) (c : Client)
      → IsKept c (put_back pattern r rest c).0
  put_back-IsKept pattern r [] c = record { same = refl; only_taken = ([], refl) }
  put_back-IsKept pattern r (x ∷ xs) c = record { same = refl; only_taken = ([], refl) }

  unregister-IsKept :
      (callback : ℕ) (pattern : String) (o : Option Registration) (c : Client) (q : Client × Bool)
      → unregister callback pattern o c ≡ some q
      → IsKept c q.0
  unregister-IsKept callback pattern none c q e =
      subst (λ x. IsKept c x.0) (some_injective e) (same-IsKept c c refl)
  unregister-IsKept callback pattern (some r) c q e =
      by_rest (remove_callback callback r.callbacks) e
    where
      by_rest :
          (o : Option (List ℕ))
          → elim o [ none ↦ none | some rest ↦ some (put_back pattern r rest c) ] ≡ some q
          → IsKept c q.0
      by_rest none f = absurd (cc f)
      by_rest (some rest) f =
          subst (λ x. IsKept c x.0) (some_injective f) (put_back-IsKept pattern r rest c)

  unsubscribe-IsKept :
      (pattern : String) (callback : ℕ) (c : Client) (r : Client × List Effect)
      → unsubscribe matches pattern callback c ≡ some r
      → IsKept c r.0
  unfolding unsubscribe
  unsubscribe-IsKept pattern callback c r e =
      by_result (unregister callback pattern (lookup pattern c.callbacks) c) refl e
    where
      by_result :
          (o : Option (Client × Bool))
          → unregister callback pattern (lookup pattern c.callbacks) c ≡ o
          → elim o [ none ↦ none | some q ↦ some (q.0, unsubscribe_effects matches pattern q) ]
            ≡ some r
          → IsKept c r.0
      by_result none u f = absurd (cc f)
      by_result (some q) u f =
          subst (λ x. IsKept c x.0) (some_injective f) (unregister-IsKept callback pattern _ c q u)

  abbrev quiet : (c : Client) → c.stopping ≡ true → IsQuiet matches loads sample_socket c
  quiet c h = stopping-IsQuiet matches loads sample_socket c h

  -- A step of a thread that finds the client stopping.
  Step-IsKept :
      {c d : Client} → Step matches loads sample_socket c d → c.stopping ≡ true → IsKept c d
  unfolding subscribe
  Step-IsKept (Step.connects c t accepted now) h =
      same-IsKept c _ (ap fst_of ((quiet c h).connects t accepted now))
  Step-IsKept (Step.disconnects c t now) h =
      same-IsKept c _ (ap fst_of ((quiet c h).disconnects t now))
  Step-IsKept (Step.logs c t message now) h = same-IsKept c _ ((quiet c h).logs t message now)
  Step-IsKept (Step.opens c t current sock now) h =
      same-IsKept c _ ((quiet c h).opens t current sock now)
  Step-IsKept (Step.drains c t current want_write sock now) h =
      same-IsKept c _ ((quiet c h).drains t current want_write sock now)
  Step-IsKept (Step.closes c t sock now) h = same-IsKept c _ ((quiet c h).closes t sock now)
  Step-IsKept (Step.queues c t m received_at) h =
      same-IsKept c _ (ap (λ (r : Client × Bool). r.0) ((quiet c h).queues t m received_at))
  Step-IsKept (Step.overflows c t now) h =
      subst (λ r. IsKept c (fst_of r)) (sym ((quiet c h).overflows t now)) (warned-IsKept c _ now)
  Step-IsKept (Step.takes c e rest p) h = record { same = refl; only_taken = (e ∷ [], p) }
  Step-IsKept (Step.handles c r) h = same-IsKept c _ (ap fst_of ((quiet c h).handles r))
  Step-IsKept (Step.subscribes c pattern callback) h =
      registered-IsKept pattern callback (lookup pattern c.callbacks) c
  Step-IsKept (Step.unsubscribes c pattern callback r e) h =
      unsubscribe-IsKept pattern callback c r e

  -- During a stop the client is stopping and not connected.
  abbrev pub Halted : Phase → Client → Type 0
  Halted unlocked c = Unit
  Halted in_stop c = (c.stopping ≡ true) × (c.connected ≡ false)

  kept-Halted :
      (p : Phase) (c d : Client)
      → (c.stopping ≡ true → (d.stopping ≡ c.stopping) × (d.connected ≡ c.connected))
      → Halted p c
      → Halted p d
  kept-Halted unlocked c d k h = tt
  kept-Halted in_stop c d k (s, o) = let (e, f) = k s in (e ∙ s, f ∙ o)

  Step-kept :
      {c d : Client}
      → Step matches loads sample_socket c d
      → c.stopping ≡ true
      → (d.stopping ≡ c.stopping) × (d.connected ≡ c.connected)
  Step-kept s h =
      let k = Step-IsKept s h in
      (ap (λ (x : Client). x.stopping) k.same, ap (λ (x : Client). x.connected) k.same)

  Move-Halted :
      {p q : Phase} {c d : Client}
      → Move matches loads sample_socket p c q d
      → Halted p c
      → Halted q d
  unfolding begin_stop
  Move-Halted (Move.runs {p} {c} {d} s) h = kept-Halted p c d (Step-kept s) h
  Move-Halted (Move.stops c) h = (refl, refl)
  Move-Halted (Move.stopped c t) h = tt
  Move-Halted (Move.starts_transport c transport loop_ok t) h = tt

  pub Reachable-Halted :
      (portal : String) (contracts : List HardwareWriteContract) (p : Phase) (c : Client)
      → Reachable matches loads sample_socket portal contracts p c
      → Halted p c
  Reachable-Halted portal contracts _ _ (Reachable.starts transport) = tt
  Reachable-Halted portal contracts _ _ (Reachable.steps {p} c d r m) =
      Move-Halted m (Reachable-Halted portal contracts p c r)

  -- What the threads do between the two parts of a stop.
  pub data During (c : Client) : Client → Type 0 where
    begins : During c (begin_stop c)
    goes_on : (d e : Client) → During c d → Step matches loads sample_socket d e → During c e

  IsKept-trans : (c d e : Client) → IsKept c d → IsKept d e → IsKept c e
  IsKept-trans c d e k l = record {
    same =
        l.same
        ∙ ap
            (λ (x : Client). record x {
              callbacks = e.callbacks;
              callback_sequence = e.callback_sequence;
              inbox = e.inbox;
              last_drop_log = e.last_drop_log;
            })
            k.same;
    only_taken =
        let (xs, p) = k.only_taken in
        let (ys, q) = l.only_taken in
        (
          xs ++ ys,
          p ∙ (ap (λ (l : List (Option Received)). xs ++ l) q ∙ sym (append_assoc xs ys e.inbox)),
        );
  }

  -- The client is stopping, not connected, and its worker is told to stop. All else is as it was before
  -- the stop, but for the registrations, the time of the last warning, and the inbox, from which entries
  -- were only taken since the sentinel was put.
  pub record IsHeld (c d : Client) : Type 0 where
    pub same : d ≡ record c {
      stopping = true;
      connected = false;
      worker_stop = true;
      callbacks = d.callbacks;
      callback_sequence = d.callback_sequence;
      inbox = d.inbox;
      last_drop_log = d.last_drop_log;
    }
    pub only_taken : (taken : List (Option Received)) × (put_sentinel c.inbox ≡ taken ++ d.inbox)

  During-IsKept : (c d : Client) → During c d → IsKept (begin_stop c) d
  unfolding begin_stop
  During-IsKept c _ During.begins = same-IsKept (begin_stop c) (begin_stop c) refl
  During-IsKept c _ (During.goes_on d e r s) =
      let k = During-IsKept c d r in
      IsKept-trans (begin_stop c) d e k (Step-IsKept s (ap (λ (x : Client). x.stopping) k.same))

  -- From the beginning of a stop to the end of its joins, whatever the callbacks, the worker and the
  -- callers do in any order, the client stays stopping and disconnected, and its cache, session, counters
  -- and socket records stay as they were. Only registrations, the time of the last overflow warning and
  -- the inbox change, and the inbox only loses entries after the sentinel is put.
  pub During-IsHeld : (c d : Client) → During c d → IsHeld c d
  unfolding begin_stop
  During-IsHeld c d r =
      let k = During-IsKept c d r in record { same = k.same; only_taken = k.only_taken }
