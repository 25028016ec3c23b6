-- ===== src/Ssh/Gated/Updating.antt =====
-- The update of the Cerbo in src/mcp_venus_os/ssh_client.py: the candidates for the script are looked for
-- in their order, and the first that is found is called.
use mcp_venus_os.Prelude.{
  String, ◌<>◌, Bool, true, false, Option, none, some, List, [], ◌∷◌, ◌++◌, ◌≡◌, ◌⊎◌, inl, inr,
  refl, if◌then◌else◌,
}
use mcp_venus_os.Config.{whole_float}
use mcp_venus_os.Ssh.{Reply, Sent, success}
use mcp_venus_os.Ssh.Connection.{Device, Session, command_of, run}
use mcp_venus_os.Ssh.Commands.{sent_of, run-sent}
use mcp_venus_os.Ssh.Operations.{
  found_script, script_among, swupdate_candidates, swupdate_script, with_script, apply_updates,
}
use mcp_venus_os.Ssh.Gated.Scripts.{probe_of}

-- Nothing more was sent, or one command, once.
abbrev pub SendsOnce : Sent → List Sent → List Sent → Type 0
SendsOnce m before after = (after ≡ before) ⊎ (after ≡ before ++ m ∷ [])

-- A first command at most once, and then a second at most once.
abbrev pub SendsTwo : Sent → Sent → List Sent → List Sent → Type 0
SendsTwo m n before after =
    (middle : List Sent) × SendsOnce m before middle × SendsOnce n middle after

module _ (d : Device) where
  abbrev pub update_of : String → Sent
  update_of script = command_of d (script <> " -force -update") (some (whole_float 900))

  -- The first candidate is looked for and perhaps called, or it is looked for and then the rest is.
  abbrev pub Updates : List String → List Sent → List Sent → Type 0
  Updates [] before after = after ≡ before
  Updates (script ∷ rest) before after =
      SendsTwo (probe_of d script) (update_of script) before after
      ⊎ ((middle : List Sent) × SendsOnce (probe_of d script) before middle
          × Updates rest middle after)

  abbrev call_script : String → Session → Option Reply × Session
  call_script script = run d (script <> " -force -update") (some (whole_float 900))

  found-Updates :
      (script : String) (rest : List String) (before : List Sent) (r : Option Reply × Session)
      (next : Session → Option (Option String) × Session)
      → SendsOnce (probe_of d script) before (sent_of r)
      → ((t : Session) → Updates rest t.sent (sent_of (with_script d call_script (next t))))
      → Updates
          (script ∷ rest)
          before
          (sent_of (with_script d call_script (found_script d script r next)))
  found-Updates script rest before (none, s) next h k = inl (s.sent, h, inl refl)
  found-Updates script rest before (some p, s) next h k = by_success (success p)
    where
      by_success :
          (b : Bool)
          → Updates
              (script ∷ rest)
              before
              (sent_of (with_script d call_script (if b then (some (some script), s) else next s)))
      by_success true =
          inl (s.sent, h, run-sent d (script <> " -force -update") (some (whole_float 900)) s)
      by_success false = inr (s.sent, h, k s)

  among-Updates :
      (scripts : List String) (s : Session)
      → Updates scripts s.sent (sent_of (with_script d call_script (script_among d scripts s)))
  among-Updates [] s = refl
  among-Updates (script ∷ rest) s =
      found-Updates script rest s.sent (run d ("[ -f " <> script <> " ] && echo y") none s)
        (script_among d rest) (run-sent d ("[ -f " <> script <> " ] && echo y") none s)
        (λ t. among-Updates rest t)

  abbrev pub update_scripts : List String
  update_scripts =
      "/opt/victronenergy/swupdate-scripts/check-updates.sh"
      ∷ "/opt/victronenergy/swupdate-scripts/check-swupdate.sh" ∷ []

  pub apply-Updates : (s : Session) → Updates update_scripts s.sent (sent_of (apply_updates d s))
  unfolding apply_updates swupdate_script
  apply-Updates s = among-Updates (swupdate_candidates d) s
