-- ===== src/Ssh/Gated/Scripts.antt =====
-- The search for the update script in src/mcp_venus_os/ssh_client.py: what it sends, and what follows it.
use mathlib.Core.List.{Memᴰ}
use mcp_venus_os.Prelude.{
  String, ◌<>◌, Bool, true, false, Option, none, some, List, [], ◌∷◌, All, refl, if◌then◌else◌,
}
use mcp_venus_os.Ssh.{Reply, Sent, success}
use mcp_venus_os.Ssh.Connection.{Device, Session, command_of, run}
use mcp_venus_os.Ssh.Commands.{sent_of}
use mcp_venus_os.Ssh.Operations.{
  found_script, script_among, swupdate_candidates, swupdate_script, with_script,
}
use mcp_venus_os.Ssh.Gated.{Sends, Sends-refl, Sends-trans, run-Sends}

module _ (d : Device) where
  abbrev pub probe_of : String → Sent
  probe_of candidate = command_of d ("[ -f " <> candidate <> " ] && echo y") none

  module _ (allowed : List Sent) (f : String → Session → Option Reply × Session) where
    -- The search of a candidate and the use of it send only from the list.
    abbrev pub IsCovered : String → Type 0
    IsCovered candidate =
        Memᴰ (probe_of candidate) allowed
        × ((t : Session) → Sends allowed t.sent (sent_of (f candidate t)))

    found-Sends :
        (candidate : String) (before : List Sent) (r : Option Reply × Session)
        (next : Session → Option (Option String) × Session)
        → Sends allowed before (sent_of r)
        → IsCovered candidate
        → ((t : Session) → Sends allowed t.sent (sent_of (with_script d f (next t))))
        → Sends allowed before (sent_of (with_script d f (found_script d candidate r next)))
    found-Sends candidate before (none, s) next h c k = h
    found-Sends candidate before (some p, s) next h c k =
        Sends-trans allowed before s.sent _ h (by_success (success p))
      where
        by_success :
            (b : Bool)
            → Sends allowed s.sent
                (sent_of (with_script d f (if b then (some (some candidate), s) else next s)))
        by_success true = c.1 s
        by_success false = k s

    among-Sends :
        (candidates : List String) (s : Session)
        → All IsCovered candidates
        → Sends allowed s.sent (sent_of (with_script d f (script_among d candidates s)))
    among-Sends [] s h = Sends-refl allowed s.sent s.sent refl
    among-Sends (candidate ∷ rest) s (c, h) =
        found-Sends candidate s.sent (run d ("[ -f " <> candidate <> " ] && echo y") none s)
          (script_among d rest)
          (run-Sends d allowed ("[ -f " <> candidate <> " ] && echo y") none s c.0) c
          (λ t. among-Sends rest t h)

    pub with_script-Sends :
        (s : Session)
        → All IsCovered (swupdate_candidates d)
        → Sends allowed s.sent (sent_of (with_script d f (swupdate_script d s)))
    unfolding swupdate_script
    with_script-Sends s h = among-Sends (swupdate_candidates d) s h
