-- ===== src/Ssh/Gated.antt =====
-- What the tools of src/mcp_venus_os/server.py that manage the Cerbo send to it.
pub mod Scripts
pub mod Updating
pub mod Reading
pub mod Changing
use mathlib.Core.List.{Memᴰ}
use mathlib.Core.List.{append-nil, append_assoc}
use mcp_venus_os.Prelude.{
  ℕ, zero, suc, String, Bool, true, false, Option, none, some, List, [], ◌∷◌, ◌++◌, All, All-++,
  ◌≡◌, ◌⊎◌, inl, inr, refl, sym, ◌∙◌, ap, arith, if◌then◌else◌,
}
use mcp_venus_os.Value.{Float}
use mcp_venus_os.Config.{SafetyConfig, load_safety}
use mcp_venus_os.Safety.{Params}
use mcp_venus_os.Safety.Operation.{validate_write_operation}
use mcp_venus_os.Safety.Gate.{IsPermitted}
use mcp_venus_os.Safety.Permitted.{validate_write_operation_iff}
use mcp_venus_os.Write.Tools.{ToolResult, gate_error, confirm_gate}
use mcp_venus_os.Write.Gated.{gate_error-none}
use mcp_venus_os.Ssh.{Reply, Sent}
use mcp_venus_os.Ssh.Keys.{configured}
use mcp_venus_os.Ssh.Connection.{Device, Session, command_of, run}
use mcp_venus_os.Ssh.Commands.{sent_of, run-sent}
use mcp_venus_os.Ssh.Operations.{and_then}
use mcp_venus_os.Ssh.Tools.{ToolReply, not_configured, unless_refused, gated}

abbrev pub tool_sent : ToolReply × Session → List Sent
tool_sent r = r.1.sent

-- What was sent before, and then only commands from a list.
abbrev pub Sends : List Sent → List Sent → List Sent → Type 0
Sends allowed before after =
    (new : List Sent) × (after ≡ before ++ new) × All (λ m. Memᴰ m allowed) new

pub Sends-refl : (allowed before after : List Sent) → after ≡ before → Sends allowed before after
Sends-refl allowed before after e = ([], e ∙ sym (append-nil before), tt)

pub Sends-trans :
    (allowed before middle after : List Sent)
    → Sends allowed before middle
    → Sends allowed middle after
    → Sends allowed before after
Sends-trans allowed before middle after (xs, e, h) (ys, f, k) = (
  xs ++ ys,
  f ∙ (ap (λ (l : List Sent). l ++ ys) e ∙ append_assoc before xs ys),
  All-++ (λ m. Memᴰ m allowed) xs ys h k,
)

abbrev pub nth : ℕ → List Sent → Option Sent
nth n [] = none
nth zero (m ∷ ms) = some m
nth (suc n) (m ∷ ms) = nth n ms

pub nth-Mem : (n : ℕ) (m : Sent) (ms : List Sent) → nth n ms ≡ some m → Memᴰ m ms
nth-Mem n m [] h = absurd (cc h)
nth-Mem zero m (a ∷ ms) h = Memᴰ.head (cc h)
nth-Mem (suc n) m (a ∷ ms) h = Memᴰ.tail (nth-Mem n m ms h)

module _ (d : Device) where
  pub run-Sends :
      (allowed : List Sent) (command : String) (timeout_s : Option Float) (s : Session)
      → Memᴰ (command_of d command timeout_s) allowed
      → Sends allowed s.sent (sent_of (run d command timeout_s s))
  run-Sends allowed command timeout_s s m = elim (run-sent d command timeout_s s) [
    | inl same ↦ Sends-refl allowed s.sent _ same
    | inr one ↦ (command_of d command timeout_s ∷ [], one, (m, tt))
  ]

  -- What follows a reply sends only from the list.
  pub and_then-Sends :
      (allowed before : List Sent) (f : Reply → Session → Option Reply × Session)
      (r : Option Reply × Session)
      → Sends allowed before (sent_of r)
      → ((p : Reply) (t : Session) → Sends allowed t.sent (sent_of (f p t)))
      → Sends allowed before (sent_of (and_then d f r))
  and_then-Sends allowed before f (none, s) h k = h
  and_then-Sends allowed before f (some p, s) h k =
      Sends-trans allowed before s.sent (sent_of (f p s)) h (k p s)

  module _ (searches : String → String → Bool) (safety : SafetyConfig) where
    -- Nothing more was sent, or the safety gate permits the operation and a condition holds.
    abbrev pub IfPermitted : String → Params → Bool → List Sent → List Sent → Type 0 → Type 0
    IfPermitted operation params confirmed before after P =
        (after ≡ before) ⊎ (IsPermitted searches safety operation params confirmed none × P)

    pub gated-IfPermitted :
        (operation : String) (params : Params) (confirmed : Bool)
        (f : Session → ToolReply × Session) (s : Session) (P : List Sent → Type 0)
        → load_safety safety ≡ some safety
        → P (tool_sent (f s))
        → IfPermitted operation params confirmed s.sent
            (tool_sent (gated d searches safety operation params confirmed f s))
            (P (tool_sent (gated d searches safety operation params confirmed f s)))
    unfolding confirm_gate
    gated-IfPermitted operation params confirmed f s P loaded p =
        by_gate
          (gate_error (validate_write_operation searches safety operation params confirmed none))
          refl
      where
        by_client :
            (b : Bool)
            → IsPermitted searches safety operation params confirmed none
            → IfPermitted operation params confirmed s.sent
                (tool_sent (if b then f s else (not_configured, s)))
                (P (tool_sent (if b then f s else (not_configured, s))))
        by_client false g = inl refl
        by_client true g = inr (g, p)

        by_gate :
            (o : Option ToolResult)
            → gate_error (validate_write_operation searches safety operation params confirmed none)
              ≡ o
            → IfPermitted operation params confirmed s.sent
                (tool_sent (unless_refused d searches safety o f s))
                (P (tool_sent (unless_refused d searches safety o f s)))
        by_gate (some e) g = inl refl
        by_gate none g = by_client (configured d.config) (
            (validate_write_operation_iff searches safety operation params none confirmed loaded).0
              (gate_error-none _ g))
