-- ===== src/Ssh/Gated/Changing.antt =====
-- The tools of src/mcp_venus_os/server.py that change something on the Cerbo.
use mcp_venus_os.Prelude.{String, Bool, List}
use mcp_venus_os.Config.{SafetyConfig}
use mcp_venus_os.Safety.{Params}
use mcp_venus_os.Ssh.{Sent}
use mcp_venus_os.Ssh.Connection.{Device, Session}
use mcp_venus_os.Ssh.Tools.{ToolReply}
use mcp_venus_os.Ssh.Gated.{tool_sent, IfPermitted}

module _ (d : Device) where
  module _ (searches : String → String → Bool) (safety : SafetyConfig) where
    -- A tool sent nothing more, or the safety gate permits its operation and its commands are such.
    abbrev pub IsGatedTool :
        String → Params → Bool → Session → (List Sent → Type 0) → ToolReply × Session → Type 0
    IsGatedTool operation params confirmed s P r =
        IfPermitted d searches safety operation params confirmed s.sent (tool_sent r)
          (P (tool_sent r))
