-- ===== src/Reads/Registry.antt =====
-- The registration of tools in src/mcp_venus_os/server.py for the companion services that the broker
-- shows, and for SSH. A tool is its name.
pub mod Counts
pub mod Consistent
use mcp_venus_os.Prelude.{
  ℕ, String, Bool, true, false, not, ◌&&◌, Option, none, some, List, [], ◌∷◌, ◌++◌, keep, elem, add,
  lookup, sorted, if◌then◌else◌,
}
use mcp_venus_os.Capabilities.{detect_capabilities}

-- CAPABILITY_TOOLS
abbrev pub capability_tools : List (String × List String)
capability_tools = ("control", "get_control_state" ∷ []) ∷ ("pump", "get_tank_level" ∷ []) ∷ []

-- SSH_TOOLS
abbrev pub ssh_tools : List String
ssh_tools =
    "cerbo_ssh_available" ∷ "cerbo_version" ∷ "cerbo_ip" ∷ "cerbo_check_updates"
    ∷ "cerbo_firmware_update" ∷ "cerbo_enable_ssh" ∷ "setuphelper_status"
    ∷ "setuphelper_install_package" ∷ "setuphelper_remove_package" ∷ "cerbo_ssh_exec" ∷ []

-- `_registered_capabilities`, and the tools that were added to the server, in their order.
pub record Registry : Type 0 where
  pub registered : List String
  pub tools : List String

abbrev pub tools_of : Option (List String) → List String
tools_of none = []
tools_of (some tools) = tools

-- One round of the loop over the new capabilities.
abbrev pub register : String → List String → Registry → Registry
register cap tools r = record { registered = add cap r.registered; tools = r.tools ++ tools }

unfoldable pub register_all : List String → Registry → Registry
unfolding lookup
register_all [] r = r
register_all (cap ∷ caps) r =
    register_all caps (register cap (tools_of (lookup cap capability_tools)) r)

abbrev pub register_ssh : Bool → Registry → Registry
register_ssh configured r =
    if configured && not (elem "ssh" r.registered) then register "ssh" ssh_tools r else r

-- `sorted(detect_capabilities(topics) - _registered_capabilities)`
abbrev pub new_capabilities : List String → Registry → List String
new_capabilities topics r =
    sorted (keep (λ cap. not (elem cap r.registered)) (detect_capabilities topics))

-- `_apply_capability_tools`: the new capabilities, and the registry.
unfoldable pub apply_capability_tools : List String → Bool → Registry → List String × Registry
apply_capability_tools topics configured r = (
  new_capabilities topics r,
  register_ssh configured (register_all (new_capabilities topics r) r),
)
