-- ===== src/Hardware/Patterns.antt =====
-- The field patterns of src/mcp_venus_os/hardware_contracts.py, which pydantic checks before the model
-- validator. A field of a literal type is a text of its list.
pub mod Levels
pub mod Topics
use Prim.Native.Char.{code}
use mcp_venus_os.Prelude.{
  ℕ, zero, suc, String, Bool, true, false, not, ◌&&◌, ◌||◌, Option, none, some, List, [], ◌∷◌, all,
  elem, chars, all_chars, is_ascii_digit, split_slash, str_eq, leb, length, ◌==◌, if◌then◌else◌,
}
use mcp_venus_os.Prelude.Int.{ℤ, pos, leb_ℤ}
use mcp_venus_os.Hardware.{IdentityProbe, HardwareWriteContract, validate_scope}

-- `[a-z]` and `[A-Z]`
abbrev pub is_lower : ℕ → Bool
is_lower k = leb b'a' k && leb k b'z'

abbrev pub is_upper : ℕ → Bool
is_upper k = leb b'A' k && leb k b'Z'

-- `[a-z0-9_]`, `[A-Za-z0-9]`, `[A-Za-z0-9_]`, `[A-Za-z0-9_-]`, `[A-Za-z0-9_.-]` and `[0-9a-f]`
abbrev pub is_type_char : ℕ → Bool
is_type_char k = is_lower k || is_ascii_digit k || k == b'_'

abbrev pub is_alphanumeric : ℕ → Bool
is_alphanumeric k = is_upper k || is_lower k || is_ascii_digit k

abbrev pub is_path_char : ℕ → Bool
is_path_char k = is_alphanumeric k || k == b'_'

abbrev pub is_portal_char : ℕ → Bool
is_portal_char k = is_path_char k || k == b'-'

abbrev pub is_id_char : ℕ → Bool
is_id_char k = is_portal_char k || k == b'.'

abbrev pub is_hex : ℕ → Bool
is_hex k = is_ascii_digit k || (leb b'a' k && leb k b'f')

-- `^[...][...]*$`, of a first character and the others.
abbrev pub starts_and_goes_on : (ℕ → Bool) → (ℕ → Bool) → String → Bool
starts_and_goes_on first other String.[] = false
starts_and_goes_on first other (String.◌∷◌ c s) = first (code c) && all_chars other s

-- `^[A-Za-z0-9_]+(?:/[A-Za-z0-9_]+)*$`
abbrev pub is_item_path : String → Bool
is_item_path s = all (starts_and_goes_on is_path_char is_path_char) (split_slash s)

abbrev pub contract_device_types : List String
contract_device_types = "vebus" ∷ "battery" ∷ []

abbrev pub contract_paths : List String
contract_paths = "Mode" ∷ "Dc/0/MaxChargeCurrent" ∷ "SocLimit" ∷ []

unfoldable pub probe_fields_ok : IdentityProbe → Bool
probe_fields_ok p =
    starts_and_goes_on is_lower is_type_char p.device_type
    && leb_ℤ (pos 0) p.instance_id
    && is_item_path p.path

unfoldable pub contract_fields_ok : HardwareWriteContract → Bool
unfolding probe_fields_ok
contract_fields_ok c =
    starts_and_goes_on is_alphanumeric is_id_char c.contract_id
    && leb (chars c.contract_id) 80
    && starts_and_goes_on is_portal_char is_portal_char c.portal_id
    && elem c.device_type contract_device_types
    && leb_ℤ (pos 0) c.instance_id
    && elem c.path contract_paths
    && length c.identity == 5
    && all probe_fields_ok c.identity
    && not (str_eq c.reviewed_by "")
    && chars c.evidence_sha256 == 64
    && all_chars is_hex c.evidence_sha256
    && leb 20 (chars c.semantics)

-- The model: the fields, then the validator; `none` is ValidationError.
unfoldable pub load_contract : HardwareWriteContract → Option HardwareWriteContract
load_contract c = if contract_fields_ok c then validate_scope c else none
