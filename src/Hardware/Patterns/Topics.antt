-- ===== src/Hardware/Patterns/Topics.antt =====
-- A contract that src/mcp_venus_os/hardware_contracts.py accepts names its items unambiguously: the topics of
-- src/mcp_venus_os/telemetry.py for it have no wildcard, and are read back as the item that they name.
use text.Mathlib.TextLemmas.{append_assoc}
use mcp_venus_os.Prelude.{
  ◌≡◌, refl, sym, String, ◌<>◌, true, some, List, [], ◌∷◌, All, all, elem, has_char, show_ℤ,
  after_prefix_iff, partition_slash_iff, &&_iff, arith,
}
use mcp_venus_os.Prelude.Int.{ℤ, pos, leb_ℤ}
use mcp_venus_os.Hardware.{IdentityProbe, HardwareWriteContract}
use mcp_venus_os.Hardware.Patterns.{
  is_portal_char, starts_and_goes_on, is_item_path, probe_fields_ok, contract_fields_ok,
  load_contract, contract_device_types, contract_paths,
}
use mcp_venus_os.Telemetry.{item_topic, item_parts}
use mcp_venus_os.Hardware.Patterns.Levels.{
  IsExact, IsLevel, chars-IsLevel, goes_on, type-IsLevel, inst-IsLevel, path-IsExact, listed,
  exact-append, under,
}

-- What is read back of the topic of an item.
pub record IsNamed (prefix device_type : String) (n : ℤ) (path : String) : Type 0 where
  pub parts :
      item_parts prefix (item_topic prefix device_type n path) ≡ some (device_type, show_ℤ n, path)
  pub exact : IsExact (item_topic prefix device_type n path)

item-IsNamed :
    (prefix device_type : String) (n : ℤ) (path : String)
    → IsExact prefix
    → IsLevel device_type
    → IsLevel (show_ℤ n)
    → IsExact path
    → IsNamed prefix device_type n path
item-IsNamed prefix device_type n path h k l m =
    let tail = show_ℤ n <> "/" <> path in
    let rest = device_type <> "/" <> tail in
    record {
      parts =
          rw
            (
              (after_prefix_iff (item_topic prefix device_type n path) (prefix <> "/") rest).1
                  (sym (append_assoc prefix "/" rest)),
              (partition_slash_iff rest device_type tail).1 (refl, k.no_slash),
              (partition_slash_iff tail (show_ℤ n) path).1 (refl, l.no_slash),
            )
            refl;
      exact =
          under prefix rest h (under device_type tail k.exact (under (show_ℤ n) path l.exact m));
    }

device_types-IsLevel : All IsLevel contract_device_types
unfolding has_char
device_types-IsLevel = (
  record { no_slash = refl; exact = record { no_plus = refl; no_hash = refl } },
  (record { no_slash = refl; exact = record { no_plus = refl; no_hash = refl } }, tt),
)

paths-IsExact : All IsExact contract_paths
unfolding has_char
paths-IsExact = (
  record { no_plus = refl; no_hash = refl },
  (record { no_plus = refl; no_hash = refl }, (record { no_plus = refl; no_hash = refl }, tt)),
)

probe-IsNamed :
    (prefix : String) (p : IdentityProbe)
    → IsExact prefix
    → probe_fields_ok p ≡ true
    → IsNamed prefix p.device_type p.instance_id p.path
unfolding probe_fields_ok
probe-IsNamed prefix p h ok =
    let (front, path) = (&&_iff _ (is_item_path p.path)).0 ok in
    let (type, inst) = (&&_iff _ (leb_ℤ (pos 0) p.instance_id)).0 front in
    item-IsNamed prefix p.device_type p.instance_id p.path h (type-IsLevel p.device_type type)
      (inst-IsLevel p.instance_id inst) (path-IsExact p.path path)

probes-IsNamed :
    (prefix : String) (ps : List IdentityProbe)
    → IsExact prefix
    → all probe_fields_ok ps ≡ true
    → All (λ p. IsNamed prefix p.device_type p.instance_id p.path) ps
probes-IsNamed prefix [] h ok = tt
probes-IsNamed prefix (p ∷ ps) h ok =
    let (first, more) = (&&_iff (probe_fields_ok p) (all probe_fields_ok ps)).0 ok in
    (probe-IsNamed prefix p h first, probes-IsNamed prefix ps h more)

portal-IsExact :
    (s : String) → starts_and_goes_on is_portal_char is_portal_char s ≡ true → IsExact ("N/" <> s)
unfolding has_char
portal-IsExact s h =
    let good = goes_on is_portal_char is_portal_char s (λ k e. e) h in
    exact-append "N/" s (record { no_plus = refl; no_hash = refl })
      (chars-IsLevel is_portal_char s refl refl refl good).exact

-- The fields of an accepted contract.
record Fields (c : HardwareWriteContract) : Type 0 where
  portal : starts_and_goes_on is_portal_char is_portal_char c.portal_id ≡ true
  type : elem c.device_type contract_device_types ≡ true
  inst : leb_ℤ (pos 0) c.instance_id ≡ true
  path : elem c.path contract_paths ≡ true
  probes : all probe_fields_ok c.identity ≡ true

load_contract-Fields : (c d : HardwareWriteContract) → load_contract c ≡ some d → Fields c
unfolding load_contract contract_fields_ok
load_contract-Fields c d h = record {
  portal = ground arith;
  type = ground arith;
  inst = ground arith;
  path = ground arith;
  probes = ground arith;
}

-- If a contract is accepted, the topics of its item and of its probes under its portal have no
-- wildcard, and each is parsed back into the device type, the instance and the path that it is for.
pub load_contract-IsNamed :
    (c d : HardwareWriteContract)
    → load_contract c ≡ some d
    → IsNamed ("N/" <> c.portal_id) c.device_type c.instance_id c.path
      × All (λ p. IsNamed ("N/" <> c.portal_id) p.device_type p.instance_id p.path) c.identity
load_contract-IsNamed c d h =
    let f = load_contract-Fields c d h in
    let prefix = portal-IsExact c.portal_id f.portal in
    (
      item-IsNamed ("N/" <> c.portal_id) c.device_type c.instance_id c.path prefix
          (listed IsLevel c.device_type contract_device_types f.type device_types-IsLevel)
          (inst-IsLevel c.instance_id f.inst)
          (listed IsExact c.path contract_paths f.path paths-IsExact),
      probes-IsNamed ("N/" <> c.portal_id) c.identity prefix f.probes,
    )
