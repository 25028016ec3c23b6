-- ===== src/Telemetry/Refresh.antt =====
-- Which cached topics src/mcp_venus_os/telemetry.py asks the gateway to publish again.
use mcp_venus_os.Prelude.{
  ℕ, ◌≡◌, ◌↔◌, ◌⊎◌, refl, ap, ◌∙◌, String, ◌<>◌, Bool, true, false, ◌&&◌, ◌||◌, List, [], ◌∷◌, add,
  elem, elem-add, elem-sorted, arith, str_eq_iff, Option, none, some, if◌then◌else◌, after_prefix,
  partition_slash, after_prefix_iff, partition_slash_iff, has_char, &&_iff, ||_iff,
}
use mcp_venus_os.Hardware.{HardwareWriteContract}
use mcp_venus_os.Telemetry.{
  isdigit, is_read_path, with_identifier, with_family, with_rest, item_parts, wanted, is_target,
  targets_from, required_topics, refresh_topics,
}

-- A topic of an item of this portal, with its family, its instance and its path.
pub record IsItem (prefix topic family identifier path : String) : Type 0 where
  pub shape : topic ≡ (prefix <> "/") <> family <> "/" <> identifier <> "/" <> path
  pub plain_family : has_char b'/' family ≡ false
  pub plain_identifier : has_char b'/' identifier ≡ false

module _ (other_digit : ℕ → Bool) where
  -- The item has a numeric instance, and it is required or the path of a tool's field.
  pub record IsWanted (prefix : String) (required : List String) (topic : String) : Type 0 where
    pub family : String
    pub identifier : String
    pub path : String
    pub item : IsItem prefix topic family identifier path
    pub numeric : isdigit other_digit identifier ≡ true
    pub consumed : (elem topic required ≡ true) ⊎ (is_read_path other_digit family path ≡ true)

item_parts_sound :
    (prefix topic family identifier path : String)
    → item_parts prefix topic ≡ some (family, identifier, path)
    → IsItem prefix topic family identifier path
item_parts_sound prefix topic family identifier path h =
    let (rest, found, more) = rest_of (after_prefix topic (prefix <> "/")) h in
    let (tail, parted, last) = family_of (partition_slash rest) more in
    let (e, plain) = (partition_slash_iff rest family tail).0 parted in
    let (f, plain') = (partition_slash_iff tail identifier path).0 last in
    record {
      shape =
          (after_prefix_iff topic (prefix <> "/") rest).0 found
          ∙ ap (λ t. (prefix <> "/") <> t) (e ∙ ap (λ t. family <> "/" <> t) f);
      plain_family = plain;
      plain_identifier = plain';
    }
  where
    rest_of :
        (o : Option String)
        → with_rest o ≡ some (family, identifier, path)
        → (rest : String) × (o ≡ some rest)
          × (with_family (partition_slash rest) ≡ some (family, identifier, path))
    rest_of none e = absurd (cc e)
    rest_of (some rest) e = (rest, refl, e)

    identifier_of :
        (f : String) (o : Option (String × String))
        → with_identifier f o ≡ some (family, identifier, path)
        → (f ≡ family) × (o ≡ some (identifier, path))
    identifier_of f none e = absurd (cc e)
    identifier_of f (some (a, b)) e = ground arith

    family_of :
        (o : Option (String × String))
        → with_family o ≡ some (family, identifier, path)
        → (tail : String) × (o ≡ some (family, tail))
          × (partition_slash tail ≡ some (identifier, path))
    family_of none e = absurd (cc e)
    family_of (some (f, tail)) e =
        let (same, parted) = identifier_of f (partition_slash tail) e in
        (tail, ap (λ (x : String). some (x, tail)) same, parted)

item_parts_complete :
    (prefix topic family identifier path : String)
    → IsItem prefix topic family identifier path
    → item_parts prefix topic ≡ some (family, identifier, path)
item_parts_complete prefix topic family identifier path i =
    let a = (after_prefix_iff topic (prefix <> "/") _).1 i.shape in
    let b = (partition_slash_iff _ family (identifier <> "/" <> path)).1 (refl, i.plain_family) in
    let c = (partition_slash_iff _ identifier path).1 (refl, i.plain_identifier) in
    ap with_rest a ∙ (ap with_family b ∙ ap (with_identifier family) c)

module _ (other_digit : ℕ → Bool) where
  is_target_sound :
      (prefix : String) (required : List String) (topic : String)
      → is_target other_digit prefix required topic ≡ true
      → IsWanted other_digit prefix required topic
  unfolding is_target
  is_target_sound prefix required topic h = from (item_parts prefix topic) refl h
    where
      from :
          (o : Option (String × String × String))
          → item_parts prefix topic ≡ o
          → wanted other_digit required topic o ≡ true
          → IsWanted other_digit prefix required topic
      from none e k = absurd (cc k)
      from (some (family, identifier, path)) e k =
          let (n, c) = (&&_iff _ _).0 k in
          record {
            family = family;
            identifier = identifier;
            path = path;
            item = item_parts_sound prefix topic family identifier path e;
            numeric = n;
            consumed = (||_iff (elem topic required) (is_read_path other_digit family path)).0 c;
          }

  is_target_complete :
      (prefix : String) (required : List String) (topic : String)
      → IsWanted other_digit prefix required topic
      → is_target other_digit prefix required topic ≡ true
  unfolding is_target
  is_target_complete prefix required topic w =
      rw (item_parts_complete prefix topic w.family w.identifier w.path w.item) (
        (&&_iff _ _).1 (
          w.numeric,
          (||_iff (elem topic required) (is_read_path other_digit w.family w.path)).1 w.consumed,
        ))

  targets_from_lem :
      (x prefix : String) (required cached targets : List String)
      → elem x (targets_from other_digit prefix required cached targets)
        ≡ ((elem x cached && is_target other_digit prefix required x) || elem x targets)
  unfolding targets_from
  targets_from_lem x prefix required [] targets = refl
  targets_from_lem x prefix required (t ∷ ts) targets =
      let next = if is_target other_digit prefix required t then add t targets else targets in
      ground
        (arith, elem-add x t targets, targets_from_lem x prefix required ts next, str_eq_iff x t)

  -- A topic is asked for exactly when it is cached and wanted.
  pub refresh_topics_iff :
      (x prefix : String) (cached : List String) (contracts : List HardwareWriteContract)
      (explicit : List String)
      → (elem x (refresh_topics other_digit prefix cached contracts explicit) ≡ true) ↔ (
          (elem x cached ≡ true)
          × IsWanted other_digit prefix (required_topics other_digit prefix contracts explicit) x)
  unfolding refresh_topics
  refresh_topics_iff x prefix cached contracts explicit =
      let required = required_topics other_digit prefix contracts explicit in
      let targets = targets_from other_digit prefix required cached [] in
      let listed = elem-sorted x targets ∙ targets_from_lem x prefix required cached [] in
      (
        λ h.
            let (c, t) =
              (&&_iff (elem x cached) (is_target other_digit prefix required x)).0 (ground arith) in
            (c, is_target_sound prefix required x t),
        λ (c, w). let t = is_target_complete prefix required x w in ground arith,
      )
