-- ===== src/Reads/Tanks/Topics.antt =====
-- The topic of a tank that src/mcp_venus_os/server.py discovers.
use Prim.Native.Char.{Char, code}
use text.Mathlib.TextLemmas.{nil-append, cons-append, append_assoc}
use mcp_venus_os.Prelude.{
  ℕ, String, ◌<>◌, Bool, true, false, ◌&&◌, ◌==◌, Option, none, some, List, [], ◌∷◌, split_slash,
  push_head, show_ℕ, show_ℤ, str_eq, str_eq_iff, same_char, slash-append, if◌then◌else◌, ◌≡◌, refl,
  sym, ap, ◌∙◌,
}
use mcp_venus_os.Prelude.Int.{pos}
use mcp_venus_os.Value.{Float}
use mcp_venus_os.Mqtt.{Client}
use mcp_venus_os.Reads.Tanks.{
  decimal, is_decimal, if_canonical, identified, tank_of_parts, tank_of, level_topic,
}

abbrev joined : List String → String
joined [] = ""
joined (s ∷ []) = s
joined (s ∷ rest) = s <> "/" <> joined rest

split-given : (s : String) → (t : String) × (ts : List String) × (split_slash s ≡ t ∷ ts)
unfolding split_slash
split-given String.[] = ("", [], refl)
split-given (String.◌∷◌ c s) = by_char (code c == 47) (split-given s)
  where
    by_char :
        (b : Bool)
        → ((t : String) × (ts : List String) × (split_slash s ≡ t ∷ ts))
        → (t : String) × (ts : List String) × ((if b
              then "" ∷ split_slash s
              else push_head c (split_slash s))
            ≡ t ∷ ts)
    by_char true (t, ts, e) = ("", split_slash s, refl)
    by_char false (t, ts, e) = (String.◌∷◌ c t, ts, ap (push_head c) e)

joined-push :
    (c : Char) (t : String) (ts : List String)
    → joined (push_head c (t ∷ ts)) ≡ String.◌∷◌ c (joined (t ∷ ts))
joined-push c t [] = refl
joined-push c t (u ∷ us) = cons-append c t ("/" <> joined (u ∷ us))

join_split : (s : String) → joined (split_slash s) ≡ s
unfolding split_slash
join_split String.[] = refl
join_split (String.◌∷◌ c s) =
    let (t, ts, e) = split-given s in by_char (code c == 47) refl t ts e (join_split s)
  where
    by_char :
        (b : Bool)
        → (code c == 47) ≡ b
        → (t : String) (ts : List String) → split_slash s ≡ t ∷ ts
        → joined (split_slash s) ≡ s
        → joined (if b then "" ∷ split_slash s else push_head c (split_slash s)) ≡ String.◌∷◌ c s
    by_char true e t ts f ih =
        ap (λ (l : List String). joined ("" ∷ l)) f
        ∙ (nil-append ("/" <> joined (t ∷ ts))
            ∙ (slash-append (joined (t ∷ ts))
                ∙ (ap (String.◌∷◌ "/") (ap joined (sym f) ∙ ih)
                    ∙ ap (λ (d : Char). String.◌∷◌ d s) (sym (same_char c "/" e)))))
    by_char false e t ts f ih =
        ap (λ (l : List String). joined (push_head c l)) f
        ∙ (joined-push c t ts ∙ ap (String.◌∷◌ c) (ap joined (sym f) ∙ ih))

identified_lem :
    (identifier : String) (n : ℕ) → identified identifier ≡ some n → show_ℕ n ≡ identifier
identified_lem identifier n h = by_decimal (is_decimal identifier) (decimal identifier) h
  where
    by_decimal :
        (b : Bool) (o : Option ℕ)
        → (if b then if_canonical identifier o else none) ≡ some n
        → show_ℕ n ≡ identifier
    by_decimal false o k = absurd (cc k)
    by_decimal true none k = absurd (cc k)
    by_decimal true (some m) k = by_same (str_eq (show_ℕ m) identifier) refl k
      where
        by_same :
            (b : Bool)
            → str_eq (show_ℕ m) identifier ≡ b
            → (if b then some m else none) ≡ some n
            → show_ℕ n ≡ identifier
        by_same false e j = absurd (cc j)
        by_same true e j =
            let same : m ≡ n = cc j in ap show_ℕ (sym same) ∙ (str_eq_iff (show_ℕ m) identifier).0 e

parts_lem :
    (parts : List String) (n : ℕ)
    → tank_of_parts parts ≡ some n
    → joined parts ≡ "tank" <> "/" <> show_ℕ n <> "/" <> "Level"
parts_lem [] n h = absurd (cc h)
parts_lem (a ∷ []) n h = absurd (cc h)
parts_lem (a ∷ b ∷ []) n h = absurd (cc h)
parts_lem (a ∷ b ∷ c ∷ d ∷ rest) n h = absurd (cc h)
parts_lem (a ∷ identifier ∷ b ∷ []) n h = by_names (str_eq a "tank") (str_eq b "Level") refl refl h
  where
    by_names :
        (x y : Bool)
        → str_eq a "tank" ≡ x
        → str_eq b "Level" ≡ y
        → (if x && y then identified identifier else none) ≡ some n
        → a <> "/" <> identifier <> "/" <> b ≡ "tank" <> "/" <> show_ℕ n <> "/" <> "Level"
    by_names true true e f k =
        rw ((str_eq_iff a "tank").0 e, (str_eq_iff b "Level").0 f, identified_lem identifier n k)
          refl
    by_names true false e f k = absurd (cc k)
    by_names false y e f k = absurd (cc k)

pub tank_of_lem :
    (stale_after : Float) (look : ℕ → Client) (now : ℕ → ℕ) (topic : String) (n : ℕ)
    → tank_of topic ≡ some n
    → topic ≡ level_topic stale_after look now (pos n)
unfolding tank_of show_ℤ
tank_of_lem stale_after look now topic n h =
    sym (join_split topic)
    ∙ (parts_lem (split_slash topic) n h ∙ sym (append_assoc "tank" "/" (show_ℕ n <> "/Level")))
