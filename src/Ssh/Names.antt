-- ===== src/Ssh/Names.antt =====
-- The names that src/mcp_venus_os/ssh_client.py accepts for packages and repositories.
use Prim.Native.Char.{code}
use mcp_venus_os.Prelude.{
  ℕ, String, ◌<>◌, true, false, ◌&&◌, ◌==◌, none, some, List, [], ◌∷◌, All, all, not, ◌≡◌, ◌⊎◌, inl,
  inr, refl, subst, arith, has_char, has_char-all_chars, all_chars, starts_with, split_slash,
  partition_slash, Option-cases, Bool-cases, &&_iff, partition_slash_iff,
}
use mcp_venus_os.Ssh.{is_name_char, is_word, both_words, valid_package_name, valid_repo}
use mcp_venus_os.Ssh.Packages.{second}

-- The characters that a shell gives a meaning, and the slash.
abbrev pub shell_specials : List ℕ
shell_specials =
    b'!' ∷ b'"' ∷ b'#' ∷ b'$' ∷ b'%' ∷ b'&' ∷ b'(' ∷ b')' ∷ b'*' ∷ b'/' ∷ b':' ∷ b';' ∷ b'<' ∷ b'='
    ∷ b'>' ∷ b'?' ∷ b'[' ∷ b']' ∷ b'^' ∷ b'`' ∷ b'{' ∷ b'|' ∷ b'}' ∷ b'~' ∷ 39 ∷ 92 ∷ 0 ∷ 9 ∷ 10
    ∷ 13 ∷ 32 ∷ []

-- A text without a character that a shell gives a meaning.
abbrev pub IsInert : String → Type 0
IsInert s = All (λ k. has_char k s ≡ false) shell_specials

inert_all :
    (s : String) (ks : List ℕ)
    → all_chars is_name_char s ≡ true
    → all (λ k. not (is_name_char k)) ks ≡ true
    → All (λ k. has_char k s ≡ false) ks
inert_all s [] h a = tt
inert_all s (k ∷ ks) h a =
    (has_char-all_chars is_name_char k s (ground arith) h, inert_all s ks h (ground arith))

all_chars-IsInert : (s : String) → all_chars is_name_char s ≡ true → IsInert s
all_chars-IsInert s h = inert_all s shell_specials h refl

-- The name of a directory: not empty, and neither an option nor hidden.
pub record IsPackageName (s : String) : Type 0 where
  pub inert : IsInert s
  pub no_option : starts_with s "-" ≡ false
  pub not_hidden : starts_with s "." ≡ false
  pub not_empty : starts_with "" s ≡ false

pub valid-IsPackageName : (s : String) → valid_package_name s ≡ true → IsPackageName s
unfolding valid_package_name starts_with
valid-IsPackageName String.[] h = absurd (ground arith)
valid-IsPackageName (String.◌∷◌ c s) h = record {
  inert = all_chars-IsInert (String.◌∷◌ c s) (ground arith);
  no_option = ground arith;
  not_hidden = ground arith;
  not_empty = refl;
}

word_chars : (s : String) → is_word s ≡ true → all_chars is_name_char s ≡ true
word_chars String.[] h = absurd (ground arith)
word_chars (String.◌∷◌ c s) h = h

split_slash-alone : (s : String) → all_chars is_name_char s ≡ true → split_slash s ≡ s ∷ []
unfolding split_slash
split_slash-alone String.[] h = refl
split_slash-alone (String.◌∷◌ c s) h = elim (Bool-cases (code c == 47)) [
  | inl e ↦ absurd (ground arith)
  | inr e ↦ rw (e, split_slash-alone s (ground arith)) refl
]

partition-split :
    (s : String) (a b : String)
    → partition_slash s ≡ some (a, b)
    → split_slash s ≡ a ∷ split_slash b
unfolding partition_slash split_slash
partition-split String.[] a b h = absurd (cc h)
partition-split (String.◌∷◌ c s) a b h =
    by_char (Bool-cases (code c == 47)) (Option-cases (partition_slash s)) (partition-split s)
  where
    by_char :
        ((code c == 47) ≡ true) ⊎ ((code c == 47) ≡ false)
        → (partition_slash s ≡ none) ⊎ ((p : String × String) × (partition_slash s ≡ some p))
        → ((x y : String) → partition_slash s ≡ some (x, y) → split_slash s ≡ x ∷ split_slash y)
        → split_slash (String.◌∷◌ c s) ≡ a ∷ split_slash b
    by_char (inl e) o ih = ground arith
    by_char (inr e) (inl n) ih = ground arith
    by_char (inr e) (inr ((x, y), n)) ih = ground (arith, ih x y n)

-- The repository is an owner and a name with one slash between them.
pub record IsRepository (repo owner name : String) : Type 0 where
  pub joined : repo ≡ owner <> "/" <> name
  pub owner_inert : IsInert owner
  pub name_inert : IsInert name
  pub name_given : starts_with "" name ≡ false

word_given : (s : String) → is_word s ≡ true → starts_with "" s ≡ false
unfolding starts_with
word_given String.[] h = absurd (ground arith)
word_given (String.◌∷◌ c s) h = refl

pub valid_repo-parts :
    (repo : String)
    → valid_repo repo ≡ true
    → (owner : String) × (name : String) × (second (split_slash repo) ≡ some name)
      × IsRepository repo owner name
unfolding valid_repo
valid_repo-parts repo h = elim (Option-cases (partition_slash repo)) [
  | inl e ↦ absurd (ground arith)
  | inr ((owner, name), e) ↦
      let words : (is_word owner && is_word name) ≡ true = subst (λ o. both_words o ≡ true) e h in
      let (left, right) = (&&_iff (is_word owner) (is_word name)).0 words in
      (
        owner,
        name,
        rw (partition-split repo owner name e, split_slash-alone name (word_chars name right)) refl,
        record {
          joined = ((partition_slash_iff repo owner name).0 e).0;
          owner_inert = all_chars-IsInert owner (word_chars owner left);
          name_inert = all_chars-IsInert name (word_chars name right);
          name_given = word_given name right;
        },
      )
]
