-- ===== src/Ssh/Lines.antt =====
-- `str.splitlines` and `str.strip`, which src/mcp_venus_os/ssh_client.py and server.py read the output of
-- commands with.
use Prim.Native.Char.{Char, code}
use mcp_venus_os.Prelude.{
  ℕ, String, Bool, true, false, ◌&&◌, ◌||◌, ◌≡◌, refl, Option, none, some, List, [], ◌∷◌, leb, ◌==◌,
  if◌then◌else◌,
}

-- The line boundaries of `str.splitlines`.
abbrev is_break : ℕ → Bool
is_break k = (leb 10 k && leb k 13) || (leb 28 k && leb k 30) || k == 133 || k == 8232 || k == 8233

-- `c.isspace()`
abbrev is_space : ℕ → Bool
is_space k =
    (leb 9 k && leb k 13)
    || (leb 28 k && leb k 32)
    || k == 133
    || k == 160
    || k == 5760
    || (leb 8192 k && leb k 8202)
    || k == 8232
    || k == 8233
    || k == 8239
    || k == 8287
    || k == 12288

abbrev starts_newline : String → Bool
starts_newline String.[] = false
starts_newline (String.◌∷◌ c s) = code c == 10

abbrev push : Char → List String → List String
push c [] = String.◌∷◌ c "" ∷ []
push c (line ∷ lines) = String.◌∷◌ c line ∷ lines

-- `s.splitlines()`: a carriage return in front of a newline is one boundary with it.
unfoldable pub splitlines : String → List String
splitlines String.[] = []
splitlines (String.◌∷◌ c s) =
    let lines = splitlines s in
    if code c == 13 && starts_newline s
    then lines
    else if is_break (code c)
    then "" ∷ lines
    else push c lines

lstrip : String → String
lstrip String.[] = ""
lstrip (String.◌∷◌ c s) = let rest = lstrip s in if is_space (code c) then rest else String.◌∷◌ c s

abbrev pub is_empty : String → Bool
is_empty String.[] = true
is_empty (String.◌∷◌ c s) = false

rstrip : String → String
rstrip String.[] = ""
rstrip (String.◌∷◌ c s) =
    let rest = rstrip s in if is_space (code c) && is_empty rest then "" else String.◌∷◌ c rest

-- `s.strip()`
unfoldable pub strip : String → String
unfolding lstrip rstrip
strip s = rstrip (lstrip s)

-- `[ln for ln in s.splitlines() if ln.strip()]`
abbrev pub filled : List String → List String
filled [] = []
filled (line ∷ lines) =
    let rest = filled lines in if is_empty (strip line) then rest else line ∷ rest

-- `[ln.strip() for ln in s.splitlines() if ln.strip()]`
abbrev pub stripped : List String → List String
stripped [] = []
stripped (line ∷ lines) =
    let rest = stripped lines in if is_empty (strip line) then rest else strip line ∷ rest

-- `s or None`
abbrev pub or_none : String → Option String
or_none s = if is_empty s then none else some s

abbrev pub first_of : List String → Option String
first_of [] = none
first_of (line ∷ lines) = some line

lines_lem : filled (splitlines "v3.75\n\n b \r\nc") ≡ "v3.75" ∷ " b " ∷ "c" ∷ []
unfolding splitlines strip
lines_lem = refl

strip_lem : strip " \t a b\n" ≡ "a b"
unfolding strip
strip_lem = refl
