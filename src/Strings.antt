-- ===== src/Strings.antt =====
-- Python's methods of `str` on the characters of a text.
use Prim.Native.Char.{Char, code}
use Prim.Native.String.{count}
use python_oauth2_server.Prelude.{
  leb, eqb, ℕ, zero, suc, String, Bool, true, false, Option, none, some, List, [], if◌then◌else◌,
  ◌==◌, ◌+◌, ◌&&◌, ◌∷◌,
}
use python_oauth2_server.Services.Scope.{is_space}

abbrev pub first_is : ℕ → Char → Bool
first_is n c = eqb (code c) n

unfoldable pub lstrip : (Char → Bool) → String → String
lstrip p String.[] = String.[]
lstrip p (String.◌∷◌ c s) = let rest = lstrip p s in if p c then rest else String.◌∷◌ c s

unfoldable pub rstrip : (Char → Bool) → String → String
rstrip p String.[] = String.[]
rstrip p (String.◌∷◌ c s) =
    let rest = rstrip p s in if rest == "" && p c then String.[] else String.◌∷◌ c rest

-- `s.strip()`
unfoldable pub strip : String → String
unfolding lstrip rstrip is_space
strip s = rstrip is_space (lstrip is_space s)

-- `s.rstrip("/")`
unfoldable pub rstrip_slash : String → String
unfolding rstrip
rstrip_slash s = rstrip (first_is b'/') s

abbrev pub longer : Char → List String → List String
longer c [] = String.◌∷◌ c String.[] ∷ []
longer c (w ∷ ws) = String.◌∷◌ c w ∷ ws

-- `s.split(c)`, for one character.
unfoldable pub split_on : ℕ → String → List String
split_on n String.[] = "" ∷ []
split_on n (String.◌∷◌ c s) =
    let rest = split_on n s in if first_is n c then "" ∷ rest else longer c rest

-- The texts before and after the first such character.
unfoldable pub cut : ℕ → String → Option (String × String)
cut n String.[] = none
cut n (String.◌∷◌ c s) =
    let rest = cut n s in
    if first_is n c
    then some ("", s)
    else elim rest [ none ↦ none | some parts ↦ some (String.◌∷◌ c parts.0, parts.1) ]

unfoldable pub drop_chars : ℕ → String → String
drop_chars zero s = s
drop_chars (suc n) String.[] = String.[]
drop_chars (suc n) (String.◌∷◌ c s) = drop_chars n s

-- `s.startswith(prefix)`
unfoldable pub starts_with : String → String → Bool
starts_with s String.[] = true
starts_with String.[] (String.◌∷◌ p prefix) = false
starts_with (String.◌∷◌ c s) (String.◌∷◌ p prefix) = first_is (code p) c && starts_with s prefix

-- The lower case of an ASCII letter.
abbrev pub lower_code : ℕ → ℕ
lower_code n = if leb b'A' n && leb n b'Z' then n + 32 else n

-- `s.lower().startswith(prefix)` for a prefix of lower case ASCII characters other than `k`: no
-- character but those of ASCII has one of them for its lower case.
unfoldable pub starts_with_lower : String → String → Bool
starts_with_lower s String.[] = true
starts_with_lower String.[] (String.◌∷◌ p prefix) = false
starts_with_lower (String.◌∷◌ c s) (String.◌∷◌ p prefix) =
    eqb (lower_code (code c)) (code p) && starts_with_lower s prefix

-- `s.lower() == lower`, for such a text.
abbrev pub same_lower : String → String → Bool
same_lower s lower = eqb (count s) (count lower) && starts_with_lower s lower

unfoldable pub all_chars : (Char → Bool) → String → Bool
all_chars p String.[] = true
all_chars p (String.◌∷◌ c s) = p c && all_chars p s
