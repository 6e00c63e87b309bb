-- ===== src/Services/Scope.antt =====
-- `scope_is_subset` of services/auth.py, over Python's `str.split()`.
pub mod Laws
use Prim.Native.Char.{Char, code}
use Prim.Native.String
use Prim.Native.String.{◌++◌ as append}
use python_oauth2_server.Prelude.{
  leb, eqb, all, elem, String, Bool, List, [], if◌then◌else◌, ◌==◌, ◌&&◌, ◌||◌, ◌∷◌,
}

-- The code points that `str.split()` splits at.
unfoldable pub is_space : Char → Bool
is_space ch =
    let c = code ch in
    (leb 9 c && leb c 13)
    || (leb 28 c && leb c 32)
    || eqb c 0x85
    || eqb c 0xa0
    || eqb c 0x1680
    || (leb 0x2000 c && leb c 0x200a)
    || eqb c 0x2028
    || eqb c 0x2029
    || eqb c 0x202f
    || eqb c 0x205f
    || eqb c 0x3000

-- Adds a word, unless it is empty.
unfoldable pub close_word : String → List String → List String
close_word word rest = if word == "" then rest else word ∷ rest

-- The words of a text, where `word` is the part of one that was read before.
unfoldable pub split_from : String → String → List String
unfolding close_word
split_from word String.[] = close_word word []
split_from word (String.◌∷◌ c s) =
    let closed = close_word word (split_from "" s) in
    let longer = split_from (append word (String.◌∷◌ c String.[])) s in
    if is_space c then closed else longer

-- `s.split()`
unfoldable pub split : String → List String
unfolding split_from is_space
split s = split_from "" s

-- `set(requested.split()).issubset(set(allowed.split()))`
unfoldable pub scope_is_subset : String → String → Bool
unfolding split
scope_is_subset requested allowed = all (λ s. elem s (split allowed)) (split requested)
