-- ===== src/Prelude/Text.antt =====
-- Text and its comparison; `if not s` of the source on an optional text.
use Prim.Native.String.{String}
use mathlib.Core.Path.{◌≡◌, ap}
use mathlib.Core.Bool.{Bool, true, false, ◌||◌}
use mathlib.Core.Option.{Option, none, some}
use mathlib.Core.List.{List, [], ◌∷◌}
use python_oauth2_server.Prelude.Tests.{if◌then◌else◌}
pub use text.Mathlib.Text.{◌==◌}
pub use text.Mathlib.TextEquality.{eq_iff}
pub use text.Mathlib.TextPositions.{eq_refl}

-- A value that Python takes for true: present and not empty.
abbrev pub truthy : Option String → Option String
truthy none = none
truthy (some s) = if s == "" then none else some s

-- `s in xs`
abbrev pub elem : String → List String → Bool
elem s [] = false
elem s (x ∷ xs) = s == x || elem s xs

-- `a == b` on optional texts.
abbrev pub same_text : Option String → Option String → Bool
same_text none none = true
same_text (some a) (some b) = a == b
same_text _ _ = false

pub same_text-some : (o : Option String) (s : String) → same_text o (some s) ≡ true → o ≡ some s
same_text-some none s h = cc
same_text-some (some t) s h = ap some ((eq_iff t s).0 h)

kept : (b : Bool) (t s : String) → (if b then none else some t) ≡ some s → some t ≡ some s
kept true t s h = cc
kept false t s h = h

pub truthy-some : (o : Option String) (s : String) → truthy o ≡ some s → o ≡ some s
truthy-some none s h = cc
truthy-some (some t) s h = kept (t == "") t s h
