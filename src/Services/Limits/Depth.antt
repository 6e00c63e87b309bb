-- ===== src/Services/Limits/Depth.antt =====
-- services/limits.py: the depth of a value and the walk that measures it.
use python_oauth2_server.Prelude.{
  leb, eqb, leb→le, ℕ, zero, suc, max, String, refl, sym, Bool, true, false, some, [], arith,
  Result, ok, err, if◌then◌else◌, ◌+◌, ◌≤◌, ◌<◌, ◌≡◌, ◌∙◌, ◌&&◌, ◌||◌, ◌∷◌,
}
use python_oauth2_server.Json.{
  Value, Items, Fields, null, bool, num, str, arr, obj, nil, cons, end, field,
}
use python_oauth2_server.Services.Limits.{
  too_deep, Stack, extend_items, extend_values, walk, nodes, nodes_items, nodes_fields, check_depth,
}

-- The containers on the deepest way down.
unfoldable mutual
  pub depth_fields : Fields → ℕ
  depth_fields end = 0
  depth_fields (field k v fs) = max (depth v) (depth_fields fs)

  pub depth_items : Items → ℕ
  depth_items nil = 0
  depth_items (cons v xs) = max (depth v) (depth_items xs)

  pub depth : Value → ℕ
  depth null = 0
  depth (bool b) = 0
  depth (num n) = 0
  depth (str s) = 0
  depth (obj fs) = suc (depth_fields fs)
  depth (arr xs) = suc (depth_items xs)

nodes_stack : Stack → ℕ
nodes_stack [] = 0
nodes_stack ((v, d) ∷ st) = nodes v + nodes_stack st

-- No value on the stack reaches below the limit; a value whose depth is 0 always fits.
fits : ℕ → Stack → Bool
fits m [] = true
fits m ((v, d) ∷ st) = (eqb (depth v) 0 || leb (depth v + d) (m + 1)) && fits m st

-- The children of a container, pushed or not, fit if the deepest does.
fits_items :
    (m d : ℕ) (xs : Items) (st : Stack)
    → fits m (extend_items xs d st)
      ≡ ((eqb (depth_items xs) 0 || leb (depth_items xs + d) (m + 1)) && fits m st)
unfolding fits extend_items depth
fits_items m d nil st = ground arith
fits_items m d (cons v xs) st = fits_items m d xs ((v, d) ∷ st) ∙ ground arith

fits_values :
    (m d : ℕ) (fs : Fields) (st : Stack)
    → fits m (extend_values fs d st)
      ≡ ((eqb (depth_fields fs) 0 || leb (depth_fields fs + d) (m + 1)) && fits m st)
unfolding fits extend_values depth
fits_values m d end st = ground arith
fits_values m d (field k v fs) st = fits_values m d fs ((v, d) ∷ st) ∙ ground arith

nodes-extend_items :
    (d : ℕ) (xs : Items) (st : Stack)
    → nodes_stack (extend_items xs d st) ≡ nodes_items xs + nodes_stack st
unfolding nodes_stack extend_items nodes
nodes-extend_items d nil st = omega arith
nodes-extend_items d (cons v xs) st = nodes-extend_items d xs ((v, d) ∷ st) ∙ omega arith

nodes-extend_values :
    (d : ℕ) (fs : Fields) (st : Stack)
    → nodes_stack (extend_values fs d st) ≡ nodes_fields fs + nodes_stack st
unfolding nodes_stack extend_values nodes
nodes-extend_values d end st = omega arith
nodes-extend_values d (field k v fs) st = nodes-extend_values d fs ((v, d) ∷ st) ∙ omega arith

-- With fuel for each node on the stack and one more, the walk ends with the verdict of the depth.
walk-eq-fits : (f m : ℕ) (st : Stack) → nodes_stack st < f → walk f m st ≡ some (fits m st)
unfolding walk fits nodes_stack nodes depth
walk-eq-fits zero m st h = absurd (omega arith)
walk-eq-fits (suc f) m [] h = refl
walk-eq-fits (suc f) m ((arr xs, d) ∷ st) h =
    let below =
      walk-eq-fits f m (extend_items xs (d + 1) st)
        (omega (arith, nodes-extend_items (d + 1) xs st)) in
    ground (arith, below, fits_items m (d + 1) xs st)
walk-eq-fits (suc f) m ((obj fs, d) ∷ st) h =
    let below =
      walk-eq-fits f m (extend_values fs (d + 1) st)
        (omega (arith, nodes-extend_values (d + 1) fs st)) in
    ground (arith, below, fits_values m (d + 1) fs st)
walk-eq-fits (suc f) m ((null, d) ∷ st) h = walk-eq-fits f m st (omega arith)
walk-eq-fits (suc f) m ((bool b, d) ∷ st) h = walk-eq-fits f m st (omega arith)
walk-eq-fits (suc f) m ((num n, d) ∷ st) h = walk-eq-fits f m st (omega arith)
walk-eq-fits (suc f) m ((str s, d) ∷ st) h = walk-eq-fits f m st (omega arith)

-- The iterative check passes exactly the values that nest no deeper than the limit, where the
-- depth of a value is that of its recursive definition. The fuel of the loop is enough.
pub check_depth_exact :
    (v : Value) (name : String) (m : ℕ)
    → check_depth v name m ≡ (if leb (depth v) m then ok tt else err (too_deep name m))
unfolding check_depth
check_depth_exact v name m =
    let whole : walk (suc (nodes v)) m ((v, 1) ∷ []) ≡ some (fits m ((v, 1) ∷ [])) =
      walk-eq-fits (suc (nodes v)) m ((v, 1) ∷ []) (unfold nodes_stack in omega arith) in
    rw whole (unfold fits in ground arith)

if_ok :
    {A E : Type 0} (b : Bool) (e : E) (a : A)
    → Path (Result E A) (if b then ok a else err e) (ok a)
    → b ≡ true
if_ok true e a h = refl
if_ok false e a h = cc

pub check_depth_ok :
    (v : Value) (name : String) (m : ℕ) → check_depth v name m ≡ ok tt → depth v ≤ m
check_depth_ok v name m h =
    leb→le (depth v) m (if_ok (leb (depth v) m) _ tt (sym (check_depth_exact v name m) ∙ h))
