-- ===== src/Services/Scope/Laws.antt =====
-- services/auth.py: the order of scopes.
use python_oauth2_server.Prelude.{
  Bool-cases, all, elem, eq_iff, eq_refl, String, refl, inl, inr, true, List, [], arith, ◌==◌, ◌≡◌,
  ◌∷◌,
}
use python_oauth2_server.Services.Scope.{split, scope_is_subset}

elem_of_all :
    (xs ys : List String) (s : String)
    → all (λ x. elem x ys) xs ≡ true
    → elem s xs ≡ true
    → elem s ys ≡ true
elem_of_all [] ys s h m = cc
elem_of_all (x ∷ xs) ys s h m = elim (Bool-cases (s == x)) [
  | inl e ↦ rw ((eq_iff s x).0 e) (ground arith)
  | inr e ↦ elem_of_all xs ys s (ground arith) (rw e at m)
]

all_trans :
    (xs ys zs : List String)
    → all (λ x. elem x ys) xs ≡ true
    → all (λ y. elem y zs) ys ≡ true
    → all (λ x. elem x zs) xs ≡ true
all_trans [] ys zs h k = refl
all_trans (x ∷ xs) ys zs h k = ground (arith, elem_of_all ys zs x k, all_trans xs ys zs)

all_weaken :
    (x : String) (xs ys : List String)
    → all (λ y. elem y xs) ys ≡ true
    → all (λ y. elem y (x ∷ xs)) ys ≡ true
all_weaken x xs [] h = refl
all_weaken x xs (y ∷ ys) h = ground (arith, all_weaken x xs ys)

all_refl : (xs : List String) → all (λ x. elem x xs) xs ≡ true
all_refl [] = refl
all_refl (x ∷ xs) = ground (arith, eq_refl x, all_weaken x xs xs, all_refl xs)

pub scope_is_subset_refl : (s : String) → scope_is_subset s s ≡ true
unfolding scope_is_subset
scope_is_subset_refl s = all_refl (split s)

-- If each word of a scope is in a second one, and each word of that in a third, then each word
-- of the first is in the third.
pub scope_is_subset_trans :
    (a b c : String)
    → scope_is_subset a b ≡ true
    → scope_is_subset b c ≡ true
    → scope_is_subset a c ≡ true
unfolding scope_is_subset
scope_is_subset_trans a b c h k = all_trans (split a) (split b) (split c) h k
