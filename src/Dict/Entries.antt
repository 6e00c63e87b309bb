-- ===== src/Dict/Entries.antt =====
-- The entries of a dict, and the laws of the operations on them.
use python_oauth2_server.Prelude.{
  filter_option, length, eq_iff, String, refl, Bool, not, Option, none, some, List, [], arith,
  if◌then◌else◌, ◌==◌, ◌+◌, ◌≤◌, ◌≡◌, ◌∷◌,
}

abbrev pub Pairs {ℓ} : Type ℓ → Type ℓ
Pairs V = List (String × V)

module _ {ℓ} {V : Type ℓ} where
  unfoldable pub lookup : String → Pairs V → Option V
  lookup key [] = none
  lookup key ((name, value) ∷ more) = if name == key then some value else lookup key more

  -- A new key goes last, a known one keeps its place.
  unfoldable pub insert : String → V → Pairs V → Pairs V
  insert key value [] = (key, value) ∷ []
  insert key value ((name, held) ∷ more) =
      if name == key then (name, value) ∷ more else (name, held) ∷ insert key value more

  unfoldable pub without : String → Pairs V → Pairs V
  without key [] = []
  without key ((name, value) ∷ more) =
      let rest = without key more in if name == key then rest else (name, value) ∷ rest

  -- Deletes the entries whose value passes the test.
  unfoldable pub drop_if : (V → Bool) → Pairs V → Pairs V
  drop_if p [] = []
  drop_if p ((name, value) ∷ more) =
      let rest = drop_if p more in if p value then rest else (name, value) ∷ rest

  abbrev pub Distinct : Pairs V → Type ℓ
  Distinct [] = Unit
  Distinct ((key, value) ∷ more) = (lookup key more ≡ none) × Distinct more

  pub lookup-insert :
      (key name : String) (value : V) (more : Pairs V)
      → lookup name (insert key value more) ≡ (if key == name then some value else lookup name more)
  unfolding lookup insert
  lookup-insert key name value [] = refl
  lookup-insert key name value ((first, held) ∷ more) = ground (
    arith,
    eq_iff key name,
    eq_iff first key,
    eq_iff first name,
    lookup-insert key name value more,
  )

  pub lookup-without :
      (key name : String) (more : Pairs V)
      → lookup name (without key more) ≡ (if key == name then none else lookup name more)
  unfolding lookup without
  lookup-without key name [] = ground arith
  lookup-without key name ((first, held) ∷ more) =
      ground
        (arith, lookup-without key name more, eq_iff first key, eq_iff first name, eq_iff key name)

  lookup-drop_if_absent :
      (p : V → Bool) (key : String) (more : Pairs V)
      → lookup key more ≡ none
      → lookup key (drop_if p more) ≡ none
  unfolding lookup drop_if
  lookup-drop_if_absent p key [] h = refl
  lookup-drop_if_absent p key ((name, value) ∷ more) h =
      ground (arith, lookup-drop_if_absent p key more)

  pub lookup-drop_if :
      (p : V → Bool) (key : String) (more : Pairs V)
      → Distinct more
      → lookup key (drop_if p more) ≡ filter_option (λ value. not (p value)) (lookup key more)
  unfolding lookup drop_if
  lookup-drop_if p key [] apart = refl
  lookup-drop_if p key ((name, value) ∷ more) apart = ground (
    arith,
    eq_iff name key,
    lookup-drop_if p key more apart.1,
    lookup-drop_if_absent p name more apart.0,
  )

  pub insert-Distinct :
      (key : String) (value : V) (more : Pairs V) → Distinct more → Distinct (insert key value more)
  unfolding lookup insert
  insert-Distinct key value [] apart = (refl, tt)
  insert-Distinct key value ((name, held) ∷ more) apart = ground (
    arith,
    eq_iff key name,
    eq_iff name key,
    lookup-insert key name value more,
    insert-Distinct key value more apart.1,
  )

  pub without-Distinct :
      (key : String) (more : Pairs V) → Distinct more → Distinct (without key more)
  unfolding without
  without-Distinct key [] apart = tt
  without-Distinct key ((name, held) ∷ more) apart =
      ground (arith, lookup-without key name more, without-Distinct key more apart.1)

  pub drop_if-Distinct : (p : V → Bool) (more : Pairs V) → Distinct more → Distinct (drop_if p more)
  unfolding drop_if
  drop_if-Distinct p [] apart = tt
  drop_if-Distinct p ((name, held) ∷ more) apart =
      ground (arith, lookup-drop_if_absent p name more apart.0, drop_if-Distinct p more apart.1)

  pub length-insert :
      (key : String) (value : V) (more : Pairs V)
      → length (insert key value more)
        ≡ length more + (elim (lookup key more) [ none ↦ 1 | some _ ↦ 0 ])
  unfolding lookup insert
  length-insert key value [] = refl
  length-insert key value ((name, held) ∷ more) = ground (arith, length-insert key value more)

  pub length-drop_if-le : (p : V → Bool) (more : Pairs V) → length (drop_if p more) ≤ length more
  unfolding drop_if
  length-drop_if-le p [] = omega arith
  length-drop_if-le p ((name, held) ∷ more) = ground (arith, length-drop_if-le p more)

  pub length-without-le : (key : String) (more : Pairs V) → length (without key more) ≤ length more
  unfolding without
  length-without-le key [] = omega arith
  length-without-le key ((name, held) ∷ more) = ground (arith, length-without-le key more)
