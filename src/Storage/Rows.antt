-- ===== src/Storage/Rows.antt =====
-- storage/sql.py: the first row that is selected, after a statement.
use python_oauth2_server.Prelude.{
  Bool-cases, refl, ap, inl, inr, Bool, true, false, none, some, List, [], ◌≡◌, ◌∷◌, ◌++◌,
}
use python_oauth2_server.Storage.{select, update}

module _ {ℓ} {A : Type ℓ} (p : A → Bool) where
  -- A selected row that is changed without leaving the selection is selected with the change.
  pub select-update :
      (f : A → A)
      → ((x : A) → p (f x) ≡ p x)
      → (xs : List A) (x : A) → select p xs ≡ some x
      → select p (update p f xs) ≡ some (f x)
  unfolding select update
  select-update f same [] x h = cc
  select-update f same (y ∷ xs) x h = elim (Bool-cases (p y)) [
    | inl e ↦
        rw e
          (rw (same y) (rw e (ap (λ o. elim o [ none ↦ none | some z ↦ some (f z) ]) (rw e at h))))
    | inr e ↦ rw e (rw e (select-update f same xs x (rw e at h)))
  ]

  pub select-append :
      (xs : List A) (x : A) → select p xs ≡ none → p x ≡ true → select p (xs ++ x ∷ []) ≡ some x
  unfolding select
  select-append [] x h e = rw e refl
  select-append (y ∷ xs) x h e = elim (Bool-cases (p y)) [
    | inl d ↦ absurd (cc (rw d at h))
    | inr d ↦ rw d (select-append xs x (rw d at h) e)
  ]

  -- The rows that another change touches, where it does not touch the selection.
  pub select-update_other :
      (q : A → Bool) (f : A → A)
      → ((x : A) → q x ≡ true → p x ≡ false)
      → ((x : A) → q x ≡ true → p (f x) ≡ false)
      → (xs : List A) → select p (update q f xs) ≡ select p xs
  unfolding select update
  select-update_other q f before after [] = refl
  select-update_other q f before after (y ∷ xs) =
      let ih = select-update_other q f before after xs in
      elim (Bool-cases (q y)) [
        | inl d ↦ rw d (rw (before y d) (rw (after y d) ih))
        | inr d ↦ rw d (rw ih refl)
      ]

  pub select-append_other :
      (xs : List A) (x : A) → p x ≡ false → select p (xs ++ x ∷ []) ≡ select p xs
  unfolding select
  select-append_other [] x e = rw e refl
  select-append_other (y ∷ xs) x e = rw (select-append_other xs x e) refl
