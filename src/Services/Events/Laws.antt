-- ===== src/Services/Events/Laws.antt =====
-- services/events.py: the ring after any number of events.
use mathlib.Core.List.{reverse, reverse-cons, append_assoc, append-nil}
use python_oauth2_server.Prelude.{
  length, take, drop, length-take, ℕ, zero, suc, min, refl, sym, ap, List, [], arith, ◌+◌, ◌≤◌, ◌≡◌,
  ◌∙◌, ◌∷◌, ◌++◌,
}
use python_oauth2_server.Services.Events.{RecentEventsStore, init, push, page}

module _ {ℓ} {E : Type ℓ} where
  unfoldable pub push_all : RecentEventsStore E → List E → RecentEventsStore E
  push_all s [] = s
  push_all s (e ∷ es) = push_all (push s e) es

  take-take : (n m : ℕ) (xs : List E) → n ≤ m → take n (take m xs) ≡ take n xs
  take-take zero m xs h = refl
  take-take (suc n) zero xs h = absurd (omega arith)
  take-take (suc n) (suc m) [] h = refl
  take-take (suc n) (suc m) (x ∷ xs) h = ap (λ t. x ∷ t) (take-take n m xs (omega arith))

  take-append_take :
      (n m : ℕ) (es xs : List E) → n ≤ m → take n (es ++ take m xs) ≡ take n (es ++ xs)
  take-append_take n m [] xs h = take-take n m xs h
  take-append_take zero m (e ∷ es) xs h = refl
  take-append_take (suc n) m (e ∷ es) xs h =
      ap (λ t. e ∷ t) (take-append_take n m es xs (omega arith))

  length-append : (xs ys : List E) → length (xs ++ ys) ≡ length xs + length ys
  length-append [] ys = omega arith
  length-append (x ∷ xs) ys = omega (arith, length-append xs ys)

  length-reverse : (xs : List E) → length (reverse xs) ≡ length xs
  length-reverse [] = refl
  length-reverse (x ∷ xs) =
      ap (λ t. length t) (reverse-cons x xs)
      ∙ omega (arith, length-append (reverse xs) (x ∷ []), length-reverse xs)

  none_held : (n : ℕ) → ◌≡◌ {A = List E} [] (take n [])
  none_held zero = refl
  none_held (suc n) = refl

  push_all-events :
      (s : RecentEventsStore E) (es : List E)
      → s.events ≡ take s.capacity s.events
      → (push_all s es).events ≡ take s.capacity (reverse es ++ s.events)
  unfolding push_all push
  push_all-events s [] full = full
  push_all-events s (e ∷ es) full =
      push_all-events (push s e) es
        (sym (take-take s.capacity s.capacity (e ∷ s.events) (omega arith)))
      ∙ take-append_take s.capacity s.capacity (reverse es) (e ∷ s.events) (omega arith)
      ∙ ap (λ t. take s.capacity t)
          (sym (
            ap (λ t. t ++ s.events) (reverse-cons e es)
            ∙ append_assoc (reverse es) (e ∷ []) s.events))

  -- Whatever is published, a page holds the newest of the last `capacity` events, newest first,
  -- and the count is that of the events held.
  pub page-push_all :
      (capacity limit offset : ℕ) (es : List E)
      → page (push_all (init capacity) es) limit offset
        ≡ (take limit (drop offset (take capacity (reverse es))), min capacity (length es))
  unfolding page init
  page-push_all capacity limit offset es =
      let held : (push_all (init capacity) es).events ≡ take capacity (reverse es) =
        push_all-events (init capacity) es (none_held capacity)
        ∙ ap (λ t. take capacity t) (append-nil (reverse es)) in
      let counted : length (push_all (init capacity) es).events ≡ min capacity (length es) =
        ap (λ t. length t) held
        ∙ length-take capacity (reverse es)
        ∙ ap (λ t. min capacity t) (length-reverse es) in
      λ i. (take limit (drop offset (held i)), counted i)
