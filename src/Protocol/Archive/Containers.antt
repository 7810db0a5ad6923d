-- ===== src/Protocol/Archive/Containers.antt =====
-- `v.insert(v.end(), value)` on the standard containers that protocol/archive.hpp names. A
-- container is the list of its elements in iteration order; the ordered ones take their
-- comparison.
use tiny_rpc.Prelude.{
  ◌≡◌, refl, sym, ap, ◌∙◌, Bool, true, false, List, [], ◌∷◌, ◌++◌, if◌then◌else◌, All, All-append,
  append_assoc, append-nil,
}
use mathlib.Core.List.{foldl}

-- vector, deque, list.
unfoldable pub push_end {ℓ} : {A : Type ℓ} → List A → A → List A
push_end xs v = xs ++ (v ∷ [])

module _ {ℓ} {A : Type ℓ} (less : A → A → Bool) where
  -- set: no second element equivalent to one that is there. A map compares its keys.
  unfoldable pub insert_unique : List A → A → List A
  insert_unique [] v = v ∷ []
  insert_unique (x ∷ xs) v =
      if less v x then v ∷ x ∷ xs else if less x v then x ∷ insert_unique xs v else x ∷ xs

  -- multiset and multimap: behind the elements that are equivalent.
  unfoldable pub insert_equal : List A → A → List A
  insert_equal [] v = v ∷ []
  insert_equal (x ∷ xs) v = if less v x then v ∷ x ∷ xs else x ∷ insert_equal xs v

  -- Every element comes before each later one.
  abbrev pub IsAscending : List A → Type 0
  IsAscending [] = Unit {0}
  IsAscending (x ∷ xs) = All (λ y. (less x y ≡ true) × (less y x ≡ false)) xs × IsAscending xs

  abbrev pub IsNondescending : List A → Type 0
  IsNondescending [] = Unit {0}
  IsNondescending (x ∷ xs) = All (λ y. less y x ≡ false) xs × IsNondescending xs

pub foldl-push_end {ℓ} : {A : Type ℓ} (xs old : List A) → foldl push_end old xs ≡ old ++ xs
unfolding push_end
foldl-push_end [] old = sym (append-nil old)
foldl-push_end (x ∷ xs) old = foldl-push_end xs (push_end old x) ∙ append_assoc old (x ∷ []) xs

module _ {ℓ} {A : Type ℓ} (less : A → A → Bool) where
  -- An element that comes after all the others goes to the end.
  insert_unique_last :
      (acc : List A) (v : A)
      → All (λ x. (less x v ≡ true) × (less v x ≡ false)) acc
      → insert_unique less acc v ≡ acc ++ (v ∷ [])
  unfolding insert_unique
  insert_unique_last [] v h = refl
  insert_unique_last (x ∷ xs) v h =
      rw (h.0.1, h.0.0) (ap (λ t. x ∷ t) (insert_unique_last xs v h.1))

  insert_equal_last :
      (acc : List A) (v : A)
      → All (λ x. less v x ≡ false) acc
      → insert_equal less acc v ≡ acc ++ (v ∷ [])
  unfolding insert_equal
  insert_equal_last [] v h = refl
  insert_equal_last (x ∷ xs) v h = rw h.0 (ap (λ t. x ∷ t) (insert_equal_last xs v h.1))

  -- What is inserted in ascending order stays in that order.
  fill_unique :
      (xs acc : List A)
      → IsAscending less xs
      → All (λ y. All (λ x. (less x y ≡ true) × (less y x ≡ false)) acc) xs
      → foldl (insert_unique less) acc xs ≡ acc ++ xs
  fill_unique [] acc h g = sym (append-nil acc)
  fill_unique (x ∷ xs) acc h g =
      rw (insert_unique_last acc x g.0)
        (fill_unique xs (acc ++ (x ∷ [])) h.1 (widen xs h.0 g.1) ∙ append_assoc acc (x ∷ []) xs)
    where
      widen :
          (ys : List A)
          → All (λ y. (less x y ≡ true) × (less y x ≡ false)) ys
          → All (λ y. All (λ w. (less w y ≡ true) × (less y w ≡ false)) acc) ys
          → All (λ y. All (λ w. (less w y ≡ true) × (less y w ≡ false)) (acc ++ (x ∷ []))) ys
      widen [] p q = tt
      widen (y ∷ ys) p q = (All-append _ acc (x ∷ []) q.0 (p.0, tt), widen ys p.1 q.1)

  fill_equal :
      (xs acc : List A)
      → IsNondescending less xs
      → All (λ y. All (λ x. less y x ≡ false) acc) xs
      → foldl (insert_equal less) acc xs ≡ acc ++ xs
  fill_equal [] acc h g = sym (append-nil acc)
  fill_equal (x ∷ xs) acc h g =
      rw (insert_equal_last acc x g.0)
        (fill_equal xs (acc ++ (x ∷ [])) h.1 (widen xs h.0 g.1) ∙ append_assoc acc (x ∷ []) xs)
    where
      widen :
          (ys : List A)
          → All (λ y. less y x ≡ false) ys
          → All (λ y. All (λ w. less y w ≡ false) acc) ys
          → All (λ y. All (λ w. less y w ≡ false) (acc ++ (x ∷ []))) ys
      widen [] p q = tt
      widen (y ∷ ys) p q = (All-append _ acc (x ∷ []) q.0 (p.0, tt), widen ys p.1 q.1)

  below_nothing {κ} : (P : A → A → Type κ) (xs : List A) → All (λ y. All (λ x. P x y) []) xs
  below_nothing P [] = tt
  below_nothing P (x ∷ xs) = (tt, below_nothing P xs)

  pub foldl-insert_unique :
      (xs : List A) → IsAscending less xs → foldl (insert_unique less) [] xs ≡ xs
  foldl-insert_unique xs h =
      fill_unique xs [] h (below_nothing (λ x y. (less x y ≡ true) × (less y x ≡ false)) xs)

  pub foldl-insert_equal :
      (xs : List A) → IsNondescending less xs → foldl (insert_equal less) [] xs ≡ xs
  foldl-insert_equal xs h = fill_equal xs [] h (below_nothing (λ x y. less y x ≡ false) xs)
