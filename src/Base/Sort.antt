-- ===== src/Base/Sort.antt =====
-- Python's `sorted(xs, key=k)`: a stable sort by a Boolean order of the keys.
use mathlib.Core.List.{Perm}
use mathlib.Core.List.Perm
use mathlib.Core.Path.{◌≡◌, refl, ap, ◌∙◌}
use mathlib.Core.Logic.{inl, inr}
use mathlib.Core.Bool.{Bool, true, false}
use mathlib.Core.List.{List, [], ◌∷◌}
use live_translation.Base.Tests.{if◌then◌else◌, Bool-cases}
use live_translation.Base.Lists.{All}

module _ {ℓ} {A : Type ℓ} (le : A → A → Bool) where
  -- An item goes before the first one that its key does not exceed.
  unfoldable pub insert_sorted : A → List A → List A
  insert_sorted x [] = x ∷ []
  insert_sorted x (y ∷ ys) = if le x y then x ∷ y ∷ ys else y ∷ insert_sorted x ys

  unfoldable pub sorted : List A → List A
  unfolding insert_sorted
  sorted [] = []
  sorted (x ∷ xs) = insert_sorted x (sorted xs)

  abbrev pub IsSorted : List A → Type 0
  IsSorted [] = Unit
  IsSorted (x ∷ xs) = All (λ y. le x y ≡ true) xs × IsSorted xs

  insert_sorted-perm : (x : A) (xs : List A) → Perm (insert_sorted x xs) (x ∷ xs)
  unfolding insert_sorted
  insert_sorted-perm x [] = Perm.refl _
  insert_sorted-perm x (y ∷ ys) = elim (Bool-cases (le x y)) [
    | inl e ↦ rw e (Perm.refl _)
    | inr e ↦ rw e (Perm.trans (Perm.cons y (insert_sorted-perm x ys)) (Perm.swap x y ys))
  ]

  -- Sorting only moves the items.
  pub sorted-perm : (xs : List A) → Perm (sorted xs) xs
  unfolding sorted
  sorted-perm [] = Perm.refl _
  sorted-perm (x ∷ xs) =
      Perm.trans (insert_sorted-perm x (sorted xs)) (Perm.cons x (sorted-perm xs))

  -- A list that is sorted stays as it is.
  pub sorted-of_IsSorted : (xs : List A) → IsSorted xs → sorted xs ≡ xs
  unfolding sorted insert_sorted
  sorted-of_IsSorted [] h = refl
  sorted-of_IsSorted (x ∷ []) h = refl
  sorted-of_IsSorted (x ∷ y ∷ ys) h =
      ap (insert_sorted x) (sorted-of_IsSorted (y ∷ ys) h.1) ∙ rw h.0.0

module _ {ℓ} {A : Type ℓ} (le : A → A → Bool) (total : (x y : A) → le x y ≡ false → le y x ≡ true)
    (trans : (x y z : A) → le x y ≡ true → le y z ≡ true → le x z ≡ true) where
  All-trans :
      (x y : A) (ys : List A)
      → le x y ≡ true
      → All (λ z. le y z ≡ true) ys
      → All (λ z. le x z ≡ true) ys
  All-trans x y [] h k = tt
  All-trans x y (z ∷ ys) h k = (trans x y z h k.0, All-trans x y ys h k.1)

  All-insert_sorted :
      (x y : A) (ys : List A)
      → le y x ≡ true
      → All (λ z. le y z ≡ true) ys
      → All (λ z. le y z ≡ true) (insert_sorted le x ys)
  unfolding insert_sorted
  All-insert_sorted x y [] h k = (h, tt)
  All-insert_sorted x y (z ∷ ys) h k = elim (Bool-cases (le x z)) [
    | inl e ↦ rw e (h, k)
    | inr e ↦ rw e (k.0, All-insert_sorted x y ys h k.1)
  ]

  insert_sorted-IsSorted :
      (x : A) (xs : List A) → IsSorted le xs → IsSorted le (insert_sorted le x xs)
  unfolding insert_sorted
  insert_sorted-IsSorted x [] h = (tt, tt)
  insert_sorted-IsSorted x (y ∷ ys) h = elim (Bool-cases (le x y)) [
    | inl e ↦ rw e ((e, All-trans x y ys e h.0), h)
    | inr e ↦ rw e (All-insert_sorted x y ys (total x y e) h.0, insert_sorted-IsSorted x ys h.1)
  ]

  -- The result is in order.
  pub sorted-IsSorted : (xs : List A) → IsSorted le (sorted le xs)
  unfolding sorted
  sorted-IsSorted [] = tt
  sorted-IsSorted (x ∷ xs) = insert_sorted-IsSorted x (sorted le xs) (sorted-IsSorted xs)
