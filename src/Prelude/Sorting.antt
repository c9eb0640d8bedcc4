-- ===== src/Prelude/Sorting.antt =====
-- `ORDER BY`: a stable sort by a Boolean order.
use mathlib.Core.Path.{◌≡◌, refl}
use mathlib.Core.Bool.{Bool}
use mathlib.Core.List.{List, [], ◌∷◌, map}
use native.Mathlib.Omega.{arith}
use reading_companion.Prelude.Bools.{if◌then◌else◌}
use reading_companion.Prelude.Lists.{any}

module _ {ℓ} {A : Type ℓ} (le : A → A → Bool) where
  abbrev pub insert_by : A → List A → List A
  insert_by x [] = x ∷ []
  insert_by x (y ∷ ys) = if le x y then x ∷ y ∷ ys else y ∷ insert_by x ys

  abbrev pub sort_by : List A → List A
  sort_by [] = []
  sort_by (x ∷ xs) = insert_by x (sort_by xs)

module _ {ℓ κ} {A : Type ℓ} {B : Type κ} (le : A → A → Bool) (le' : B → B → Bool) (f : A → B)
    (same : (x y : A) → le' (f x) (f y) ≡ le x y) where
  map-insert_by : (x : A) (ys : List A) → insert_by le' (f x) (map f ys) ≡ map f (insert_by le x ys)
  map-insert_by x [] = refl
  map-insert_by x (y ∷ ys) = ground (arith, same x y, map-insert_by x ys)

  pub map-sort_by : (xs : List A) → sort_by le' (map f xs) ≡ map f (sort_by le xs)
  map-sort_by [] = refl
  map-sort_by (x ∷ xs) = rw (map-sort_by xs) (map-insert_by x (sort_by le xs))

module _ {ℓ} {A : Type ℓ} (le : A → A → Bool) (p : A → Bool) where
  any-insert_by : (x : A) (ys : List A) → any p (insert_by le x ys) ≡ any p (x ∷ ys)
  any-insert_by x [] = refl
  any-insert_by x (y ∷ ys) = ground (arith, any-insert_by x ys)

  -- Sorting loses and adds no row.
  pub any-sort_by : (xs : List A) → any p (sort_by le xs) ≡ any p xs
  any-sort_by [] = refl
  any-sort_by (x ∷ xs) = ground (arith, any-sort_by xs, any-insert_by x (sort_by le xs))
