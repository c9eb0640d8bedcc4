-- ===== src/Prelude/Lists.antt =====
-- Lists over the native numbers: lengths, positions, Boolean filters and sums.
use Prim.Native.Nat.{ℕ, zero, suc, ◌+◌, ◌≤◌}
use mathlib.Core.Path.{◌≡◌, refl}
use mathlib.Core.Bool.{Bool, true, false, not, ◌&&◌, ◌||◌}
use mathlib.Core.Option.{Option, none, some}
use mathlib.Core.List.{List, [], ◌∷◌, ◌++◌}
use native.Mathlib.Omega.{arith}
use reading_companion.Prelude.Bools.{if◌then◌else◌}

module _ {ℓ} {A : Type ℓ} where
  abbrev pub length : List A → ℕ
  length [] = 0
  length (x ∷ xs) = suc (length xs)

  abbrev pub get_elem? : List A → ℕ → Option A
  get_elem? [] i = none
  get_elem? (x ∷ xs) zero = some x
  get_elem? (x ∷ xs) (suc i) = get_elem? xs i

  pub length-append : (xs ys : List A) → length (xs ++ ys) ≡ length xs + length ys
  length-append [] ys = omega arith
  length-append (x ∷ xs) ys = omega (arith, length-append xs ys)

  -- The rows that pass a test, in their order.
  abbrev pub keep : (A → Bool) → List A → List A
  keep p [] = []
  keep p (x ∷ xs) = if p x then x ∷ keep p xs else keep p xs

  abbrev pub any : (A → Bool) → List A → Bool
  any p [] = false
  any p (x ∷ xs) = p x || any p xs

  abbrev pub all : (A → Bool) → List A → Bool
  all p [] = true
  all p (x ∷ xs) = p x && all p xs

  abbrev pub find : (A → Bool) → List A → Option A
  find p [] = none
  find p (x ∷ xs) = if p x then some x else find p xs

  abbrev pub total : (A → ℕ) → List A → ℕ
  total f [] = 0
  total f (x ∷ xs) = f x + total f xs

  abbrev pub All {κ} : (A → Type κ) → List A → Type κ
  All P [] = Unit
  All P (x ∷ xs) = P x × All P xs

  pub keep-append : (p : A → Bool) (xs ys : List A) → keep p (xs ++ ys) ≡ keep p xs ++ keep p ys
  keep-append p [] ys = refl
  keep-append p (x ∷ xs) ys = ground (arith, keep-append p xs ys)

  pub length-keep : (p : A → Bool) (xs : List A) → length (keep p xs) ≤ length xs
  length-keep p [] = omega arith
  length-keep p (x ∷ xs) = ground (arith, length-keep p xs)

  pub total-append : (f : A → ℕ) (xs ys : List A) → total f (xs ++ ys) ≡ total f xs + total f ys
  total-append f [] ys = omega arith
  total-append f (x ∷ xs) ys = omega (arith, total-append f xs ys)

  pub any-append : (p : A → Bool) (xs ys : List A) → any p (xs ++ ys) ≡ (any p xs || any p ys)
  any-append p [] ys = refl
  any-append p (x ∷ xs) ys = ground (arith, any-append p xs ys)

  -- The sum over the rows that pass a test, after one more row, and after another table's DELETE.
  pub total-keep-append :
      (p : A → Bool) (f : A → ℕ) (xs : List A) (x : A)
      → total f (keep p (xs ++ (x ∷ []))) ≡ total f (keep p xs) + (if p x then f x else 0)
  total-keep-append p f [] x = ground arith
  total-keep-append p f (y ∷ ys) x = ground (arith, total-keep-append p f ys x)

  pub total-keep-keep :
      (p q : A → Bool) (f : A → ℕ) (xs : List A)
      → total f (keep p (keep q xs)) ≤ total f (keep p xs)
  total-keep-keep p q f [] = omega arith
  total-keep-keep p q f (x ∷ xs) = ground (arith, total-keep-keep p q f xs)

  pub find-holds : (p : A → Bool) (xs : List A) (x : A) → find p xs ≡ some x → p x ≡ true
  find-holds p [] x h = cc
  find-holds p (y ∷ ys) x h = ground (arith, find-holds p ys x)

  -- After a DELETE of the rows that pass a test, no row passes it.
  pub any-rejected : (p : A → Bool) (xs : List A) → any p (keep (λ x. not (p x)) xs) ≡ false
  any-rejected p [] = refl
  any-rejected p (x ∷ xs) = ground (arith, any-rejected p xs)

  pub find-last :
      (p : A → Bool) (xs : List A) (y : A)
      → any p xs ≡ false
      → p y ≡ true
      → find p (xs ++ (y ∷ [])) ≡ some y
  find-last p [] y h t = ground arith
  find-last p (x ∷ xs) y h t = ground (arith, find-last p xs y)

  pub length-rejected :
      (p : A → Bool) (xs : List A) (y : A)
      → find p xs ≡ some y
      → suc (length (keep (λ x. not (p x)) xs)) ≤ length xs
  length-rejected p [] y h = cc
  length-rejected p (x ∷ xs) y h =
      ground (arith, length-rejected p xs y, length-keep (λ z. not (p z)) xs)
