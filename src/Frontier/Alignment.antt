-- ===== src/Frontier/Alignment.antt =====
-- `assert_aligned`: which lists of ordinals pass.
use reading_companion.Prelude.{
  ℕ, zero, suc, ◌+◌, ◌≤◌, ◌<◌, ◌≡◌, ◌↔◌, refl, ap, true, List, [], ◌∷◌, arith, length, ok, ◌==◌,
  leb, if◌then◌else◌, ◌&&◌, inl, inr, Bool-cases, leb→le,
}
use reading_companion.Frontier.{Range, insert, sorted, range, same_list, ordinals, assert_aligned}

abbrev pub count : ℕ → List ℕ → ℕ
count z [] = 0
count z (x ∷ xs) = (if x == z then 1 else 0) + count z xs

abbrev Ordered : ℕ → List ℕ → Type 0
Ordered low [] = Unit
Ordered low (x ∷ xs) = (low ≤ x) × Ordered x xs

-- The list holds each of 1..n once, and nothing else.
abbrev pub IsEnumeration : ℕ → List ℕ → Type 0
IsEnumeration n rs = (z : ℕ) → count z rs ≡ (if leb 1 z && leb z n then 1 else 0)

pub same_list-eq : (xs ys : List ℕ) → same_list xs ys ≡ true → xs ≡ ys
unfolding same_list
same_list-eq [] [] h = refl
same_list-eq [] (y ∷ ys) h = cc
same_list-eq (x ∷ xs) [] h = cc
same_list-eq (x ∷ xs) (y ∷ ys) h = ground (arith, same_list-eq xs ys)

same_list_refl : (xs : List ℕ) → same_list xs xs ≡ true
unfolding same_list
same_list_refl [] = refl
same_list_refl (x ∷ xs) = ground (arith, same_list_refl xs)

count-insert :
    (z x : ℕ) (xs : List ℕ) → count z (insert x xs) ≡ (if x == z then 1 else 0) + count z xs
unfolding insert
count-insert z x [] = refl
count-insert z x (y ∷ ys) = ground (arith, count-insert z x ys)

count-sorted : (z : ℕ) (xs : List ℕ) → count z (sorted xs) ≡ count z xs
unfolding sorted
count-sorted z [] = refl
count-sorted z (x ∷ xs) = rw count-insert (omega (arith, count-sorted z xs))

Ordered-insert : (low x : ℕ) (xs : List ℕ) → low ≤ x → Ordered low xs → Ordered low (insert x xs)
unfolding insert
Ordered-insert low x [] h o = (h, tt)
Ordered-insert low x (y ∷ ys) h o = elim (Bool-cases (leb x y)) [
  | inl c ↦ rw c (h, (leb→le x y c, o.1))
  | inr c ↦ rw c (o.0, Ordered-insert y x ys (ground arith) o.1)
]

Ordered-sorted : (xs : List ℕ) → Ordered 0 (sorted xs)
unfolding sorted
Ordered-sorted [] = tt
Ordered-sorted (x ∷ xs) = Ordered-insert 0 x (sorted xs) (omega arith) (Ordered-sorted xs)

Ordered-range : (from n : ℕ) → Ordered from (range from n)
unfolding range
Ordered-range from zero = tt
Ordered-range from (suc n) = (
  omega arith,
  Ordered-weaken from (suc from) (range (suc from) n) (omega arith) (Ordered-range (suc from) n),
)
  where
    Ordered-weaken : (a b : ℕ) (xs : List ℕ) → a ≤ b → Ordered b xs → Ordered a xs
    Ordered-weaken a b [] h o = tt
    Ordered-weaken a b (x ∷ xs) h o = (omega arith, o.1)

count-below : (z low : ℕ) (xs : List ℕ) → Ordered low xs → z < low → count z xs ≡ 0
count-below z low [] o h = refl
count-below z low (x ∷ xs) o h = ground (arith, count-below z x xs o.1)

pub count-range :
    (z from n : ℕ)
    → count z (range from n) ≡ (if leb from z && leb (suc z) (from + n) then 1 else 0)
unfolding range
count-range z from zero = ground arith
count-range z from (suc n) = ground (arith, count-range z (suc from) n)

-- Two ordered lists with the same counts are one list.
Ordered-unique :
    (a b : ℕ) (xs ys : List ℕ)
    → Ordered a xs
    → Ordered b ys
    → ((z : ℕ) → count z xs ≡ count z ys)
    → xs ≡ ys
Ordered-unique a b [] [] o p h = refl
Ordered-unique a b [] (y ∷ ys) o p h = absurd (ground (arith, h y))
Ordered-unique a b (x ∷ xs) [] o p h = absurd (ground (arith, h x))
Ordered-unique a b (x ∷ xs) (y ∷ ys) o p h =
    let same : x ≡ y = ground (arith, h x, h y, count-below x y ys p.1, count-below y x xs o.1) in
    cc (same, Ordered-unique x y xs ys o.1 p.1 (λ z. ground (arith, h z)))

-- `assert_aligned` accepts a list of ordinals exactly when there are as many as ranges and they are
-- the numbers 1..n, each once: a gap, a repetition or a stray ordinal is refused. The list is sorted
-- before it is compared, so every permutation of 1..n passes, also one that gives a range another
-- chapter's ordinal, although the error's text says that a permutation breaks the identity and the
-- docstring promises an identity check.
pub assert_aligned_exact :
    (bounds : List Range) (rs : List ℕ)
    → (assert_aligned bounds (ordinals rs) ≡ ok tt)
      ↔ ((length bounds ≡ length rs) × IsEnumeration (length rs) rs)
unfolding assert_aligned
assert_aligned_exact bounds rs = (
  λ h.
      let eq : sorted rs ≡ range 1 (length rs) =
        same_list-eq (sorted rs) (range 1 (length rs)) (ground arith) in
      (
        ground arith,
        λ z. ground (arith, count-sorted z rs, count-range z 1 (length rs), ap (count z) eq),
      ),
  λ h.
      let n = length rs in
      let eq : sorted rs ≡ range 1 n =
        Ordered-unique 0 1 (sorted rs) (range 1 n) (Ordered-sorted rs) (Ordered-range 1 n)
          (λ z. ground (arith, count-sorted z rs, count-range z 1 n, h.1 z)) in
      ground (arith, ap (λ l. same_list l (range 1 n)) eq, same_list_refl (range 1 n)),
)
