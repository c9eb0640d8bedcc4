-- ===== src/Catalog/Keyed.antt =====
-- The primary key of `cost_reservations` of backend/app/catalog/catalog.py, and sums over its rows.
use reading_companion.Prelude.{
  ℕ, ◌+◌, ◌≡◌, refl, String, Bool, true, false, not, ◌&&◌, none, some, List, [], ◌∷◌, ◌++◌, str_eq,
  find, keep, any, total, if◌then◌else◌, arith, Bool-cases, inl, inr, str_eq_comm, str_eq→eq,
  any-append, subst,
}
use reading_companion.Catalog.Rows.{Reservation, update_where, delete_where}
use reading_companion.Catalog.Costs.{has_id}
use reading_companion.Catalog.Settling.{owned}

-- No two rows share their identifier.
abbrev pub keyed : List Reservation → Bool
keyed [] = true
keyed (r ∷ rs) = not (any (has_id r.reservation_id) rs) && keyed rs

any-update_where :
    (test : Reservation → Bool) (set : Reservation → Reservation)
    → ((r : Reservation) → (set r).reservation_id ≡ r.reservation_id)
    → (id : String) (rs : List Reservation)
    → any (has_id id) (update_where test set rs) ≡ any (has_id id) rs
any-update_where test set same id [] = refl
any-update_where test set same id (r ∷ rs) =
    ground (arith, same r, any-update_where test set same id rs)

pub keyed-update_where :
    (test : Reservation → Bool) (set : Reservation → Reservation)
    → ((r : Reservation) → (set r).reservation_id ≡ r.reservation_id)
    → (rs : List Reservation) → keyed rs ≡ true
    → keyed (update_where test set rs) ≡ true
keyed-update_where test set same [] h = refl
keyed-update_where test set same (r ∷ rs) h = ground (
  arith,
  same r,
  any-update_where test set same r.reservation_id rs,
  keyed-update_where test set same rs,
)

any-delete_where :
    (d test : Reservation → Bool) (rs : List Reservation)
    → any test rs ≡ false
    → any test (delete_where d rs) ≡ false
any-delete_where d test [] h = refl
any-delete_where d test (r ∷ rs) h = ground (arith, any-delete_where d test rs)

pub keyed-delete_where :
    (d : Reservation → Bool) (rs : List Reservation)
    → keyed rs ≡ true
    → keyed (delete_where d rs) ≡ true
keyed-delete_where d [] h = refl
keyed-delete_where d (r ∷ rs) h =
    ground (arith, any-delete_where d (has_id r.reservation_id) rs, keyed-delete_where d rs)

pub keyed-append :
    (rs : List Reservation) (r : Reservation)
    → keyed rs ≡ true
    → any (has_id r.reservation_id) rs ≡ false
    → keyed (rs ++ (r ∷ [])) ≡ true
keyed-append [] r h f = refl
keyed-append (x ∷ rs) r h f = ground (
  arith,
  str_eq_comm x.reservation_id r.reservation_id,
  any-append (has_id x.reservation_id) rs (r ∷ []),
  keyed-append rs r,
)

-- A DELETE that matches no row.
delete_where-none :
    {A : Type 0} (d : A → Bool) (xs : List A) → any d xs ≡ false → delete_where d xs ≡ xs
delete_where-none d [] h = refl
delete_where-none d (x ∷ xs) h = ground (arith, delete_where-none d xs)

pub any-deleted : {A : Type 0} (d : A → Bool) (xs : List A) → any d (delete_where d xs) ≡ false
any-deleted d [] = refl
any-deleted d (x ∷ xs) = ground (arith, any-deleted d xs)

find-any :
    {A : Type 0} (p q : A → Bool) (xs : List A) (x : A)
    → find (λ a. p a && q a) xs ≡ some x
    → any p xs ≡ true
find-any p q [] x h = cc
find-any p q (y ∷ ys) x h = ground (arith, find-any p q ys x)

pub find-none :
    {A : Type 0} (p q : A → Bool) (xs : List A)
    → any p xs ≡ false
    → find (λ a. p a && q a) xs ≡ none
find-none p q [] h = refl
find-none p q (y ∷ ys) h = ground (arith, find-none p q ys)

module _ (p : Reservation → Bool) (f : Reservation → ℕ) where
  -- What one row contributes to a sum goes with it.
  pub total-delete_where :
      (book id : String) (rs : List Reservation) (r : Reservation)
      → keyed rs ≡ true
      → find (owned book id) rs ≡ some r
      → total f (keep p rs)
        ≡ total f (keep p (delete_where (has_id id) rs)) + (if p r then f r else 0)
  total-delete_where book id [] r k h = cc
  total-delete_where book id (x ∷ xs) r k h = elim (Bool-cases (has_id id x)) [
    | inl t ↦
        (let here = str_eq→eq x.reservation_id id t in
          let gone : any (has_id id) xs ≡ false =
            subst (λ i. any (has_id i) xs ≡ false) here (ground arith) in
          ground (
            arith,
            delete_where-none (has_id id) xs gone,
            find-any (has_id id) (λ a. str_eq a.book_id book) xs r,
          ))
    | inr other ↦ ground (arith, total-delete_where book id xs r)
  ]
