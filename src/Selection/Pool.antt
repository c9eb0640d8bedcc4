-- ===== src/Selection/Pool.antt =====
-- What backend/app/ask_selection.py selects stands in its pool of candidates.
use reading_companion.Prelude.{
  ℕ, suc, ◌≤◌, ◌≡◌, refl, subst, String, ℤ, Bool, true, ◌&&◌, Option, none, some, List, [], ◌∷◌,
  all, find, length, ◌==◌, leb, leb→le, Result, ok, arith, bind-returns, after-require, after-check,
  ok_injective, and→both,
}
use reading_companion.Selection.{
  SelectionError, Source, Item, source, no_dict, Pool, has_source, entry_of, take_entry, pick,
  pool_from, candidate_map, source_id, as_id, max_source_candidates, max_selected_sources, distinct,
  ids_of, check_ids, selected_ids, validate_selection, check_prompt, select_sources, Usage,
  pool_invalid, selection_invalid, unavailable_candidate,
}

abbrev pub item_holds : (Source → Bool) → Item → Bool
item_holds safe (source s) = safe s
item_holds safe no_dict = true

abbrev pub entry_holds : (Source → Bool) → ℕ × Source → Bool
entry_holds safe e = safe e.1

find-all :
    {A : Type 0} (p f : A → Bool) (xs : List A) (x : A)
    → all f xs ≡ true
    → find p xs ≡ some x
    → f x ≡ true
find-all p f [] x h e = cc
find-all p f (y ∷ ys) x h e = ground (arith, find-all p f ys x)

module _ (safe : Source → Bool) where
  take_entry-holds :
      (e : Option (ℕ × Source)) (rest : List Source)
      → ((x : ℕ × Source) → e ≡ some x → safe x.1 ≡ true)
      → all safe rest ≡ true
      → all safe (take_entry e rest) ≡ true
  take_entry-holds none rest h r = r
  take_entry-holds (some x) rest h r = let s = h x refl in ground (arith, s, r)

  pick-holds :
      (pool : Pool) (ids : List ℕ)
      → all (entry_holds safe) pool ≡ true
      → all safe (pick pool ids) ≡ true
  pick-holds pool [] h = refl
  pick-holds pool (id ∷ ids) h =
      take_entry-holds (entry_of pool id) (pick pool ids)
        (λ x e. find-all (λ (y : ℕ × Source). y.0 == id) (entry_holds safe) pool x h e)
        (pick-holds pool ids h)

  module _ (size : String → ℕ) (is_blank : String → Bool) where
    pool_from-holds :
        (pool : Pool) (items : List Item) (pool' : Pool)
        → all (entry_holds safe) pool ≡ true
        → all (item_holds safe) items ≡ true
        → pool_from size is_blank pool items ≡ ok pool'
        → all (entry_holds safe) pool' ≡ true
    unfolding pool_from
    pool_from-holds pool [] pool' h i e =
        subst (λ p. all (entry_holds safe) p ≡ true) (ok_injective e) h
    pool_from-holds pool (no_dict ∷ items) pool' h i e = cc
    pool_from-holds pool (source s ∷ items) pool' h i e =
        let (id, _, e') =
          bind-returns (source_id size is_blank pool s (as_id max_source_candidates s.id)) e in
        pool_from-holds ((id, s) ∷ pool) items pool' (ground (arith, h, i)) (ground (arith, i)) e'

length-take_entry :
    (e : Option (ℕ × Source)) (rest : List Source) → length (take_entry e rest) ≤ suc (length rest)
length-take_entry none rest = omega arith
length-take_entry (some x) rest = omega arith

length-pick : (pool : Pool) (ids : List ℕ) → length (pick pool ids) ≤ length ids
length-pick pool [] = omega arith
length-pick pool (id ∷ ids) =
    omega (arith, length-take_entry (entry_of pool id) (pick pool ids), length-pick pool ids)

check_ids-few : (r : Option (List ℕ)) (ids : List ℕ) → check_ids r ≡ ok ids → length ids ≤ 6
check_ids-few none ids h = cc
check_ids-few (some ns) ids h =
    let (t, e) =
      after-require (leb (length ns) max_selected_sources && distinct ns) selection_invalid h in
    let (few, _) = and→both _ _ t in
    subst (λ (x : List ℕ). length x ≤ 6) (ok_injective e) (leb→le (length ns) 6 few)

selected_ids-few :
    (value : Option (List ℤ)) (ids : List ℕ) → selected_ids value ≡ ok ids → length ids ≤ 6
selected_ids-few none ids h = cc
selected_ids-few (some is) ids h = check_ids-few (ids_of is) ids h

module _ (size : String → ℕ) (is_blank : String → Bool) where
  validate_selection-holds :
      (safe : Source → Bool) (value : Option (List ℤ)) (candidates : List Item) (rows : List Source)
      → all (item_holds safe) candidates ≡ true
      → validate_selection size is_blank value candidates ≡ ok rows
      → (all safe rows ≡ true) × (length rows ≤ 6)
  unfolding validate_selection candidate_map
  validate_selection-holds safe value candidates rows h e =
      let (pool, made, e1) = bind-returns (candidate_map size is_blank candidates) e in
      let (_, built) =
        after-require (leb (length candidates) max_source_candidates) pool_invalid made in
      let (ids, chosen, e2) = bind-returns (selected_ids value) e1 in
      let (_, e3) = after-require (all (has_source pool) ids) unavailable_candidate e2 in
      let holds = pool_from-holds safe size is_blank [] candidates pool refl h built in
      subst (λ (x : List Source). (all safe x ≡ true) × (length x ≤ 6)) (ok_injective e3)
        (
          pick-holds safe pool ids holds,
          omega (arith, length-pick pool ids, selected_ids-few value ids chosen),
        )

  -- Whatever the model replies, the sources that a selection returns are at most six, and each is one of
  -- the candidates: a test that every candidate passes, such as an ordinal within the bookmark, holds
  -- of every source that is selected.
  pub selection_within_pool :
      (complete : String → List Item → Result SelectionError (Option (List ℤ) × Usage))
      (safe : Source → Bool) (question : String) (candidates : List Item) (rows : List Source)
      (usage : Usage)
      → all (item_holds safe) candidates ≡ true
      → select_sources size is_blank complete question candidates ≡ ok (rows, usage)
      → (all safe rows ≡ true) × (length rows ≤ 6)
  unfolding select_sources
  selection_within_pool complete safe question [] rows usage h e =
      let e1 = after-check (check_prompt size is_blank question []) e in
      subst (λ (x : List Source × Usage). (all safe x.0 ≡ true) × (length x.0 ≤ 6))
        (ok_injective e1) (refl, omega arith)
  selection_within_pool complete safe question (c ∷ candidates) rows usage h e =
      let e1 = after-check (check_prompt size is_blank question (c ∷ candidates)) e in
      let (reply, _, e2) = bind-returns (complete question (c ∷ candidates)) e1 in
      let (chosen, valid, e3) =
        bind-returns (validate_selection size is_blank reply.0 (c ∷ candidates)) e2 in
      subst (λ (x : List Source × Usage). (all safe x.0 ≡ true) × (length x.0 ≤ 6))
        (ok_injective e3) (validate_selection-holds safe reply.0 (c ∷ candidates) chosen h valid)
