-- ===== src/Memory/Completion/Durable.antt =====
-- What the durable frontier of backend/app/memory/dal.py stands for.
use reading_companion.Prelude.{
  ℕ, ◌≡◌, refl, String, Option, none, some, List, [], ◌∷◌, ◌++◌, All, ap,
}
use reading_companion.Memory.Rows.{Tables}
use reading_companion.Memory.Completion.{
  Cost, Marker, Atom, chapter_completion, frontier_from, completion_frontier,
}

module _ (digest : String → String) (book : String) (markers : List Marker) (t : Tables) where
  -- A chapter is complete when it has a receipt.
  abbrev pub IsComplete : Atom → Type 0
  IsComplete a =
      (r : Option Cost) × (chapter_completion digest book markers t a.key a.ordinal none ≡ some r)

  -- the ordinal of the last atom, or what was reached before it
  abbrev pub last_ordinal : ℕ → List Atom → ℕ
  last_ordinal reached [] = reached
  last_ordinal reached (a ∷ atoms) = last_ordinal a.ordinal atoms

  -- no atom follows, or the next one has no receipt
  abbrev pub Stops : List Atom → Type 0
  Stops [] = Unit
  Stops (a ∷ atoms) = chapter_completion digest book markers t a.key a.ordinal none ≡ none

  frontier_from-exact :
      (reached : ℕ) (atoms : List Atom)
      → (done : List Atom) × (rest : List Atom) × (atoms ≡ done ++ rest)
        × All IsComplete done
        × Stops rest
        × (frontier_from digest book markers t reached atoms ≡ last_ordinal reached done)
  unfolding frontier_from
  frontier_from-exact reached [] = ([], [], refl, tt, tt, refl)
  frontier_from-exact reached (a ∷ atoms) =
      go (chapter_completion digest book markers t a.key a.ordinal none) refl
        (frontier_from-exact a.ordinal atoms)
    where
      go :
          (m : Option (Option Cost))
          → chapter_completion digest book markers t a.key a.ordinal none ≡ m
          → ((done : List Atom) × (rest : List Atom) × (atoms ≡ done ++ rest)
              × All IsComplete done
              × Stops rest
              × (frontier_from digest book markers t a.ordinal atoms ≡ last_ordinal a.ordinal done))
          → (done : List Atom) × (rest : List Atom) × (a ∷ atoms ≡ done ++ rest)
            × All IsComplete done
            × Stops rest
            × (elim m as (λ x. ℕ) [
              | none ↦ reached
              | some r ↦ frontier_from digest book markers t a.ordinal atoms
            ]
                ≡ last_ordinal reached done)
      go none e later = ([], a ∷ atoms, refl, tt, e, refl)
      go (some r) e (done, rest, split, complete, stops, same) =
          (a ∷ done, rest, ap (λ x. a ∷ x) split, ((r, e), complete), stops, same)

  -- The durable frontier is the ordinal of the last atom of the longest run of complete chapters from
  -- the first atom on: every atom of that run has a receipt, and the atom after it, if there is one,
  -- has none. Without a complete first chapter the frontier is 0.
  pub completion_frontier_exact :
      (atoms : List Atom)
      → (done : List Atom) × (rest : List Atom) × (atoms ≡ done ++ rest)
        × All IsComplete done
        × Stops rest
        × (completion_frontier digest book markers t atoms ≡ last_ordinal 0 done)
  unfolding completion_frontier
  completion_frontier_exact atoms = frontier_from-exact 0 atoms
