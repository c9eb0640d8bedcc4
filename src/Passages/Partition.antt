-- ===== src/Passages/Partition.antt =====
-- The batches of backend/app/retrieval_passages.py partition the passages within the input limit.
use reading_companion.Prelude.{
  ℕ, ◌+◌, ◌≤◌, ◌≡◌, refl, ap, ◌∙◌, subst, Bool, true, false, ◌&&◌, List, [], ◌∷◌, ◌++◌, ltb, leb,
  leb→le, if◌then◌else◌, Result, ok, err, arith, total, All, ok_injective, after-require,
  bind-returns, Bool-cases, inl, inr, append_assoc, Value, int, pos, negsuc, boolean, string, real,
  null,
}
use reading_companion.Passages.{Window}
use reading_companion.Passages.Batches.{
  PassageError, ceiling_exceeded, is_batch, close, emit, batches_from, as_limit, passage_cost,
  embedding_batches, concat,
}
use Prim.Native.Char.{Char}

module _ (cost : Window → ℕ) (limit : ℕ) where
  -- a batch that the provider takes
  abbrev pub Fits : List Window → Type 0
  Fits batch = 32 + total cost batch ≤ limit

  total-snoc :
      (ws : List Window) (w : Window) → total cost (ws ++ (w ∷ [])) ≡ total cost ws + cost w
  total-snoc [] w = omega arith
  total-snoc (v ∷ ws) w = omega (arith, total-snoc ws w)

  close-Fits :
      (batch : List Window)
      → Fits batch
      → (concat (close batch) ≡ batch ++ []) × All Fits (close batch)
  close-Fits [] h = (refl, tt)
  close-Fits (w ∷ ws) h = (refl, (h, tt))

  emit-ok :
      (full : Bool) (batch : List Window) (r : Result PassageError (List (List Window)))
      (bs : List (List Window))
      → emit full batch r ≡ ok bs
      → (rest : List (List Window)) × (r ≡ ok rest) × ((if full then batch ∷ rest else rest) ≡ bs)
  emit-ok full batch (err e) bs h = cc
  emit-ok full batch (ok rest) bs h = (rest, refl, ok_injective h)

  -- A passage that opens no new batch has room in the one there is.
  room :
      (batch : List Window) (size : ℕ) (p : Window)
      → size ≡ 32 + total cost batch
      → leb (cost p + 32) limit ≡ true
      → (is_batch batch && ltb limit (size + cost p)) ≡ false
      → size + cost p ≤ limit
  room [] size p e f h = let b = leb→le (cost p + 32) limit f in omega (arith, e, b)
  room (w ∷ ws) size p e f h = ground (arith, h)

  batches_from-Fits :
      (ps batch : List Window) (size : ℕ) (bs : List (List Window))
      → size ≡ 32 + total cost batch
      → size ≤ limit
      → batches_from cost limit ps batch size ≡ ok bs
      → (concat bs ≡ batch ++ ps) × All Fits bs
  unfolding batches_from
  batches_from-Fits [] batch size bs e f h =
      subst (λ x. (concat x ≡ batch ++ []) × All Fits x) (ok_injective h)
        (close-Fits batch (omega (arith, e, f)))
  batches_from-Fits (p ∷ ps) batch size bs e f h =
      let full = is_batch batch && ltb limit (size + cost p) in
      let (fits, h1) = after-require (leb (cost p + 32) limit) ceiling_exceeded h in
      let (rest, r, same) = emit-ok full batch _ bs h1 in
      elim (Bool-cases full) [
        | inl t ↦
            let r' =
              subst
                (λ b.
                  batches_from cost limit ps (if b then p ∷ [] else batch ++ (p ∷ []))
                    (if b then 32 + cost p else size + cost p)
                  ≡ ok rest)
                t r in
            let (joined, all) =
              batches_from-Fits ps (p ∷ []) (32 + cost p) rest (omega arith) (ground (arith, fits))
                r' in
            let same' = subst (λ (b : Bool). (if b then batch ∷ rest else rest) ≡ bs) t same in
            subst (λ x. (concat x ≡ batch ++ (p ∷ ps)) × All Fits x) same'
              (ap (λ xs. batch ++ xs) joined, (omega (arith, e, f), all))
        | inr n ↦
            let r' =
              subst
                (λ b.
                  batches_from cost limit ps (if b then p ∷ [] else batch ++ (p ∷ []))
                    (if b then 32 + cost p else size + cost p)
                  ≡ ok rest)
                n r in
            let sums = total-snoc batch p in
            let (joined, all) =
              batches_from-Fits ps (batch ++ (p ∷ [])) (size + cost p) rest (omega (arith, e, sums))
                (room batch size p e fits n) r' in
            let same' = subst (λ (b : Bool). (if b then batch ∷ rest else rest) ≡ bs) n same in
            subst (λ x. (concat x ≡ batch ++ (p ∷ ps)) × All Fits x) same'
              (joined ∙ append_assoc batch (p ∷ []) ps, all)
      ]

as_limit-ok : (v : Value) (limit : ℕ) → as_limit v ≡ ok limit → (v ≡ int (pos limit)) × (32 ≤ limit)
as_limit-ok (int (pos n)) limit h =
    let (l, e) = after-require (leb 33 n) ceiling_exceeded h in
    (ap (λ k. int (pos k)) (ok_injective e), ground (arith, l, ok_injective e))
as_limit-ok (int (negsuc n)) limit h = cc
as_limit-ok (boolean b) limit h = cc
as_limit-ok (string b) limit h = cc
as_limit-ok (real b) limit h = cc
as_limit-ok null limit h = cc

module _ (is_white : Char → Bool) (utf8_size : List Char → ℕ) where
  -- Batches that are planned hold every passage once and in order, and each of them, with the reserve of
  -- 32 and counting each passage with its title, is within the input limit.
  pub embedding_batches_partition :
      (title : List Char) (passages : List Window) (limit : ℕ) (bs : List (List Window))
      → embedding_batches is_white utf8_size title passages (int (pos limit)) ≡ ok bs
      → (concat bs ≡ passages) × All (Fits (passage_cost is_white utf8_size title) limit) bs
  unfolding embedding_batches
  embedding_batches_partition title passages limit bs h =
      let (n, l, h1) = bind-returns (as_limit (int (pos limit))) h in
      let (e, low) = as_limit-ok (int (pos limit)) n l in
      let same : n ≡ limit = ground (arith, e) in
      subst (λ k. (concat bs ≡ passages) × All (Fits (passage_cost is_white utf8_size title) k) bs)
        same
        (batches_from-Fits (passage_cost is_white utf8_size title) n passages [] 32 bs (omega arith)
          low h1)
