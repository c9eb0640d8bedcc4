-- ===== src/AtomManifest/Roundtrip.antt =====
-- A manifest that backend/app/ingest/manifest.py has built loads again, and its bounds are aligned.
use reading_companion.Prelude.{
  ℕ, suc, ◌≡◌, refl, ap, sym, ◌∙◌, ℤ, pos, String, str_eq, str_eq_refl, true, some, List, [], ◌∷◌,
  map, length, Result, ok, ◌>>=◌, ◌>>◌, require, arith, pass,
}
use reading_companion.Frontier.{
  FrontierError, Range, ordinals, chapter_bounds, assert_aligned, same_list, range,
}
use reading_companion.Frontier.Alignment.{assert_aligned_exact, same_list-eq, count-range, count}
use reading_companion.Frontier.Bounds.{chapter_bounds-IsLayout}
use reading_companion.AtomManifest.{
  Segment, Atom, Loaded, atom_of, ordinals_of, version, build_manifest, load_manifest, bounds_of,
  version_mismatch, malformed_language, not_contiguous,
}

length-map : {A B : Type 0} (f : A → B) (xs : List A) → length (map f xs) ≡ length xs
length-map f [] = refl
length-map f (x ∷ xs) = ap suc (length-map f xs)

map-map :
    {A B C : Type 0} (f : A → B) (g : B → C) (xs : List A)
    → map g (map f xs) ≡ map (λ x. g (f x)) xs
map-map f g [] = refl
map-map f g (x ∷ xs) = ap (λ ys. g (f x) ∷ ys) (map-map f g xs)

module _ (digest : String → String) (show_nat : ℕ → String) (show_int : ℤ → String)
    (normalize_language : String → String) where
  build-load :
      (book_id mode : String) (flags : List String) (language : String) (chapters : List Segment)
      → same_list (ordinals_of (map atom_of chapters)) (range 1 (length (map atom_of chapters)))
        ≡ true
      → normalize_language (normalize_language language) ≡ normalize_language language
      → load_manifest digest show_nat show_int normalize_language (
          some (
            build_manifest digest show_nat show_int normalize_language book_id mode flags language
              chapters))
        ≡ ok (record {
          manifest =
              build_manifest digest show_nat show_int normalize_language book_id mode flags language
                chapters;
          content_language = normalize_language language;
          content_language_recorded = true;
        })
  unfolding load_manifest build_manifest
  build-load book_id mode flags language chapters contiguous stable =
      pass _ (
        ap (λ t. require t version_mismatch)
          (str_eq_refl (version digest show_nat show_int (map atom_of chapters))))
      ∙ pass _ (
          ap (λ t. require t malformed_language)
            (ap (λ l. str_eq l (normalize_language language)) stable
              ∙ str_eq_refl (normalize_language language)))
      ∙ pass _ (ap (λ t. require t not_contiguous) contiguous)

-- Contiguous ordinals are aligned with the bounds of their atoms.
ordinals-aligned :
    (atoms : List Atom) (bounds : List Range)
    → same_list (ordinals_of atoms) (range 1 (length atoms)) ≡ true
    → chapter_bounds (map (λ (a : Atom). a.char_len) atoms) ≡ ok bounds
    → assert_aligned bounds (ordinals (ordinals_of atoms)) ≡ ok tt
ordinals-aligned atoms bounds h made =
    let layout = chapter_bounds-IsLayout (map (λ (a : Atom). a.char_len) atoms) bounds made in
    let many = length-map (λ (a : Atom). a.ordinal) atoms in
    let each = length-map (λ (a : Atom). a.char_len) atoms in
    let eq = same_list-eq (ordinals_of atoms) (range 1 (length atoms)) h in
    (assert_aligned_exact bounds (ordinals_of atoms)).1 (
      layout.one_each ∙ each ∙ sym many,
      λ z.
          let c = count-range z 1 (length atoms) in
          let e = ap (count z) eq in ground (arith, c, e, many),
    )

-- The manifest that an import builds from chapters numbered 1..N loads again as it was built, where the
-- normal form of its language tag is one; and where the book has bounds at all, they pass the alignment
-- check: `bounds_of` returns the bounds of the chapters' lengths.
pub build_manifest-loads :
    (digest : String → String) (show_nat : ℕ → String) (show_int : ℤ → String)
    (normalize_language : String → String) (book_id mode : String) (flags : List String)
    (language : String) (chapters : List Segment) (bounds : List Range)
    → same_list (map (λ (ch : Segment). ch.ordinal) chapters) (range 1 (length chapters)) ≡ true
    → normalize_language (normalize_language language) ≡ normalize_language language
    → chapter_bounds (map (λ (ch : Segment). pos ch.text_len) chapters) ≡ ok bounds
    → (m : Loaded) × (load_manifest digest show_nat show_int normalize_language (
          some (
            build_manifest digest show_nat show_int normalize_language book_id mode flags language
              chapters))
        ≡ ok m)
      × (m.manifest
          ≡ build_manifest digest show_nat show_int normalize_language book_id mode flags language
              chapters)
      × (bounds_of m ≡ ok bounds)
unfolding build_manifest bounds_of
build_manifest-loads digest show_nat show_int normalize_language book_id mode flags language
      chapters bounds contiguous stable made =
    let atoms = map atom_of chapters in
    let ords : ordinals_of atoms ≡ map (λ (ch : Segment). ch.ordinal) chapters =
      map-map atom_of (λ (a : Atom). a.ordinal) chapters in
    let lens : map (λ (a : Atom). a.char_len) atoms
        ≡ map (λ (ch : Segment). pos ch.text_len) chapters =
      map-map atom_of (λ (a : Atom). a.char_len) chapters in
    let enum : same_list (ordinals_of atoms) (range 1 (length atoms)) ≡ true =
      ap (λ os. same_list os (range 1 (length atoms))) ords
      ∙ ap (λ n. same_list (map (λ (ch : Segment). ch.ordinal) chapters) (range 1 n))
          (length-map atom_of chapters)
      ∙ contiguous in
    let made' = ap chapter_bounds lens ∙ made in
    let aligned = ordinals-aligned atoms bounds enum made' in
    (
      _,
      build-load digest show_nat show_int normalize_language book_id mode flags language chapters
          enum stable,
      refl,
      ap
            (λ (r : Result FrontierError (List Range)).
              r >>= λ b. assert_aligned b (ordinals (ordinals_of atoms)) >> ok b)
            made'
          ∙ pass (assert_aligned bounds (ordinals (ordinals_of atoms))) aligned,
    )
