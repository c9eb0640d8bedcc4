-- ===== src/AtomManifest/Tests.antt =====
-- A book of two chapters.
use reading_companion.Prelude.{ℕ, ◌≡◌, refl, String, List, [], ◌∷◌, some, ok, ℤ, pos, true}
use reading_companion.Frontier.{Range, chapter_bounds, same_list, range}
use reading_companion.AtomManifest.{
  Segment, Manifest, Loaded, build_manifest, load_manifest, bounds_of,
}
use reading_companion.AtomManifest.Roundtrip.{build_manifest-loads}

abbrev digest : String → String
digest s = s

abbrev show_nat : ℕ → String
show_nat n = "n"

abbrev show_int : ℤ → String
show_int n = "z"

abbrev normalize_language : String → String
normalize_language l = "en"

abbrev chapters : List Segment
chapters =
    record {
      ordinal = 1;
      key = "c1";
      href = "a.xhtml";
      title = "One";
      part_label = "";
      text_len = 40;
    }
    ∷ record {
      ordinal = 2;
      key = "c2";
      href = "b.xhtml";
      title = "Two";
      part_label = "";
      text_len = 25;
    }
    ∷ []

abbrev built : Manifest
built = build_manifest digest show_nat show_int normalize_language "bk1" "spine" [] "EN" chapters

abbrev bounds : List Range
bounds = (0, 40) ∷ (40, 65) ∷ []

contiguous : same_list (1 ∷ 2 ∷ []) (range 1 2) ≡ true
unfolding same_list range
contiguous = refl

bounds_run : chapter_bounds (pos 40 ∷ pos 25 ∷ []) ≡ ok bounds
unfolding chapter_bounds
bounds_run = refl

build_manifest-loads_example :
    (m : Loaded) × (load_manifest digest show_nat show_int normalize_language (some built) ≡ ok m)
    × (m.manifest ≡ built)
    × (bounds_of m ≡ ok bounds)
build_manifest-loads_example =
    build_manifest-loads digest show_nat show_int normalize_language "bk1" "spine" [] "EN" chapters
      bounds contiguous refl bounds_run
