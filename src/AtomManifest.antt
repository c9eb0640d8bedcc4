-- ===== src/AtomManifest.antt =====
-- The manifest of a book's atoms in backend/app/ingest/manifest.py, which is written once at import and
-- checked on every load. The digest of a text, `str` of a number and the normal form of a language tag
-- are parameters; what `json.load` reads is a record whose language may be missing, and `none` for a
-- file that is missing or unreadable. Ordinals are natural numbers.
pub mod Roundtrip
mod Tests
use reading_companion.Prelude.{
  ℕ, zero, suc, ◌+◌, ℤ, pos, String, str_eq, Bool, true, false, not, ◌&&◌, Option, none, some, List,
  [], ◌∷◌, map, any, all, find, length, ◌==◌, if◌then◌else◌, Result, ok, err, ◌>>=◌, ◌>>◌, require,
}
use reading_companion.Frontier.{
  Range, RevealedAts, ordinals, FrontierError, chapter_bounds, assert_aligned, same_list, range,
}
use Prim.Native.String.{◌++◌ as str_append}

pub data AtomSetMismatch : Type 0 where
  unreadable version_mismatch malformed_language not_contiguous : AtomSetMismatch
  store_language_mismatch : AtomSetMismatch
  store_atom_mismatch : (ordinal : ℕ) → AtomSetMismatch

-- a chapter of the segmentation; its text is its length
pub record Segment : Type 0 where
  pub ordinal : ℕ
  pub key : String
  pub href : String
  pub title : String
  pub part_label : String
  pub text_len : ℕ

pub record Atom : Type 0 where
  pub ordinal : ℕ
  pub key : String
  pub href : String
  pub title : String
  pub part_label : String
  pub char_len : ℤ

-- the file `atoms.json`
pub record Manifest : Type 0 where
  pub book_id : String
  pub mode : String
  pub flags : List String
  pub content_language : Option String
  pub atoms : List Atom
  pub atom_set_version : String

-- a manifest that has passed its checks
pub record Loaded : Type 0 where
  pub manifest : Manifest
  pub content_language : String
  pub content_language_recorded : Bool

abbrev pub atom_of : Segment → Atom
atom_of ch = record {
  ordinal = ch.ordinal;
  key = ch.key;
  href = ch.href;
  title = ch.title;
  part_label = ch.part_label;
  char_len = pos ch.text_len;
}

abbrev pub join_with : String → List String → String
join_with sep [] = ""
join_with sep (w ∷ []) = w
join_with sep (w ∷ v ∷ ws) = str_append w (str_append sep (join_with sep (v ∷ ws)))

abbrev pub ordinals_of : List Atom → List ℕ
ordinals_of atoms = map (λ (a : Atom). a.ordinal) atoms

-- `m.get("content_language", "und")`
abbrev pub language_or_und : Option String → String
language_or_und none = "und"
language_or_und (some l) = l

abbrev pub is_recorded : Option String → Bool
is_recorded none = false
is_recorded (some l) = true

module _ (digest : String → String) (show_nat : ℕ → String) (show_int : ℤ → String) where
  abbrev pub triple : Atom → String
  triple a =
      str_append (show_nat a.ordinal)
        (str_append ":" (str_append a.key (str_append ":" (show_int a.char_len))))

  -- `_version`
  unfoldable pub version : List Atom → String
  version atoms = digest (join_with "|" (map triple atoms))

  module _ (normalize_language : String → String) where
    unfoldable pub build_manifest :
        (book_id mode : String)
        → (flags : List String) → (content_language : String) → List Segment
        → Manifest
    build_manifest book_id mode flags content_language chapters =
        let atoms = map atom_of chapters in
        record {
          book_id = book_id;
          mode = mode;
          flags = flags;
          content_language = some (normalize_language content_language);
          atoms = atoms;
          atom_set_version = version atoms;
        }

    abbrev pub verified : Manifest → Result AtomSetMismatch Loaded
    verified m = do
      require (str_eq m.atom_set_version (version m.atoms)) version_mismatch
      let raw = language_or_und m.content_language
      require (str_eq (normalize_language raw) raw) malformed_language
      require (same_list (ordinals_of m.atoms) (range 1 (length m.atoms))) not_contiguous
      ok (record {
        manifest = m;
        content_language = raw;
        content_language_recorded = is_recorded m.content_language;
      })

    unfoldable pub load_manifest : Option Manifest → Result AtomSetMismatch Loaded
    load_manifest none = err unreadable
    load_manifest (some m) = verified m

unfoldable pub bounds_of : Loaded → Result FrontierError (List Range)
bounds_of m = do
  bounds ← chapter_bounds (map (λ (a : Atom). a.char_len) m.manifest.atoms)
  assert_aligned bounds (ordinals (ordinals_of m.manifest.atoms))
  ok bounds

abbrev pub same_key : String → Option Atom → Bool
same_key key none = false
same_key key (some a) = str_eq a.key key

-- `want.get(ordinal)`
abbrev pub wanted : List Atom → ℕ → Option Atom
wanted atoms ordinal = find (λ (a : Atom). a.ordinal == ordinal) atoms

-- the loop of `assert_matches_store` over the rows of `mem.view(len(want)).chapters()`
abbrev pub match_rows :
    List Atom → List (String × ℕ × String × String) → Result AtomSetMismatch (Unit {0})
match_rows atoms [] = ok tt
match_rows atoms (c ∷ rows) = do
  require (same_key c.0 (wanted atoms c.1)) (store_atom_mismatch c.1)
  match_rows atoms rows

unfoldable pub assert_matches_store :
    Loaded
    → (store_language : String) → (chapters_at : ℕ → List (String × ℕ × String × String))
    → Result AtomSetMismatch (Unit {0})
assert_matches_store m store_language chapters_at = do
  require (str_eq m.content_language store_language) store_language_mismatch
  match_rows m.manifest.atoms (chapters_at (length m.manifest.atoms))
