-- ===== src/Memory/Completion/Tests.antt =====
-- A book of three chapters, of which two have been ingested.
use reading_companion.Prelude.{ℕ, ◌≡◌, refl, String, ◌++◌, none, List, [], ◌∷◌, All}
use reading_companion.Memory.Rows.{Row, Chapter, RawChapter, Tables}
use reading_companion.Memory.Completion.{
  Marker, Atom, completion_frontier, frontier_from, chapter_completion, intact,
}
use reading_companion.Memory.Completion.Durable.{
  IsComplete, Stops, last_ordinal, completion_frontier_exact,
}

-- a hash that tells the texts below apart
abbrev digest : String → String
digest text = text

abbrev chapter : String → ℕ → Row Chapter
chapter key n = record {
  rowid = n;
  book_id = "emma";
  revealed_at = n;
  invalid_at = none;
  retracted_at = none;
  body = record { chapter_key = key; href = ""; title = ""; part_label = ""; content_hash = key };
}

abbrev raw : String → ℕ → Row RawChapter
raw key n = record {
  rowid = n;
  book_id = "emma";
  revealed_at = n;
  invalid_at = none;
  retracted_at = none;
  body = record { chapter_key = key; text = key; content_hash = key };
}

abbrev marker : String → Marker
marker key = record { chapter_key = key; book_id = "emma"; content_hash = key; cost = none }

abbrev store : Tables
store = record {
  meta = record { embed_model = none; embed_dim = none };
  chapters = chapter "k1" 1 ∷ chapter "k2" 2 ∷ chapter "k3" 3 ∷ [];
  raw_chapters = raw "k1" 1 ∷ raw "k2" 2 ∷ raw "k3" 3 ∷ [];
  chapter_summaries = [];
  entities = [];
  aliases = [];
  edges = [];
  events = [];
  event_participants = [];
  themes = [];
  entity_state = [];
  chunks = [];
}

abbrev markers : List Marker
markers = marker "k1" ∷ marker "k2" ∷ []

abbrev atoms : List Atom
atoms =
    record { key = "k1"; ordinal = 1 }
    ∷ record { key = "k2"; ordinal = 2 }
    ∷ record { key = "k3"; ordinal = 3 }
    ∷ []

reached : completion_frontier digest "emma" markers store atoms ≡ 2
unfolding completion_frontier frontier_from chapter_completion intact
reached = refl

completion_frontier_exact_example :
    (done : List Atom) × (rest : List Atom) × (atoms ≡ done ++ rest)
    × All (IsComplete digest "emma" markers store) done
    × Stops digest "emma" markers store rest
    × (completion_frontier digest "emma" markers store atoms
        ≡ last_ordinal digest "emma" markers store 0 done)
completion_frontier_exact_example = completion_frontier_exact digest "emma" markers store atoms
