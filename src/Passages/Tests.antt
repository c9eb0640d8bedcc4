-- ===== src/Passages/Tests.antt =====
-- A short text, and the batches of three passages.
use reading_companion.Prelude.{◌≡◌, refl, List, [], ◌∷◌, ok, int, pos, All, length}
use reading_companion.Passages.{Window, normalize_source, source_passages, is_space}
use reading_companion.Passages.Cover.{rebuild, source_passages_roundtrip}
use reading_companion.Passages.Batches.{
  embedding_batches, concat, passage_cost, embedding_text, batches_from,
}
use reading_companion.Passages.Partition.{Fits, embedding_batches_partition}
use Prim.Native.Char.{Char}

abbrev text : List Char
text = "a" ∷ " " ∷ " " ∷ "b" ∷ "c" ∷ " " ∷ []

normalized : normalize_source is_space text ≡ "a" ∷ " " ∷ "b" ∷ "c" ∷ []
unfolding normalize_source
normalized = refl

source_passages_roundtrip_example :
    rebuild 0 (source_passages is_space text) ≡ normalize_source is_space text
source_passages_roundtrip_example = source_passages_roundtrip is_space text

abbrev first : Window
first = record { start = 0; end = 2; text = "a" ∷ "b" ∷ [] }

abbrev second : Window
second = record { start = 2; end = 3; text = "c" ∷ [] }

abbrev third : Window
third = record { start = 3; end = 5; text = "d" ∷ "e" ∷ [] }

abbrev passages : List Window
passages = first ∷ second ∷ third ∷ []

abbrev planned : List (List Window)
planned = (first ∷ second ∷ []) ∷ (third ∷ []) ∷ []

planned_run : embedding_batches is_space length [] passages (int (pos 36)) ≡ ok planned
unfolding embedding_batches batches_from embedding_text normalize_source
planned_run = refl

embedding_batches_partition_example :
    (concat planned ≡ passages) × All (Fits (passage_cost is_space length []) 36) planned
embedding_batches_partition_example =
    embedding_batches_partition is_space length [] passages 36 planned planned_run
