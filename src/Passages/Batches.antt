-- ===== src/Passages/Batches.antt =====
-- The batches that backend/app/retrieval_passages.py sends to the embedding provider, and the vectors
-- it gets back.
use reading_companion.Prelude.{
  ℕ, ◌+◌, Bool, true, false, ◌&&◌, List, [], ◌∷◌, ◌++◌, map, ◌==◌, ltb, leb, if◌then◌else◌, length,
  Result, ok, err, ◌>>=◌, ◌>>◌, require, Value, int, pos,
}
use reading_companion.Passages.{Window, take, normalize_source, source_passages}
use Prim.Native.Char.{Char}

pub data PassageError : Type 0 where
  ceiling_exceeded count_mismatch provider_failed : PassageError

abbrev pub title_context_chars : ℕ
title_context_chars = 256

abbrev pub is_empty : List Char → Bool
is_empty [] = true
is_empty (c ∷ cs) = false

abbrev pub chapter_label : List Char
chapter_label = "C" ∷ "h" ∷ "a" ∷ "p" ∷ "t" ∷ "e" ∷ "r" ∷ ":" ∷ " " ∷ []

-- a limit that is an integer and no bool, of at least 33
abbrev pub as_limit : Value → Result PassageError ℕ
as_limit (int (pos n)) = do require (leb 33 n) ceiling_exceeded; ok n
as_limit _ = err ceiling_exceeded

module _ (is_white : Char → Bool) where
  unfoldable pub embedding_text : (title passage : List Char) → List Char
  embedding_text title passage =
      let t = take title_context_chars (normalize_source is_white title) in
      if is_empty t then passage else chapter_label ++ t ++ ("\n" ∷ "\n" ∷ passage)

abbrev pub is_batch : List Window → Bool
is_batch [] = false
is_batch (w ∷ ws) = true

-- `if batch: batches.append(batch)`
abbrev pub close : List Window → List (List Window)
close [] = []
close (w ∷ ws) = (w ∷ ws) ∷ []

abbrev pub emit :
    Bool
    → List Window
    → Result PassageError (List (List Window))
    → Result PassageError (List (List Window))
emit full batch (err e) = err e
emit full batch (ok rest) = ok (if full then batch ∷ rest else rest)

module _ (cost : Window → ℕ) (limit : ℕ) where
  -- the loop of `embedding_batches`
  unfoldable pub batches_from :
      List Window → (batch : List Window) → (size : ℕ) → Result PassageError (List (List Window))
  batches_from [] batch size = ok (close batch)
  batches_from (p ∷ ps) batch size =
      let full = is_batch batch && ltb limit (size + cost p) in
      let rest =
        batches_from ps (if full then p ∷ [] else batch ++ (p ∷ []))
          (if full then 32 + cost p else size + cost p) in
      require (leb (cost p + 32) limit) ceiling_exceeded >> emit full batch rest

module _ (is_white : Char → Bool) (utf8_size : List Char → ℕ) where
  abbrev pub passage_cost : (title : List Char) → Window → ℕ
  passage_cost title w = utf8_size (embedding_text is_white title w.text)

  unfoldable pub embedding_batches :
      (title : List Char)
      → List Window
      → (input_limit : Value) → Result PassageError (List (List Window))
  embedding_batches title passages input_limit = do
    limit ← as_limit input_limit
    batches_from (passage_cost title) limit passages [] 32

  module _ {V : Type 0} (embed : List (List Char) → Result PassageError (List V)) where
    abbrev pub zip : List Window → List V → List (Window × V)
    zip (w ∷ ws) (v ∷ vs) = (w, v) ∷ zip ws vs
    zip _ _ = []

    abbrev pub embed_batch :
        (title : List Char) → List Window → Result PassageError (List (Window × V))
    embed_batch title batch = do
      values ← embed (map (λ (w : Window). embedding_text is_white title w.text) batch)
      require (length values == length batch) count_mismatch
      ok (zip batch values)

    abbrev pub embed_all :
        (title : List Char) → List (List Window) → Result PassageError (List (Window × V))
    embed_all title [] = ok []
    embed_all title (b ∷ bs) = do
      rows ← embed_batch title b
      rest ← embed_all title bs
      ok (rows ++ rest)

    unfoldable pub prepare_passages :
        (title text : List Char) → (input_limit : Value) → Result PassageError (List (Window × V))
    prepare_passages title text input_limit = do
      batches ← embedding_batches title (source_passages is_white text) input_limit
      embed_all title batches

abbrev pub concat : List (List Window) → List Window
concat [] = []
concat (b ∷ bs) = b ++ concat bs
