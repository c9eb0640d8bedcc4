-- ===== src/Limits/Split.antt =====
-- `_split_bytes` of backend/app/cost/limits.py: a chapter in pieces that fit an input limit. A text is
-- a list of characters; the walk back over continuation bytes ends at the last whole character that
-- fits.
use reading_companion.Prelude.{
  ℕ, zero, suc, ◌+◌, ◌-◌, ◌/◌, max, Bool, true, false, ◌&&◌, List, [], ◌∷◌, ◌++◌, total, length,
  ◌==◌, leb, if◌then◌else◌, Result, ok, err, ◌>>◌, require, Option, none, some, ltb,
}
use reading_companion.Passages.{take, drop, join}
use Prim.Native.Char.{Char, code, len_utf8}

pub data SplitError : Type 0 where
  limit_too_small metadata_exceeds_ceiling unfinished : SplitError

abbrev pub bytes : List Char → ℕ
bytes text = total len_utf8 text

-- `raw[:cut].decode()`: the whole characters within the limit
abbrev pub take_fit : ℕ → List Char → List Char
take_fit limit [] = []
take_fit limit (c ∷ cs) =
    let rest = take_fit (limit - len_utf8 c) cs in if leb (len_utf8 c) limit then c ∷ rest else []

abbrev pub is_newline : Char → Bool
is_newline c = code c == 10

abbrev pub is_blank : Char → Bool
is_blank c = code c == 32

abbrev pub begins_newline : List Char → Bool
begins_newline [] = false
begins_newline (c ∷ cs) = is_newline c

-- `rfind` of one character and of two newlines, each plus 1: 0 where there is none
abbrev pub after_last : (Char → Bool) → List Char → ℕ
after_last p [] = 0
after_last p (c ∷ cs) =
    let later = after_last p cs in if later == 0 then (if p c then 1 else 0) else suc later

abbrev pub after_pair : List Char → ℕ
after_pair [] = 0
after_pair (c ∷ cs) =
    let later = after_pair cs in
    if later == 0 then (if is_newline c && begins_newline cs then 1 else 0) else suc later

-- the last paragraph, line or word boundary, plus 1, and the text up to it if that is no tiny chunk
abbrev pub boundary : List Char → ℕ
boundary candidate =
    max (after_pair candidate)
      (max (after_last is_newline candidate) (after_last is_blank candidate))

abbrev pub shortened : List Char → List Char
shortened candidate =
    if leb (suc (max 1 (length candidate / 2))) (boundary candidate)
    then take (boundary candidate) candidate
    else candidate

abbrev pub is_empty : List Char → Bool
is_empty [] = true
is_empty (c ∷ cs) = false

abbrev pub add_chunk :
    List Char → Result SplitError (List (List Char)) → Result SplitError (List (List Char))
add_chunk chunk (err e) = err e
add_chunk chunk (ok chunks) = ok (chunk ∷ chunks)

-- the `while remaining` loop, on fuel
unfoldable pub chunks_from : ℕ → (fuel : ℕ) → List Char → Result SplitError (List (List Char))
chunks_from limit zero remaining = err unfinished
chunks_from limit (suc fuel) remaining =
    let chunk = shortened (take_fit limit remaining) in
    let rest = chunks_from limit fuel (drop (length chunk) remaining) in
    if is_empty remaining
    then ok []
    else if leb (bytes remaining) limit
    then ok (remaining ∷ [])
    else if is_empty chunk
    then err limit_too_small
    else add_chunk chunk rest

unfoldable pub split_bytes : List Char → ℕ → Result SplitError (List (List Char))
split_bytes text limit =
    if leb (bytes text) limit then ok (text ∷ []) else chunks_from limit (suc (length text)) text

-- `estimate_input_tokens`; `schema` is the size of the schema in JSON
unfoldable pub estimate_input_tokens : (system user : List Char) → (schema : Option ℕ) → ℕ
estimate_input_tokens system user none = bytes system + bytes user + 0 + 64
estimate_input_tokens system user (some schema_bytes) =
    bytes system + bytes user + schema_bytes + 64

unfoldable pub split_text_for_prompt :
    (text prompt_without_text system : List Char)
    → (max_input_tokens : ℕ) → (schema : Option ℕ) → Result SplitError (List (List Char))
split_text_for_prompt text prompt_without_text system max_input_tokens schema = do
  let overhead = estimate_input_tokens system prompt_without_text schema
  require (ltb overhead max_input_tokens) metadata_exceeds_ceiling
  split_bytes text (max_input_tokens - overhead)

-- an extraction of one piece; each item is of the caller's type
pub record Extraction (A : Type 0) : Type 0 where
  pub chapter_summary : List Char
  pub entities : List A
  pub relationships : List A
  pub events : List A
  pub themes : List A

abbrev pub gather : {A : Type 0} → (Extraction A → List A) → List (Extraction A) → List A
gather field [] = []
gather field (p ∷ parts) = field p ++ gather field parts

-- the stripped summaries that are not empty, with a blank between them
abbrev pub summaries :
    {A : Type 0} → (strip : List Char → List Char) → List (Extraction A) → List (List Char)
summaries strip [] = []
summaries strip (p ∷ parts) =
    let rest = summaries strip parts in
    if is_empty (strip p.chapter_summary) then rest else strip p.chapter_summary ∷ rest

unfoldable pub merge_extractions :
    {A : Type 0} → (strip : List Char → List Char) → List (Extraction A) → Option (Extraction A)
merge_extractions strip [] = none
merge_extractions strip (p ∷ parts) = some (record {
  chapter_summary = join (summaries strip (p ∷ parts));
  entities = gather (λ q. q.entities) (p ∷ parts);
  relationships = gather (λ q. q.relationships) (p ∷ parts);
  events = gather (λ q. q.events) (p ∷ parts);
  themes = gather (λ q. q.themes) (p ∷ parts);
})

abbrev pub concat : List (List Char) → List Char
concat [] = []
concat (c ∷ chunks) = c ++ concat chunks
