-- ===== src/Limits/SplitTests.antt =====
-- A text of five characters in pieces of three.
use reading_companion.Prelude.{◌≡◌, ◌≤◌, ◌+◌, refl, none, List, [], ◌∷◌, All, ok, arith}
use reading_companion.Limits.Split.{split_text_for_prompt, estimate_input_tokens, concat, bytes}
use reading_companion.Limits.Pieces.{split_text_for_prompt-whole}
use Prim.Native.Char.{Char}

abbrev text : List Char
text = "a" ∷ "b" ∷ " " ∷ "c" ∷ "d" ∷ []

abbrev prompt : List Char
prompt = "p" ∷ []

split_text_for_prompt-whole_example :
    (chunks : List (List Char)) × (split_text_for_prompt text prompt [] 68 none ≡ ok chunks)
    × (concat chunks ≡ text)
    × All (λ c. estimate_input_tokens [] prompt none + bytes c ≤ 68) chunks
unfolding estimate_input_tokens
split_text_for_prompt-whole_example =
    split_text_for_prompt-whole text prompt [] 68 none (omega arith) refl
