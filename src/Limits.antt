-- ===== src/Limits.antt =====
-- The pricing of backend/app/cost/limits.py. An amount is a number of half picodollars, in which every
-- price and every premium of the table is exact. The string tests of `_price_name` and the prefix
-- test on `fast:` are parameters.
pub mod Cover
pub mod Split
pub mod Pieces
mod Tests
mod SplitTests
use reading_companion.Prelude.{
  ℕ, ◌+◌, ◌-◌, ◌*◌, String, Bool, true, false, Option, none, some, List, [], ◌∷◌, leb, ltb,
  if◌then◌else◌, Value, int, pos, ◌||◌,
}

-- what a provider reports; a missing cache count is 0
pub record Reported : Type 0 where
  pub input : ℕ
  pub output : ℕ
  pub cache_read : Value
  pub cache_write : Value

pub record Actual : Type 0 where
  pub input : ℕ
  pub output : ℕ
  pub cache_read : ℕ
  pub cache_write : ℕ

-- a value that passes `isinstance(value, int)`, is no bool and is not negative
abbrev pub as_count : Value → Option ℕ
as_count (int (pos n)) = some n
as_count _ = none

abbrev pub split_of : ℕ → Option ℕ → Option ℕ → ℕ × ℕ
split_of n (some read) (some write) = if leb (read + write) n then (read, write) else (0, n)
split_of n _ _ = (0, n)

unfoldable pub completion_usage : Reported → Actual
completion_usage u =
    let s = split_of u.input (as_count u.cache_read) (as_count u.cache_write) in
    record { input = u.input; output = u.output; cache_read = s.0; cache_write = s.1 }

-- picodollars a token; `cache` is the pair of `_CACHE_INPUT_USD`
pub record Price : Type 0 where
  pub input : ℕ
  pub output : ℕ
  pub cache : Option (ℕ × ℕ)

abbrev pub price : ℕ → ℕ → Price
price i o = record { input = i; output = o; cache = none }

abbrev pub cached : ℕ → ℕ → ℕ → ℕ → Price
cached i o read write = record { input = i; output = o; cache = some (read, write) }

-- `_USD`, in its order
abbrev pub prices : List (String × Price)
prices =
    ("jev-1.13.0", price 42000 0)
    ∷ ("jev-1.14.0", price 42000 0)
    ∷ ("gpt-6-luna", cached 100000 500000 10000 125000)
    ∷ ("gpt-6.1-sol", cached 2000000 10000000 100000 2500000)
    ∷ ("gpt-5.4-mini", price 750000 4500000)
    ∷ ("gpt-5.4", price 2500000 15000000)
    ∷ ("gpt-4o-mini", price 150000 600000)
    ∷ ("gpt-4o", price 2500000 10000000)
    ∷ ("text-embedding-3-small", price 20000 0)
    ∷ []

-- `input_scale` and twice `output_scale`
abbrev pub input_scale : ℕ → ℕ
input_scale n = if ltb 272000 n then 2 else 1

abbrev pub output_scale : ℕ → ℕ
output_scale n = if ltb 272000 n then 3 else 2

abbrev pub speed : Bool → ℕ → ℕ
speed fast n = if fast then n * 2 else n

-- the three rates of an input that the cache has divided, and the output
abbrev pub charge : Bool → Price → (read write n out : ℕ) → ℕ × ℕ → ℕ
charge fast p read write n out s =
    ((n - s.0 - s.1) * speed fast p.input + s.0 * speed fast read + s.1 * speed fast write)
      * input_scale n
      * 2
    + out * speed fast p.output * output_scale n

-- `usd_of`, for the price that the model has
unfoldable pub cost_with : Bool → Price → Option (ℕ × ℕ) → Reported → ℕ
unfolding completion_usage
cost_with fast p none u = (u.input * speed fast p.input + u.output * speed fast p.output) * 2
cost_with fast p (some (read, write)) u =
    let a = completion_usage u in
    charge fast p read write a.input a.output (a.cache_read, a.cache_write)

unfoldable pub usd_at : Bool → Option Price → Reported → ℕ
usd_at fast none u = 0
usd_at fast (some p) u = cost_with fast p p.cache u

-- `reserved_usd_of`: the whole input at the price of a cache write
abbrev pub worst_case : Reported → Reported
worst_case u = record u { cache_read = int (pos 0); cache_write = int (pos u.input) }

module _ (last_part_is contains : (name identity : String) → Bool) where
  abbrev pub names : String → String × Price → Bool
  names identity (name, p) = elim p.cache [
    | none ↦ contains name identity
    | some c ↦ last_part_is name identity
  ]

  unfoldable pub find_price : String → List (String × Price) → Option Price
  find_price identity [] = none
  find_price identity (x ∷ xs) =
      let rest = find_price identity xs in if names identity x then some x.1 else rest

  module _ (is_fast : String → Bool) where
    unfoldable pub usd_of : String → Reported → ℕ
    usd_of model u = usd_at (is_fast model) (find_price model prices) u

    -- for a price without a cache rate the cache counts are not read
    unfoldable pub reserved_usd_of : String → Reported → ℕ
    reserved_usd_of model u = usd_at (is_fast model) (find_price model prices) (worst_case u)

  unfoldable pub pricing_known : (starts_stub : String → Bool) → String → Bool
  pricing_known starts_stub identity =
      starts_stub identity || elim (find_price identity prices) [ none ↦ false | some p ↦ true ]
