-- ===== src/Recaps.antt =====
-- The recap registry of backend/app/lifecycle_cache.py: two bounded maps in the order of their last
-- use, the cleared recaps and the recent failures. An instant is a number of ticks. The optional
-- checkpoint file is left out.
pub mod Bounds
pub mod Flights
pub mod Slots
mod Tests
use reading_companion.Prelude.{
  ℕ, ◌+◌, String, Bool, true, false, not, ◌&&◌, Option, none, some, List, [], ◌∷◌, ◌++◌, str_eq,
  leb, ltb, length, keep, find, if◌then◌else◌,
}

pub record Key : Type 0 where
  pub book_id : String
  pub incarnation : String
  pub digest : String

abbrev pub same_key : Key → Key → Bool
same_key k l =
    str_eq k.book_id l.book_id && str_eq k.incarnation l.incarnation && str_eq k.digest l.digest

module _ {A : Type 0} where
  abbrev pub holds : Key → Key × A → Bool
  holds key entry = same_key entry.0 key

  abbrev pub without : Key → List (Key × A) → List (Key × A)
  without key m = keep (λ entry. not (holds key entry)) m

  -- `mapping[key] = value` and `move_to_end`
  abbrev pub latest : Key → A → List (Key × A) → List (Key × A)
  latest key value m = without key m ++ ((key, value) ∷ [])

  -- `_trim`: the entries that were used longest ago go
  unfoldable pub trim : ℕ → List (Key × A) → List (Key × A)
  trim limit [] = []
  trim limit (entry ∷ m) =
      let rest = trim limit m in if ltb limit (length (entry ∷ m)) then rest else entry ∷ m

pub record Registry (A : Type 0) : Type 0 where
  pub max_entries : ℕ
  pub max_failures : ℕ
  pub cache : List (Key × A)
  pub failed : List (Key × ℕ)

module _ {A : Type 0} where
  -- `get`, for the entry that it found
  abbrev pub hit : Key → Option (Key × A) → Registry A → Option A × Registry A
  hit key none r = (none, r)
  hit key (some entry) r = (some entry.1, record r { cache = latest key entry.1 r.cache })

  unfoldable pub get : Key → Registry A → Option A × Registry A
  get key r = hit key (find (holds key) r.cache) r

  unfoldable pub set : Key → A → Registry A → Registry A
  set key value r = record r { cache = trim r.max_entries (latest key value r.cache) }

  -- `failure_recent`, for the failure that it found
  abbrev pub failed_at : Key → (ttl now : ℕ) → Option (Key × ℕ) → Registry A → Bool × Registry A
  failed_at key ttl now none r = (false, r)
  failed_at key ttl now (some entry) r =
      if leb (entry.1 + ttl) now
      then (false, record r { failed = without key r.failed })
      else (true, record r { failed = latest key entry.1 r.failed })

  unfoldable pub failure_recent : Key → (ttl now : ℕ) → Registry A → Bool × Registry A
  failure_recent key ttl now r = failed_at key ttl now (find (holds key) r.failed) r

  unfoldable pub mark_failed : Key → (at : ℕ) → Registry A → Registry A
  mark_failed key at r = record r { failed = trim r.max_failures (latest key at r.failed) }

  unfoldable pub clear_failed : Key → Registry A → Registry A
  clear_failed key r = record r { failed = without key r.failed }

  unfoldable pub invalidate_book : String → Registry A → Registry A
  invalidate_book book r = record r {
    cache = keep (λ entry. not (str_eq entry.0.book_id book)) r.cache;
    failed = keep (λ entry. not (str_eq entry.0.book_id book)) r.failed;
  }
