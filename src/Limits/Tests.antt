-- ===== src/Limits/Tests.antt =====
-- A bill that a provider sends, and the reservation that was made for it.
use reading_companion.Prelude.{
  ◌≤◌, ◌≡◌, ◌*◌, ◌+◌, refl, String, Bool, true, false, str_eq, int, pos, boolean, arith, ◌&&◌,
}
use reading_companion.Limits.{
  Reported, usd_of, reserved_usd_of, find_price, usd_at, cost_with, completion_usage,
}
use reading_companion.Limits.Cover.{reservation_covers}

-- string tests that know one identity of each kind
abbrev last_part_is : String → String → Bool
last_part_is name identity = str_eq identity "openai:gpt-6-luna" && str_eq name "gpt-6-luna"

abbrev contains : String → String → Bool
contains name identity = str_eq name identity

abbrev is_fast : String → Bool
is_fast identity = false

abbrev reserved : Reported
reserved = record {
  input = 300000;
  output = 4000;
  cache_read = int (pos 0);
  cache_write = int (pos 0);
}

-- the count of tokens read from the cache is no number
abbrev malformed : Reported
malformed = record {
  input = 280000;
  output = 1000;
  cache_read = boolean true;
  cache_write = int (pos 0);
}

-- 280000 tokens at 125000, twice for the long context, and 1000 at 500000, one and a half times
malformed_bill :
    usd_of last_part_is contains is_fast "openai:gpt-6-luna" malformed
    ≡ (280000 * 125000 * 2) * 2 + 1000 * 500000 * 3
unfolding usd_of find_price usd_at cost_with completion_usage
malformed_bill = refl

reservation_covers_example :
    usd_of last_part_is contains is_fast "openai:gpt-6-luna" malformed
    ≤ reserved_usd_of last_part_is contains is_fast "openai:gpt-6-luna" reserved
reservation_covers_example =
    reservation_covers last_part_is contains is_fast "openai:gpt-6-luna" reserved malformed
      (omega arith) (omega arith)
