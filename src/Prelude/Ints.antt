-- ===== src/Prelude/Ints.antt =====
-- Python's `int` as an integer over the native numbers; `negsuc n` is -(n + 1).
use Prim.Native.Nat.{ℕ}
use mathlib.Core.Bool.{Bool, false}
use Prim.Native.String.{String}
use reading_companion.Prelude.Bools.{leb}

pub data ℤ : Type 0 where
  pos : ℕ → ℤ
  negsuc : ℕ → ℤ

-- `n <= z` for a natural number `n`
abbrev pub leb_int : ℕ → ℤ → Bool
leb_int n (pos m) = leb n m
leb_int n (negsuc m) = false

-- a value that a caller passes, of whichever Python type
pub data Value : Type 0 where
  int : ℤ → Value
  boolean : Bool → Value
  string : String → Value
  real : String → Value
  null : Value
