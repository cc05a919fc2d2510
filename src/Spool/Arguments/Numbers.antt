-- ===== src/Spool/Arguments/Numbers.antt =====
-- `string2Integer` of hw4/src/helpingFunction.c on the numbers of jobs.
use cse_320_repository.Base.{
  ℕ, ◌+◌, ◌/◌, ◌%◌, ◌<◌, ltb, if◌then◌else◌, some, [], ◌∷◌, Text, ◌≡◌, arith,
}
use cse_320_repository.Spool.Arguments.{string_to_integer}

-- The decimal digits of a number below 100.
abbrev pub decimal : ℕ → Text
decimal n = if ltb n 10 then (b'0' + n) ∷ [] else (b'0' + n / 10) ∷ (b'0' + n % 10) ∷ []

-- A number that is read is the index of a job.
pub string_to_integer-bound : (str : Text) {n : ℕ} → string_to_integer str ≡ some n → n < 64
unfolding string_to_integer
string_to_integer-bound str h = ground arith

-- string2Integer reads each number below 64 from its decimal digits.
pub string_to_integer-decimal : (n : ℕ) → n < 64 → string_to_integer (decimal n) ≡ some n
unfolding string_to_integer
string_to_integer-decimal n h = ground arith
