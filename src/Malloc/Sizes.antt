-- ===== src/Malloc/Sizes.antt =====
-- The sizes of blocks: hw3/src/helpingFunction.c.
pub mod Bounds
use cse_320_repository.Base.{
  ℕ, zero, suc, ◌+◌, ◌-◌, ◌*◌, ◌/◌, ◌%◌, ◌^◌, ◌==◌, Bool, true, false, ◌&&◌, if◌then◌else◌, ltb,
  leb, Option, none, some,
}

-- `pow2`: the sum doubles in each round.
unfoldable pub double_loop : (rounds sum : ℕ) → ℕ
double_loop zero sum = sum
double_loop (suc rounds) sum = double_loop rounds (sum * 2)

-- Is the size within the bounds of the free list `i`? `pow2 (-1)` is 1, as `pow2 0`.
unfoldable pub in_class : (size i : ℕ) → Bool
in_class size zero =
    if leb size 32 then true else ltb (32 * double_loop 0 1) size && leb size (32 * double_loop 0 1)
in_class size (suc i) = ltb (32 * double_loop i 1) size && leb size (32 * double_loop (suc i) 1)

-- The rounds of the loop that are left; list 6 takes what is larger.
unfoldable pub index_loop : (rounds size i : ℕ) → ℕ
index_loop zero size i = 6
index_loop (suc rounds) size i =
    let rest = index_loop rounds size (i + 1) in
    if i == 6 then i else if in_class size i then i else rest

unfoldable pub compute_memory_index : ℕ → ℕ
compute_memory_index size = index_loop 7 size 0

abbrev pub size_mod : ℕ
size_mod = 2 ^ 64

-- `multiple` is an `int`, and so is its product with 16; `none` is a product that does not fit.
unfoldable pub compute_memory_size : ℕ → Option ℕ
compute_memory_size size = if size % 16 == 0 then some size else product ((size / 16 + 1) % 2 ^ 32)
  where
    product : ℕ → Option ℕ
    product multiple =
        if ltb multiple (2 ^ 27)
        then some (multiple * 16)
        else if leb (2 ^ 32 - 2 ^ 27) multiple
        then some (size_mod - (2 ^ 32 - multiple) * 16)
        else none

-- The size of the block for a request, in `sf_malloc` and `sf_realloc`.
unfoldable pub adjusted_size : ℕ → Option ℕ
adjusted_size size = if leb size 24 then some 32 else compute_memory_size ((size + 8) % size_mod)

unfoldable pub multiple_of16 : ℕ → Bool
multiple_of16 num = num % 16 == 0

-- The rounds of the loop in `power_of2`, which halves while the size is more than 1.
unfoldable pub halving_loop : (fuel working counter : ℕ) → ℕ
halving_loop zero working counter = counter
halving_loop (suc fuel) working counter =
    let rest = halving_loop fuel (working / 2) (counter + 1) in
    if ltb 1 working then rest else counter

-- `workingSize` is an `int`: where it is negative the loop does not run.
unfoldable pub power_of2 : ℕ → Bool
power_of2 size =
    let working = size % 2 ^ 32 in
    let counter = if ltb working (2 ^ 31) then halving_loop 31 working 0 else 0 in
    double_loop counter 1 == size
