-- ===== src/Bdd/Options.antt =====
-- The command line of hw1: `validargs` of hw1/src/birp.c and the texts of hw1/src/helpingFunctions.c. The
-- arguments are those behind the name of the program. An `int` is its pattern of 32 bits, and its
-- arithmetic wraps around; a negative one is above any bound that is tested.
pub mod Requests
pub mod Parsed
pub mod Requested
pub mod Number
pub mod Encoded
pub mod Kept
pub mod Begun
pub mod Accepted
pub mod Tests
use Prim.Native.Nat.{bit_and, bit_or}
use cse_320_repository.Base.{
  ℕ, zero, suc, ◌+◌, ◌-◌, ◌*◌, ◌%◌, ◌^◌, ltb, leb, ◌==◌, if◌then◌else◌, Bool, true, false, not,
  ◌&&◌, ◌||◌, Option, none, some, List, [], ◌∷◌, Text, codes, length,
}

abbrev pub compare_chars : Text → Text → Bool
compare_chars [] ys = true
compare_chars (x ∷ xs) [] = false
compare_chars (x ∷ xs) (y ∷ ys) = (x == y) && compare_chars xs ys

unfoldable pub compare_string : Text → Text → Bool
compare_string str1 str2 = if length str1 == length str2 then compare_chars str1 str2 else false

abbrev pub int_mod : ℕ
int_mod = 2 ^ 32

-- From the last digit to the first: the multiplier and the sum.
unfoldable pub sum_digits : Text → ℕ × ℕ
sum_digits [] = (1, 0)
sum_digits (c ∷ cs) =
    let (multiplier, sum) = sum_digits cs in
    (multiplier * 10 % int_mod, (sum + multiplier * (c + int_mod - b'0')) % int_mod)

unfoldable pub string_to_integer : Text → ℕ
string_to_integer str = let (multiplier, sum) = sum_digits str in sum

unfoldable pub validate_number_string : Text → Bool
validate_number_string [] = true
validate_number_string (c ∷ cs) = leb b'0' c && leb c b'9' && validate_number_string cs

-- `~num + 1`.
unfoldable pub integer_to_2_complement : ℕ → ℕ
integer_to_2_complement num = (int_mod - 1 - num + 1) % int_mod

-- The variables of the loop.
pub record Flags : Type 0 where
  pub input_set : Bool
  pub output_set : Bool
  pub transformation_set : Bool
  pub input_value : ℕ
  pub output_value : ℕ
  pub transformation_value : ℕ
  pub parameter_value : ℕ

abbrev pub no_flags : Flags
no_flags = record {
  input_set = false;
  output_set = false;
  transformation_set = false;
  input_value = 2;
  output_value = 2;
  transformation_value = 0;
  parameter_value = 0;
}

-- The flags after an option, and whether it has taken the next argument; empty for a return of -1.
abbrev pub Reading : Type 0
Reading = Option (Flags × Bool)

unfoldable pub read_input : Option Text → Flags → Reading
read_input next o = if o.input_set then none else elim next [
  | none ↦ none
  | some format ↦
      if compare_string format (codes "birp")
      then some (record o { input_value = 2; input_set = true }, true)
      else if compare_string format (codes "pgm")
      then some (record o { input_value = 1; input_set = true }, true)
      else none
]

unfoldable pub read_output : Option Text → Flags → Reading
read_output next o = if o.output_set then none else elim next [
  | none ↦ none
  | some format ↦
      if compare_string format (codes "birp")
      then some (record o { output_value = 2; output_set = true }, true)
      else if compare_string format (codes "pgm")
      then some (record o { output_value = 1; output_set = true }, true)
      else if compare_string format (codes "ascii")
      then some (record o { output_value = 3; output_set = true }, true)
      else none
]

-- A transformation ends the formats, which have to be birp, and is the only one.
unfoldable pub begin_transformation : (value : ℕ) → Flags → Option Flags
begin_transformation value o =
    if not (o.input_value == 2) || not (o.output_value == 2)
    then none
    else if o.transformation_set
    then none
    else some (record o {
      input_set = true;
      output_set = true;
      transformation_set = true;
      transformation_value = value;
    })

unfoldable pub read_plain : (value : ℕ) → Flags → Reading
read_plain value o = elim (begin_transformation value o) [ none ↦ none | some t ↦ some (t, false) ]

-- A parameter between 0 and a bound.
unfoldable pub read_number : (bound : ℕ) → Text → Flags → Reading
read_number bound number o =
    if ltb bound (string_to_integer number)
    then none
    else some (record o { parameter_value = string_to_integer number }, true)

-- The options `-t` and `-Z` want a number.
unfoldable pub read_parameter : (value bound : ℕ) → Option Text → Flags → Reading
read_parameter value bound next o = elim (begin_transformation value o) [
  | none ↦ none
  | some t ↦ elim next [
    | none ↦ none
    | some number ↦ if validate_number_string number then read_number bound number t else none
  ]
]

abbrev pub negative_byte : ℕ → ℕ
negative_byte n = bit_and (integer_to_2_complement n) 0xff

-- The option `-z` goes on where the next argument is no number.
unfoldable pub read_zoom_out : Option Text → Flags → Reading
read_zoom_out next o = elim (begin_transformation 3 o) [
  | none ↦ none
  | some t ↦ elim next [
    | none ↦ none
    | some number ↦
        if validate_number_string number
        then elim (read_number 16 number t) [
          | none ↦ none
          | some (u, taken) ↦
              some (record u { parameter_value = negative_byte u.parameter_value }, taken)
        ]
        else some (t, false)
  ]
]

unfoldable pub read_option : Text → Option Text → Flags → Reading
read_option arg next o =
    if compare_string arg (codes "-h")
    then none
    else if compare_string arg (codes "-i")
    then read_input next o
    else if compare_string arg (codes "-o")
    then read_output next o
    else if compare_string arg (codes "-n")
    then read_plain 1 o
    else if compare_string arg (codes "-r")
    then read_plain 4 o
    else if compare_string arg (codes "-t")
    then read_parameter 2 255 next o
    else if compare_string arg (codes "-z")
    then read_zoom_out next o
    else if compare_string arg (codes "-Z")
    then read_parameter 3 16 next o
    else none

-- The loop over the arguments.
unfoldable pub parse_args : List Text → Flags → Option Flags
parse_args [] o = some o
parse_args (arg ∷ []) o = elim (read_option arg none o) [ none ↦ none | some (t, taken) ↦ some t ]
parse_args (arg ∷ next ∷ args) o = elim (read_option arg (some next) o) [
  | none ↦ none
  | some (t, false) ↦ parse_args (next ∷ args) t
  | some (t, true) ↦ parse_args args t
]

-- `global_options` from the values.
unfoldable pub assemble : Flags → ℕ
assemble o =
    bit_or
      (bit_or (bit_or (bit_or 0 (o.parameter_value * 2 ^ 16)) (o.transformation_value * 2 ^ 8))
        (o.output_value * 2 ^ 4))
      o.input_value

-- The new `global_options`, or nothing for -1.
unfoldable pub validargs : List Text → Option ℕ
validargs [] = some 0x22
validargs (arg ∷ args) =
    if compare_string arg (codes "-h")
    then some 0x80000000
    else elim (parse_args (arg ∷ args) no_flags) [ none ↦ none | some o ↦ some (assemble o) ]
