-- ===== src/Bdd/Options/Parsed.antt =====
-- The options of `validargs` in hw1/src/birp.c on the arguments of a request, each in its turn.
use cse_320_repository.Base.{
  ==_eq, ge→ltb, ℕ, ◌-◌, ◌%◌, ◌<◌, ◌≤◌, ◌==◌, ==_iff, all_below, all_below-true, true, false,
  Option, none, some, List, [], ◌∷◌, ◌++◌, Text, codes, ◌≡◌, refl, ap, arith,
}
use cse_320_repository.Bdd.Options.{
  Flags, Reading, compare_string, sum_digits, string_to_integer, validate_number_string,
  integer_to_2_complement, negative_byte, read_input, read_output, begin_transformation, read_plain,
  read_number, read_parameter, read_zoom_out, read_option, parse_args,
}
use cse_320_repository.Bdd.Options.Requests.{
  InputFormat, OutputFormat, Transformation, decimal, input_args, output_args, transformation_args,
  input_code, output_code, InRange, FromBirp, identity, negate, rotate, threshold, zoom_out,
  zoom_in,
}

-- Facts about bytes, by evaluation.
valid_table : all_below 256 (λ n. validate_number_string (decimal n)) ≡ true
unfolding all_below validate_number_string
valid_table = refl

value_table : all_below 256 (λ n. string_to_integer (decimal n) == n) ≡ true
unfolding all_below string_to_integer sum_digits
value_table = refl

negative_table : all_below 17 (λ n. negative_byte n == (256 - n) % 256) ≡ true
unfolding all_below integer_to_2_complement
negative_table = refl

pub decimal-valid : (n : ℕ) → n < 256 → validate_number_string (decimal n) ≡ true
decimal-valid n h = all_below-true 256 (λ n. validate_number_string (decimal n)) n valid_table h

pub decimal-value : (n : ℕ) → n < 256 → string_to_integer (decimal n) ≡ n
decimal-value n h =
    (==_iff (string_to_integer (decimal n)) n).0
      (all_below-true 256 (λ n. string_to_integer (decimal n) == n) n value_table h)

pub negative_byte_lem : (n : ℕ) → n ≤ 16 → negative_byte n ≡ (256 - n) % 256
negative_byte_lem n h =
    (==_iff (negative_byte n) ((256 - n) % 256)).0
      (all_below-true 17 (λ n. negative_byte n == (256 - n) % 256) n negative_table (omega arith))

-- The rounds of the loop.
parse_args-taken :
    (arg next : Text) (args : List Text) (o t : Flags)
    → read_option arg (some next) o ≡ some (t, true)
    → parse_args (arg ∷ next ∷ args) o ≡ parse_args args t
unfolding parse_args
parse_args-taken arg next args o t e =
    ap
      (λ (r : Reading). elim r [
        | none ↦ none
        | some (u, false) ↦ parse_args (next ∷ args) u
        | some (u, true) ↦ parse_args args u
      ])
      e

parse_args-last :
    (arg : Text) (o t : Flags)
    → read_option arg none o ≡ some (t, false)
    → parse_args (arg ∷ []) o ≡ some t
unfolding parse_args
parse_args-last arg o t e =
    ap (λ (r : Reading). elim r [ none ↦ none | some (u, taken) ↦ some u ]) e

-- The flags after the formats.
abbrev pub with_input : Option InputFormat → Flags → Flags
with_input none o = o
with_input (some f) o = record o { input_set = true; input_value = input_code (some f) }

abbrev pub with_output : Option OutputFormat → Flags → Flags
with_output none o = o
with_output (some f) o = record o { output_set = true; output_value = output_code (some f) }

pub parse_args-input :
    (f : Option InputFormat) (args : List Text) (o : Flags)
    → o.input_set ≡ false
    → parse_args (input_args f ++ args) o ≡ parse_args args (with_input f o)
unfolding read_option read_input compare_string
parse_args-input none args o fresh = refl
parse_args-input (some InputFormat.pgm) args o fresh =
    parse_args-taken (codes "-i") (codes "pgm") args o _ (rw fresh refl)
parse_args-input (some InputFormat.birp) args o fresh =
    parse_args-taken (codes "-i") (codes "birp") args o _ (rw fresh refl)

pub parse_args-output :
    (f : Option OutputFormat) (args : List Text) (o : Flags)
    → o.output_set ≡ false
    → parse_args (output_args f ++ args) o ≡ parse_args args (with_output f o)
unfolding read_option read_output compare_string
parse_args-output none args o fresh = refl
parse_args-output (some OutputFormat.pgm) args o fresh =
    parse_args-taken (codes "-o") (codes "pgm") args o _ (rw fresh refl)
parse_args-output (some OutputFormat.birp) args o fresh =
    parse_args-taken (codes "-o") (codes "birp") args o _ (rw fresh refl)
parse_args-output (some OutputFormat.ascii) args o fresh =
    parse_args-taken (codes "-o") (codes "ascii") args o _ (rw fresh refl)

begin_transformation_lem :
    (value : ℕ) (o : Flags)
    → o.input_value ≡ 2
    → o.output_value ≡ 2
    → o.transformation_set ≡ false
    → begin_transformation value o
      ≡ some (record o {
        input_set = true;
        output_set = true;
        transformation_set = true;
        transformation_value = value;
      })
unfolding begin_transformation
begin_transformation_lem value o i p fresh = rw (begin_transformation, ==_eq i, ==_eq p, fresh) refl

abbrev pub begun : ℕ → Flags → Flags
begun value o = record o {
  input_set = true;
  output_set = true;
  transformation_set = true;
  transformation_value = value;
}

-- The flags after the transformation.
abbrev pub with_transformation : Transformation → Flags → Flags
with_transformation identity o = o
with_transformation negate o = begun 1 o
with_transformation rotate o = begun 4 o
with_transformation (threshold n) o = record (begun 2 o) { parameter_value = n }
with_transformation (zoom_out n) o = record (begun 3 o) { parameter_value = (256 - n) % 256 }
with_transformation (zoom_in n) o = record (begun 3 o) { parameter_value = n }

pub read_number_lem :
    (bound n : ℕ) (o : Flags)
    → bound < 256
    → n ≤ bound
    → read_number bound (decimal n) o ≡ some (record o { parameter_value = n }, true)
unfolding read_number
read_number_lem bound n o small h =
    rw (read_number, decimal-value n (omega arith), ge→ltb bound n h) refl

read_plain_lem :
    (value : ℕ) (o t : Flags)
    → begin_transformation value o ≡ some t
    → read_plain value o ≡ some (t, false)
unfolding read_plain
read_plain_lem value o t e = rw (read_plain, e) refl

read_parameter_lem :
    (value bound n : ℕ) (o t : Flags)
    → bound < 256
    → n ≤ bound
    → begin_transformation value o ≡ some t
    → read_parameter value bound (some (decimal n)) o
      ≡ some (record t { parameter_value = n }, true)
unfolding read_parameter
read_parameter_lem value bound n o t small h e =
    rw (read_parameter, e, decimal-valid n (omega arith), read_number_lem bound n t small h) refl

read_zoom_out_lem :
    (n : ℕ) (o t : Flags)
    → n ≤ 16
    → begin_transformation 3 o ≡ some t
    → read_zoom_out (some (decimal n)) o
      ≡ some (record t { parameter_value = (256 - n) % 256 }, true)
unfolding read_zoom_out
read_zoom_out_lem n o t h e =
    rw
      (
        read_zoom_out,
        e,
        decimal-valid n (omega arith),
        read_number_lem 16 n t (omega arith) h,
        negative_byte_lem n h,
      )
      refl

pub parse_args-transformation :
    (t : Transformation) (o : Flags)
    → InRange t
    → FromBirp t o.input_value o.output_value
    → o.transformation_set ≡ false
    → parse_args (transformation_args t) o ≡ some (with_transformation t o)
unfolding parse_args read_option compare_string
parse_args-transformation identity o h birp fresh = refl
parse_args-transformation negate o h (i, p) fresh =
    parse_args-last (codes "-n") o _ (read_plain_lem 1 o _ (begin_transformation_lem 1 o i p fresh))
parse_args-transformation rotate o h (i, p) fresh =
    parse_args-last (codes "-r") o _ (read_plain_lem 4 o _ (begin_transformation_lem 4 o i p fresh))
parse_args-transformation (threshold n) o h (i, p) fresh =
    parse_args-taken (codes "-t") (decimal n) [] o _
      (read_parameter_lem 2 255 n o _ (omega arith) h (begin_transformation_lem 2 o i p fresh))
parse_args-transformation (zoom_out n) o h (i, p) fresh =
    parse_args-taken (codes "-z") (decimal n) [] o _
      (read_zoom_out_lem n o _ h (begin_transformation_lem 3 o i p fresh))
parse_args-transformation (zoom_in n) o h (i, p) fresh =
    parse_args-taken (codes "-Z") (decimal n) [] o _
      (read_parameter_lem 3 16 n o _ (omega arith) h (begin_transformation_lem 3 o i p fresh))
