-- ===== src/Bdd/Options/Tests.antt =====
-- `validargs` of hw1/src/birp.c at concrete command lines.
use cse_320_repository.Base.{ℕ, true, none, some, List, [], ◌∷◌, Text, codes, ◌≡◌, ◌⊎◌, refl, arith}
use cse_320_repository.Bdd.Options.{
  compare_string, sum_digits, string_to_integer, validate_number_string, integer_to_2_complement,
  read_input, read_output, begin_transformation, read_plain, read_number, read_parameter,
  read_zoom_out, read_option, parse_args, assemble, validargs,
}
use cse_320_repository.Bdd.Options.Requests.{
  OutputFormat, Request, request_args, IsMeaningful, IsEncoded, zoom_out,
}
use cse_320_repository.Bdd.Options.Encoded.{validargs-IsEncoded}
use cse_320_repository.Bdd.Options.Accepted.{validargs-IsRequest}

-- `birp -o birp -z 5`.
abbrev zoomed_out : Request
zoomed_out = record {
  input = none;
  output = some OutputFormat.birp;
  output_first = true;
  transformation = zoom_out 5;
}

zoomed_out-IsMeaningful : IsMeaningful zoomed_out
zoomed_out-IsMeaningful = record { in_range = omega arith; from_birp = (refl, refl) }

validargs-IsEncoded_example :
    (g : ℕ) × (validargs (request_args zoomed_out) ≡ some g) × IsEncoded zoomed_out g
validargs-IsEncoded_example = validargs-IsEncoded zoomed_out zoomed_out-IsMeaningful

abbrev zoomed_out_args : List Text
zoomed_out_args = codes "-o" ∷ codes "birp" ∷ codes "-z" ∷ codes "5" ∷ []

abbrev zoomed_out_options : ℕ
zoomed_out_options = 0xfb0322

zoomed_out_runs : validargs zoomed_out_args ≡ some zoomed_out_options
unfolding validargs parse_args read_option compare_string read_input read_output
    begin_transformation read_plain read_number read_parameter read_zoom_out validate_number_string
    string_to_integer sum_digits integer_to_2_complement assemble
zoomed_out_runs = refl

validargs-IsRequest_example :
    (zoomed_out_options ≡ 0x80000000)
    ⊎ ((r : Request) × IsMeaningful r × IsEncoded r zoomed_out_options)
validargs-IsRequest_example = validargs-IsRequest zoomed_out_args zoomed_out_options zoomed_out_runs

-- Two rotations are refused, and a rotation to ascii.
abbrev rotated_twice_args : List Text
rotated_twice_args = codes "-r" ∷ codes "-r" ∷ []

rotated_twice_runs : validargs rotated_twice_args ≡ none
unfolding validargs parse_args read_option compare_string read_input read_output
    begin_transformation read_plain read_number read_parameter read_zoom_out validate_number_string
    string_to_integer sum_digits integer_to_2_complement assemble
rotated_twice_runs = refl

abbrev rotated_ascii_args : List Text
rotated_ascii_args = codes "-o" ∷ codes "ascii" ∷ codes "-r" ∷ []

rotated_ascii_runs : validargs rotated_ascii_args ≡ none
unfolding validargs parse_args read_option compare_string read_input read_output
    begin_transformation read_plain read_number read_parameter read_zoom_out validate_number_string
    string_to_integer sum_digits integer_to_2_complement assemble
rotated_ascii_runs = refl

-- A threshold of 2 ^ 32 + 1 is taken for 1, and an empty one for 0.
abbrev wrapped_args : List Text
wrapped_args = codes "-t" ∷ codes "4294967297" ∷ []

wrapped_runs : validargs wrapped_args ≡ some 0x010222
unfolding validargs parse_args read_option compare_string read_input read_output
    begin_transformation read_plain read_number read_parameter read_zoom_out validate_number_string
    string_to_integer sum_digits integer_to_2_complement assemble
wrapped_runs = refl

abbrev empty_args : List Text
empty_args = codes "-t" ∷ codes "" ∷ []

empty_runs : validargs empty_args ≡ some 0x000222
unfolding validargs parse_args read_option compare_string read_input read_output
    begin_transformation read_plain read_number read_parameter read_zoom_out validate_number_string
    string_to_integer sum_digits integer_to_2_complement assemble
empty_runs = refl
