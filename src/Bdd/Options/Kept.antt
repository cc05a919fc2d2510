-- ===== src/Bdd/Options/Kept.antt =====
-- The request that the flags of `validargs` in hw1/src/birp.c stand for, kept through the formats.
use cse_320_repository.Base.{
  if◌then◌else◌, Bool, true, false, Option, none, some, Text, codes, ◌≡◌, inl, inr, refl, ap, ◌∙◌,
  Bool-cases, Option-cases,
}
use cse_320_repository.Bdd.Options.{Flags, Reading, compare_string, read_input, read_output}
use cse_320_repository.Bdd.Options.Requests.{
  InputFormat, OutputFormat, Transformation, input_code, output_code, transformation_code,
  parameter_code, InRange, FromBirp, identity,
}
use cse_320_repository.Bdd.Options.Number.{HasCodes}

-- The request that the flags stand for so far.
pub record IsRequested (o : Flags) : Type 0 where
  pub input : Option InputFormat
  pub output : Option OutputFormat
  pub transformation : Transformation
  pub codes_of : HasCodes input output transformation o
  pub in_range : InRange transformation
  pub from_birp : FromBirp transformation (input_code input) (output_code output)
  pub input_open : o.input_set ≡ false → transformation ≡ identity
  pub output_open : o.output_set ≡ false → transformation ≡ identity
  pub none_yet : o.transformation_set ≡ false → transformation ≡ identity

abbrev pub Keeps : Reading → Type 0
Keeps none = Unit
Keeps (some (o, taken)) = IsRequested o

pub Keeps-if : (b : Bool) (x y : Reading) → Keeps x → Keeps y → Keeps (if b then x else y)
Keeps-if true x y p q = p
Keeps-if false x y p q = q

pub identity-values :
    (i : Option InputFormat) (p : Option OutputFormat) (t : Transformation) (o : Flags)
    → HasCodes i p t o
    → t ≡ identity
    → (o.transformation_value ≡ 0) × (o.parameter_value ≡ 0)
identity-values i p t o c e =
    (c.transformation ∙ ap transformation_code e, c.parameter ∙ ap parameter_code e)

-- A format is set while no transformation is.
set_input :
    (o : Flags) (f : InputFormat)
    → IsRequested o
    → o.input_set ≡ false
    → IsRequested (record o { input_value = input_code (some f); input_set = true })
set_input o f q fresh =
    let (no_transformation, no_parameter) =
      identity-values q.input q.output q.transformation o q.codes_of (q.input_open fresh) in
    record {
      input = some f;
      output = q.output;
      transformation = identity;
      codes_of = record {
        input = refl;
        output = q.codes_of.output;
        transformation = no_transformation;
        parameter = no_parameter;
      };
      in_range = tt;
      from_birp = tt;
      input_open = λ e. refl;
      output_open = λ e. refl;
      none_yet = λ e. refl;
    }

set_output :
    (o : Flags) (f : OutputFormat)
    → IsRequested o
    → o.output_set ≡ false
    → IsRequested (record o { output_value = output_code (some f); output_set = true })
set_output o f q fresh =
    let (no_transformation, no_parameter) =
      identity-values q.input q.output q.transformation o q.codes_of (q.output_open fresh) in
    record {
      input = q.input;
      output = some f;
      transformation = identity;
      codes_of = record {
        input = q.codes_of.input;
        output = refl;
        transformation = no_transformation;
        parameter = no_parameter;
      };
      in_range = tt;
      from_birp = tt;
      input_open = λ e. refl;
      output_open = λ e. refl;
      none_yet = λ e. refl;
    }

pub read_input-Keeps : (next : Option Text) (o : Flags) → IsRequested o → Keeps (read_input next o)
unfolding read_input
read_input-Keeps next o q = elim (Bool-cases o.input_set) [
  | inl twice ↦ rw (read_input, twice) tt
  | inr fresh ↦ elim (Option-cases next) [
    | inl missing ↦ rw (read_input, fresh, missing) tt
    | inr (format, e) ↦
        rw (read_input, fresh, e)
          (Keeps-if (compare_string format (codes "birp")) _ _
            (set_input o InputFormat.birp q fresh)
            (Keeps-if (compare_string format (codes "pgm")) _ _
              (set_input o InputFormat.pgm q fresh) tt))
  ]
]

pub read_output-Keeps :
    (next : Option Text) (o : Flags) → IsRequested o → Keeps (read_output next o)
unfolding read_output
read_output-Keeps next o q = elim (Bool-cases o.output_set) [
  | inl twice ↦ rw (read_output, twice) tt
  | inr fresh ↦ elim (Option-cases next) [
    | inl missing ↦ rw (read_output, fresh, missing) tt
    | inr (format, e) ↦
        rw (read_output, fresh, e)
          (Keeps-if (compare_string format (codes "birp")) _ _
            (set_output o OutputFormat.birp q fresh)
            (Keeps-if (compare_string format (codes "pgm")) _ _
              (set_output o OutputFormat.pgm q fresh)
              (Keeps-if (compare_string format (codes "ascii")) _ _
                (set_output o OutputFormat.ascii q fresh) tt)))
  ]
]
