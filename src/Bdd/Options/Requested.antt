-- ===== src/Bdd/Options/Requested.antt =====
-- The loop of `validargs` in hw1/src/birp.c on the arguments of a request.
use cse_320_repository.Base.{
  subst, if◌then◌else◌, Bool, true, false, Option, none, some, List, ◌++◌, Text, ◌≡◌, refl, sym, ap,
  ◌∙◌,
}
use cse_320_repository.Bdd.Options.{Flags, no_flags, parse_args}
use cse_320_repository.Bdd.Options.Requests.{
  InputFormat, OutputFormat, Request, input_args, output_args, transformation_args, request_args,
  input_code, output_code, FromBirp, IsMeaningful,
}
use cse_320_repository.Bdd.Options.Parsed.{
  with_input, with_output, with_transformation, parse_args-input, parse_args-output,
  parse_args-transformation,
}

-- What the formats leave, in either order.
abbrev pub with_formats : Option InputFormat → Option OutputFormat → Flags
with_formats i p = with_output p (with_input i no_flags)

pub record IsUnchanged (i : Option InputFormat) (p : Option OutputFormat) (o : Flags) : Type 0 where
  pub input : o.input_value ≡ input_code i
  pub output : o.output_value ≡ output_code p
  pub fresh : o.transformation_set ≡ false
  pub no_transformation : o.transformation_value ≡ 0
  pub no_parameter : o.parameter_value ≡ 0

pub with_formats-IsUnchanged :
    (i : Option InputFormat) (p : Option OutputFormat) → IsUnchanged i p (with_formats i p)
with_formats-IsUnchanged none none = record {
  input = refl;
  output = refl;
  fresh = refl;
  no_transformation = refl;
  no_parameter = refl;
}
with_formats-IsUnchanged none (some p) = record {
  input = refl;
  output = refl;
  fresh = refl;
  no_transformation = refl;
  no_parameter = refl;
}
with_formats-IsUnchanged (some i) none = record {
  input = refl;
  output = refl;
  fresh = refl;
  no_transformation = refl;
  no_parameter = refl;
}
with_formats-IsUnchanged (some i) (some p) = record {
  input = refl;
  output = refl;
  fresh = refl;
  no_transformation = refl;
  no_parameter = refl;
}

with_formats_comm :
    (i : Option InputFormat) (p : Option OutputFormat)
    → with_input i (with_output p no_flags) ≡ with_formats i p
with_formats_comm none none = refl
with_formats_comm none (some p) = refl
with_formats_comm (some i) none = refl
with_formats_comm (some i) (some p) = refl

input-fresh : (p : Option OutputFormat) → (with_output p no_flags).input_set ≡ false
input-fresh none = refl
input-fresh (some p) = refl

output-fresh : (i : Option InputFormat) → (with_input i no_flags).output_set ≡ false
output-fresh none = refl
output-fresh (some i) = refl

parse_args-formats :
    (i : Option InputFormat) (p : Option OutputFormat) (output_first : Bool) (args : List Text)
    → parse_args
        (if output_first
          then output_args p ++ (input_args i ++ args)
          else input_args i ++ (output_args p ++ args))
        no_flags
      ≡ parse_args args (with_formats i p)
parse_args-formats i p false args =
    parse_args-input i (output_args p ++ args) no_flags refl
    ∙ parse_args-output p args (with_input i no_flags) (output-fresh i)
parse_args-formats i p true args =
    parse_args-output p (input_args i ++ args) no_flags refl
    ∙ parse_args-input i args (with_output p no_flags) (input-fresh p)
    ∙ ap (parse_args args) (with_formats_comm i p)

abbrev pub request_flags : Request → Flags
request_flags r = with_transformation r.transformation (with_formats r.input r.output)

pub parse_args-request :
    (r : Request) → IsMeaningful r → parse_args (request_args r) no_flags ≡ some (request_flags r)
parse_args-request r m =
    let o = with_formats-IsUnchanged r.input r.output in
    parse_args-formats r.input r.output r.output_first (transformation_args r.transformation)
    ∙ parse_args-transformation r.transformation (with_formats r.input r.output) m.in_range
        (subst (λ x. FromBirp r.transformation x (with_formats r.input r.output).output_value)
          (sym o.input)
          (subst (λ x. FromBirp r.transformation (input_code r.input) x) (sym o.output)
            m.from_birp))
        o.fresh
