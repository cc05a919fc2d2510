-- ===== src/Bdd/Options/Encoded.antt =====
-- `validargs` of hw1/src/birp.c on the arguments of a request.
use cse_320_repository.Base.{
  some-injective, ℕ, if◌then◌else◌, Bool, true, false, Option, none, some, List, [], ◌∷◌, ◌++◌,
  Text, codes, ◌≡◌, refl, ap, ◌∙◌,
}
use cse_320_repository.Bdd.Options.{
  Flags, no_flags, compare_string, parse_args, assemble, validargs,
}
use cse_320_repository.Bdd.Options.Requests.{
  InputFormat, OutputFormat, Transformation, Request, input_args, output_args, transformation_args,
  request_args, IsMeaningful, IsEncoded, identity, negate, rotate, threshold, zoom_out, zoom_in,
}
use cse_320_repository.Bdd.Options.Parsed.{with_transformation}
use cse_320_repository.Bdd.Options.Requested.{
  IsUnchanged, with_formats-IsUnchanged, request_flags, parse_args-request,
}
use cse_320_repository.Bdd.Options.Number.{HasCodes, number, assemble-number, number-IsEncoded}

-- The first argument does not ask for help.
abbrev NoHelp : List Text → Type 0
NoHelp [] = Unit
NoHelp (arg ∷ args) = compare_string arg (codes "-h") ≡ false

NoHelp-append : (xs ys : List Text) → NoHelp xs → NoHelp ys → NoHelp (xs ++ ys)
NoHelp-append [] ys h k = k
NoHelp-append (x ∷ xs) ys h k = h

NoHelp-input : (i : Option InputFormat) → NoHelp (input_args i)
unfolding compare_string
NoHelp-input none = tt
NoHelp-input (some InputFormat.pgm) = refl
NoHelp-input (some InputFormat.birp) = refl

NoHelp-output : (p : Option OutputFormat) → NoHelp (output_args p)
unfolding compare_string
NoHelp-output none = tt
NoHelp-output (some OutputFormat.pgm) = refl
NoHelp-output (some OutputFormat.birp) = refl
NoHelp-output (some OutputFormat.ascii) = refl

NoHelp-transformation : (t : Transformation) → NoHelp (transformation_args t)
unfolding compare_string
NoHelp-transformation identity = tt
NoHelp-transformation negate = refl
NoHelp-transformation rotate = refl
NoHelp-transformation (threshold n) = refl
NoHelp-transformation (zoom_out n) = refl
NoHelp-transformation (zoom_in n) = refl

NoHelp-formats :
    (i : Option InputFormat) (p : Option OutputFormat) (t : Transformation) (output_first : Bool)
    → NoHelp (
        if output_first
        then output_args p ++ (input_args i ++ transformation_args t)
        else input_args i ++ (output_args p ++ transformation_args t))
NoHelp-formats i p t true =
    NoHelp-append (output_args p) _ (NoHelp-output p)
      (NoHelp-append (input_args i) _ (NoHelp-input i) (NoHelp-transformation t))
NoHelp-formats i p t false =
    NoHelp-append (input_args i) _ (NoHelp-input i)
      (NoHelp-append (output_args p) _ (NoHelp-output p) (NoHelp-transformation t))

validargs-cons :
    (arg : Text) (args : List Text) (o : Flags)
    → NoHelp (arg ∷ args)
    → parse_args (arg ∷ args) no_flags ≡ some o
    → validargs (arg ∷ args) ≡ some (assemble o)
unfolding validargs
validargs-cons arg args o h e = rw (validargs, h, e) refl

validargs-parsed :
    (args : List Text) (o : Flags)
    → NoHelp args
    → parse_args args no_flags ≡ some o
    → validargs args ≡ some (assemble o)
unfolding validargs parse_args assemble
validargs-parsed [] o h e = ap (λ (u : Flags). some (assemble u)) (some-injective no_flags o e)
validargs-parsed (arg ∷ args) o h e = validargs-cons arg args o h e

-- The flags of a request have its codes.
HasCodes-transformation :
    (i : Option InputFormat) (p : Option OutputFormat) (t : Transformation) (o : Flags)
    → IsUnchanged i p o
    → HasCodes i p t (with_transformation t o)
HasCodes-transformation i p identity o u = record {
  input = u.input;
  output = u.output;
  transformation = u.no_transformation;
  parameter = u.no_parameter;
}
HasCodes-transformation i p negate o u = record {
  input = u.input;
  output = u.output;
  transformation = refl;
  parameter = u.no_parameter;
}
HasCodes-transformation i p rotate o u = record {
  input = u.input;
  output = u.output;
  transformation = refl;
  parameter = u.no_parameter;
}
HasCodes-transformation i p (threshold n) o u = record {
  input = u.input;
  output = u.output;
  transformation = refl;
  parameter = refl;
}
HasCodes-transformation i p (zoom_out n) o u = record {
  input = u.input;
  output = u.output;
  transformation = refl;
  parameter = refl;
}
HasCodes-transformation i p (zoom_in n) o u = record {
  input = u.input;
  output = u.output;
  transformation = refl;
  parameter = refl;
}

-- On the arguments of a request of the usage message, whose parameter is in its range and whose
-- transformation is from birp to birp, the formats in either order, validargs succeeds and sets
-- global_options to a number whose fields are the codes of the request.
pub validargs-IsEncoded :
    (r : Request) → IsMeaningful r → (g : ℕ) × (validargs (request_args r) ≡ some g) × IsEncoded r g
validargs-IsEncoded r m = (
  number r,
  validargs-parsed (request_args r) (request_flags r)
        (NoHelp-formats r.input r.output r.transformation r.output_first) (parse_args-request r m)
      ∙ ap (λ (g : ℕ). some g)
          (assemble-number r (request_flags r) m (
            HasCodes-transformation r.input r.output r.transformation _
              (with_formats-IsUnchanged r.input r.output))),
  number-IsEncoded r m,
)
