-- ===== src/Bdd/Options/Number.antt =====
-- The number that `validargs` of hw1/src/birp.c puts together from the codes of a request.
use Prim.Native.Nat.{bit_or}
use cse_320_repository.Base.{ℕ, ◌+◌, ◌*◌, ◌/◌, ◌%◌, ◌^◌, ◌<◌, Option, ◌≡◌, refl, ap, ◌∙◌, arith}
use cse_320_repository.Base.Bits.{bit_or-add}
use cse_320_repository.Bdd.Birp.{transformation_byte, parameter_byte}
use cse_320_repository.Bdd.Options.{Flags, assemble}
use cse_320_repository.Bdd.Options.Requests.{
  InputFormat, OutputFormat, Transformation, Request, input_code, output_code, transformation_code,
  parameter_code, InRange, IsMeaningful, IsEncoded, identity, negate, rotate, threshold, zoom_out,
  zoom_in,
}

-- Values put side by side.
beside :
    (p t q i : ℕ)
    → p < 256
    → t < 256
    → q < 16
    → i < 16
    → bit_or (bit_or (bit_or (bit_or 0 (p * 65_536)) (t * 256)) (q * 16)) i
      ≡ p * 65_536 + t * 256 + q * 16 + i
beside p t q i p_small t_small q_small i_small =
    ap (λ (x : ℕ). bit_or (bit_or (bit_or x (t * 256)) (q * 16)) i)
      (bit_or-add 0 24 (p * 65_536) (omega arith) ∙ first)
    ∙ ap (λ (x : ℕ). bit_or (bit_or x (q * 16)) i)
        (bit_or-add p 16 (t * 256) (omega arith) ∙ second)
    ∙ ap (λ (x : ℕ). bit_or x i) (bit_or-add (p * 256 + t) 8 (q * 16) (omega arith) ∙ third)
    ∙ bit_or-add (p * 4096 + t * 16 + q) 4 i (omega arith)
    ∙ omega arith
  where
    first : 0 * 2 ^ 24 + p * 65_536 ≡ p * 2 ^ 16
    first = omega arith

    second : p * 2 ^ 16 + t * 256 ≡ (p * 256 + t) * 2 ^ 8
    second = omega arith

    third : (p * 256 + t) * 2 ^ 8 + q * 16 ≡ (p * 4096 + t * 16 + q) * 2 ^ 4
    third = omega arith

-- The values of a request are small.
code_bounds :
    (i : Option InputFormat) (p : Option OutputFormat) → (input_code i < 16) × (output_code p < 16)
code_bounds i p = ground arith

parameter_bound : (t : Transformation) → InRange t → parameter_code t < 256
parameter_bound identity h = omega arith
parameter_bound negate h = omega arith
parameter_bound rotate h = omega arith
parameter_bound (threshold n) h = omega arith
parameter_bound (zoom_out n) h = omega arith
parameter_bound (zoom_in n) h = omega arith

transformation_bound : (t : Transformation) → transformation_code t < 5
transformation_bound t = ground arith

-- The flags of a request hold its codes.
pub record HasCodes (i : Option InputFormat) (p : Option OutputFormat) (t : Transformation)
    (o : Flags) : Type 0 where
  pub input : o.input_value ≡ input_code i
  pub output : o.output_value ≡ output_code p
  pub transformation : o.transformation_value ≡ transformation_code t
  pub parameter : o.parameter_value ≡ parameter_code t

abbrev pub number : Request → ℕ
number r =
    parameter_code r.transformation * 65_536
    + transformation_code r.transformation * 256
    + output_code r.output * 16
    + input_code r.input

pub assemble-number :
    (r : Request) (o : Flags)
    → IsMeaningful r
    → HasCodes r.input r.output r.transformation o
    → assemble o ≡ number r
unfolding assemble
assemble-number r o m c =
    ap
      (λ (x : ℕ).
        bit_or
          (bit_or (bit_or (bit_or 0 (x * 65_536)) (o.transformation_value * 256))
            (o.output_value * 16))
          o.input_value)
      c.parameter
    ∙ ap
        (λ (x : ℕ).
          bit_or
            (bit_or (bit_or (bit_or 0 (parameter_code r.transformation * 65_536)) (x * 256))
              (o.output_value * 16))
            o.input_value)
        c.transformation
    ∙ ap
        (λ (x : ℕ).
          bit_or
            (bit_or
              (bit_or (bit_or 0 (parameter_code r.transformation * 65_536))
                (transformation_code r.transformation * 256))
              (x * 16))
            o.input_value)
        c.output
    ∙ ap
        (λ (x : ℕ).
          bit_or
            (bit_or
              (bit_or (bit_or 0 (parameter_code r.transformation * 65_536))
                (transformation_code r.transformation * 256))
              (output_code r.output * 16))
            x)
        c.input
    ∙ beside (parameter_code r.transformation) (transformation_code r.transformation)
        (output_code r.output) (input_code r.input) (parameter_bound r.transformation m.in_range)
        (omega (arith, transformation_bound r.transformation)) (code_bounds r.input r.output).1
        (code_bounds r.input r.output).0

-- The fields of such a number.
fields :
    (p t q i g : ℕ)
    → g ≡ p * 65_536 + t * 256 + q * 16 + i
    → p < 256
    → t < 5
    → q < 16
    → i < 16
    → (g % 16 ≡ i)
      × (g / 16 % 16 ≡ q)
      × (transformation_byte g ≡ t)
      × (parameter_byte g ≡ p)
      × (g < 16_777_216)
fields p t q i g e p_small t_small q_small i_small =
    (omega arith, omega arith, omega arith, omega arith, omega arith)

pub number-IsEncoded : (r : Request) → IsMeaningful r → IsEncoded r (number r)
number-IsEncoded r m =
    let (input, output, transformation, parameter, small) =
      fields (parameter_code r.transformation) (transformation_code r.transformation)
        (output_code r.output) (input_code r.input) (number r) refl
        (parameter_bound r.transformation m.in_range) (transformation_bound r.transformation)
        (code_bounds r.input r.output).1 (code_bounds r.input r.output).0 in
    record {
      input = input;
      output = output;
      transformation = transformation;
      parameter = parameter;
      small = small;
    }
