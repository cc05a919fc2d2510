-- ===== src/Bdd/Options/Begun.antt =====
-- The request that the flags of `validargs` in hw1/src/birp.c stand for, kept through a transformation and
-- so through every option.
use cse_320_repository.Base.{
  ℕ, ◌≤◌, ◌==◌, ltb, true, false, not, ◌||◌, Option, none, some, Text, codes, ◌≡◌, ◌⊎◌, inl, inr,
  refl, sym, ◌∙◌, arith, Bool-cases, Option-cases, subst, ltb→ge,
}
use cse_320_repository.Bdd.Options.{
  Flags, compare_string, string_to_integer, validate_number_string, negative_byte,
  begin_transformation, read_plain, read_number, read_parameter, read_zoom_out, read_option,
}
use cse_320_repository.Bdd.Options.Requests.{
  InputFormat, OutputFormat, Transformation, input_code, output_code, transformation_code,
  parameter_code, InRange, FromBirp, identity, negate, rotate, threshold, zoom_out, zoom_in,
}
use cse_320_repository.Bdd.Options.Parsed.{negative_byte_lem}
use cse_320_repository.Bdd.Options.Kept.{
  IsRequested, Keeps, Keeps-if, identity-values, read_input-Keeps, read_output-Keeps,
}

-- A transformation that has begun: its formats are birp, and nothing may follow.
record IsBegun (value : ℕ) (o : Flags) : Type 0 where
  input : Option InputFormat
  output : Option OutputFormat
  input_birp : input_code input ≡ 2
  output_birp : output_code output ≡ 2
  input_is : o.input_value ≡ input_code input
  output_is : o.output_value ≡ output_code output
  value_is : o.transformation_value ≡ value
  no_parameter : o.parameter_value ≡ 0
  input_closed : o.input_set ≡ true
  output_closed : o.output_set ≡ true
  one : o.transformation_set ≡ true

begin-IsBegun :
    (value : ℕ) (o : Flags)
    → IsRequested o
    → (begin_transformation value o ≡ none)
      ⊎ ((t : Flags) × (begin_transformation value o ≡ some t) × IsBegun value t)
unfolding begin_transformation
begin-IsBegun value o q =
    elim (Bool-cases (not (o.input_value == 2) || not (o.output_value == 2))) [
      | inl other ↦ inl (rw (begin_transformation, other) refl)
      | inr birp ↦ elim (Bool-cases o.transformation_set) [
        | inl twice ↦ inl (rw (begin_transformation, birp, twice) refl)
        | inr fresh ↦
            let (i, p) = both-birp o.input_value o.output_value birp in
            inr (
              record o {
                input_set = true;
                output_set = true;
                transformation_set = true;
                transformation_value = value;
              },
              rw (begin_transformation, birp, fresh) refl,
              record {
                input = q.input;
                output = q.output;
                input_birp = sym q.codes_of.input ∙ i;
                output_birp = sym q.codes_of.output ∙ p;
                input_is = q.codes_of.input;
                output_is = q.codes_of.output;
                value_is = refl;
                no_parameter =
                    (identity-values q.input q.output q.transformation o q.codes_of
                      (q.none_yet fresh)).1;
                input_closed = refl;
                output_closed = refl;
                one = refl;
              },
            )
      ]
    ]
  where
    both-birp : (i p : ℕ) → (not (i == 2) || not (p == 2)) ≡ false → (i ≡ 2) × (p ≡ 2)
    both-birp i p e = ground arith

-- With its parameter it is a request.
begun-IsRequested :
    (t : Transformation) (o : Flags) (n : ℕ)
    → IsBegun (transformation_code t) o
    → InRange t
    → n ≡ parameter_code t
    → IsRequested (record o { parameter_value = n })
begun-IsRequested t o n b h e = record {
  input = b.input;
  output = b.output;
  transformation = t;
  codes_of = record {
    input = b.input_is;
    output = b.output_is;
    transformation = b.value_is;
    parameter = e;
  };
  in_range = h;
  from_birp = birp t;
  input_open = λ c. absurd (cc (b.input_closed, c));
  output_open = λ c. absurd (cc (b.output_closed, c));
  none_yet = λ c. absurd (cc (b.one, c));
}
  where
    birp : (t : Transformation) → FromBirp t (input_code b.input) (output_code b.output)
    birp identity = tt
    birp negate = (b.input_birp, b.output_birp)
    birp rotate = (b.input_birp, b.output_birp)
    birp (threshold n) = (b.input_birp, b.output_birp)
    birp (zoom_out n) = (b.input_birp, b.output_birp)
    birp (zoom_in n) = (b.input_birp, b.output_birp)

read_plain-Keeps :
    (t : Transformation) (o : Flags)
    → InRange t
    → 0 ≡ parameter_code t
    → IsRequested o
    → Keeps (read_plain (transformation_code t) o)
unfolding read_plain
read_plain-Keeps t o h e q = elim (begin-IsBegun (transformation_code t) o q) [
  | inl refused ↦ rw (read_plain, refused) tt
  | inr (u, ran, b) ↦
      rw (read_plain, ran) (begun-IsRequested t u u.parameter_value b h (b.no_parameter ∙ e))
]

-- The number that is read is in its range.
read_number-cases :
    (bound : ℕ) (text : Text) (o : Flags)
    → (read_number bound text o ≡ none)
      ⊎ ((string_to_integer text ≤ bound)
          × (read_number bound text o
              ≡ some (record o { parameter_value = string_to_integer text }, true)))
unfolding read_number
read_number-cases bound text o = elim (Bool-cases (ltb bound (string_to_integer text))) [
  | inl over ↦ inl (rw (read_number, over) refl)
  | inr within ↦ inr (ltb→ge bound (string_to_integer text) within, rw (read_number, within) refl)
]

read_parameter-Keeps :
    (of : ℕ → Transformation) (value bound : ℕ) (next : Option Text) (o : Flags)
    → ((n : ℕ) → value ≡ transformation_code (of n))
    → ((n : ℕ) → n ≤ bound → InRange (of n))
    → ((n : ℕ) → n ≡ parameter_code (of n))
    → IsRequested o
    → Keeps (read_parameter value bound next o)
unfolding read_parameter
read_parameter-Keeps of value bound next o code range parameter q = elim (begin-IsBegun value o q) [
  | inl refused ↦ rw (read_parameter, refused) tt
  | inr (u, ran, b) ↦ elim (Option-cases next) [
    | inl missing ↦ rw (read_parameter, ran, missing) tt
    | inr (text, e) ↦ elim (Bool-cases (validate_number_string text)) [
      | inr no_number ↦ rw (read_parameter, ran, e, no_number) tt
      | inl valid ↦ elim (read_number-cases bound text u) [
        | inl over ↦ rw (read_parameter, ran, e, valid, over) tt
        | inr (h, within) ↦
            rw (read_parameter, ran, e, valid, within)
              (begun-IsRequested (of (string_to_integer text)) u (string_to_integer text)
                (subst (λ v. IsBegun v u) (code (string_to_integer text)) b)
                (range (string_to_integer text) h) (parameter (string_to_integer text)))
      ]
    ]
  ]
]

read_zoom_out-Keeps :
    (next : Option Text) (o : Flags) → IsRequested o → Keeps (read_zoom_out next o)
unfolding read_zoom_out
read_zoom_out-Keeps next o q = elim (begin-IsBegun 3 o q) [
  | inl refused ↦ rw (read_zoom_out, refused) tt
  | inr (u, ran, b) ↦ elim (Option-cases next) [
    | inl missing ↦ rw (read_zoom_out, ran, missing) tt
    | inr (text, e) ↦ elim (Bool-cases (validate_number_string text)) [
      | inr no_number ↦
          rw (read_zoom_out, ran, e, no_number)
            (begun-IsRequested (zoom_in 0) u u.parameter_value b (omega arith) b.no_parameter)
      | inl valid ↦ elim (read_number-cases 16 text u) [
        | inl over ↦ rw (read_zoom_out, ran, e, valid, over) tt
        | inr (h, within) ↦
            rw (read_zoom_out, ran, e, valid, within)
              (begun-IsRequested (zoom_out (string_to_integer text)) u
                (negative_byte (string_to_integer text)) b h
                (negative_byte_lem (string_to_integer text) h))
      ]
    ]
  ]
]

pub read_option-Keeps :
    (arg : Text) (next : Option Text) (o : Flags) → IsRequested o → Keeps (read_option arg next o)
unfolding read_option
read_option-Keeps arg next o q = Keeps-if (compare_string arg (codes "-h")) _ _ tt (
    Keeps-if (compare_string arg (codes "-i")) _ _ (read_input-Keeps next o q) (
      Keeps-if (compare_string arg (codes "-o")) _ _ (read_output-Keeps next o q) (
        Keeps-if (compare_string arg (codes "-n")) _ _ (read_plain-Keeps negate o tt refl q) (
          Keeps-if (compare_string arg (codes "-r")) _ _ (read_plain-Keeps rotate o tt refl q) (
            Keeps-if (compare_string arg (codes "-t")) _ _
              (read_parameter-Keeps threshold 2 255 next o (λ n. refl) (λ n h. h) (λ n. refl) q)
              (Keeps-if (compare_string arg (codes "-z")) _ _ (read_zoom_out-Keeps next o q) (
                Keeps-if (compare_string arg (codes "-Z")) _ _
                  (read_parameter-Keeps zoom_in 3 16 next o (λ n. refl) (λ n h. h) (λ n. refl) q)
                  tt)))))))
