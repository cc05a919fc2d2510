-- ===== src/Bdd/Options/Accepted.antt =====
-- What `validargs` of hw1/src/birp.c accepts.
use cse_320_repository.Base.{
  ℕ, true, false, Option, none, some, List, [], ◌∷◌, Text, codes, ◌≡◌, ◌⊎◌, inl, inr, refl, sym,
  ◌∙◌, none_ne_some, Bool-cases, subst, some-injective,
}
use cse_320_repository.Bdd.Options.{
  Flags, no_flags, Reading, compare_string, read_option, parse_args, assemble, validargs,
}
use cse_320_repository.Bdd.Options.Requests.{Request, IsMeaningful, IsEncoded, identity}
use cse_320_repository.Bdd.Options.Number.{assemble-number, number-IsEncoded}
use cse_320_repository.Bdd.Options.Kept.{IsRequested, Keeps}
use cse_320_repository.Bdd.Options.Begun.{read_option-Keeps}

no_flags-IsRequested : IsRequested no_flags
no_flags-IsRequested = record {
  input = none;
  output = none;
  transformation = identity;
  codes_of = record { input = refl; output = refl; transformation = refl; parameter = refl };
  in_range = tt;
  from_birp = tt;
  input_open = λ e. refl;
  output_open = λ e. refl;
  none_yet = λ e. refl;
}

-- The flags at the end of the loop, if any.
abbrev AllRequested : Option Flags → Type 0
AllRequested none = Unit
AllRequested (some o) = IsRequested o

-- One round.
last-AllRequested :
    (r : Reading) → Keeps r → AllRequested (elim r [ none ↦ none | some (t, taken) ↦ some t ])
last-AllRequested none k = tt
last-AllRequested (some (t, taken)) k = k

round-AllRequested :
    (r : Reading) (taken_goes untaken_goes : Flags → Option Flags)
    → ((t : Flags) → IsRequested t → AllRequested (taken_goes t))
    → ((t : Flags) → IsRequested t → AllRequested (untaken_goes t))
    → Keeps r
    → AllRequested
        (elim r [ none ↦ none | some (t, false) ↦ untaken_goes t | some (t, true) ↦ taken_goes t ])
round-AllRequested none f g p q k = tt
round-AllRequested (some (t, false)) f g p q k = q t k
round-AllRequested (some (t, true)) f g p q k = p t k

parse_args-AllRequested :
    (args : List Text) (o : Flags) → IsRequested o → AllRequested (parse_args args o)
unfolding parse_args
parse_args-AllRequested [] o q = q
parse_args-AllRequested (arg ∷ []) o q =
    last-AllRequested (read_option arg none o) (read_option-Keeps arg none o q)
parse_args-AllRequested (arg ∷ next ∷ args) o q =
    round-AllRequested (read_option arg (some next) o) (parse_args args) (parse_args (next ∷ args))
      (parse_args-AllRequested args) (parse_args-AllRequested (next ∷ args))
      (read_option-Keeps arg (some next) o q)

-- The request behind the flags.
requested : (o : Flags) → IsRequested o → (r : Request) × IsMeaningful r × IsEncoded r (assemble o)
requested o q =
    let r : Request = record {
      input = q.input;
      output = q.output;
      output_first = false;
      transformation = q.transformation;
    } in
    let m : IsMeaningful r = record { in_range = q.in_range; from_birp = q.from_birp } in
    (
      r,
      m,
      subst (λ g. IsEncoded r g) (sym (assemble-number r o m q.codes_of)) (number-IsEncoded r m),
    )

-- The end of `validargs`.
finished-IsRequest :
    (end : Option Flags) (g : ℕ)
    → AllRequested end
    → elim end [ none ↦ none | some o ↦ some (assemble o) ] ≡ some g
    → (r : Request) × IsMeaningful r × IsEncoded r g
finished-IsRequest none g q e = absurd (none_ne_some e)
finished-IsRequest (some o) g q e =
    subst (λ n. (r : Request) × IsMeaningful r × IsEncoded r n) (some-injective (assemble o) g e)
      (requested o q)

validargs-help :
    (arg : Text) (args : List Text)
    → compare_string arg (codes "-h") ≡ true
    → validargs (arg ∷ args) ≡ some 0x80000000
unfolding validargs
validargs-help arg args h = rw (validargs, h) refl

validargs-other :
    (arg : Text) (args : List Text)
    → compare_string arg (codes "-h") ≡ false
    → validargs (arg ∷ args)
      ≡ elim (parse_args (arg ∷ args) no_flags) [ none ↦ none | some o ↦ some (assemble o) ]
unfolding validargs
validargs-other arg args h = rw (validargs, h) refl

-- Whenever validargs accepts its arguments, whatever they are, the global_options that it sets are the
-- help flag alone, or they encode a request of the usage message whose parameter is in its range and
-- whose transformation is from birp to birp.
pub validargs-IsRequest :
    (args : List Text) (g : ℕ)
    → validargs args ≡ some g
    → (g ≡ 0x80000000) ⊎ ((r : Request) × IsMeaningful r × IsEncoded r g)
unfolding validargs assemble
validargs-IsRequest [] g e = inr (
    subst (λ n. (r : Request) × IsMeaningful r × IsEncoded r n) (some-injective _ g e)
      (requested no_flags no_flags-IsRequested))
validargs-IsRequest (arg ∷ args) g e = elim (Bool-cases (compare_string arg (codes "-h"))) [
  | inl help ↦ inl (sym (some-injective _ g (sym (validargs-help arg args help) ∙ e)))
  | inr other ↦ inr (
      finished-IsRequest (parse_args (arg ∷ args) no_flags) g
        (parse_args-AllRequested (arg ∷ args) no_flags no_flags-IsRequested)
        (sym (validargs-other arg args other) ∙ e))
]
