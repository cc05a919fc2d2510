-- ===== src/Bdd/Options/Requests.antt =====
-- The uses of the program that the usage message of hw1/include/const.h lists, and the arguments for them.
use cse_320_repository.Base.{
  ℕ, ◌+◌, ◌-◌, ◌/◌, ◌%◌, ◌<◌, ◌≤◌, ltb, if◌then◌else◌, Bool, Option, none, some, List, [], ◌∷◌,
  ◌++◌, Text, codes, ◌≡◌,
}
use cse_320_repository.Bdd.Birp.{transformation_byte, parameter_byte}

pub data InputFormat : Type 0 where
  pgm birp : InputFormat

pub data OutputFormat : Type 0 where
  pgm birp ascii : OutputFormat

pub data Transformation : Type 0 where
  identity negate rotate : Transformation
  threshold zoom_out zoom_in : ℕ → Transformation

pub record Request : Type 0 where
  pub input : Option InputFormat
  pub output : Option OutputFormat
  pub output_first : Bool
  pub transformation : Transformation

-- The decimal digits of a number below 1000.
abbrev pub decimal : ℕ → Text
decimal n =
    if ltb n 10
    then (b'0' + n) ∷ []
    else if ltb n 100
    then (b'0' + n / 10) ∷ (b'0' + n % 10) ∷ []
    else (b'0' + n / 100) ∷ (b'0' + n / 10 % 10) ∷ (b'0' + n % 10) ∷ []

abbrev pub input_args : Option InputFormat → List Text
input_args none = []
input_args (some InputFormat.pgm) = codes "-i" ∷ codes "pgm" ∷ []
input_args (some InputFormat.birp) = codes "-i" ∷ codes "birp" ∷ []

abbrev pub output_args : Option OutputFormat → List Text
output_args none = []
output_args (some OutputFormat.pgm) = codes "-o" ∷ codes "pgm" ∷ []
output_args (some OutputFormat.birp) = codes "-o" ∷ codes "birp" ∷ []
output_args (some OutputFormat.ascii) = codes "-o" ∷ codes "ascii" ∷ []

abbrev pub transformation_args : Transformation → List Text
transformation_args identity = []
transformation_args negate = codes "-n" ∷ []
transformation_args rotate = codes "-r" ∷ []
transformation_args (threshold n) = codes "-t" ∷ decimal n ∷ []
transformation_args (zoom_out n) = codes "-z" ∷ decimal n ∷ []
transformation_args (zoom_in n) = codes "-Z" ∷ decimal n ∷ []

abbrev pub request_args : Request → List Text
request_args r =
    if r.output_first
    then output_args r.output ++ (input_args r.input ++ transformation_args r.transformation)
    else input_args r.input ++ (output_args r.output ++ transformation_args r.transformation)

-- The fields of `global_options` that the assignment gives to a request.
abbrev pub input_code : Option InputFormat → ℕ
input_code none = 2
input_code (some InputFormat.pgm) = 1
input_code (some InputFormat.birp) = 2

abbrev pub output_code : Option OutputFormat → ℕ
output_code none = 2
output_code (some OutputFormat.pgm) = 1
output_code (some OutputFormat.birp) = 2
output_code (some OutputFormat.ascii) = 3

abbrev pub transformation_code : Transformation → ℕ
transformation_code identity = 0
transformation_code negate = 1
transformation_code (threshold n) = 2
transformation_code (zoom_out n) = 3
transformation_code (zoom_in n) = 3
transformation_code rotate = 4

-- A factor to zoom out is a negative byte.
abbrev pub parameter_code : Transformation → ℕ
parameter_code identity = 0
parameter_code negate = 0
parameter_code rotate = 0
parameter_code (threshold n) = n
parameter_code (zoom_out n) = (256 - n) % 256
parameter_code (zoom_in n) = n

-- A parameter is in its range, and a transformation is from birp to birp.
abbrev pub InRange : Transformation → Type 0
InRange identity = Unit
InRange negate = Unit
InRange rotate = Unit
InRange (threshold n) = n ≤ 255
InRange (zoom_out n) = n ≤ 16
InRange (zoom_in n) = n ≤ 16

abbrev pub FromBirp : Transformation → (input output : ℕ) → Type 0
FromBirp identity input output = Unit
FromBirp t input output = (input ≡ 2) × (output ≡ 2)

pub record IsMeaningful (r : Request) : Type 0 where
  pub in_range : InRange r.transformation
  pub from_birp : FromBirp r.transformation (input_code r.input) (output_code r.output)

pub record IsEncoded (r : Request) (global_options : ℕ) : Type 0 where
  pub input : global_options % 16 ≡ input_code r.input
  pub output : global_options / 16 % 16 ≡ output_code r.output
  pub transformation : transformation_byte global_options ≡ transformation_code r.transformation
  pub parameter : parameter_byte global_options ≡ parameter_code r.transformation
  pub small : global_options < 16_777_216
