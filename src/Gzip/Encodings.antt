-- ===== src/Gzip/Encodings.antt =====
-- acceptsGzip, parseEncodings and parseCoding. A float64 is an abstract type with its order, its
-- constants and strconv.ParseFloat, which gives a value also when it reports an error.
pub mod Accepting
use hawk_apiserver.Prelude.{
  Bool, true, false, List, [], ◌∷◌, Option, none, some, ◌==◌, text_eq, if◌then◌else◌,
}
use hawk_apiserver.Text.{Text, codes, split, trim_space, to_lower, has_prefix, trim_prefix}
use hawk_apiserver.Map.{lookup, insert}
use hawk_apiserver.Http.{Request, get}

pub record Floats : Type 1 where
  pub Float : Type 0
  pub zero : Float
  pub one : Float
  pub less : Float → Float → Bool
  -- the value, and whether there is an error
  pub parse_float : Text → Float × Bool

module _ (fl : Floats) where
  open fl use {Float, zero as zero_value, one, less, parse_float}

  -- The named results of parseCoding; `failed` stands for `err != nil`.
  pub record Coding : Type 0 where
    pub coding : Text
    pub qvalue : Float
    pub failed : Bool

  unfoldable pub clamp : Float → Float
  clamp q = if less q zero_value then zero_value else if less one q then one else q

  -- A round of the loop for a parameter, behind the coding's name.
  unfoldable pub read_parameter : Text → Coding → Coding
  unfolding clamp
  read_parameter part c =
      if has_prefix part (codes "q=")
      then (let (q, failed) = parse_float (trim_prefix part (codes "q=")) in
          record c { qvalue = clamp q; failed = failed })
      else record c { qvalue = one }

  unfoldable pub read_parameters : List Text → Coding → Coding
  unfolding read_parameter
  read_parameters [] c = c
  read_parameters (p ∷ ps) c = read_parameters ps (read_parameter (trim_space p) c)

  -- The round of the loop for the name.
  unfoldable pub read_parts : List Text → Coding
  unfolding read_parameters
  read_parts [] = record { coding = []; qvalue = zero_value; failed = false }
  read_parts (name ∷ ps) =
      read_parameters ps
        (record { coding = to_lower (trim_space name); qvalue = one; failed = false })

  unfoldable pub parse_coding : Text → Coding
  unfolding read_parts
  parse_coding s =
      let c = read_parts (split s b';') in if c.coding == [] then record c { failed = true } else c

  unfoldable pub collect : List Text → List (Text × Float) → List (Text × Float)
  unfolding parse_coding
  collect [] c = c
  collect (ss ∷ rest) c =
      let p = parse_coding ss in collect rest (if p.failed then c else insert c p.coding p.qvalue)

  -- The codings; the error is not used.
  unfoldable pub parse_encodings : Text → List (Text × Float)
  unfolding collect
  parse_encodings s = collect (split s b',') []

  abbrev pub value_or_zero : Option Float → Float
  value_or_zero none = zero_value
  value_or_zero (some q) = q

  unfoldable pub accepts_gzip : Request → Bool
  unfolding parse_encodings
  accepts_gzip r = less zero_value (
      value_or_zero
        (lookup (parse_encodings (get r.header (codes "Accept-Encoding"))) (codes "gzip")))
