-- ===== src/Gzip/Encodings/Accepting.antt =====
-- Which quality an Accept-Encoding header gives to gzip.
use hawk_apiserver.Prelude.{
  ◌≡◌, refl, inl, inr, false, ◌&&◌, not, List, [], ◌∷◌, Option, none, some, ◌==◌, text_eq,
  if◌then◌else◌, Bool-cases,
}
use hawk_apiserver.Text.{Text, codes, split, to_lower, trim_space, has_prefix, trim_prefix}
use hawk_apiserver.Map.{lookup, insert}
use hawk_apiserver.Map.Laws.{lookup-insert}
use hawk_apiserver.Http.{Request, get}
use hawk_apiserver.Gzip.Encodings.{
  Floats, Coding, clamp, read_parameter, read_parameters, read_parts, parse_coding, collect,
  parse_encodings, value_or_zero, accepts_gzip,
}

module _ (fl : Floats) where
  open fl use {Float, one, zero as zero_value, less, parse_float}

  -- The quality by the last of the parameters, which is 1 unless that one is a q.
  abbrev pub last_quality : List Text → Float
  last_quality [] = one
  last_quality (p ∷ []) =
      if has_prefix (trim_space p) (codes "q=")
      then clamp fl (parse_float (trim_prefix (trim_space p) (codes "q="))).0
      else one
  last_quality (p ∷ p' ∷ ps) = last_quality (p' ∷ ps)

  -- The quality of the last of the codings that parses and has the name.
  abbrev pub last_named : Text → List Text → Option Float → Option Float
  last_named k [] o = o
  last_named k (ss ∷ rest) o =
      let p = parse_coding fl ss in
      last_named k rest (if not p.failed && p.coding == k then some p.qvalue else o)

  read_parameters-qvalue :
      (p : Text) (ps : List Text) (c : Coding fl)
      → (read_parameters fl (p ∷ ps) c).qvalue ≡ last_quality (p ∷ ps)
  unfolding read_parameters read_parameter
  read_parameters-qvalue p [] c = elim (Bool-cases (has_prefix (trim_space p) (codes "q="))) [
    | inl e ↦ rw e
    | inr e ↦ rw e
  ]
  read_parameters-qvalue p (p' ∷ ps) c =
      read_parameters-qvalue p' ps (read_parameter fl (trim_space p) c)

  read_parts-qvalue :
      (name : Text) (ps : List Text) → (read_parts fl (name ∷ ps)).qvalue ≡ last_quality ps
  unfolding read_parts read_parameters
  read_parts-qvalue name [] = refl
  read_parts-qvalue name (p ∷ ps) =
      read_parameters-qvalue p ps
        (record { coding = to_lower (trim_space name); qvalue = one; failed = false })

  -- The quality of a coding is that of its last parameter: a parameter other than q behind a q sets
  -- it to 1 again.
  pub parse_coding-qvalue :
      (s name : Text) (ps : List Text)
      → split s b';' ≡ name ∷ ps
      → (parse_coding fl s).qvalue ≡ last_quality ps
  unfolding parse_coding
  parse_coding-qvalue s name ps e =
      elim (Bool-cases ((read_parts fl (split s b';')).coding == [])) [
        | inl p ↦ rw (p, e) (read_parts-qvalue name ps)
        | inr p ↦ rw (p, e) (read_parts-qvalue name ps)
      ]

  lookup-collect :
      (k : Text) (ss : List Text) (c : List (Text × Float))
      → lookup (collect fl ss c) k ≡ last_named k ss (lookup c k)
  unfolding collect
  lookup-collect k [] c = refl
  lookup-collect k (ss ∷ rest) c = elim (Bool-cases (parse_coding fl ss).failed) [
    | inl e ↦ rw e (lookup-collect k rest c)
    | inr e ↦
        let p = parse_coding fl ss in
        rw
          (
            e,
            lookup-collect k rest (insert c p.coding p.qvalue),
            lookup-insert c p.coding k p.qvalue,
          )
          refl
  ]

  -- A request takes gzip exactly when the last coding of its Accept-Encoding header that parses
  -- and is called gzip has a quality above 0; codings before it, and a `*`, count for nothing.
  pub accepts_gzip_lem :
      (r : Request)
      → accepts_gzip fl r
        ≡ less zero_value (
            value_or_zero fl (
              last_named (codes "gzip") (split (get r.header (codes "Accept-Encoding")) b',') none))
  unfolding accepts_gzip parse_encodings lookup
  accepts_gzip_lem r =
      rw
        (
          accepts_gzip,
          parse_encodings,
          lookup-collect (codes "gzip") (split (get r.header (codes "Accept-Encoding")) b',') [],
        )
        refl
