-- ===== src/Derivation.antt =====
-- The derivation paths of pkg/hdwallet/hdwallet.go: NewPath, BIP44, ParsePath and Path.String, on texts
-- as lists of code points. Of the standard library, strings.HasPrefix, HasSuffix, TrimSuffix and Split are
-- written out; an error is `none`. `strconv.ParseUint(part, 10, 31)` and fmt's `%d` are parameters.
pub mod RoundTrip
pub mod Tests
use sigryx.Base.{
  ℕ, ◌+◌, ◌^◌, ◌≡◌, Bool, true, false, Option, none, some, List, [], ◌∷◌, ◌++◌, ltb, leb, ◌==◌, eqb,
  if◌then◌else◌,
}
use sigryx.Base.Bytes.{Bytes}
use sigryx.Base.Text.{codes}

-- A text as its code points
abbrev pub Text : Type 0
Text = List ℕ

abbrev pub slash : ℕ
slash = 0x2f

abbrev pub quote : ℕ
quote = 0x27

abbrev pub letter_m : ℕ
letter_m = 0x6d

-- hardenedOffset
abbrev pub hardened_offset : ℕ
hardened_offset = 2 ^ 31

-- Segment
pub record Segment : Type 0 where
  pub index : ℕ
  pub hardened : Bool

-- The loop of NewPath
unfoldable pub indexes_fit : List Segment → Bool
indexes_fit [] = true
indexes_fit (segment ∷ segments) =
    let rest = indexes_fit segments in if leb hardened_offset segment.index then false else rest

-- NewPath
unfoldable pub new_path : List Segment → Option (List Segment)
unfolding indexes_fit
new_path segments = if indexes_fit segments then some segments else none

-- BIP44
unfoldable pub bip44 : ℕ → ℕ → ℕ → ℕ → Option (List Segment)
unfolding new_path
bip44 coin_type account change index = new_path (
    record { index = 44; hardened = true }
    ∷ record { index = coin_type; hardened = true }
    ∷ record { index = account; hardened = true }
    ∷ record { index = change; hardened = false }
    ∷ record { index = index; hardened = false }
    ∷ [])

-- `strings.Split(value, "/")`: the part that is being read, and the later ones
unfoldable pub split_slash : Text → Text × List Text
split_slash [] = ([], [])
split_slash (c ∷ text) =
    let (part, parts) = split_slash text in
    if c == slash then ([], part ∷ parts) else (c ∷ part, parts)

-- `strings.HasSuffix(part, "'")` and `strings.TrimSuffix`: whether the quote was there, and what is left
unfoldable pub trim_quote : Text → Bool × Text
trim_quote [] = (false, [])
trim_quote (c ∷ []) = if c == quote then (true, []) else (false, c ∷ [])
trim_quote (c ∷ d ∷ text) = let (found, rest) = trim_quote (d ∷ text) in (found, c ∷ rest)

module _ (parse_uint : Text → Option ℕ) (decimal : ℕ → Text) where
  unfoldable pub with_index : Bool → Option ℕ → Option Segment
  with_index hardened none = none
  with_index hardened (some index) = some (record { index = index; hardened = hardened })

  unfoldable pub read_segment : Bool × Text → Option Segment
  unfolding with_index
  read_segment (hardened, digits) = with_index hardened (parse_uint digits)

  -- A round of the loop of ParsePath
  unfoldable pub parse_segment : Text → Option Segment
  unfolding trim_quote read_segment
  parse_segment [] = none
  parse_segment (c ∷ part) = read_segment (trim_quote (c ∷ part))

  unfoldable pub add_segment : Option Segment → Option (List Segment) → Option (List Segment)
  add_segment none rest = none
  add_segment (some segment) none = none
  add_segment (some segment) (some segments) = some (segment ∷ segments)

  -- The loop of ParsePath
  unfoldable pub parse_segments : List Text → Option (List Segment)
  unfolding parse_segment add_segment
  parse_segments [] = some []
  parse_segments (part ∷ parts) = add_segment (parse_segment part) (parse_segments parts)

  unfoldable pub check_path : Option (List Segment) → Option (List Segment)
  unfolding new_path
  check_path none = none
  check_path (some segments) = new_path segments

  -- ParsePath
  unfoldable pub parse_path : Text → Option (List Segment)
  unfolding split_slash parse_segments check_path
  parse_path [] = none
  parse_path (m ∷ []) = if m == letter_m then some [] else none
  parse_path (m ∷ s ∷ rest) =
      let (part, parts) = split_slash rest in
      if m == letter_m
      then if s == slash then check_path (parse_segments (part ∷ parts)) else none
      else none

  -- A round of Path.String
  unfoldable pub print_segment : Segment → Text
  print_segment segment =
      if segment.hardened
      then slash ∷ (decimal segment.index ++ (quote ∷ []))
      else slash ∷ decimal segment.index

  -- The loop of Path.String
  unfoldable pub print_segments : List Segment → Text
  unfolding print_segment
  print_segments [] = []
  print_segments (segment ∷ segments) = print_segment segment ++ print_segments segments

  -- Path.String
  unfoldable pub print_path : List Segment → Text
  unfolding print_segments
  print_path segments = letter_m ∷ print_segments segments
