-- ===== src/Derivation/RoundTrip.antt =====
-- Paths that are printed and parsed again, and the indexes of a path that is parsed.
use sigryx.Base.{
  ℕ, ◌^◌, ◌<◌, ◌≤◌, ◌≡◌, ◌≢◌, refl, sym, ap, ◌∙◌, Bool, true, false, Option, none, some, List, [],
  ◌∷◌, ◌++◌, ◌==◌, if◌then◌else◌, arith, All, Bool-cases, inl, inr, append-nil,
}
use sigryx.Derivation.{
  Text, slash, quote, letter_m, Segment, indexes_fit, new_path, split_slash, trim_quote,
  parse_segment, add_segment, parse_segments, with_index, read_segment, check_path, parse_path,
  print_segment, print_segments, print_path,
}

-- A decimal digit
abbrev pub IsDigit : ℕ → Type 0
IsDigit c = (0x30 ≤ c) × (c ≤ 0x39)

-- What the documentation of strconv and fmt promises of ParseUint and `%d`.
pub record IsDecimal (parse_uint : Text → Option ℕ) (decimal : ℕ → Text) : Type 0 where
  pub digits : (n : ℕ) → All IsDigit (decimal n)
  pub some_digit : (n : ℕ) → (c : ℕ) × (cs : Text) × (decimal n ≡ c ∷ cs)
  pub reads : (n : ℕ) → n < 2 ^ 31 → parse_uint (decimal n) ≡ some n

trim_quote-digits : (text : Text) → All IsDigit text → trim_quote text ≡ (false, text)
unfolding trim_quote
trim_quote-digits [] h = refl
trim_quote-digits (c ∷ []) (hc, h) = ground (arith, hc)
trim_quote-digits (c ∷ d ∷ text) (hc, h) =
    ap (λ (r : Bool × Text). (r.0, c ∷ r.1)) (trim_quote-digits (d ∷ text) h)

trim_quote-quoted : (text : Text) → trim_quote (text ++ (quote ∷ [])) ≡ (true, text)
unfolding trim_quote
trim_quote-quoted [] = refl
trim_quote-quoted (c ∷ []) = refl
trim_quote-quoted (c ∷ d ∷ text) =
    ap (λ (r : Bool × Text). (r.0, c ∷ r.1)) (trim_quote-quoted (d ∷ text))

module _ (parse_uint : Text → Option ℕ) (decimal : ℕ → Text)
    (documented : IsDecimal parse_uint decimal) where
  -- What Path.String writes behind the slash of a segment.
  abbrev body : Segment → Text
  body segment =
      if segment.hardened then decimal segment.index ++ (quote ∷ []) else decimal segment.index

  abbrev bodies : List Segment → List Text
  bodies [] = []
  bodies (segment ∷ segments) = body segment ∷ bodies segments

  print_segment-body :
      (segment : Segment) → print_segment parse_uint decimal segment ≡ slash ∷ body segment
  unfolding print_segment
  print_segment-body segment = ground arith

  -- A code point that is no slash
  abbrev NotSlash : ℕ → Type 0
  NotSlash c = (c == slash) ≡ false

  digits-NotSlash : (text : Text) → All IsDigit text → All NotSlash text
  digits-NotSlash [] h = tt
  digits-NotSlash (c ∷ text) (hc, h) = (ground (arith, hc), digits-NotSlash text h)

  quoted-NotSlash : (text : Text) → All NotSlash text → All NotSlash (text ++ (quote ∷ []))
  quoted-NotSlash [] h = (refl, tt)
  quoted-NotSlash (c ∷ text) (hc, h) = (hc, quoted-NotSlash text h)

  body-NotSlash : (segment : Segment) → All NotSlash (body segment)
  body-NotSlash segment =
      let plain = digits-NotSlash (decimal segment.index) (documented.digits segment.index) in
      elim (Bool-cases segment.hardened) [
        | inl e ↦ rw e (quoted-NotSlash (decimal segment.index) plain)
        | inr e ↦ rw e plain
      ]

  split-front :
      (part : Text) (rest : Text) (parts : List Text)
      → All NotSlash part
      → split_slash rest ≡ ([], parts)
      → split_slash (part ++ rest) ≡ (part, parts)
  unfolding split_slash
  split-front [] rest parts h e = e
  split-front (c ∷ part) rest parts (hc, h) e =
      rw hc (ap (λ (r : Text × List Text). (c ∷ r.0, r.1)) (split-front part rest parts h e))

  split-print_segments :
      (segments : List Segment)
      → split_slash (print_segments parse_uint decimal segments) ≡ ([], bodies segments)
  unfolding print_segments split_slash
  split-print_segments [] = refl
  split-print_segments (segment ∷ segments) =
      ap (λ t. split_slash (t ++ print_segments parse_uint decimal segments))
        (print_segment-body segment)
      ∙ ap (λ (r : Text × List Text). ([], r.0 ∷ r.1))
          (split-front (body segment) (print_segments parse_uint decimal segments) (bodies segments)
            (body-NotSlash segment) (split-print_segments segments))

  parse_segment-parts :
      (part digits : Text) (hardened : Bool) (n : ℕ)
      → part ≢ []
      → trim_quote part ≡ (hardened, digits)
      → parse_uint digits ≡ some n
      → parse_segment parse_uint decimal part ≡ some (record { index = n; hardened = hardened })
  unfolding parse_segment read_segment
  parse_segment-parts [] digits hardened n filled e r = absurd (filled refl)
  parse_segment-parts (c ∷ part) digits hardened n filled e r =
      ap (read_segment parse_uint decimal) e ∙ ap (with_index parse_uint decimal hardened) r

  not_empty : (n : ℕ) (rest : Text) → decimal n ++ rest ≢ []
  not_empty n rest e =
      let (c, cs, k) = documented.some_digit n in absurd (cc (ap (λ t. t ++ rest) (sym k) ∙ e))

  parse_segment-body :
      (segment : Segment)
      → segment.index < 2 ^ 31
      → parse_segment parse_uint decimal (body segment) ≡ some segment
  parse_segment-body segment h =
      let digits = decimal segment.index in
      elim (Bool-cases segment.hardened) [
        | inl e ↦ rw e (
            parse_segment-parts (digits ++ (quote ∷ [])) digits true segment.index
              (not_empty segment.index (quote ∷ [])) (trim_quote-quoted digits)
              (documented.reads segment.index h))
        | inr e ↦ rw e (
            parse_segment-parts digits digits false segment.index
              (λ k. not_empty segment.index [] (append-nil digits ∙ k))
              (trim_quote-digits digits (documented.digits segment.index))
              (documented.reads segment.index h))
      ]

  parse_segments-bodies :
      (segments : List Segment)
      → indexes_fit segments ≡ true
      → parse_segments parse_uint decimal (bodies segments) ≡ some segments
  unfolding parse_segments indexes_fit
  parse_segments-bodies [] h = refl
  parse_segments-bodies (segment ∷ segments) h =
      let small : segment.index < 2 ^ 31 = ground (arith, h) in
      let later : indexes_fit segments ≡ true = ground (arith, h) in
      ap
        (λ o.
          add_segment parse_uint decimal o (parse_segments parse_uint decimal (bodies segments)))
        (parse_segment-body segment small)
      ∙ ap (add_segment parse_uint decimal (some segment)) (parse_segments-bodies segments later)

  parsed :
      (segments : List Segment)
      → indexes_fit segments ≡ true
      → parse_path parse_uint decimal (print_path parse_uint decimal segments) ≡ some segments
  unfolding print_path parse_path check_path new_path
  parsed [] h = refl
  parsed (segment ∷ segments) h =
      let rest = print_segments parse_uint decimal segments in
      let front =
        split-front (body segment) rest (bodies segments) (body-NotSlash segment)
          (split-print_segments segments) in
      ap (λ t. parse_path parse_uint decimal (letter_m ∷ (t ++ rest))) (print_segment-body segment)
      ∙ ap
          (λ (r : Text × List Text).
            check_path parse_uint decimal (parse_segments parse_uint decimal (r.0 ∷ r.1)))
          front
      ∙ ap (check_path parse_uint decimal) (parse_segments-bodies (segment ∷ segments) h)
      ∙ rw h refl

  -- Where ParseUint and `%d` work as documented: the text of a path that NewPath accepts is parsed to
  -- that path.
  pub parse_path-print_path :
      (segments path : List Segment)
      → new_path segments ≡ some path
      → parse_path parse_uint decimal (print_path parse_uint decimal path) ≡ some path
  unfolding new_path
  parse_path-print_path segments path h =
      let fit : indexes_fit segments ≡ true = ground (arith, h) in
      let same : segments ≡ path = ground (arith, h) in
      ap (λ p. parse_path parse_uint decimal (print_path parse_uint decimal p)) (sym same)
      ∙ parsed segments fit
      ∙ ap some same

  check_fit :
      (r : Option (List Segment)) (path : List Segment)
      → check_path parse_uint decimal r ≡ some path
      → indexes_fit path ≡ true
  unfolding check_path new_path
  check_fit none path h = cc
  check_fit (some segments) path h = elim (Bool-cases (indexes_fit segments)) [
    | inl e ↦ ground (arith, e, h)
    | inr e ↦ ground (arith, e, h)
  ]

  parsed_fit :
      (text : Text) (path : List Segment)
      → parse_path parse_uint decimal text ≡ some path
      → indexes_fit path ≡ true
  unfolding parse_path
  parsed_fit [] path h = cc
  parsed_fit (m ∷ []) path h = ground (arith, h)
  parsed_fit (m ∷ s ∷ rest) path h = elim (Bool-cases (m == letter_m)) [
    | inl e ↦ elim (Bool-cases (s == slash)) [
      | inl f ↦
          let (part, parts) = split_slash rest in
          let r = parse_segments parse_uint decimal (part ∷ parts) in
          check_fit r path (ground (arith, e, f, h))
      | inr f ↦ ground (arith, e, f, h)
    ]
    | inr e ↦ ground (arith, e, h)
  ]

  -- Where ParseUint and `%d` work as documented: every index of a path that is parsed is below 2^31, as a
  -- derivation asks for, and the text of the path is parsed to that path.
  pub parse_path_ok :
      (text : Text) (path : List Segment)
      → parse_path parse_uint decimal text ≡ some path
      → (indexes_fit path ≡ true)
        × (parse_path parse_uint decimal (print_path parse_uint decimal path) ≡ some path)
  parse_path_ok text path h = let fit = parsed_fit text path h in (fit, parsed path fit)
