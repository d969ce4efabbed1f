-- ===== src/Signature/Encodings.antt =====
-- What the encodings of a signature are read back as, and what the parsers accept.
use sigryx.Base.{
  ℕ, zero, suc, ◌%◌, ◌+◌, ◌-◌, ◌≤◌, ◌≡◌, refl, sym, ap, subst, ◌∙◌, Bool, true, false, not, ◌||◌,
  none, some, [], ◌∷◌, ◌++◌, ◌⊎◌, arith, ◌==◌, length, take, drop, take-append, drop-append,
  take-append-drop, length-append, length-drop, append_assoc, Bool-cases, Option-cases, inl, inr,
}
use sigryx.Base.Bytes.{Bytes}
use sigryx.Signature.{
  Signature, compact, ethereum, valid_signature_scalar, parse_compact_signature, with_recovery,
  parse_ethereum_signature,
}

-- The scalars of the signature are valid.
pub record IsValid (sig : Signature) : Type 0 where
  pub r_valid : valid_signature_scalar sig.r ≡ true
  pub s_valid : valid_signature_scalar sig.s ≡ true

pub valid-size : (value : Bytes) → valid_signature_scalar value ≡ true → length value ≡ 32
valid-size value h = ground (arith, h)

pub parse_compact_signature-compact :
    (sig : Signature)
    → IsValid sig
    → parse_compact_signature (compact sig) ≡ some (record sig { recovery_id = 0 })
unfolding parse_compact_signature compact
parse_compact_signature-compact sig v =
    let rs : length sig.r ≡ 32 = valid-size sig.r v.r_valid in
    let ss : length sig.s ≡ 32 = valid-size sig.s v.s_valid in
    let front : take 32 (sig.r ++ sig.s) ≡ sig.r = take-append 32 sig.r sig.s (sym rs) in
    let back : drop 32 (sig.r ++ sig.s) ≡ sig.s = drop-append 32 sig.r sig.s (sym rs) in
    let size : length (sig.r ++ sig.s) ≡ 64 = omega (arith, length-append sig.r sig.s) in
    let long : (length (sig.r ++ sig.s) == 64) ≡ true = ap (λ n. n == 64) size in
    rw (long, front, back, v.r_valid, v.s_valid) refl

with_recovery_last :
    (n : ℕ) (sig : Signature)
    → n ≤ 1
    → with_recovery ((n + 27) % 256 ∷ []) (some sig) ≡ some (record sig { recovery_id = n })
unfolding with_recovery
with_recovery_last zero sig h = refl
with_recovery_last (suc zero) sig h = refl
with_recovery_last (suc (suc n)) sig h = absurd (omega arith)

split_last :
    (sig : Signature) (last : Bytes)
    → IsValid sig
    → length last ≡ 1
    → parse_ethereum_signature (compact sig ++ last)
      ≡ with_recovery last (some (record sig { recovery_id = 0 }))
unfolding parse_ethereum_signature
split_last sig last v one =
    let rs : length sig.r ≡ 32 = valid-size sig.r v.r_valid in
    let ss : length sig.s ≡ 32 = valid-size sig.s v.s_valid in
    let whole : length (compact sig) ≡ 64 =
      (unfold compact in omega (arith, length-append sig.r sig.s)) in
    let front : take 64 (compact sig ++ last) ≡ compact sig =
      take-append 64 (compact sig) last (sym whole) in
    let back : drop 64 (compact sig ++ last) ≡ last =
      drop-append 64 (compact sig) last (sym whole) in
    let size : length (compact sig ++ last) ≡ 65 =
      omega (arith, length-append (compact sig) last) in
    let long : (length (compact sig ++ last) == 65) ≡ true = ap (λ n. n == 65) size in
    rw (long, front, back) (ap (with_recovery last) (parse_compact_signature-compact sig v))

-- If the scalars of a signature are valid and its recovery id is 0 or 1, then the parser reads the
-- signature back from what Ethereum writes.
pub parse_ethereum_signature-ethereum :
    (sig : Signature)
    → IsValid sig
    → sig.recovery_id ≤ 1
    → parse_ethereum_signature (ethereum sig) ≡ some sig
unfolding ethereum compact
parse_ethereum_signature-ethereum sig v h =
    let last = (sig.recovery_id + 27) % 256 ∷ [] in
    ap parse_ethereum_signature (sym (append_assoc sig.r sig.s last))
    ∙ split_last sig last v refl
    ∙ with_recovery_last sig.recovery_id (record sig { recovery_id = 0 }) h

both_left : (a b : Bool) → (not a || not b) ≡ false → a ≡ true
both_left true b h = refl
both_left false b h = cc

both_right : (a b : Bool) → (not a || not b) ≡ false → b ≡ true
both_right a true h = refl
both_right true false h = cc
both_right false false h = cc

-- What ParseCompactSignature accepts.
compact_ok :
    (raw : Bytes) (sig : Signature)
    → parse_compact_signature raw ≡ some sig
    → IsValid sig × (compact sig ≡ raw)
unfolding parse_compact_signature compact
compact_ok raw sig h = elim (Bool-cases (not (length raw == 64))) [
  | inl e ↦ ground (arith, e, h)
  | inr e ↦
      elim (Bool-cases (
        not (valid_signature_scalar (take 32 raw)) || not (valid_signature_scalar (drop 32 raw)))) [
          | inl f ↦
              let step : parse_compact_signature raw ≡ none = rw (e, f) refl in
              absurd (cc (sym step ∙ h))
          | inr f ↦
              let read : Signature = record { r = take 32 raw; s = drop 32 raw; recovery_id = 0 } in
              let step : parse_compact_signature raw ≡ some read = rw (e, f) refl in
              let same : read ≡ sig = cc (sym step ∙ h) in
              let valid : IsValid read = record {
                r_valid = both_left _ _ f;
                s_valid = both_right _ _ f;
              } in
              subst (λ (t : Signature). IsValid t × (t.r ++ t.s ≡ raw)) same
                (valid, take-append-drop 32 raw)
        ]
]

-- The first 64 bytes and the last one.
last_byte : (bytes : Bytes) → length bytes ≡ 1 → (v : ℕ) × (bytes ≡ v ∷ [])
last_byte [] h = absurd (omega arith)
last_byte (v ∷ []) h = (v, refl)
last_byte (v ∷ w ∷ bytes) h = absurd (omega arith)

-- What the last byte `v` makes of the signature that the first 64 bytes write.
abbrev Recovered : ℕ → Signature → Signature → Type 0
Recovered v read sig =
    (sig.r ≡ read.r)
    × (sig.s ≡ read.s)
    × (sig.recovery_id ≤ 1)
    × ((v ≡ sig.recovery_id) ⊎ (v ≡ sig.recovery_id + 27))

with_recovery-Recovered :
    (v : ℕ) (read sig : Signature)
    → with_recovery (v ∷ []) (some read) ≡ some sig
    → Recovered v read sig
unfolding with_recovery
with_recovery-Recovered v read sig h = elim (Bool-cases ((v == 0) || (v == 1))) [
  | inl e ↦
      let step : with_recovery (v ∷ []) (some read) ≡ some (record read { recovery_id = v }) =
        rw e refl in
      let small : v ≤ 1 = ground arith in
      subst (Recovered v read) (cc (sym step ∙ h)) (refl, refl, small, inl refl)
  | inr e ↦ elim (Bool-cases ((v == 27) || (v == 28))) [
    | inl f ↦
        let step : with_recovery (v ∷ []) (some read)
            ≡ some (record read { recovery_id = v - 27 }) =
          rw (e, f) refl in
        let small : v - 27 ≤ 1 = ground arith in
        let again : v ≡ v - 27 + 27 = ground arith in
        subst (Recovered v read) (cc (sym step ∙ h)) (refl, refl, small, inr again)
    | inr f ↦
        let step : with_recovery (v ∷ []) (some read) ≡ none = rw (e, f) refl in
        absurd (cc (sym step ∙ h))
  ]
]

same_size : (n m : ℕ) → not (n == m) ≡ false → n ≡ m
same_size n m h = ground arith

-- If ParseEthereumSignature returns a signature, then its scalars are valid, its recovery id is 0 or 1,
-- and the input is its compact form followed by one byte, the recovery id or that plus 27.
pub parse_ethereum_signature_ok :
    (raw : Bytes) (sig : Signature)
    → parse_ethereum_signature raw ≡ some sig
    → IsValid sig
      × (sig.recovery_id ≤ 1)
      × ((v : ℕ) × (raw ≡ compact sig ++ (v ∷ []))
          × ((v ≡ sig.recovery_id) ⊎ (v ≡ sig.recovery_id + 27)))
unfolding parse_ethereum_signature
parse_ethereum_signature_ok raw sig h = elim (Bool-cases (not (length raw == 65))) [
  | inl e ↦ let step : parse_ethereum_signature raw ≡ none = rw e refl in absurd (cc (sym step ∙ h))
  | inr e ↦
      let size : length raw ≡ 65 = same_size (length raw) 65 e in
      let (v, one) = last_byte (drop 64 raw) (omega (arith, length-drop 64 raw)) in
      let step : parse_ethereum_signature raw
          ≡ with_recovery (v ∷ []) (parse_compact_signature (take 64 raw)) =
        rw e (ap (λ l. with_recovery l (parse_compact_signature (take 64 raw))) one) in
      elim (Option-cases (parse_compact_signature (take 64 raw))) [
        | inl f ↦
            let nothing : with_recovery (v ∷ []) none ≡ none = (unfold with_recovery in refl) in
            absurd (cc (sym (step ∙ ap (with_recovery (v ∷ [])) f ∙ nothing) ∙ h))
        | inr (read, f) ↦
            let (valid, whole) = compact_ok (take 64 raw) read f in
            let (er, es, small, last) =
              with_recovery-Recovered v read sig (sym (step ∙ ap (with_recovery (v ∷ [])) f) ∙ h) in
            let valid' : IsValid sig = record {
              r_valid = ap valid_signature_scalar er ∙ valid.r_valid;
              s_valid = ap valid_signature_scalar es ∙ valid.s_valid;
            } in
            let same : compact sig ≡ compact read = (unfold compact in rw (er, es) refl) in
            let front : raw ≡ compact sig ++ (v ∷ []) =
              sym (take-append-drop 64 raw)
              ∙ ap (λ l. take 64 raw ++ l) one
              ∙ ap (λ l. l ++ (v ∷ [])) (sym (same ∙ whole)) in
            (valid', small, (v, front, last))
      ]
]
