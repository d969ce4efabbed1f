-- ===== src/Transaction/Accepted.antt =====
-- What verifyTransaction answers without an error.
use sigryx.Base.{
  ℕ, ◌-◌, ◌/◌, ◌%◌, ◌≤◌, ◌≡◌, ltb, leb, ◌||◌, Option, none, some, subst, refl, sym, ap, ◌∙◌, Bool,
  false, List, [], ◌∷◌, ◌++◌, ◌⊎◌, inl, inr, arith, ◌==◌, length, take, Bool-cases,
}
use sigryx.Base.Bytes.{Bytes, AreBytes}
use sigryx.Base.Outcome.{ok, ◌>>=◌, bind_ok, refuse_ok, ok-injective}
use sigryx.Signature.{Signature, parse_compact_signature}
use sigryx.Keccak.{keccak256}
use sigryx.Rlp.{Decoded, Node, Nodes, text, list, encode, decode_rlp}
use sigryx.Rlp
use sigryx.Rlp.Canonical.{encode-decode_rlp}
use sigryx.Transaction.{TransactionError, invalid_transaction, invalid_signature, Signer}
use sigryx.Transaction.Check.{
  integer, uint64, read, signature_scalar, signature_scalars, legacy_cases, rlp_list_from_nodes,
  whole, elements, list_of, check_legacy, verify_legacy_transaction, check_eip1559,
  verify_eip1559_transaction, verify_transaction,
}

-- The decoder has read all the bytes.
whole_ok :
    (size : ℕ) (decoded : Decoded (Node × ℕ)) (node : Node)
    → whole size decoded ≡ ok node
    → decoded ≡ Rlp.ok (node, size)
unfolding whole
whole_ok size (Rlp.ok (n, consumed)) node h = elim (Bool-cases (consumed == size)) [
  | inl e ↦
      let same : n ≡ node = ok-injective (rw e at h) in
      let all : consumed ≡ size = ground arith in
      ap (λ (t : Node × ℕ). Rlp.ok t) (ap (λ m. (m, consumed)) same ∙ ap (λ c. (node, c)) all)
  | inr e ↦ absurd (cc (rw e at h))
]
whole_ok size (Rlp.err e) node h = cc
whole_ok size Rlp.panic node h = cc
whole_ok size Rlp.stuck node h = cc

read_ok : {A : Type 0} (o : Option A) (e : TransactionError) {a : A} → read o e ≡ ok a → o ≡ some a
read_ok none e h = cc
read_ok (some a) e h = cc

parsed_ok :
    (both sig : Bytes)
    → (read (parse_compact_signature both) invalid_signature >>= λ _. ok both) ≡ ok sig
    → (s : Signature) × (parse_compact_signature sig ≡ some s)
parsed_ok both sig h =
    let (parsed, e, h1) =
      bind_ok (read (parse_compact_signature both) invalid_signature) (λ _. ok both) h in
    (parsed, ap parse_compact_signature (sym (ok-injective h1)) ∙ read_ok _ _ e)

signature_scalars_ok :
    (r_node s_node : Node) (sig : Bytes)
    → signature_scalars r_node s_node ≡ ok sig
    → (s : Signature) × (parse_compact_signature sig ≡ some s)
unfolding signature_scalars
signature_scalars_ok r_node s_node sig h =
    let (r, e1, h1) = bind_ok (signature_scalar r_node) _ h in
    let (s, e2, h2) = bind_ok (signature_scalar s_node) _ h1 in parsed_ok (r ++ s) sig h2

at_most_one : (n : ℕ) → ltb 1 n ≡ false → n ≤ 1
at_most_one n h = ground (arith, h)

second_le : (p q : Bytes × ℕ) → p ≡ q → p.1 ≤ 1 → q.1 ≤ 1
second_le p q e h = subst (λ (t : Bytes × ℕ). t.1 ≤ 1) e h

legacy_cases-parity :
    (v : ℕ) (front : List Node) (unsigned : Bytes) (parity : ℕ)
    → legacy_cases v front ≡ ok (unsigned, parity)
    → parity ≤ 1
unfolding legacy_cases
legacy_cases-parity v front unsigned parity h = elim (Bool-cases ((v == 27) || (v == 28))) [
  | inl e ↦
      let small : v - 27 ≤ 1 = ground arith in
      second_le (rlp_list_from_nodes front, v - 27) (unsigned, parity) (ok-injective (rw e at h))
        small
  | inr e ↦ elim (Bool-cases (leb 35 v)) [
    | inl f ↦ elim (Bool-cases ((v - 35 - (v - 35) % 2) / 2 == 0)) [
      | inl g ↦ absurd (cc (rw (e, f, g) at h))
      | inr g ↦ second_le _ (unsigned, parity) (ok-injective (rw (e, f, g) at h)) (omega arith)
    ]
    | inr f ↦ absurd (cc (rw (e, f) at h))
  ]
]

-- The bytes are the encoding of a list of so many elements.
abbrev pub EncodesList : ℕ → Bytes → Type 0
EncodesList size bytes =
    (nodes : Nodes) × (bytes ≡ encode (list nodes)) × (length (elements nodes) ≡ size)

module _ (signer : Signer) (public_key : Bytes) where
  -- The answer is VerifyDigestWithRecoveryID's, on a Keccak digest, a signature that the parser of
  -- compact signatures takes and a parity of 0 or 1.
  abbrev pub Asked : Bool → Type 0
  Asked b =
      (unsigned sig : Bytes) × (parity : ℕ) × (b
        ≡ signer.verify_digest_with_recovery_id public_key (keccak256 unsigned) sig parity)
      × (parity ≤ 1)
      × ((s : Signature) × (parse_compact_signature sig ≡ some s))

  legacy_end :
      (v : ℕ) (front : List Node) (sig : Bytes) (b : Bool)
      → (s : Signature) × (parse_compact_signature sig ≡ some s)
      → (legacy_cases v front >>= λ (t : Bytes × ℕ).
          ok (signer.verify_digest_with_recovery_id public_key (keccak256 t.0) sig t.1))
        ≡ ok b
      → Asked b
  legacy_end v front sig b parsed h =
      let ((unsigned, parity), e, h1) = bind_ok (legacy_cases v front) _ h in
      (
        unsigned,
        sig,
        parity,
        sym (ok-injective h1),
        legacy_cases-parity v front unsigned parity e,
        parsed,
      )

  check_legacy_ok :
      (nodes : List Node) (b : Bool)
      → check_legacy signer public_key nodes ≡ ok b
      → (length nodes ≡ 9) × Asked b
  unfolding check_legacy
  check_legacy_ok [] b h = cc
  check_legacy_ok (a0 ∷ []) b h = cc
  check_legacy_ok (a0 ∷ a1 ∷ []) b h = cc
  check_legacy_ok (a0 ∷ a1 ∷ a2 ∷ []) b h = cc
  check_legacy_ok (a0 ∷ a1 ∷ a2 ∷ a3 ∷ []) b h = cc
  check_legacy_ok (a0 ∷ a1 ∷ a2 ∷ a3 ∷ a4 ∷ []) b h = cc
  check_legacy_ok (a0 ∷ a1 ∷ a2 ∷ a3 ∷ a4 ∷ a5 ∷ []) b h = cc
  check_legacy_ok (a0 ∷ a1 ∷ a2 ∷ a3 ∷ a4 ∷ a5 ∷ a6 ∷ []) b h = cc
  check_legacy_ok (a0 ∷ a1 ∷ a2 ∷ a3 ∷ a4 ∷ a5 ∷ a6 ∷ a7 ∷ []) b h = cc
  check_legacy_ok (a0 ∷ a1 ∷ a2 ∷ a3 ∷ a4 ∷ a5 ∷ a6 ∷ a7 ∷ a8 ∷ []) b h =
      let front = a0 ∷ a1 ∷ a2 ∷ a3 ∷ a4 ∷ a5 ∷ [] in
      let (v, e1, h1) = bind_ok (read (integer a6) invalid_transaction) _ h in
      let (sig, e2, h2) = bind_ok (signature_scalars a7 a8) _ h1 in
      (refl, legacy_end v front sig b (signature_scalars_ok a7 a8 sig e2) h2)
  check_legacy_ok (a0 ∷ a1 ∷ a2 ∷ a3 ∷ a4 ∷ a5 ∷ a6 ∷ a7 ∷ a8 ∷ a9 ∷ rest) b h = cc

  check_eip1559_ok :
      (nodes : List Node) (b : Bool)
      → check_eip1559 signer public_key nodes ≡ ok b
      → (length nodes ≡ 12) × Asked b
  unfolding check_eip1559
  check_eip1559_ok [] b h = cc
  check_eip1559_ok (a0 ∷ []) b h = cc
  check_eip1559_ok (a0 ∷ a1 ∷ []) b h = cc
  check_eip1559_ok (a0 ∷ a1 ∷ a2 ∷ []) b h = cc
  check_eip1559_ok (a0 ∷ a1 ∷ a2 ∷ a3 ∷ []) b h = cc
  check_eip1559_ok (a0 ∷ a1 ∷ a2 ∷ a3 ∷ a4 ∷ []) b h = cc
  check_eip1559_ok (a0 ∷ a1 ∷ a2 ∷ a3 ∷ a4 ∷ a5 ∷ []) b h = cc
  check_eip1559_ok (a0 ∷ a1 ∷ a2 ∷ a3 ∷ a4 ∷ a5 ∷ a6 ∷ []) b h = cc
  check_eip1559_ok (a0 ∷ a1 ∷ a2 ∷ a3 ∷ a4 ∷ a5 ∷ a6 ∷ a7 ∷ []) b h = cc
  check_eip1559_ok (a0 ∷ a1 ∷ a2 ∷ a3 ∷ a4 ∷ a5 ∷ a6 ∷ a7 ∷ a8 ∷ []) b h = cc
  check_eip1559_ok (a0 ∷ a1 ∷ a2 ∷ a3 ∷ a4 ∷ a5 ∷ a6 ∷ a7 ∷ a8 ∷ a9 ∷ []) b h = cc
  check_eip1559_ok (a0 ∷ a1 ∷ a2 ∷ a3 ∷ a4 ∷ a5 ∷ a6 ∷ a7 ∷ a8 ∷ a9 ∷ a10 ∷ []) b h = cc
  check_eip1559_ok (a0 ∷ a1 ∷ a2 ∷ a3 ∷ a4 ∷ a5 ∷ a6 ∷ a7 ∷ a8 ∷ a9 ∷ a10 ∷ a11 ∷ []) b h =
      let front = a0 ∷ a1 ∷ a2 ∷ a3 ∷ a4 ∷ a5 ∷ a6 ∷ a7 ∷ a8 ∷ [] in
      let (parity, e1, h1) = bind_ok (read (uint64 a9) invalid_transaction) _ h in
      let (small, h2) = refuse_ok (ltb 1 parity) invalid_transaction _ h1 in
      let (sig, e2, h3) = bind_ok (signature_scalars a10 a11) _ h2 in
      (
        refl,
        (
          0x02 ∷ rlp_list_from_nodes front,
          sig,
          parity,
          sym (ok-injective h3),
          at_most_one parity small,
          signature_scalars_ok a10 a11 sig e2,
        ),
      )
  check_eip1559_ok (a0 ∷ a1 ∷ a2 ∷ a3 ∷ a4 ∷ a5 ∷ a6 ∷ a7 ∷ a8 ∷ a9 ∷ a10 ∷ a11 ∷ a12 ∷ rest) b h =
      cc

  list_of_ok :
      (node : Node) (l : List Node)
      → list_of node ≡ ok l
      → (nodes : Nodes) × (node ≡ list nodes) × (elements nodes ≡ l)
  list_of_ok (text bytes) l h = cc
  list_of_ok (list nodes) l h = (nodes, refl, ok-injective h)

  take_all : (l : Bytes) → take (length l) l ≡ l
  take_all [] = refl
  take_all (x ∷ l) = ap (λ t. x ∷ t) (take_all l)

  -- What the decoder has read as a whole.
  whole-EncodesList :
      (bytes : Bytes) (node : Node) (l : List Node)
      → AreBytes bytes
      → whole (length bytes) (decode_rlp bytes) ≡ ok node
      → list_of node ≡ ok l
      → EncodesList (length l) bytes
  whole-EncodesList bytes node l h e g =
      let (nodes, same, els) = list_of_ok node l g in
      let (canonical, _, _) =
        encode-decode_rlp bytes node (length bytes) h (whole_ok (length bytes) _ node e) in
      (nodes, sym (ap encode (sym same) ∙ canonical ∙ take_all bytes), ap length els)

  legacy_answer :
      (raw : Bytes) (b : Bool)
      → AreBytes raw
      → verify_legacy_transaction signer public_key raw ≡ ok b
      → EncodesList 9 raw × Asked b
  unfolding verify_legacy_transaction
  legacy_answer raw b bytes h =
      let (node, e1, h1) = bind_ok _ _ h in
      let (l, e2, h2) = bind_ok _ _ h1 in
      let (size, asked) = check_legacy_ok l b h2 in
      let (nodes, e, n) = whole-EncodesList raw node l bytes e1 e2 in ((nodes, e, n ∙ size), asked)

  eip1559_answer :
      (rest : Bytes) (b : Bool)
      → AreBytes rest
      → verify_eip1559_transaction signer public_key rest ≡ ok b
      → EncodesList 12 rest × Asked b
  unfolding verify_eip1559_transaction
  eip1559_answer rest b bytes h =
      let (node, e1, h1) = bind_ok _ _ h in
      let (l, e2, h2) = bind_ok _ _ h1 in
      let (size, asked) = check_eip1559_ok l b h2 in
      let (nodes, e, n) = whole-EncodesList rest node l bytes e1 e2 in ((nodes, e, n ∙ size), asked)

  -- If verifyTransaction answers on raw bytes without an error, then the bytes are the encoding of a list
  -- of 9 elements, or the byte 2 and the encoding of a list of 12, with nothing behind it; and the
  -- answer is that of VerifyDigestWithRecoveryID on a Keccak digest, a signature that
  -- ParseCompactSignature accepts, and a parity of 0 or 1.
  pub verify_transaction_ok :
      (raw : Bytes) (b : Bool)
      → AreBytes raw
      → verify_transaction signer public_key raw ≡ ok b
      → (EncodesList 9 raw ⊎ ((rest : Bytes) × (raw ≡ 0x02 ∷ rest) × EncodesList 12 rest)) × Asked b
  unfolding verify_transaction
  verify_transaction_ok [] b bytes h = cc
  verify_transaction_ok (c ∷ rest) b (one, others) h = elim (Bool-cases (c == 0x02)) [
    | inl e ↦
        let typed : c ≡ 0x02 = ground arith in
        let (encoded, asked) = eip1559_answer rest b others (rw e at h) in
        (inr (rest, ap (λ k. k ∷ rest) typed, encoded), asked)
    | inr e ↦
        let (encoded, asked) = legacy_answer (c ∷ rest) b (one, others) (rw e at h) in
        (inl encoded, asked)
  ]
