-- ===== src/Transaction/Fields.antt =====
-- The items of a transaction as nodes, and what the verifier reads of them.
use sigryx.Base.{
  ℕ, zero, suc, ◌^◌, ◌<◌, ◌≡◌, refl, sym, ap, ◌∙◌, true, false, not, ◌||◌, some, [], ◌∷◌, ◌++◌,
  arith, ltb, ◌==◌, length,
}
use sigryx.Base.Bytes.{
  Bytes, AreBytes, to_number, fill_bytes, number_bytes, byte_loop-zero, lt-pow,
  to_number-number_bytes,
}
use sigryx.Base.Outcome.{ok}
use sigryx.Signature.{Signature, compact, parse_compact_signature, valid_signature_scalar}
use sigryx.Signature.Encodings.{IsValid, valid-size, parse_compact_signature-compact}
use sigryx.Scalar.Bytewise.{to_number-lt}
use sigryx.Scalar.Fill.{fill_bytes-to_number}
use sigryx.Rlp.{Node, text, rlp_bytes, rlp_big, encode}
use sigryx.Rlp.Steps.{byte_loop_head}
use sigryx.Transaction.Check.{integer, is_uint64, uint64, signature_scalar, signature_scalars}

-- The node of a number
abbrev pub number_node : ℕ → Node
number_node n = text (number_bytes n)

pub rlp_big-encode : (n : ℕ) → rlp_big n ≡ encode (number_node n)
unfolding rlp_big encode
rlp_big-encode zero =
    let none_left : number_bytes 0 ≡ [] = (unfold number_bytes in byte_loop-zero 0 []) in
    ap rlp_bytes (sym none_left)
rlp_big-encode (suc n) = ground arith

integer_behind :
    (bytes : Bytes) (b : ℕ) (bs : Bytes)
    → bytes ≡ b ∷ bs
    → 0 < b
    → integer (text bytes) ≡ some (to_number bytes)
unfolding integer
integer_behind bytes b bs e h =
    let kept : integer (text (b ∷ bs)) ≡ some (to_number (b ∷ bs)) = ground arith in
    ap (λ l. integer (text l)) e ∙ kept ∙ ap (λ l. some (to_number l)) (sym e)

-- The verifier reads the number back.
pub integer-number_node : (n : ℕ) → integer (number_node n) ≡ some n
integer-number_node zero =
    let none_left : number_bytes 0 ≡ [] = (unfold number_bytes in byte_loop-zero 0 []) in
    let nothing : integer (text []) ≡ some 0 = (unfold integer in refl) in
    ap (λ l. integer (text l)) none_left ∙ nothing
integer-number_node (suc n) =
    let (b, bs, e, positive) = byte_loop_head (suc n) (suc n) [] (omega arith) (lt-pow (suc n)) in
    integer_behind (number_bytes (suc n)) b bs (unfold number_bytes in e) positive
    ∙ ap some (to_number-number_bytes (suc n))

uint64_of : (node : Node) (n : ℕ) → integer node ≡ some n → n < 2 ^ 64 → uint64 node ≡ some n
unfolding uint64
uint64_of node n e h =
    let small : ltb n (2 ^ 64) ≡ true = ground arith in ap is_uint64 e ∙ rw small refl

pub uint64-number_node : (n : ℕ) → n < 2 ^ 64 → uint64 (number_node n) ≡ some n
uint64-number_node n h = uint64_of (number_node n) n (integer-number_node n) h

scalar_of :
    (node : Node) (n : ℕ)
    → integer node ≡ some n
    → 0 < n
    → n < 2 ^ 256
    → signature_scalar node ≡ ok (fill_bytes 32 n)
unfolding signature_scalar
scalar_of node n e h k =
    let fits : ((n == 0) || not (ltb n (2 ^ 256))) ≡ false = ground arith in rw (e, fits) refl

positive_scalar : (value : Bytes) → valid_signature_scalar value ≡ true → 0 < to_number value
positive_scalar value h = ground (arith, h)

-- The node of a valid scalar is read back.
signature_scalar-number_node :
    (value : Bytes)
    → AreBytes value
    → valid_signature_scalar value ≡ true
    → signature_scalar (number_node (to_number value)) ≡ ok value
signature_scalar-number_node value h v =
    let size : length value ≡ 32 = valid-size value v in
    let bound : to_number value < 2 ^ 256 =
      omega (arith, to_number-lt value h, ap (λ k. 256 ^ k) size) in
    scalar_of (number_node (to_number value)) (to_number value)
      (integer-number_node (to_number value)) (positive_scalar value v) bound
    ∙ ap (λ k. ok (fill_bytes k (to_number value))) (sym size)
    ∙ ap ok (fill_bytes-to_number value h)

-- The nodes of the two scalars of a valid signature are read back as its compact form.
pub signature_scalars-number_node :
    (sig : Signature)
    → IsValid sig
    → AreBytes sig.r × AreBytes sig.s
    → signature_scalars (number_node (to_number sig.r)) (number_node (to_number sig.s))
      ≡ ok (compact sig)
unfolding signature_scalars compact
signature_scalars-number_node sig v (hr, hs) =
    let parsed : parse_compact_signature (sig.r ++ sig.s) ≡ some (record sig { recovery_id = 0 }) =
      (unfold compact in parse_compact_signature-compact sig v) in
    rw
      (
        signature_scalar-number_node sig.r hr v.r_valid,
        signature_scalar-number_node sig.s hs v.s_valid,
        parsed,
      )
      refl
