-- ===== src/Rlp/RoundTrip.antt =====
-- The decoder reads back what the encoder wrote, whatever follows it.
use sigryx.Base.{
  ℕ, zero, suc, ◌+◌, ◌≤◌, ◌<◌, ◌≡◌, refl, ap, ◌∙◌, [], ◌∷◌, ◌++◌, arith, length, drop-append,
  length-append,
}
use sigryx.Base.Bytes.{Bytes}
use sigryx.Rlp.{
  Decoded, Node, Nodes, ok, text, list, nil, cons, max_int, decode_with, list_round, decode_nodes,
  decode_rlp, encode, encode_nodes,
}
use sigryx.Rlp.Forms.{
  decode-rlp_bytes, decode-rlp_list, length-rlp_list_payload, length-rlp_bytes_pos,
}

-- Every element takes a byte at least.
length-encode_pos : (node : Node) → 0 < length (encode node)
unfolding encode
length-encode_pos (text bytes) = length-rlp_bytes_pos bytes
length-encode_pos (list nodes) = omega (arith, length-rlp_list_payload (encode_nodes nodes))

-- A round of the list loop on an element that decodes and rounds behind it that do.
list_round-ok :
    (items : Bytes → Decoded Nodes) (front rest : Bytes) (node : Node) (nodes : Nodes)
    → 0 < length front
    → items rest ≡ ok nodes
    → list_round items (front ++ rest) (ok (node, length front)) ≡ ok (cons node nodes)
unfolding list_round
list_round-ok items front rest node nodes h e =
    ground (arith, length-append front rest, drop-append (length front) front rest refl, e)

decode_nodes-step :
    (fuel : ℕ) (bytes : Bytes)
    → 0 < length bytes
    → decode_nodes (suc fuel) bytes
      ≡ list_round (decode_nodes fuel) bytes (decode_with (decode_nodes fuel) bytes)
unfolding decode_nodes
decode_nodes-step fuel [] h = absurd (omega arith)
decode_nodes-step fuel (b ∷ bs) h = refl

decode_nodes-nil : (fuel : ℕ) → decode_nodes fuel [] ≡ ok nil
unfolding decode_nodes
decode_nodes-nil zero = refl
decode_nodes-nil (suc fuel) = refl

length-cons :
    (node : Node) (nodes : Nodes)
    → length (encode_nodes (cons node nodes)) ≡ length (encode node) + length (encode_nodes nodes)
unfolding encode
length-cons node nodes = length-append (encode node) (encode_nodes nodes)

length-list : (nodes : Nodes) → length (encode_nodes nodes) < length (encode (list nodes))
unfolding encode
length-list nodes = length-rlp_list_payload (encode_nodes nodes)

mutual
  unfolding encode

  decode_with-encode :
      (node : Node) (fuel : ℕ) (rest : Bytes)
      → length (encode node) ≤ max_int
      → length (encode node) ≤ suc fuel
      → decode_with (decode_nodes fuel) (encode node ++ rest) ≡ ok (node, length (encode node))
  decode_with-encode (text bytes) fuel rest fits enough =
      decode-rlp_bytes (decode_nodes fuel) bytes rest fits
  decode_with-encode (list nodes) fuel rest fits enough =
      decode-rlp_list (decode_nodes fuel) (encode_nodes nodes) rest nodes
        (decode_nodes-encode_nodes nodes fuel (omega (arith, length-list nodes))
          (omega (arith, length-list nodes)))
        fits

  decode_nodes-encode_nodes :
      (nodes : Nodes) (fuel : ℕ)
      → length (encode_nodes nodes) ≤ max_int
      → length (encode_nodes nodes) ≤ fuel
      → decode_nodes fuel (encode_nodes nodes) ≡ ok nodes
  decode_nodes-encode_nodes nil fuel fits enough = decode_nodes-nil fuel
  decode_nodes-encode_nodes (cons node nodes) zero fits enough =
      absurd (omega (arith, length-cons node nodes, length-encode_pos node))
  decode_nodes-encode_nodes (cons node nodes) (suc fuel) fits enough =
      decode_nodes-step fuel (encode node ++ encode_nodes nodes)
        (omega (arith, length-cons node nodes, length-encode_pos node))
      ∙ ap (list_round (decode_nodes fuel) (encode node ++ encode_nodes nodes)) (
          decode_with-encode node fuel (encode_nodes nodes) (omega (arith, length-cons node nodes))
            (omega (arith, length-cons node nodes)))
      ∙ list_round-ok (decode_nodes fuel) (encode node) (encode_nodes nodes) node nodes
          (length-encode_pos node)
          (decode_nodes-encode_nodes nodes fuel (omega (arith, length-cons node nodes))
            (omega (arith, length-cons node nodes, length-encode_pos node)))

-- Whatever bytes follow the encoding of a node that is at most the largest `int` long, the decoder
-- returns the node and the length of the encoding.
pub decode_rlp-encode :
    (node : Node) (rest : Bytes)
    → length (encode node) ≤ max_int
    → decode_rlp (encode node ++ rest) ≡ ok (node, length (encode node))
unfolding decode_rlp
decode_rlp-encode node rest fits =
    decode_with-encode node (length (encode node ++ rest)) rest fits
      (omega (arith, length-append (encode node) rest))
