-- ===== src/Rlp/Canonical.antt =====
-- Where the decoder succeeds, what it read is exactly what the encoder writes for the result.
use sigryx.Base.{
  ℕ, zero, suc, ◌+◌, ◌-◌, ◌≤◌, ◌<◌, ◌≡◌, refl, sym, ap, subst, ◌∙◌, [], ◌∷◌, ◌++◌, arith, length,
  take, drop, length-take, length-drop, All-take, All-drop, ◌&&◌, false, ◌==◌, take-append-drop,
  take-add,
}
use sigryx.Base.Bytes.{Bytes, AreBytes, IsByte, to_number, byte_loop-to_number}
use sigryx.Rlp.{
  Decoded, Node, Nodes, ok, err, panic, stuck, text, list, cons, max_int, decode_rlp_length,
  long_payload, short_text, long_text, short_list_case, long_list_case, as_list, decode_with,
  list_round, push, decode_nodes, decode_rlp, RlpError, int_bytes, encode, encode_nodes, rlp_bytes,
  rlp_list_payload, invalid_long_string, invalid_long_list, starts_below_0x80,
}
use sigryx.Rlp.Forms.{
  rlp_bytes-long, rlp_bytes-short, self_coded, long_list_payload, short_list_payload,
}
use native.Mathlib.Decide.{dec_lt}
use sigryx.Rlp.Steps.{
  decode_low, decode_short_text, decode_long_text, decode_short_list, decode_long_list,
}
use sigryx.Rlp.Decoder.{long_payload_ok, decode_rlp_length_ok}

-- `c` bytes at the front of `bytes` are the encoding of `node`.
abbrev pub Reads : Node → ℕ → Bytes → Type 0
Reads node c bytes = (encode node ≡ take c bytes) × (0 < c) × (c ≤ length bytes)

-- The slices behind a length field that is `k` bytes long.
record Field (p : ℕ) (rest : Bytes) (k c : ℕ) (payload : Bytes) : Type 0 where
  field : int_bytes (length payload) ≡ take k rest
  width : length (int_bytes (length payload)) ≡ k
  long : 55 < length payload
  small : length payload ≤ max_int
  size : c ≡ 1 + k + length payload
  inside : c ≤ length (p ∷ rest)
  bytes : AreBytes payload
  whole : take c (p ∷ rest) ≡ p ∷ (int_bytes (length payload) ++ payload)

slice_behind : (p k n : ℕ) (rest : Bytes) → take n (drop (1 + k) (p ∷ rest)) ≡ take n (drop k rest)
slice_behind p k n rest =
    let e : 1 + k ≡ suc k = omega arith in ap (λ m. take n (drop m (p ∷ rest))) e

take-one-add :
    (p k n : ℕ) (rest : Bytes)
    → take (1 + k + n) (p ∷ rest) ≡ p ∷ (take k rest ++ take n (drop k rest))
take-one-add p k n rest =
    let e : 1 + k + n ≡ suc (k + n) = omega arith in
    ap (λ m. take m (p ∷ rest)) e ∙ ap (λ l. p ∷ l) (take-add k n rest)

int_bytes-to_number :
    (b : ℕ) (bs : Bytes)
    → AreBytes (b ∷ bs)
    → 0 < b
    → to_number (b ∷ bs) ≤ max_int
    → int_bytes (to_number (b ∷ bs)) ≡ b ∷ bs
unfolding int_bytes
int_bytes-to_number b bs h positive small = byte_loop-to_number 8 b bs h positive (omega arith)

long_form :
    (e : RlpError) (p : ℕ) (rest : Bytes) (k : ℕ) (payload : Bytes) (c : ℕ)
    → AreBytes (p ∷ rest)
    → long_payload e (p ∷ rest) (1 + k) (decode_rlp_length (p ∷ rest) k) ≡ ok (payload, c)
    → Field p rest k c payload
long_form e p rest k payload c h q =
    let (n, read, long, inside, slice, size) = long_payload_ok e (p ∷ rest) (1 + k) _ payload c q in
    let (b, bs, head, positive, narrow, fits, value, small) =
      decode_rlp_length_ok (p ∷ rest) k n h read in
    let behind : payload ≡ take n (drop k rest) = slice ∙ slice_behind p k n rest in
    let measure : length payload ≡ n =
      omega (arith, ap length behind, length-take n (drop k rest), length-drop k rest) in
    let front : AreBytes (b ∷ bs) = subst AreBytes head (All-take IsByte k rest h.1) in
    let written : int_bytes (length payload) ≡ take k rest =
      ap int_bytes (measure ∙ value)
      ∙ int_bytes-to_number b bs front positive (omega arith)
      ∙ sym head in
    record {
      field = written;
      width = omega (arith, ap length written, length-take k rest);
      long = omega arith;
      small = omega arith;
      size = omega arith;
      inside = omega arith;
      bytes =
          subst AreBytes (sym behind)
            (All-take IsByte n (drop k rest) (All-drop IsByte k rest h.1));
      whole =
          ap (λ m. take m (p ∷ rest)) size
          ∙ take-one-add p k n rest
          ∙ ap (λ l. p ∷ (l ++ take n (drop k rest))) (sym written)
          ∙ ap (λ l. p ∷ (int_bytes (length payload) ++ l)) (sym behind);
    }

self_coded-false :
    (n : ℕ) (v : Bytes)
    → length v ≡ n
    → (n == 1) && starts_below_0x80 v ≡ false
    → self_coded v ≡ false
self_coded-false n [] h e = refl
self_coded-false n (b ∷ []) h e = ground arith
self_coded-false n (a ∷ b ∷ bs) h e = refl

short_text_ok :
    (n p : ℕ) (rest : Bytes) (node : Node) (c : ℕ)
    → short_text n (p ∷ rest) ≡ ok (node, c)
    → (node ≡ text (take n rest))
      × (c ≡ 1 + n)
      × (n ≤ length rest)
      × ((n == 1) && starts_below_0x80 (take n rest) ≡ false)
unfolding short_text
short_text_ok n p rest node c q = (ground arith, ground arith, ground arith, ground arith)

-- A string in the short form.
short_text-Reads :
    (p : ℕ) (rest : Bytes) (node : Node) (c : ℕ)
    → 0x80 ≤ p
    → p ≤ 0xb7
    → short_text (p - 0x80) (p ∷ rest) ≡ ok (node, c)
    → Reads node c (p ∷ rest)
unfolding encode
short_text-Reads p rest node c lo hi q =
    let n : ℕ = p - 0x80 in
    let (e, size, inside, plain) = short_text_ok n p rest node c q in
    let measure : length (take n rest) ≡ n = omega (arith, length-take n rest) in
    let first : 0x80 + length (take n rest) ≡ p = omega arith in
    let suc_size : c ≡ suc n = omega arith in
    (
      ap encode e
          ∙ rlp_bytes-short (take n rest) (self_coded-false n (take n rest) measure plain)
              (omega arith)
          ∙ ap (λ m. m ∷ take n rest) first
          ∙ ap (λ m. take m (p ∷ rest)) (sym suc_size),
      omega arith,
      omega arith,
    )

-- A string in the long form.
long_text-Reads :
    (p : ℕ) (rest payload : Bytes) (c : ℕ)
    → 0xb8 ≤ p
    → p ≤ 0xbf
    → Field p rest (p - 0xb7) c payload
    → Reads (text payload) c (p ∷ rest)
unfolding encode
long_text-Reads p rest payload c lo hi f = (
  rlp_bytes-long payload f.long f.small
      ∙ ap (λ n. n ∷ (int_bytes (length payload) ++ payload)) (omega (arith, f.width))
      ∙ sym f.whole,
  omega (arith, f.size, f.long),
  f.inside,
)

short_list_case_ok :
    (items : Bytes → Decoded Nodes) (n p : ℕ) (rest : Bytes) (node : Node) (c : ℕ)
    → short_list_case items n (p ∷ rest) ≡ ok (node, c)
    → (n ≤ length rest) × (as_list (items (take n rest)) (1 + n) ≡ ok (node, c))
unfolding short_list_case
short_list_case_ok items n p rest node c q = (ground arith, ground arith)

as_list_ok :
    (d : Decoded Nodes) (n : ℕ) (node : Node) (c : ℕ)
    → as_list d n ≡ ok (node, c)
    → (nodes : Nodes) × (d ≡ ok nodes) × (node ≡ list nodes) × (c ≡ n)
unfolding as_list
as_list_ok (ok nodes) n node c q = (nodes, refl, ground arith, ground arith)
as_list_ok (err x) n node c q = cc
as_list_ok panic n node c q = cc
as_list_ok stuck n node c q = cc

long_text_ok :
    (d : Decoded (Bytes × ℕ)) (node : Node) (c : ℕ)
    → long_text d ≡ ok (node, c)
    → (payload : Bytes) × (d ≡ ok (payload, c)) × (node ≡ text payload)
unfolding long_text
long_text_ok (ok (payload, n)) node c q = (payload, ground arith, ground arith)
long_text_ok (err x) node c q = cc
long_text_ok panic node c q = cc
long_text_ok stuck node c q = cc

long_list_case_ok :
    (items : Bytes → Decoded Nodes) (d : Decoded (Bytes × ℕ)) (node : Node) (c : ℕ)
    → long_list_case items d ≡ ok (node, c)
    → (payload : Bytes) × (nodes : Nodes) × (d ≡ ok (payload, c))
      × (items payload ≡ ok nodes)
      × (node ≡ list nodes)
unfolding long_list_case
long_list_case_ok items (ok (payload, n)) node c q =
    let (nodes, inner, e, size) = as_list_ok (items payload) n node c q in
    (payload, nodes, ap (λ m. ok (payload, m)) (sym size), inner, e)
long_list_case_ok items (err x) node c q = cc
long_list_case_ok items panic node c q = cc
long_list_case_ok items stuck node c q = cc

ok_pair :
    (a b : Node) (m n : ℕ)
    → ◌≡◌ {A = Decoded (Node × ℕ)} (ok (a, m)) (ok (b, n))
    → (a ≡ b) × (m ≡ n)
ok_pair a b m n q = (ground arith, ground arith)

push_ok :
    (node : Node) (d : Decoded Nodes) (nodes : Nodes)
    → push node d ≡ ok nodes
    → (later : Nodes) × (d ≡ ok later) × (nodes ≡ cons node later)
unfolding push
push_ok node (ok later) nodes q = (later, refl, ground arith)
push_ok node (err x) nodes q = cc
push_ok node panic nodes q = cc
push_ok node stuck nodes q = cc

-- The list decoder reads exactly the encodings of what it returns.
abbrev ReadsAll : (Bytes → Decoded Nodes) → Bytes → Type 0
ReadsAll items bytes =
    (payload : Bytes) (nodes : Nodes)
    → length payload < length bytes
    → AreBytes payload
    → items payload ≡ ok nodes
    → encode_nodes nodes ≡ payload

module _ (items : Bytes → Decoded Nodes) (p : ℕ) (rest : Bytes)
    (reads : ReadsAll items (p ∷ rest)) where
  short_list-Reads :
      (node : Node) (c : ℕ)
      → 0xc0 ≤ p
      → p ≤ 0xf7
      → AreBytes rest
      → short_list_case items (p - 0xc0) (p ∷ rest) ≡ ok (node, c)
      → Reads node c (p ∷ rest)
  unfolding encode
  short_list-Reads node c lo hi h q =
      let n : ℕ = p - 0xc0 in
      let (inside, r) = short_list_case_ok items n p rest node c q in
      let (nodes, inner, e, size) = as_list_ok (items (take n rest)) (1 + n) node c r in
      let measure : length (take n rest) ≡ n = omega (arith, length-take n rest) in
      let payload : encode_nodes nodes ≡ take n rest =
        reads (take n rest) nodes (omega arith) (All-take IsByte n rest h) inner in
      let first : 0xc0 + length (take n rest) ≡ p = omega arith in
      let suc_size : c ≡ suc n = omega arith in
      (
        ap encode e
            ∙ ap rlp_list_payload payload
            ∙ short_list_payload (take n rest) (omega arith)
            ∙ ap (λ m. m ∷ take n rest) first
            ∙ ap (λ m. take m (p ∷ rest)) (sym suc_size),
        omega arith,
        omega arith,
      )

  long_list-Reads :
      (payload : Bytes) (nodes : Nodes) (c : ℕ)
      → 0xf8 ≤ p
      → Field p rest (p - 0xf7) c payload
      → items payload ≡ ok nodes
      → Reads (list nodes) c (p ∷ rest)
  unfolding encode
  long_list-Reads payload nodes c lo f inner = (
    ap rlp_list_payload (reads payload nodes (omega (arith, f.size, f.inside)) f.bytes inner)
        ∙ long_list_payload payload f.long f.small
        ∙ ap (λ n. n ∷ (int_bytes (length payload) ++ payload)) (omega (arith, f.width))
        ∙ sym f.whole,
    omega (arith, f.size, f.long),
    f.inside,
  )

  low-Reads :
      (node : Node) (c : ℕ)
      → p ≤ 0x7f
      → decode_with items (p ∷ rest) ≡ ok (node, c)
      → Reads node c (p ∷ rest)
  unfolding encode rlp_bytes
  low-Reads node c h q =
      let (e, size) = ok_pair (text (p ∷ [])) node 1 c (sym (decode_low items p rest h) ∙ q) in
      let self : rlp_bytes (p ∷ []) ≡ p ∷ [] = ground arith in
      (ap encode (sym e) ∙ self ∙ ap (λ m. take m (p ∷ rest)) size, omega arith, omega arith)

  decode_with-Reads :
      (node : Node) (c : ℕ)
      → AreBytes (p ∷ rest)
      → decode_with items (p ∷ rest) ≡ ok (node, c)
      → Reads node c (p ∷ rest)
  decode_with-Reads node c h q = elim (dec_lt p 0x80) [
    | yes low ↦ low-Reads node c (omega arith) q
    | no a ↦ elim (dec_lt p 0xb8) [
      | yes b ↦
          short_text-Reads p rest node c (omega arith) (omega arith)
            (sym (decode_short_text items p rest (omega arith) (omega arith)) ∙ q)
      | no b ↦ elim (dec_lt p 0xc0) [
        | yes d ↦
            let (payload, r, e) =
              long_text_ok _ node c
                (sym (decode_long_text items p rest (omega arith) (omega arith)) ∙ q) in
            subst (λ n. Reads n c (p ∷ rest)) (sym e)
              (long_text-Reads p rest payload c (omega arith) (omega arith)
                (long_form invalid_long_string p rest (p - 0xb7) payload c h r))
        | no d ↦ elim (dec_lt p 0xf8) [
          | yes f ↦
              short_list-Reads node c (omega arith) (omega arith) h.1
                (sym (decode_short_list items p rest (omega arith) (omega arith)) ∙ q)
          | no f ↦
              let (payload, nodes, r, inner, e) =
                long_list_case_ok items _ node c
                  (sym (decode_long_list items p rest (omega arith)) ∙ q) in
              subst (λ n. Reads n c (p ∷ rest)) (sym e)
                (long_list-Reads payload nodes c (omega arith)
                  (long_form invalid_long_list p rest (p - 0xf7) payload c h r) inner)
        ]
      ]
    ]
  ]

list_round_ok :
    (items : Bytes → Decoded Nodes) (payload : Bytes) (d : Decoded (Node × ℕ)) (nodes : Nodes)
    → list_round items payload d ≡ ok nodes
    → (node : Node) × (c : ℕ) × (later : Nodes) × (d ≡ ok (node, c))
      × (items (drop c payload) ≡ ok later)
      × (nodes ≡ cons node later)
unfolding list_round
list_round_ok items payload (ok (node, c)) nodes q =
    let (later, r, e) = push_ok node (items (drop c payload)) nodes (ground arith) in
    (node, c, later, refl, r, e)
list_round_ok items payload (err x) nodes q = cc
list_round_ok items payload panic nodes q = cc
list_round_ok items payload stuck nodes q = cc

decode_nodes_reads :
    (fuel : ℕ) (bytes : Bytes) (nodes : Nodes)
    → AreBytes bytes
    → decode_nodes fuel bytes ≡ ok nodes
    → encode_nodes nodes ≡ bytes
unfolding decode_nodes encode
decode_nodes_reads zero [] nodes h q = ground arith
decode_nodes_reads (suc fuel) [] nodes h q = ground arith
decode_nodes_reads zero (b ∷ bs) nodes h q = cc
decode_nodes_reads (suc fuel) (b ∷ bs) nodes h q =
    let (node, c, later, first, others, e) = list_round_ok (decode_nodes fuel) (b ∷ bs) _ nodes q in
    let (front, positive, inside) =
      decode_with-Reads (decode_nodes fuel) b bs
        (λ payload inner k g r. decode_nodes_reads fuel payload inner g r) node c h first in
    let back =
      decode_nodes_reads fuel (drop c (b ∷ bs)) later (All-drop IsByte c (b ∷ bs) h) others in
    ap encode_nodes e
    ∙ ap (λ l. l ++ encode_nodes later) front
    ∙ ap (λ l. take c (b ∷ bs) ++ l) back
    ∙ take-append-drop c (b ∷ bs)

-- Where the decoder returns a node and a count, the count is inside the input and those bytes are the
-- encoding of the node: no other encoding of it is accepted.
pub encode-decode_rlp :
    (bytes : Bytes) (node : Node) (c : ℕ)
    → AreBytes bytes
    → decode_rlp bytes ≡ ok (node, c)
    → (encode node ≡ take c bytes) × (0 < c) × (c ≤ length bytes)
unfolding decode_rlp
encode-decode_rlp [] node c h q = unfold decode_with in cc
encode-decode_rlp (p ∷ rest) node c h q =
    decode_with-Reads (decode_nodes (length (p ∷ rest))) p rest
      (λ payload inner k g r. decode_nodes_reads (length (p ∷ rest)) payload inner g r) node c h q
