-- ===== src/Rlp.antt =====
-- The RLP codec of internal/adapter/out/blockchain/ethereum/transaction.go. A byte slice is the list
-- of its bytes, an `int` a number whose sums wrap at 2 ^ 63.
pub mod Steps
pub mod Decoder
pub mod Forms
pub mod Canonical
pub mod RoundTrip
pub mod Overflow
pub mod Tests
use sigryx.Base.{
  ℕ, zero, suc, ◌+◌, ◌-◌, ◌*◌, ◌/◌, ◌%◌, ◌^◌, Bool, false, ◌&&◌, ◌||◌, List, [], ◌∷◌, ◌++◌, ltb,
  leb, ◌==◌, if◌then◌else◌, length, take, drop,
}
use sigryx.Base.Bytes.{Bytes, byte_loop, number_bytes}

-- rlpNode: `isList` tells the two forms apart.
mutual
  pub data Node : Type 0 where
    text : Bytes → Node
    list : Nodes → Node

  pub data Nodes : Type 0 where
    nil : Nodes
    cons : Node → Nodes → Nodes

-- intBytes: at most the eight bytes of the buffer.
unfoldable pub int_bytes : ℕ → Bytes
int_bytes value = byte_loop 8 value []

-- rlpBytes
unfoldable pub rlp_bytes : Bytes → Bytes
rlp_bytes (b ∷ []) = if ltb b 0x80 then b ∷ [] else 0x81 ∷ b ∷ []
rlp_bytes value =
    if leb (length value) 55
    then ((0x80 + length value) % 256) ∷ value
    else ((0xb7 + length (int_bytes (length value))) % 256) ∷ (int_bytes (length value) ++ value)

-- rlpList, of the payload that `bytes.Join(items, nil)` gives
unfoldable pub rlp_list_payload : Bytes → Bytes
rlp_list_payload payload =
    if leb (length payload) 55
    then ((0xc0 + length payload) % 256) ∷ payload
    else ((0xf7 + length (int_bytes (length payload))) % 256)
      ∷ (int_bytes (length payload) ++ payload)

-- bytes.Join(items, nil)
abbrev pub join : List Bytes → Bytes
join [] = []
join (x ∷ xs) = x ++ join xs

-- rlpList
abbrev pub rlp_list : List Bytes → Bytes
rlp_list items = rlp_list_payload (join items)

-- rlpBig; rlpUint64 is the same function on a smaller range
unfoldable pub rlp_big : ℕ → Bytes
rlp_big value = if value == 0 then rlp_bytes [] else rlp_bytes (number_bytes value)

-- rlpNode.encode, and the joined parts of a list
unfoldable mutual
  pub encode : Node → Bytes
  encode (text bytes) = rlp_bytes bytes
  encode (list nodes) = rlp_list_payload (encode_nodes nodes)

  pub encode_nodes : Nodes → Bytes
  encode_nodes nil = []
  encode_nodes (cons node nodes) = encode node ++ encode_nodes nodes

pub data RlpError : Type 0 where
  empty_rlp short_string non_canonical_string invalid_long_string short_list invalid_long_list
        invalid_length length_overflow invalid_list_payload :
      RlpError

-- What a call of the decoder comes to. `panic` is a run-time panic of Go; `stuck` is no Go value, it
-- says that the recursion ran out of fuel.
pub data Decoded {ℓ} (A : Type ℓ) : Type ℓ where
  ok : A → Decoded A
  err : RlpError → Decoded A
  panic : Decoded A
  stuck : Decoded A

-- The largest `int`, `int(^uint(0)>>1)`.
abbrev pub max_int : ℕ
max_int = 2 ^ 63 - 1

-- The loop of decodeRLPLength
unfoldable pub length_loop : ℕ → Bytes → Decoded ℕ
length_loop length [] = ok length
length_loop length (b ∷ bs) =
    if ltb ((max_int - b) / 256) length
    then err length_overflow
    else length_loop (length * 256 + b) bs

-- `data[1] == 0`, behind the test of the length
abbrev pub second_is_zero : Bytes → Bool
second_is_zero (a ∷ b ∷ rest) = b == 0
second_is_zero _ = false

-- decodeRLPLength, without the offset that it returns too, `1 + length_of_length`
unfoldable pub decode_rlp_length : Bytes → ℕ → Decoded ℕ
unfolding length_loop
decode_rlp_length bytes length_of_length =
    if (length_of_length == 0)
      || (ltb 8 length_of_length
          || (ltb (length bytes) (1 + length_of_length) || second_is_zero bytes))
    then err invalid_length
    else length_loop 0 (take length_of_length (drop 1 bytes))

-- `if err != nil || length <= 55 || len(data) < offset+length` of the two long forms, and the slice
-- `data[offset : offset+length]` behind it. A sum above the largest `int` wraps to a negative
-- number: the test lets it pass, and the slice expression panics.
unfoldable pub long_payload : RlpError → Bytes → ℕ → Decoded ℕ → Decoded (Bytes × ℕ)
long_payload error bytes offset (ok n) =
    if leb n 55
    then err error
    else if ltb max_int (offset + n)
    then panic
    else if ltb (length bytes) (offset + n)
    then err error
    else ok (take n (drop offset bytes), offset + n)
long_payload error bytes offset (err e) = err error
long_payload error bytes offset panic = panic
long_payload error bytes offset stuck = stuck

-- `value[0] < 0x80`, of a value that is one byte long
abbrev pub starts_below_0x80 : Bytes → Bool
starts_below_0x80 [] = false
starts_below_0x80 (b ∷ bs) = ltb b 0x80

-- The case `prefix <= 0xb7` of decodeRLP
unfoldable pub short_text : ℕ → Bytes → Decoded (Node × ℕ)
short_text n bytes =
    if ltb (length bytes) (1 + n)
    then err short_string
    else if (n == 1) && starts_below_0x80 (take n (drop 1 bytes))
    then err non_canonical_string
    else ok (text (take n (drop 1 bytes)), 1 + n)

-- `prefix <= 0xbf`
unfoldable pub long_text : Decoded (Bytes × ℕ) → Decoded (Node × ℕ)
long_text (ok (payload, consumed)) = ok (text payload, consumed)
long_text (err e) = err e
long_text panic = panic
long_text stuck = stuck

-- The end of the two list cases: `items, err := decodeRLPList(payload)`
unfoldable pub as_list : Decoded Nodes → ℕ → Decoded (Node × ℕ)
as_list (ok nodes) consumed = ok (list nodes, consumed)
as_list (err e) consumed = err e
as_list panic consumed = panic
as_list stuck consumed = stuck

-- `prefix <= 0xf7`. The calls of decodeRLPList are the argument `items`.
unfoldable pub short_list_case : (Bytes → Decoded Nodes) → ℕ → Bytes → Decoded (Node × ℕ)
unfolding as_list
short_list_case items n bytes =
    if ltb (length bytes) (1 + n)
    then err short_list
    else as_list (items (take n (drop 1 bytes))) (1 + n)

-- the last case
unfoldable pub long_list_case : (Bytes → Decoded Nodes) → Decoded (Bytes × ℕ) → Decoded (Node × ℕ)
unfolding as_list
long_list_case items (ok (payload, consumed)) = as_list (items payload) consumed
long_list_case items (err e) = err e
long_list_case items panic = panic
long_list_case items stuck = stuck

-- decodeRLP
unfoldable pub decode_with : (Bytes → Decoded Nodes) → Bytes → Decoded (Node × ℕ)
unfolding short_text long_text short_list_case long_list_case long_payload decode_rlp_length
decode_with items [] = err empty_rlp
decode_with items (prefix ∷ rest) =
    let bytes : Bytes = prefix ∷ rest in
    if leb prefix 0x7f
    then ok (text (prefix ∷ []), 1)
    else if leb prefix 0xb7
    then short_text (prefix - 0x80) bytes
    else if leb prefix 0xbf
    then long_text (
        long_payload invalid_long_string bytes (1 + (prefix - 0xb7))
          (decode_rlp_length bytes (prefix - 0xb7)))
    else if leb prefix 0xf7
    then short_list_case items (prefix - 0xc0) bytes
    else long_list_case items (
        long_payload invalid_long_list bytes (1 + (prefix - 0xf7))
          (decode_rlp_length bytes (prefix - 0xf7)))

-- `nodes = append(nodes, node)`, in front of what the later rounds append
unfoldable pub push : Node → Decoded Nodes → Decoded Nodes
push node (ok nodes) = ok (cons node nodes)
push node (err e) = err e
push node panic = panic
push node stuck = stuck

-- One round of the loop of decodeRLPList on a payload that is not empty, whose first element came
-- out as `head`; the later rounds are `items`.
unfoldable pub list_round : (Bytes → Decoded Nodes) → Bytes → Decoded (Node × ℕ) → Decoded Nodes
unfolding push
list_round items payload (ok (node, consumed)) =
    if (consumed == 0) || ltb (length payload) consumed
    then err invalid_list_payload
    else push node (items (drop consumed payload))
list_round items payload (err e) = err invalid_list_payload
list_round items payload panic = panic
list_round items payload stuck = stuck

-- decodeRLPList. A round takes a byte at least, and a nested call is on less than the payload.
unfoldable pub decode_nodes : ℕ → Bytes → Decoded Nodes
unfolding decode_with list_round
decode_nodes fuel [] = ok nil
decode_nodes zero (b ∷ bs) = stuck
decode_nodes (suc fuel) (b ∷ bs) =
    list_round (decode_nodes fuel) (b ∷ bs) (decode_with (decode_nodes fuel) (b ∷ bs))

-- decodeRLP as the code calls it
unfoldable pub decode_rlp : Bytes → Decoded (Node × ℕ)
unfolding decode_nodes
decode_rlp bytes = decode_with (decode_nodes (length bytes)) bytes
