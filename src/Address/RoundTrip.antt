-- ===== src/Address/RoundTrip.antt =====
-- The checksum in the letters of an address does not change the bytes that it is read as.
use sigryx.Base.{
  ℕ, zero, suc, ◌+◌, ◌-◌, ◌*◌, ◌/◌, ◌%◌, ◌<◌, ◌≤◌, ◌≡◌, refl, ap, ◌∙◌, Bool, true, false, not, ◌&&◌,
  some, List, [], ◌∷◌, ◌++◌, arith, leb, ◌==◌, if◌then◌else◌, length, drop, length-append,
  replicate, length-drop, All-append, All-drop,
}
use sigryx.Base.Bytes.{Bytes, AreBytes, IsByte}
use native.Mathlib.Decide.{dec_lt}
use sigryx.Hex.{
  digit, push_pair, decode_pairs, decode_even, decode_hex, of_size, decode_fixed_hex,
  decode_address,
}
use sigryx.Keccak.{keccak256, squeeze, put_little_endian, lane, absorb_data}
use sigryx.Address.{
  hex_digit, encode_to_string, nibbles, checksum_case, checksum_cases, ethereum_address,
}

decimal_digit : (d : ℕ) → d < 10 → digit 16 (48 + d) ≡ some d
decimal_digit d h = ground arith

lower_digit : (d : ℕ) → 10 ≤ d → d < 16 → digit 16 (87 + d) ≡ some d
lower_digit d h k = ground arith

upper_digit : (d : ℕ) → 10 ≤ d → d < 16 → digit 16 (87 + d - 32) ≡ some d
upper_digit d h k = ground arith

is_decimal : (d : ℕ) → d < 10 → (leb 48 (48 + d) && leb (48 + d) 57) ≡ true
is_decimal d h = ground arith

is_letter : (d : ℕ) → 10 ≤ d → (leb 48 (87 + d) && leb (87 + d) 57) ≡ false
is_letter d h = ground arith

-- A letter is read the same in both cases.
either_case :
    (d : ℕ) (upper : Bool)
    → 10 ≤ d
    → d < 16
    → digit 16 (if upper then 87 + d - 32 else 87 + d) ≡ some d
either_case d true h k = upper_digit d h k
either_case d false h k = lower_digit d h k

digit-checksum_case :
    (d nibble : ℕ) → d < 16 → digit 16 (checksum_case (hex_digit d) nibble) ≡ some d
digit-checksum_case d nibble h = elim (dec_lt d 10) [
  | yes low ↦
      let shape : hex_digit d ≡ 48 + d = ground arith in
      ap (λ c. digit 16 (checksum_case c nibble)) shape
      ∙ ap
          (λ (b : Bool).
            digit 16 (if b then 48 + d else if leb 8 nibble then 48 + d - 32 else 48 + d))
          (is_decimal d low)
      ∙ decimal_digit d low
  | no high ↦
      let large : 10 ≤ d = omega arith in
      let shape : hex_digit d ≡ 87 + d = ground arith in
      ap (λ c. digit 16 (checksum_case c nibble)) shape
      ∙ ap
          (λ (b : Bool).
            digit 16 (if b then 87 + d else if leb 8 nibble then 87 + d - 32 else 87 + d))
          (is_letter d large)
      ∙ either_case d (leb 8 nibble) large h
]

length-put_little_endian : (n v : ℕ) → length (put_little_endian n v) ≡ n
unfolding put_little_endian
length-put_little_endian zero v = refl
length-put_little_endian (suc n) v = ap suc (length-put_little_endian n (v / 256))

put_little_endian-AreBytes : (n v : ℕ) → AreBytes (put_little_endian n v)
unfolding put_little_endian
put_little_endian-AreBytes zero v = tt
put_little_endian-AreBytes (suc n) v = (omega arith, put_little_endian-AreBytes n (v / 256))

pub length-squeeze : (state : List ℕ) → length (squeeze state) ≡ 32
unfolding squeeze
length-squeeze state =
    let a = put_little_endian 8 (lane state 0) in
    let b = put_little_endian 8 (lane state 1) in
    let c = put_little_endian 8 (lane state 2) in
    let d = put_little_endian 8 (lane state 3) in
    omega (
      arith,
      length-append a (b ++ (c ++ d)),
      length-append b (c ++ d),
      length-append c d,
      length-put_little_endian 8 (lane state 0),
      length-put_little_endian 8 (lane state 1),
      length-put_little_endian 8 (lane state 2),
      length-put_little_endian 8 (lane state 3),
    )

pub squeeze-AreBytes : (state : List ℕ) → AreBytes (squeeze state)
unfolding squeeze
squeeze-AreBytes state =
    let a = put_little_endian 8 (lane state 0) in
    let b = put_little_endian 8 (lane state 1) in
    let c = put_little_endian 8 (lane state 2) in
    let d = put_little_endian 8 (lane state 3) in
    All-append IsByte a (b ++ (c ++ d)) (put_little_endian-AreBytes 8 (lane state 0)) (
      All-append IsByte b (c ++ d) (put_little_endian-AreBytes 8 (lane state 1)) (
        All-append IsByte c d (put_little_endian-AreBytes 8 (lane state 2))
          (put_little_endian-AreBytes 8 (lane state 3))))

pub length-keccak256 : (bytes : Bytes) → length (keccak256 bytes) ≡ 32
unfolding keccak256
length-keccak256 bytes = length-squeeze (absorb_data (length bytes) (replicate 25 0) bytes)

pub keccak256-AreBytes : (bytes : Bytes) → AreBytes (keccak256 bytes)
unfolding keccak256
keccak256-AreBytes bytes = squeeze-AreBytes (absorb_data (length bytes) (replicate 25 0) bytes)

length-encode_to_string : (bytes : Bytes) → length (encode_to_string bytes) ≡ 2 * length bytes
unfolding encode_to_string
length-encode_to_string [] = refl
length-encode_to_string (b ∷ bytes) = omega (arith, length-encode_to_string bytes)

length-checksum_cases : (cs rest : Bytes) → length (checksum_cases cs rest) ≡ length cs
unfolding checksum_cases
length-checksum_cases [] rest = refl
length-checksum_cases (c ∷ cs) [] = refl
length-checksum_cases (c ∷ cs) (nibble ∷ rest) = ap suc (length-checksum_cases cs rest)

decode_pairs_lem :
    (a b high low : ℕ) (rest bytes : Bytes)
    → digit 16 a ≡ some high
    → digit 16 b ≡ some low
    → decode_pairs rest ≡ some bytes
    → decode_pairs (a ∷ b ∷ rest) ≡ some ((high * 16 + low) ∷ bytes)
unfolding decode_pairs
decode_pairs_lem a b high low rest bytes ha hb hr =
    ap (λ o. push_pair o (digit 16 b) (decode_pairs rest)) ha
    ∙ ap (λ o. push_pair (some high) o (decode_pairs rest)) hb
    ∙ ap (push_pair (some high) (some low)) hr

-- What the checksum leaves of the digits of bytes is read back as the bytes, if there are nibbles for all.
decode_pairs-checksum_cases :
    (bytes check : Bytes)
    → AreBytes bytes
    → length bytes ≤ length check
    → decode_pairs (checksum_cases (encode_to_string bytes) (nibbles check)) ≡ some bytes
unfolding encode_to_string nibbles checksum_cases
decode_pairs-checksum_cases [] check h k = (unfold decode_pairs in refl)
decode_pairs-checksum_cases (b ∷ bytes) [] h k = absurd (omega arith)
decode_pairs-checksum_cases (b ∷ bytes) (c ∷ check) (hb, hs) k =
    decode_pairs_lem (checksum_case (hex_digit (b / 16)) (c / 16))
      (checksum_case (hex_digit (b % 16)) (c % 16)) (b / 16) (b % 16)
      (checksum_cases (encode_to_string bytes) (nibbles check)) bytes
      (digit-checksum_case (b / 16) (c / 16) (omega arith))
      (digit-checksum_case (b % 16) (c % 16) (omega arith))
      (decode_pairs-checksum_cases bytes check hs (omega arith))
    ∙ ap (λ k. some (k ∷ bytes)) (omega arith)

prefixed : (rest : Bytes) → decode_hex (48 ∷ 120 ∷ rest) ≡ decode_even rest
unfolding decode_hex
prefixed rest = refl

parity : (n half : ℕ) → n ≡ 2 * half → not (n % 2 == 0) ≡ false
parity n half h = ground (arith, h)

decode_even_lem :
    (text bytes : Bytes) (half : ℕ)
    → length text ≡ 2 * half
    → decode_pairs text ≡ some bytes
    → decode_even text ≡ some bytes
unfolding decode_even
decode_even_lem text bytes half h e =
    let even : not (length text % 2 == 0) ≡ false = parity (length text) half h in rw even e

equal_sizes : (n m : ℕ) → n ≡ m → not (n == m) ≡ false
equal_sizes n m h = ground (arith, h)

decode_fixed_hex_lem :
    (text bytes : Bytes) (size : ℕ)
    → decode_hex text ≡ some bytes
    → length bytes ≡ size
    → decode_fixed_hex text size ≡ some bytes
unfolding decode_fixed_hex
decode_fixed_hex_lem text bytes size e h =
    let fits : not (length bytes == size) ≡ false = equal_sizes (length bytes) size h in
    ap (of_size size) e ∙ rw fits refl

-- The address that ethereumAddress writes of a public key is read by decodeAddress, as signTransaction
-- reads the receiver, as the last 20 bytes of the Keccak digest of the key without its first byte.
pub decode_address-ethereum_address :
    (public_key : Bytes)
    → decode_address (ethereum_address public_key) true
      ≡ some (drop 12 (keccak256 (drop 1 public_key)))
unfolding decode_address ethereum_address
decode_address-ethereum_address public_key =
    let digest = keccak256 (drop 1 public_key) in
    let tail = drop 12 digest in
    let size : length digest ≡ 32 = length-keccak256 (drop 1 public_key) in
    let twenty : length tail ≡ 20 = omega (arith, length-drop 12 digest, size) in
    let twelve : length digest - 20 ≡ 12 = omega (arith, size) in
    let cut : drop (length digest - 20) digest ≡ tail = ap (λ n. drop n digest) twelve in
    let check = keccak256 (encode_to_string tail) in
    let text = checksum_cases (encode_to_string tail) (nibbles check) in
    let pairs : decode_pairs text ≡ some tail =
      decode_pairs-checksum_cases tail check
        (All-drop IsByte 12 digest (keccak256-AreBytes (drop 1 public_key)))
        (omega (arith, twenty, length-keccak256 (encode_to_string tail))) in
    let long : length text ≡ 2 * 20 = omega (
      arith,
      length-checksum_cases (encode_to_string tail) (nibbles check),
      length-encode_to_string tail,
      twenty,
    ) in
    ap
      (λ (t : Bytes).
        decode_fixed_hex
          (48
            ∷ 120
            ∷ checksum_cases (encode_to_string t) (nibbles (keccak256 (encode_to_string t))))
          20)
      cut
    ∙ decode_fixed_hex_lem (48 ∷ 120 ∷ text) tail 20
        (prefixed text ∙ decode_even_lem text tail 20 long pairs) twenty
