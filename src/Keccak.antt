-- ===== src/Keccak.antt =====
-- keccak256 of internal/adapter/out/blockchain/ethereum/keccak.go. The state is the list of its 25 lanes,
-- a lane a number below 2 ^ 64; `bit_and`, `bit_or` and `bit_xor` work on the binary digits.
pub mod Tests
use Prim.Native.Nat.{bit_and, bit_or, bit_xor}
use sigryx.Base.{
  ℕ, zero, suc, ◌+◌, ◌-◌, ◌*◌, ◌/◌, ◌%◌, ◌^◌, none, some, List, [], ◌∷◌, ◌++◌, map, ltb, ◌==◌,
  if◌then◌else◌, length, take, drop, set, replicate, get_elem?,
}
use sigryx.Base.Bytes.{Bytes}

abbrev pub keccak_rate : ℕ
keccak_rate = 136

abbrev pub keccak_round_constants : List ℕ
keccak_round_constants =
    0x0000000000000001 ∷ 0x0000000000008082 ∷ 0x800000000000808a ∷ 0x8000000080008000
    ∷ 0x000000000000808b ∷ 0x0000000080000001 ∷ 0x8000000080008081 ∷ 0x8000000000008009
    ∷ 0x000000000000008a ∷ 0x0000000000000088 ∷ 0x0000000080008009 ∷ 0x000000008000000a
    ∷ 0x000000008000808b ∷ 0x800000000000008b ∷ 0x8000000000008089 ∷ 0x8000000000008003
    ∷ 0x8000000000008002 ∷ 0x8000000000000080 ∷ 0x000000000000800a ∷ 0x800000008000000a
    ∷ 0x8000000080008081 ∷ 0x8000000000008080 ∷ 0x0000000080000001 ∷ 0x8000000080008008 ∷ []

abbrev pub keccak_rotation : List ℕ
keccak_rotation =
    0 ∷ 1 ∷ 62 ∷ 28 ∷ 27 ∷ 36 ∷ 44 ∷ 6 ∷ 55 ∷ 20 ∷ 3 ∷ 10 ∷ 43 ∷ 25 ∷ 39 ∷ 41 ∷ 45 ∷ 15 ∷ 21 ∷ 8
    ∷ 18 ∷ 2 ∷ 61 ∷ 56 ∷ 14 ∷ []

-- `a[i]`; every index of the code is in range
abbrev pub lane : List ℕ → ℕ → ℕ
lane a i = elim (get_elem? a i) [ none ↦ 0 | some v ↦ v ]

-- `for i := 0; i < n; i++`: the indices from `i` on
abbrev pub indices : ℕ → ℕ → List ℕ
indices i zero = []
indices i (suc n) = i ∷ indices (suc i) n

-- rotateLeft64
unfoldable pub rotate_left64 : ℕ → ℕ → ℕ
rotate_left64 value shift =
    if shift == 0 then value else bit_or ((value * 2 ^ shift) % 2 ^ 64) (value / 2 ^ (64 - shift))

-- The first step of a round: `c` and `d`, and `a[x+5*y] ^= d[x]`
unfoldable pub column_parities : List ℕ → List ℕ
column_parities a =
    map
      (λ x. bit_xor (lane a x) (
        bit_xor (lane a (x + 5))
          (bit_xor (lane a (x + 10)) (bit_xor (lane a (x + 15)) (lane a (x + 20))))))
      (indices 0 5)

unfoldable pub column_changes : List ℕ → List ℕ
unfolding rotate_left64
column_changes c =
    map (λ x. bit_xor (lane c ((x + 4) % 5)) (rotate_left64 (lane c ((x + 1) % 5)) 1)) (indices 0 5)

unfoldable pub change_columns : List ℕ → List ℕ → List ℕ
change_columns a d = map (λ i. bit_xor (lane a i) (lane d (i % 5))) (indices 0 25)

-- `b[targetX+5*targetY] = rotateLeft64(a[source], keccakRotation[source])` for the sources in order
unfoldable pub move_lanes : List ℕ → List ℕ → List ℕ → List ℕ
unfolding rotate_left64
move_lanes a b [] = b
move_lanes a b (source ∷ sources) =
    let x = source % 5 in
    let y = source / 5 in
    move_lanes a
      (set b (y + 5 * ((2 * x + 3 * y) % 5))
        (rotate_left64 (lane a source) (lane keccak_rotation source)))
      sources

-- `a[x+5*y] = b[x+5*y] ^ (^b[(x+1)%5+5*y] & b[(x+2)%5+5*y])`
unfoldable pub mix_rows : List ℕ → List ℕ
mix_rows b =
    map
      (λ i.
        let x = i % 5 in
        let y = i / 5 in
        bit_xor (lane b i)
          (bit_and (2 ^ 64 - 1 - lane b ((x + 1) % 5 + 5 * y)) (lane b ((x + 2) % 5 + 5 * y))))
      (indices 0 25)

-- `a[0] ^= rc`
abbrev pub add_constant : ℕ → List ℕ → List ℕ
add_constant rc a = set a 0 (bit_xor (lane a 0) rc)

-- One round of keccakF1600
unfoldable pub keccak_round : ℕ → List ℕ → List ℕ
unfolding column_parities column_changes change_columns move_lanes mix_rows
keccak_round rc a =
    let changed = change_columns a (column_changes (column_parities a)) in
    add_constant rc (mix_rows (move_lanes changed (replicate 25 0) (indices 0 25)))

-- The rounds of keccakF1600, one for each constant
unfoldable pub keccak_rounds : List ℕ → List ℕ → List ℕ
unfolding keccak_round
keccak_rounds [] a = a
keccak_rounds (rc ∷ rcs) a = keccak_rounds rcs (keccak_round rc a)

-- keccakF1600
unfoldable pub keccak_f1600 : List ℕ → List ℕ
unfolding keccak_rounds
keccak_f1600 a = keccak_rounds keccak_round_constants a

-- binary.LittleEndian.Uint64 and PutUint64
unfoldable pub little_endian : Bytes → ℕ
little_endian [] = 0
little_endian (b ∷ bs) = b + 256 * little_endian bs

unfoldable pub put_little_endian : ℕ → ℕ → Bytes
put_little_endian zero v = []
put_little_endian (suc n) v = (v % 256) ∷ put_little_endian n (v / 256)

-- absorbKeccakBlock: the lanes behind the block stay.
unfoldable pub absorb_keccak_block : List ℕ → Bytes → List ℕ
unfolding little_endian
absorb_keccak_block [] block = []
absorb_keccak_block (a ∷ state) [] = a ∷ state
absorb_keccak_block (a ∷ state) (b ∷ block) =
    bit_xor a (little_endian (take 8 (b ∷ block))) ∷ absorb_keccak_block state (drop 8 (b ∷ block))

-- `block[len(data)] = 0x01; block[keccakRate-1] |= 0x80` on the zeros that `data` is copied to
unfoldable pub last_block : Bytes → Bytes
last_block data_ =
    let block = set (data_ ++ replicate (keccak_rate - length data_) 0) (length data_) 0x01 in
    set block (keccak_rate - 1) (bit_or (lane block (keccak_rate - 1)) 0x80)

-- The loop of keccak256 and the block behind it. A round takes a block off the data, so the number of
-- its bytes is fuel enough.
unfoldable pub absorb_data : ℕ → List ℕ → Bytes → List ℕ
unfolding absorb_keccak_block last_block keccak_f1600
absorb_data zero state data_ = keccak_f1600 (absorb_keccak_block state (last_block data_))
absorb_data (suc fuel) state data_ =
    if ltb (length data_) keccak_rate
    then keccak_f1600 (absorb_keccak_block state (last_block data_))
    else absorb_data fuel (keccak_f1600 (absorb_keccak_block state (take keccak_rate data_)))
        (drop keccak_rate data_)

-- The loop that writes the digest
unfoldable pub squeeze : List ℕ → Bytes
unfolding put_little_endian
squeeze state =
    put_little_endian 8 (lane state 0)
    ++ (put_little_endian 8 (lane state 1)
        ++ (put_little_endian 8 (lane state 2) ++ put_little_endian 8 (lane state 3)))

-- keccak256
unfoldable pub keccak256 : Bytes → Bytes
unfolding absorb_data squeeze
keccak256 data_ = squeeze (absorb_data (length data_) (replicate 25 0) data_)
