-- ===== src/HdKey/Children.antt =====
-- The keys that are derived are valid, and each is the sum that BIP-32 asks for.
use sigryx.Base.{
  ℕ, ◌+◌, ◌%◌, ◌<◌, ◌≤◌, ◌≡◌, refl, sym, ◌∙◌, Bool, true, false, not, ◌&&◌, ◌||◌, some, List, [],
  ◌∷◌, ◌++◌, ltb, leb, ◌==◌, length, take, drop, All-take, Bool-cases, inl, inr, arith, subst,
}
use sigryx.Base.Bytes.{Bytes, AreBytes, IsByte, to_number, fill_bytes}
use sigryx.Base.Outcome.{Outcome, ok, bind_ok, refuse_ok, ok-injective}
use sigryx.Base.Text.{codes}
use sigryx.Scalar.{valid_private_key, add_scalars_mod_n}
use sigryx.Scalar.Modular.{curve_n, valid_private_key_lem, add_scalars_mod_n_lem}
use sigryx.Derivation.{Segment, hardened_offset}
use sigryx.HdKey.{
  HdError, ExtendedKey, child_data, child_index, child_of_sum, master_key, derive_child,
  derive_segments, derive_private_key,
}

-- A valid private key, made of bytes.
pub record IsKey (key : Bytes) : Type 0 where
  pub valid : valid_private_key key ≡ true
  pub bytes : AreBytes key

all_three : (a b c : Bool) → (a && (b && c)) ≡ true → (a ≡ true) × (c ≡ true)
all_three true true true h = (refl, refl)
all_three true true false h = cc
all_three true false c h = cc
all_three false b c h = cc

is_32 : (l : ℕ) → (l == 32) ≡ true → l ≡ 32
is_32 l h = ground (arith, h)

below : (n m : ℕ) → ltb n m ≡ true → n < m
below n m h = ground (arith, h)

kept : (b : Bool) → not b ≡ false → b ≡ true
kept true h = refl
kept false h = cc

pub IsKey-sizes : (key : Bytes) → IsKey key → (length key ≡ 32) × (to_number key < curve_n)
IsKey-sizes key k =
    let (size, small) =
      all_three (length key == 32) _ (ltb (to_number key) curve_n)
        (sym (valid_private_key_lem key k.bytes) ∙ k.valid) in
    (is_32 (length key) size, below (to_number key) curve_n small)

-- What a child of the key `parent` is, where the MAC gave `sum`.
child_of_sum_ok :
    (parent sum : Bytes) (child : ExtendedKey)
    → IsKey parent
    → AreBytes sum
    → child_of_sum parent sum ≡ ok child
    → IsKey child.key
      × (to_number child.key ≡ (to_number (take 32 sum) + to_number parent) % curve_n)
unfolding child_of_sum
child_of_sum_ok parent sum child k bytes h =
    let (first, h1) = refuse_ok _ _ _ h in
    let (second, h2) = refuse_ok _ _ _ h1 in
    let left : IsKey (take 32 sum) = record {
      valid = kept _ first;
      bytes = All-take IsByte 32 sum bytes;
    } in
    let (ll, ln) = IsKey-sizes (take 32 sum) left in
    let (pl, pn) = IsKey-sizes parent k in
    let (value, _, added) =
      add_scalars_mod_n_lem (take 32 sum) parent left.bytes k.bytes ll pl ln pn in
    let made : IsKey (add_scalars_mod_n (take 32 sum) parent) = record {
      valid = kept _ second;
      bytes = added;
    } in
    subst
      (λ (c : ExtendedKey).
        IsKey c.key × (to_number c.key ≡ (to_number (take 32 sum) + to_number parent) % curve_n))
      (ok-injective h2) (made, value)

low_index : (n : ℕ) → leb hardened_offset n ≡ false → n < hardened_offset
low_index n h = ground (arith, h)

long_enough : (n : ℕ) → (ltb n 16 || ltb 64 n) ≡ false → 16 ≤ n
long_enough n h = ground (arith, h)

short_enough : (n : ℕ) → (ltb n 16 || ltb 64 n) ≡ false → n ≤ 64
short_enough n h = ground (arith, h)

-- The MAC gives bytes.
unfoldable pub GivesBytes : (Bytes → Bytes → Bytes) → Type 0
GivesBytes hmac = (key message : Bytes) → AreBytes (hmac key message)

module _ (hmac : Bytes → Bytes → Bytes) (mac : GivesBytes hmac) where
  -- If the MAC gives bytes, the parent is a valid key and deriveChild returns a child, then the index of the
  -- segment is below 2 ^ 31, the child is a valid key, and it is the sum of the parent and the first 32 bytes of the
  -- MAC of the child's data, modulo the order of the curve.
  pub derive_child_ok :
      (parent : ExtendedKey) (segment : Segment) (child : ExtendedKey)
      → IsKey parent.key
      → derive_child hmac parent segment ≡ ok child
      → (segment.index < hardened_offset)
        × IsKey child.key
        × ((front : Bytes) × (child_data segment parent.key ≡ ok front)
            × (to_number child.key
                ≡ (to_number (
                      take 32
                        (hmac parent.chain_code (front ++ fill_bytes 4 (child_index segment))))
                    + to_number parent.key)
                  % curve_n))
  unfolding derive_child GivesBytes
  derive_child_ok parent segment child k h =
      let (index, h1) = refuse_ok _ _ _ h in
      let (front, e, h2) = bind_ok (child_data segment parent.key) _ h1 in
      let (key, value) =
        child_of_sum_ok parent.key
          (hmac parent.chain_code (front ++ fill_bytes 4 (child_index segment))) child k (mac _ _)
          h2 in
      (low_index segment.index index, key, (front, e, value))

  derive_segments-IsKey :
      (path : List Segment) (parent child : ExtendedKey)
      → IsKey parent.key
      → derive_segments hmac parent path ≡ ok child
      → IsKey child.key
  unfolding derive_segments
  derive_segments-IsKey [] parent child k h =
      subst (λ (c : ExtendedKey). IsKey c.key) (ok-injective h) k
  derive_segments-IsKey (segment ∷ path) parent child k h =
      let (next, e, h1) = bind_ok (derive_child hmac parent segment) _ h in
      derive_segments-IsKey path next child (derive_child_ok parent segment next k e).1 h1

  master_key-IsKey :
      (seed : Bytes) (master : ExtendedKey) → master_key hmac seed ≡ ok master → IsKey master.key
  unfolding master_key GivesBytes
  master_key-IsKey seed master h =
      let sum = hmac (codes "Bitcoin seed") seed in
      elim (Bool-cases (not (valid_private_key (take 32 sum)))) [
        | inl e ↦ absurd (cc (rw e at h))
        | inr e ↦
            let made : ok (record { key = take 32 sum; chain_code = take 32 (drop 32 sum) })
                ≡ ok master =
              rw e at h in
            subst (λ (c : ExtendedKey). IsKey c.key) (ok-injective made)
              (record {
                valid = kept (valid_private_key (take 32 sum)) e;
                bytes = All-take IsByte 32 sum (mac (codes "Bitcoin seed") seed);
              })
      ]

  -- If the MAC gives bytes and DerivePrivateKey returns no error, then the seed is 16 to 64 bytes long, and the
  -- callback returned no error on a key that is valid.
  pub derive_private_key_ok :
      (seed : Bytes) (path : List Segment) (callback : Bytes → Outcome HdError Unit)
      → derive_private_key hmac seed path (some callback) ≡ ok tt
      → (16 ≤ length seed)
        × (length seed ≤ 64)
        × ((key : Bytes) × IsKey key × (callback key ≡ ok tt))
  unfolding derive_private_key
  derive_private_key_ok seed path callback h =
      let (size, h1) = refuse_ok _ _ _ h in
      let (master, e, h2) = bind_ok (master_key hmac seed) _ h1 in
      let (child, g, h3) = bind_ok (derive_segments hmac master path) _ h2 in
      (
        long_enough (length seed) size,
        short_enough (length seed) size,
        (child.key, derive_segments-IsKey path master child (master_key-IsKey seed master e) g, h3),
      )
