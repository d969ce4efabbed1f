-- ===== src/HdKey.antt =====
-- DerivePrivateKey, masterKey and deriveChild of pkg/hdwallet/hdwallet.go. The MAC is HMAC with SHA-512, the key first. What
-- the code clears is no part of a result, and it is left out.
pub mod Children
pub mod Tests
use sigryx.Base.{
  ℕ, ◌+◌, ◌^◌, Bool, true, false, not, ◌||◌, Option, none, some, List, [], ◌∷◌, ◌++◌, ltb, leb,
  if◌then◌else◌, length, take, drop,
}
use sigryx.Base.Bytes.{Bytes, fill_bytes}
use sigryx.Base.Outcome.{Outcome, ok, err, ◌>>=◌, ◌>>◌, refuse}
use sigryx.Base.Text.{codes}
use sigryx.Scalar.{valid_private_key, add_scalars_mod_n}
use sigryx.Curve.{compressed_public_key}
use sigryx.Derivation.{Segment, hardened_offset}

pub data HdError : Type 0 where
  invalid_seed invalid_path invalid_private_key invalid_child_key nil_callback callback_failed :
      HdError

-- A private key and its chain code
pub record ExtendedKey : Type 0 where
  pub key : Bytes
  pub chain_code : Bytes

-- compressedPublicKey in deriveChild, whose panic at infinity is an error too
abbrev pub public_data : Option Bytes → Outcome HdError Bytes
public_data none = err invalid_private_key
public_data (some bytes) = ok bytes

-- The first 33 bytes of `data`
unfoldable pub child_data : Segment → Bytes → Outcome HdError Bytes
unfolding compressed_public_key
child_data segment parent =
    if segment.hardened then ok (0x00 ∷ parent) else public_data (compressed_public_key parent)

-- `index += hardenedOffset`
abbrev pub child_index : Segment → ℕ
child_index segment = if segment.hardened then segment.index + hardened_offset else segment.index

-- deriveChild from the MAC on
unfoldable pub child_of_sum : Bytes → Bytes → Outcome HdError ExtendedKey
unfolding valid_private_key add_scalars_mod_n
child_of_sum parent sum = do
  refuse (not (valid_private_key (take 32 sum))) invalid_child_key
  refuse (not (valid_private_key (add_scalars_mod_n (take 32 sum) parent))) invalid_child_key
  ok (record { key = add_scalars_mod_n (take 32 sum) parent; chain_code = take 32 (drop 32 sum) })

module _ (hmac : Bytes → Bytes → Bytes) where
  -- masterKey
  unfoldable pub master_key : Bytes → Outcome HdError ExtendedKey
  unfolding valid_private_key
  master_key seed =
      let sum = hmac (codes "Bitcoin seed") seed in
      if not (valid_private_key (take 32 sum))
      then err invalid_private_key
      else ok (record { key = take 32 sum; chain_code = take 32 (drop 32 sum) })

  -- deriveChild
  unfoldable pub derive_child : ExtendedKey → Segment → Outcome HdError ExtendedKey
  unfolding child_data child_of_sum
  derive_child parent segment = do
    refuse (leb hardened_offset segment.index) invalid_path
    front ← child_data segment parent.key
    child_of_sum parent.key (hmac parent.chain_code (front ++ fill_bytes 4 (child_index segment)))

  -- The loop of DerivePrivateKey
  unfoldable pub derive_segments : ExtendedKey → List Segment → Outcome HdError ExtendedKey
  unfolding derive_child
  derive_segments parent [] = ok parent
  derive_segments parent (segment ∷ segments) =
      derive_child parent segment >>= λ child. derive_segments child segments

  -- DerivePrivateKey; `none` is the nil callback.
  unfoldable pub derive_private_key :
      {A : Type 0} → Bytes → List Segment → Option (Bytes → Outcome HdError A) → Outcome HdError A
  unfolding master_key derive_segments
  derive_private_key seed path none =
      if ltb (length seed) 16 || ltb 64 (length seed) then err invalid_seed else err nil_callback
  derive_private_key seed path (some callback) = do
    refuse (ltb (length seed) 16 || ltb 64 (length seed)) invalid_seed
    master ← master_key seed
    child ← derive_segments master path
    callback child.key
