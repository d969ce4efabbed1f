-- ===== src/Transaction/Bounds.antt =====
-- The bounds of what signTransaction signs.
use sigryx.Base.{
  ℕ, ◌^◌, ◌<◌, ◌≤◌, ◌≡◌, ap, true, false, [], ◌⊎◌, inl, inr, arith, ltb, ◌==◌, eqb, length,
}
use sigryx.Base.Bytes.{Bytes}
use sigryx.Base.Outcome.{ok}
use sigryx.Signature.{Signature}
use sigryx.Hex.Laws.{parse_quantity-lt, decode_address-length}
use sigryx.Transaction.{
  EthereumTransaction, TransactionSignature, Signer, transaction_type_legacy,
  transaction_type_eip1559, LegacyFields, legacy_raw, Eip1559Fields, eip1559_raw, sign_transaction,
}
use sigryx.Transaction.Sign.{LegacySigned, Eip1559Signed, sign_transaction_ok}

-- No bytes, or 20
abbrev pub IsAddress : Bytes → Type 0
IsAddress to = (to ≡ []) ⊎ (length to ≡ 20)

abbrev pub LegacyBounds : EthereumTransaction → TransactionSignature → Type 0
LegacyBounds tx result =
    (f : LegacyFields) × (sig : Signature) × (result.raw_transaction ≡ legacy_raw tx f sig)
    × (f.gas_price < 2 ^ 256)
    × (f.value < 2 ^ 256)
    × IsAddress f.to

abbrev pub Eip1559Bounds : EthereumTransaction → TransactionSignature → Type 0
Eip1559Bounds tx result =
    (f : Eip1559Fields) × (sig : Signature) × (result.raw_transaction ≡ eip1559_raw tx f sig)
    × (f.priority_fee ≤ f.max_fee)
    × (f.max_fee < 2 ^ 256)
    × (f.value < 2 ^ 256)
    × IsAddress f.to

positive : (n : ℕ) → (n == 0) ≡ false → 0 < n
positive n h = ground (arith, h)

ordered : (n m : ℕ) → ltb m n ≡ false → n ≤ m
ordered n m h = ground (arith, h)

module _ (signer : Signer) (private_key : Bytes) (tx : EthereumTransaction)
    (result : TransactionSignature) where
  legacy_bounds :
      LegacySigned signer private_key tx result → (0 < tx.chain_id) × LegacyBounds tx result
  legacy_bounds (f, a, s) = (
    positive tx.chain_id a.chain_id_set,
    (
      f,
      s.sig,
      ap (λ (t : TransactionSignature). t.raw_transaction) s.result_lem,
      parse_quantity-lt tx.gas_price f.gas_price a.gas_price_read,
      parse_quantity-lt tx.value f.value a.value_read,
      decode_address-length tx.to true f.to a.to_read,
    ),
  )

  eip1559_bounds :
      Eip1559Signed signer private_key tx result → (0 < tx.chain_id) × Eip1559Bounds tx result
  eip1559_bounds (f, a, s) = (
    positive tx.chain_id a.chain_id_set,
    (
      f,
      s.sig,
      ap (λ (t : TransactionSignature). t.raw_transaction) s.result_lem,
      ordered f.priority_fee f.max_fee a.fees_ordered,
      parse_quantity-lt tx.max_fee_per_gas f.max_fee a.max_fee_read,
      parse_quantity-lt tx.value f.value a.value_read,
      decode_address-length tx.to true f.to a.to_read,
    ),
  )

  -- If signTransaction returns a signed transaction, then the chain id is not 0 and the type is one of
  -- the two. The raw form is that of a gas price and a value below 2 ^ 256 or, for EIP-1559, of a
  -- priority fee of at most the maximal fee, which is below 2 ^ 256 as the value is; the
  -- receiver is left out or 20 bytes long.
  pub sign_transaction_bounds :
      sign_transaction signer private_key tx ≡ ok result
      → (0 < tx.chain_id)
        × (((eqb tx.type transaction_type_legacy ≡ true) × LegacyBounds tx result)
            ⊎ ((eqb tx.type transaction_type_eip1559 ≡ true) × Eip1559Bounds tx result))
  sign_transaction_bounds h = elim (sign_transaction_ok signer private_key tx result h) [
    | inl (e, done) ↦ let (c, b) = legacy_bounds done in (c, inl (e, b))
    | inr (e, done) ↦ let (c, b) = eip1559_bounds done in (c, inr (e, b))
  ]
