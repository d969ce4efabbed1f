-- ===== src/Transaction/Sign.antt =====
-- What the signing functions return, and when.
use sigryx.Base.{
  ◌≡◌, sym, true, false, Option, none, some, ◌⊎◌, inl, inr, ltb, ◌==◌, eqb, Bool-cases, subst,
}
use sigryx.Base.Bytes.{Bytes}
use sigryx.Base.Outcome.{ok, err, bind_ok, refuse_ok, ok-injective}
use sigryx.Signature.{Signature}
use sigryx.Hex.{parse_quantity, decode_hex, decode_address}
use sigryx.Keccak.{keccak256}
use sigryx.Transaction.{
  invalid_transaction, EthereumTransaction, TransactionSignature, Signer, transaction_type_legacy,
  transaction_type_eip1559, valid, signed, encode_access_list, transaction_signature, LegacyFields,
  legacy_unsigned, legacy_raw, read_legacy, sign_with, sign_legacy_transaction, Eip1559Fields,
  eip1559_unsigned, eip1559_raw, read_eip1559, sign_eip1559_transaction, sign_transaction,
}

valid_ok : {A : Type 0} (o : Option A) {a : A} → valid o ≡ ok a → o ≡ some a
valid_ok none h = cc
valid_ok (some a) h = cc

signed_ok : (o : Option Signature) {sig : Signature} → signed o ≡ ok sig → o ≡ some sig
signed_ok none h = cc
signed_ok (some a) h = cc

-- The tests that signLegacyTransaction makes of a transaction that it reads as `f`.
pub record LegacyAccepted (tx : EthereumTransaction) (f : LegacyFields) : Type 0 where
  pub chain_id_set : (tx.chain_id == 0) ≡ false
  pub gas_price_read : parse_quantity tx.gas_price ≡ some f.gas_price
  pub value_read : parse_quantity tx.value ≡ some f.value
  pub to_read : decode_address tx.to true ≡ some f.to
  pub call_data_read : decode_hex tx.call_data ≡ some f.call_data

-- The tests that signEIP1559Transaction makes of a transaction that it reads as `f`.
pub record Eip1559Accepted (tx : EthereumTransaction) (f : Eip1559Fields) : Type 0 where
  pub chain_id_set : (tx.chain_id == 0) ≡ false
  pub priority_fee_read : parse_quantity tx.max_priority_fee_per_gas ≡ some f.priority_fee
  pub max_fee_read : parse_quantity tx.max_fee_per_gas ≡ some f.max_fee
  pub fees_ordered : ltb f.max_fee f.priority_fee ≡ false
  pub value_read : parse_quantity tx.value ≡ some f.value
  pub to_read : decode_address tx.to true ≡ some f.to
  pub call_data_read : decode_hex tx.call_data ≡ some f.call_data
  pub access_list_read : encode_access_list tx.access_list ≡ some f.access_list

pub read_legacy_ok :
    (tx : EthereumTransaction) (f : LegacyFields) → read_legacy tx ≡ ok f → LegacyAccepted tx f
unfolding read_legacy
read_legacy_ok tx f h =
    let (chain, h1) = refuse_ok _ _ _ h in
    let (gas_price, e1, h2) = bind_ok _ _ h1 in
    let (value, e2, h3) = bind_ok _ _ h2 in
    let (to, e3, h4) = bind_ok _ _ h3 in
    let (call_data, e4, h5) = bind_ok _ _ h4 in
    subst (LegacyAccepted tx) (ok-injective h5) (record {
      chain_id_set = chain;
      gas_price_read = valid_ok _ e1;
      value_read = valid_ok _ e2;
      to_read = valid_ok _ e3;
      call_data_read = valid_ok _ e4;
    })

pub read_eip1559_ok :
    (tx : EthereumTransaction) (f : Eip1559Fields) → read_eip1559 tx ≡ ok f → Eip1559Accepted tx f
unfolding read_eip1559
read_eip1559_ok tx f h =
    let (chain, h1) = refuse_ok _ _ _ h in
    let (priority_fee, e1, h2) = bind_ok _ _ h1 in
    let (max_fee, e2, h3) = bind_ok _ _ h2 in
    let (ordered, h4) = refuse_ok _ _ _ h3 in
    let (value, e3, h5) = bind_ok _ _ h4 in
    let (to, e4, h6) = bind_ok _ _ h5 in
    let (call_data, e5, h7) = bind_ok _ _ h6 in
    let (access_list, e6, h8) = bind_ok _ _ h7 in
    subst (Eip1559Accepted tx) (ok-injective h8) (record {
      chain_id_set = chain;
      priority_fee_read = valid_ok _ e1;
      max_fee_read = valid_ok _ e2;
      fees_ordered = ordered;
      value_read = valid_ok _ e3;
      to_read = valid_ok _ e4;
      call_data_read = valid_ok _ e5;
      access_list_read = valid_ok _ e6;
    })

module _ (signer : Signer) (private_key : Bytes) where
  -- The result is what the signature of the digest of `unsigned` makes of the raw transaction.
  pub record SignedWith (unsigned : Bytes) (raw : Signature → Bytes) (result : TransactionSignature)
      : Type 0 where
    pub sig : Signature
    pub digest_signed : signer.sign_digest private_key (keccak256 unsigned) ≡ some sig
    pub result_lem : result ≡ transaction_signature (raw sig) (keccak256 (raw sig)) sig

  sign_with_ok :
      (unsigned : Bytes) (raw : Signature → Bytes) (result : TransactionSignature)
      → sign_with signer private_key unsigned raw ≡ ok result
      → SignedWith unsigned raw result
  unfolding sign_with
  sign_with_ok unsigned raw result h =
      let (sig, e, h1) = bind_ok _ _ h in
      record { sig = sig; digest_signed = signed_ok _ e; result_lem = sym (ok-injective h1) }

  -- What signTransaction has done when it returns a signed transaction.
  abbrev pub LegacySigned : EthereumTransaction → TransactionSignature → Type 0
  LegacySigned tx result =
      (f : LegacyFields) × LegacyAccepted tx f
      × SignedWith (legacy_unsigned tx f) (legacy_raw tx f) result

  abbrev pub Eip1559Signed : EthereumTransaction → TransactionSignature → Type 0
  Eip1559Signed tx result =
      (f : Eip1559Fields) × Eip1559Accepted tx f
      × SignedWith (eip1559_unsigned tx f) (eip1559_raw tx f) result

  sign_legacy_ok :
      (tx : EthereumTransaction) (result : TransactionSignature)
      → sign_legacy_transaction signer private_key tx ≡ ok result
      → LegacySigned tx result
  unfolding sign_legacy_transaction
  sign_legacy_ok tx result h =
      let (f, e, h1) = bind_ok _ _ h in
      (f, read_legacy_ok tx f e, sign_with_ok (legacy_unsigned tx f) (legacy_raw tx f) result h1)

  sign_eip1559_ok :
      (tx : EthereumTransaction) (result : TransactionSignature)
      → sign_eip1559_transaction signer private_key tx ≡ ok result
      → Eip1559Signed tx result
  unfolding sign_eip1559_transaction
  sign_eip1559_ok tx result h =
      let (f, e, h1) = bind_ok _ _ h in
      (f, read_eip1559_ok tx f e, sign_with_ok (eip1559_unsigned tx f) (eip1559_raw tx f) result h1)

  pub sign_transaction_ok :
      (tx : EthereumTransaction) (result : TransactionSignature)
      → sign_transaction signer private_key tx ≡ ok result
      → ((eqb tx.type transaction_type_legacy ≡ true) × LegacySigned tx result)
        ⊎ ((eqb tx.type transaction_type_eip1559 ≡ true) × Eip1559Signed tx result)
  unfolding sign_transaction
  sign_transaction_ok tx result h = elim (Bool-cases (eqb tx.type transaction_type_legacy)) [
    | inl e ↦ inl (e, sign_legacy_ok tx result (rw e at h))
    | inr e ↦ elim (Bool-cases (eqb tx.type transaction_type_eip1559)) [
      | inl g ↦ inr (g, sign_eip1559_ok tx result (rw (e, g) at h))
      | inr g ↦
          let none_left : err invalid_transaction ≡ ok result = rw (e, g) at h in
          absurd (cc none_left)
    ]
  ]
