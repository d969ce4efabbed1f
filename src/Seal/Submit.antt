-- ===== src/Seal/Submit.antt =====
-- SubmitUnsealCredential of internal/core/service/seal.go, from its last part to its first.
use sigryx.Base.{
  ℕ, Bool, true, false, not, ◌||◌, Option, some, [], ◌==◌, eqb, if◌then◌else◌, length,
}
use sigryx.Base.Bytes.{Bytes}
use sigryx.Base.Outcome.{Outcome, ok, err}
use sigryx.Fault.{Fault}
use sigryx.SecureMem.{Memory, Pointer, new}
use sigryx.Cryptox.{key_size, open_payload}
use sigryx.SecretStore.{
  Store, Submission, configure_unseal_key_count, submit_unseal_key, with_memory,
}
use sigryx.Seal.{
  Outside, Vault, SealStatus, UnsealKeySlot, no_state, seal_state, status_from_count, with_secrets,
  count, get_by_id, derive_unseal_wrapping_key, unseal_aad, status,
}

-- The status and the error of a call, and what it leaves.
abbrev pub Answer : Type 0
Answer = (SealStatus × Option Fault) × Vault

-- `portin.SealStatus{}`
abbrev pub no_status : SealStatus
no_status = record { state = no_state; submitted = 0; required = 0 }

-- `return portin.SealStatus{}, err`
abbrev pub failed : Fault → Vault → Answer
failed e w = ((no_status, some e), w)

-- `return s.statusFromCount(count), ErrInvalidCredential`
abbrev pub rejected : ℕ → Vault → Answer
rejected found w = ((status_from_count found w.secrets, some Fault.invalid_credential), w)

-- `errors.Is(err, portout.ErrUnsealKeySlotNotFound)`
abbrev pub is_slot_not_found : Fault → Bool
is_slot_not_found Fault.unseal_key_slot_not_found = true
is_slot_not_found e = false

-- The end of the method, with what SubmitUnsealKey returned
abbrev pub answer : Vault → Submission → Answer
answer w ((p, e), s) = (
  (record { state = seal_state p.unsealed; submitted = p.submitted; required = p.required }, e),
  with_secrets s w,
)

module _ (out : Outside) where
  -- behind `securemem.New`
  unfoldable pub submit_protected : ℕ → Vault → Outcome Fault Pointer × Memory → Answer
  submit_protected id w (ok p, m) =
      answer w (submit_unseal_key out.sodium out.sha256 id (some p) (with_memory m w.secrets))
  submit_protected id w (err e, m) = failed e (with_secrets (with_memory m w.secrets) w)

  -- behind `cryptox.Open`
  unfoldable pub submit_opened : ℕ → ℕ → Vault → Outcome Fault Bytes → Answer
  unfolding submit_protected
  submit_opened id found w (ok unseal_key) =
      submit_protected id w (new out.sodium unseal_key w.secrets.memory)
  submit_opened id found w (err e) = rejected found w

  -- behind the error of GetByID
  unfoldable pub submit_for_slot : ℕ → Bytes → Bytes → ℕ → Vault → UnsealKeySlot → Answer
  unfolding submit_opened derive_unseal_wrapping_key unseal_aad
  submit_for_slot id wrapped_key owner_secret found w slot =
      if not (slot.id == id)
        || (not (length slot.server_key_material == key_size) || eqb slot.wrapped_key [])
      then failed Fault.corrupted_unseal_slot w
      else if not (eqb slot.wrapped_key wrapped_key)
      then rejected found w
      else submit_opened id found w (
          open_payload out.crypto
            (derive_unseal_wrapping_key out owner_secret slot.server_key_material) slot.wrapped_key
            (unseal_aad out.decimal id))

  -- behind GetByID
  unfoldable pub submit_found : ℕ → Bytes → Bytes → ℕ → Outcome Fault UnsealKeySlot × Vault → Answer
  unfolding submit_for_slot
  submit_found id wrapped_key owner_secret found (ok slot, w) =
      submit_for_slot id wrapped_key owner_secret found w slot
  submit_found id wrapped_key owner_secret found (err e, w) =
      if is_slot_not_found e then rejected found w else failed e w

  -- behind ConfigureUnsealKeyCount
  unfoldable pub submit_configured :
      ℕ → Bytes → Bytes → ℕ → Vault → Outcome Fault (Unit {0}) × Store → Answer
  unfolding submit_found get_by_id
  submit_configured id wrapped_key owner_secret found w (ok done, s) =
      submit_found id wrapped_key owner_secret found (get_by_id out id (with_secrets s w))
  submit_configured id wrapped_key owner_secret found w (err e, s) = failed e (with_secrets s w)

  -- behind Count
  unfoldable pub submit_counted : ℕ → Bytes → Bytes → Outcome Fault ℕ × Vault → Answer
  unfolding submit_configured
  submit_counted id wrapped_key owner_secret (err e, w) = failed e w
  submit_counted id wrapped_key owner_secret (ok found, w) =
      if found == 0
      then failed Fault.not_initialized w
      else submit_configured id wrapped_key owner_secret found w
          (configure_unseal_key_count found w.secrets)

  -- the answer to a malformed credential
  unfoldable pub refuse_malformed : Outcome Fault SealStatus × Vault → Answer
  refuse_malformed (ok st, w) = ((st, some Fault.invalid_credential), w)
  refuse_malformed (err e, w) = failed e w

  -- SubmitUnsealCredential
  unfoldable pub submit_unseal_credential : ℕ → Bytes → Bytes → Vault → Answer
  unfolding refuse_malformed submit_counted status count
  submit_unseal_credential id wrapped_key owner_secret w =
      if (id == 0) || (not (length owner_secret == key_size) || eqb wrapped_key [])
      then refuse_malformed (status out w)
      else submit_counted id wrapped_key owner_secret (count out w)
