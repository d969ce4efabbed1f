-- ===== src/SecretStore/Order/Step.antt =====
-- One submission of key bytes, with a libsodium that never fails, where the guards pass.
use sigryx.Base.{
  ℕ, ◌+◌, ◌≤◌, ◌<◌, ◌≡◌, ◌≢◌, ap, sym, subst, ◌∙◌, false, none, some, arith, length, get_elem?, set,
  get_elem?-set_ne, get_elem?-set_self, get_elem?-lt,
}
use sigryx.Base.Bytes.{Bytes}
use sigryx.SecureMem.{Sodium, bytes_at, size}
use sigryx.SecureMem.Laws.{
  IsReliable, extended, bytes_at-extended_self, bytes_at-extended, new-reliable, bytes_at-lt,
}
use sigryx.SecretStore.{
  Store, Submission, is_some, key_in_slot, place_key, with_memory, derive_vault_encryption_key,
  finish_submit, accept_key, submit_unseal_key,
}
use sigryx.SecretStore.Order.{with_protected, submit_material, Holds}
use sigryx.SecretStore.Invariant.{IsValid, submit-IsValid, memory-IsValid, free_place}
use native.Mathlib.Decide.{ℕ_discrete}

-- The store behind the guards, with the key in its slot.
abbrev pub filled : ℕ → Bytes → Store → Store
filled slot key s = record s {
  unseal_keys = set s.unseal_keys slot (some (length s.memory.secrets));
  submitted_unseal_keys = s.submitted_unseal_keys + 1;
  memory = extended key s.memory;
}

-- What the guards of SubmitUnsealKey ask for, of a store in which slots are open.
pub record Passes (slot : ℕ) (key : Bytes) (s : Store) : Type 0 where
  pub key_size : length key ≡ 32
  pub positive : 0 < slot
  pub fits : slot ≤ s.required_unseal_keys
  pub sealed : s.vault_encryption_key ≡ none
  pub free : key_in_slot slot s ≡ none

module _ (table : ℕ → Bytes) (slot : ℕ) (s : Store) (v : IsValid s)
    (g : Passes slot (table slot) s) where
  filled-place :
      get_elem? (filled slot (table slot) s).unseal_keys slot
      ≡ some (some (length s.memory.secrets))
  filled-place =
      let empty : is_some (key_in_slot slot s) ≡ false = ap is_some g.free in
      let place = free_place slot s v g.positive g.fits empty in
      get_elem?-set_self s.unseal_keys slot (some (length s.memory.secrets))
        (get_elem?-lt s.unseal_keys slot place)

  pub filled-other :
      (j : ℕ) → j ≢ slot → key_in_slot j (filled slot (table slot) s) ≡ key_in_slot j s
  filled-other j n =
      ap place_key
        (get_elem?-set_ne s.unseal_keys slot j (some (length s.memory.secrets)) (λ e. n (sym e)))

  pub filled-Holds : Holds table s → Holds table (filled slot (table slot) s)
  filled-Holds h j p e = elim (ℕ_discrete j slot) [
    | yes k ↦
        let same : some (length s.memory.secrets) ≡ some p =
          sym (ap place_key filled-place)
          ∙ ap (λ i. key_in_slot i (filled slot (table slot) s)) (sym k)
          ∙ e in
        let q : length s.memory.secrets ≡ p = cc same in
        ap (bytes_at (extended (table slot) s.memory)) (sym q)
        ∙ bytes_at-extended_self (table slot) s.memory
        ∙ ap (λ i. some (table i)) (sym k)
    | no n ↦
        let b = h j p (sym (filled-other j n) ∙ e) in
        bytes_at-extended (table slot) s.memory p (bytes_at-lt s.memory p b) ∙ b
  ]

module _ (sodium : Sodium) (sha256 : Bytes → Bytes) (reliable : IsReliable sodium) where
  submit-Passes :
      (slot : ℕ) (key : Bytes) (s : Store)
      → Passes slot key s
      → submit_unseal_key sodium sha256 slot
          (some (length s.memory.secrets))
          (with_memory (extended key s.memory) s)
        ≡ accept_key sodium sha256 slot
            (length s.memory.secrets)
            (with_memory (extended key s.memory) s)
  unfolding submit_unseal_key size
  submit-Passes slot key s g =
      ground (
        arith,
        bytes_at-extended_self key s.memory,
        g.key_size,
        g.positive,
        g.fits,
        g.sealed,
        g.free,
      )

  pub submit_material-accepts :
      (slot : ℕ) (key : Bytes) (s : Store)
      → Passes slot key s
      → submit_material sodium sha256 slot key s
        ≡ (accept_key sodium sha256 slot
            (length s.memory.secrets)
            (with_memory (extended key s.memory) s)).1
  unfolding submit_material
  submit_material-accepts slot key s g =
      let size : length key ≡ 32 = g.key_size in
      ap (with_protected (submit_unseal_key sodium sha256) slot s)
        (new-reliable sodium reliable key s.memory (omega arith))
      ∙ ap (λ (r : Submission). r.1) (submit-Passes slot key s g)

  -- An attempt that is not complete goes on with the key in its slot.
  pub submit_material-more :
      (slot : ℕ) (key : Bytes) (s : Store)
      → Passes slot key s
      → s.submitted_unseal_keys + 1 < s.required_unseal_keys
      → submit_material sodium sha256 slot key s ≡ filled slot key s
  submit_material-more slot key s g more =
      submit_material-accepts slot key s g ∙ (unfold accept_key in ground arith)

  pub submit_material-last :
      (slot : ℕ) (key : Bytes) (s : Store)
      → Passes slot key s
      → s.required_unseal_keys ≤ s.submitted_unseal_keys + 1
      → submit_material sodium sha256 slot key s
        ≡ (finish_submit sodium sha256
            (filled slot key s)
            (derive_vault_encryption_key sodium sha256 (filled slot key s))).1
  submit_material-last slot key s g last =
      submit_material-accepts slot key s g ∙ (unfold accept_key in ground arith)

  pub filled-IsValid :
      (slot : ℕ) (key : Bytes) (s : Store)
      → IsValid s
      → Passes slot key s
      → s.submitted_unseal_keys + 1 < s.required_unseal_keys
      → IsValid (filled slot key s)
  filled-IsValid slot key s v g more =
      let s1 : Store = with_memory (extended key s.memory) s in
      subst IsValid
        (ap (λ (r : Submission). r.1) (submit-Passes slot key s g)
          ∙ (unfold accept_key in ground arith))
        (submit-IsValid sodium sha256 slot (some (length s.memory.secrets)) s1
          (memory-IsValid _ s v))
