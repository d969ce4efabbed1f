-- ===== src/SecretStore/Threshold.antt =====
-- No subset of the unseal keys opens the vault.
use sigryx.Base.{
  ℕ, zero, suc, ◌+◌, ◌≤◌, ◌<◌, ◌≡◌, ◌≢◌, ap, sym, subst, ◌∙◌, true, false, Option, none, some, List,
  arith, length, get_elem?, set, length-set, get_elem?-set_ne,
}
use sigryx.Base.Bytes.{Bytes}
use sigryx.SecureMem.{Sodium, Pointer}
use sigryx.SecretStore.{
  Store, is_some, is_unsealed, key_in_slot, place_key, accept_key, submit_unseal_key,
}
use sigryx.SecretStore.Slots.{taken, taken-set, taken_full, taken-le, uncons}
use sigryx.SecretStore.Invariant.{IsValid, free_place}

-- A table with no free place but 0 has a key in every other place.
pub full_table :
    (keys : List (Option Pointer)) (n j : ℕ)
    → length keys ≡ suc n
    → get_elem? keys 0 ≡ some none
    → n ≤ taken keys
    → 0 < j
    → j ≤ n
    → (p : Pointer) × (get_elem? keys j ≡ some (some p))
full_table keys n zero sized first full pos fits = elim pos [ ]
full_table keys n (suc i) sized first full pos fits =
    let (ys, e, size) = uncons keys n sized first in
    let count : n ≤ taken ys = subst (λ l. n ≤ taken l) e full in
    let (p, h) = taken_full ys i (omega (arith, taken-le ys)) (omega arith) in
    (p, ap (λ l. get_elem? l (suc i)) e ∙ h)

all_others :
    (slot : ℕ) (s : Store)
    → IsValid s
    → 0 < slot
    → slot ≤ s.required_unseal_keys
    → is_some (key_in_slot slot s) ≡ false
    → s.required_unseal_keys ≤ s.submitted_unseal_keys + 1
    → (j : ℕ) → 0 < j
    → j ≤ s.required_unseal_keys
    → j ≢ slot
    → (p : Pointer) × (key_in_slot j s ≡ some p)
all_others slot s v spos sfits empty last j pos fits other =
    let configured : 0 < s.required_unseal_keys = omega arith in
    let count = taken-set s.unseal_keys slot 0 (free_place slot s v spos sfits empty) in
    let (p, h) =
      full_table (set s.unseal_keys slot (some 0)) s.required_unseal_keys j
        (length-set s.unseal_keys slot (some 0) ∙ v.sized configured)
        (get_elem?-set_ne s.unseal_keys slot 0 (some 0) (λ e. absurd (omega arith))
          ∙ v.first configured)
        (omega (arith, count, v.counted)) pos fits in
    (
      p,
      ap place_key (sym (get_elem?-set_ne s.unseal_keys slot j (some 0) (λ e. other (sym e))) ∙ h),
    )

module _ (sodium : Sodium) (sha256 : Bytes → Bytes) where
  -- What a submission that opened the vault has passed.
  record Opened (slot : ℕ) (s : Store) : Type 0 where
    positive : 0 < slot
    fits : slot ≤ s.required_unseal_keys
    empty : is_some (key_in_slot slot s) ≡ false
    last : s.required_unseal_keys ≤ s.submitted_unseal_keys + 1

  submit-Opened :
      (slot : ℕ) (key : Option Pointer) (s : Store)
      → is_unsealed s ≡ false
      → is_unsealed (submit_unseal_key sodium sha256 slot key s).1 ≡ true
      → Opened slot s
  unfolding submit_unseal_key accept_key is_unsealed
  submit-Opened slot none s sealed open_now = cc
  submit-Opened slot (some key) s sealed open_now = ground arith

  -- If a submission opens a sealed vault, then every other slot already held a key.
  pub submit_opens :
      (slot : ℕ) (key : Option Pointer) (s : Store)
      → IsValid s
      → is_unsealed s ≡ false
      → is_unsealed (submit_unseal_key sodium sha256 slot key s).1 ≡ true
      → (j : ℕ) → 0 < j
      → j ≤ s.required_unseal_keys
      → j ≢ slot
      → (p : Pointer) × (key_in_slot j s ≡ some p)
  submit_opens slot key s v sealed open_now j pos fits other =
      let o = submit-Opened slot key s sealed open_now in
      all_others slot s v o.positive o.fits o.empty o.last j pos fits other
