-- ===== src/SecretStore/Invariant.antt =====
-- The invariant of the secret store, and that every method keeps it, whatever libsodium answers.
use sigryx.Base.{
  ℕ, zero, suc, ◌+◌, ◌-◌, ◌≤◌, ◌<◌, ◌≡◌, refl, ap, sym, ◌∙◌, true, false, Option, none, some, [],
  arith, length, get_elem?, set, replicate, length-replicate, length-set, get_elem?-set_ne,
  Bool-cases, inl, inr, ◌==◌, ltb, ◌⊎◌, ◌||◌, eqb, Option-cases, get_elem?-none, ltb→lt,
}
use sigryx.Base.Bytes.{Bytes}
use sigryx.Base.Outcome.{Outcome, ok, err}
use sigryx.Fault.{Fault}
use sigryx.SecureMem.{Sodium, Memory, Pointer, destroy}
use sigryx.SecretStore.{
  Store, new_store, is_some, configure_unseal_key_count, take_unseal_keys, with_memory, key_in_slot,
  reset_unseal_attempt, clear, store_key_root_seed, remove_key_root_seed, accept_key, finish_submit,
  derive_vault_encryption_key, submit_unseal_key, delete_seed, use_secret,
}
use sigryx.SecretStore.Slots.{taken, taken-replicate, taken-set}

-- The counts agree with the table of keys, which has a place 0 that stays free and one place for
-- each required key; an attempt that is complete is not left standing; no key of an attempt stays
-- while the vault is unsealed, and no seed while it is sealed.
pub record IsValid (s : Store) : Type 0 where
  pub counted : taken s.unseal_keys ≡ s.submitted_unseal_keys
  pub sized : 0 < s.required_unseal_keys → length s.unseal_keys ≡ suc s.required_unseal_keys
  pub first : 0 < s.required_unseal_keys → get_elem? s.unseal_keys 0 ≡ some none
  pub partial : s.submitted_unseal_keys ≤ s.required_unseal_keys - 1
  pub unsealed_clean : is_some s.vault_encryption_key ≡ true → s.submitted_unseal_keys ≡ 0
  pub configured : is_some s.vault_encryption_key ≡ true → 0 < s.required_unseal_keys
  pub sealed_clean : is_some s.vault_encryption_key ≡ false → s.key_root_seeds ≡ []

pub new_store-IsValid : (m : Memory) → IsValid (new_store m)
unfolding new_store
new_store-IsValid m = record {
  counted = refl;
  sized = λ h. absurd (omega arith);
  first = λ h. absurd (omega arith);
  partial = omega arith;
  unsealed_clean = λ h. refl;
  configured = λ h. cc;
  sealed_clean = λ h. refl;
}

abbrev fresh : ℕ → Store → Store
fresh n s = record s { required_unseal_keys = suc n; unseal_keys = replicate (suc (suc n)) none }

fresh-IsValid :
    (n : ℕ) (s : Store)
    → s.submitted_unseal_keys ≡ 0
    → is_some s.vault_encryption_key ≡ false
    → s.key_root_seeds ≡ []
    → IsValid (fresh n s)
fresh-IsValid n s e k q = record {
  counted = taken-replicate Pointer (suc (suc n)) ∙ sym e;
  sized = λ h. ap suc (ap suc (length-replicate n none));
  first = λ h. refl;
  partial = omega arith;
  unsealed_clean = λ h. e;
  configured = λ h. omega arith;
  sealed_clean = λ h. q;
}

-- What the method leaves: the store as it was, or a fresh table in an unconfigured store.
configure_cases :
    (n : ℕ) (s : Store)
    → ((configure_unseal_key_count n s).1 ≡ s)
      ⊎ ((k : ℕ) × ((configure_unseal_key_count n s).1 ≡ fresh k s)
          × (s.submitted_unseal_keys ≡ 0)
          × (is_some s.vault_encryption_key ≡ false))
unfolding configure_unseal_key_count
configure_cases zero s = inl refl
configure_cases (suc n) s = elim (Bool-cases (s.required_unseal_keys == suc n)) [
  | inl same ↦ inl (ground arith)
  | inr other ↦
      elim (Bool-cases (
        ltb 0 s.required_unseal_keys
        || (ltb 0 s.submitted_unseal_keys || is_some s.vault_encryption_key))) [
          | inl locked ↦ inl (ground arith)
          | inr free ↦ inr (n, ground arith, ground arith, ground arith)
        ]
]

pub configure-IsValid : (n : ℕ) (s : Store) → IsValid s → IsValid (configure_unseal_key_count n s).1
configure-IsValid n s v = elim (configure_cases n s) [
  | inl same ↦ rw same v
  | inr (k, e, none_submitted, sealed) ↦
      rw e (fresh-IsValid k s none_submitted sealed (v.sealed_clean sealed))
]

-- A store that keeps no key of an attempt.
pub emptied-IsValid :
    (s : Store) (key : Option Pointer) (m : Memory)
    → (is_some key ≡ true → 0 < s.required_unseal_keys)
    → (is_some key ≡ false → s.key_root_seeds ≡ [])
    → IsValid (take_unseal_keys (record s { vault_encryption_key = key; memory = m }))
unfolding take_unseal_keys
emptied-IsValid s key m c q = record {
  counted = taken-replicate Pointer s.required_unseal_keys;
  sized = λ h. ap suc (length-replicate s.required_unseal_keys none);
  first = λ h. refl;
  partial = omega arith;
  unsealed_clean = λ h. refl;
  configured = c;
  sealed_clean = q;
}

pub memory-IsValid : (m : Memory) (s : Store) → IsValid s → IsValid (with_memory m s)
memory-IsValid m s v = record {
  counted = v.counted;
  sized = v.sized;
  first = v.first;
  partial = v.partial;
  unsealed_clean = v.unsealed_clean;
  configured = v.configured;
  sealed_clean = v.sealed_clean;
}

pub reset-IsValid : (s : Store) → IsValid s → IsValid (reset_unseal_attempt s).1
unfolding reset_unseal_attempt
reset-IsValid s v = elim (Bool-cases (is_some s.vault_encryption_key)) [
  | inl e ↦ rw e v
  | inr e ↦ rw e (emptied-IsValid s s.vault_encryption_key _ v.configured (λ h. v.sealed_clean h))
]

pub clear-IsValid : (s : Store) → IsValid (clear s)
unfolding clear
clear-IsValid s = emptied-IsValid (record s { key_root_seeds = [] }) none _ (λ h. cc) (λ h. refl)

pub store_seed-IsValid :
    (id : Bytes) (seed : Option Pointer) (s : Store)
    → IsValid s
    → IsValid (store_key_root_seed id seed s).1
unfolding store_key_root_seed
store_seed-IsValid id none s v = v
store_seed-IsValid id (some seed) s v = ground (arith, v)

pub remove_seed-IsValid : (id : Bytes) (s : Store) → IsValid s → IsValid (remove_key_root_seed id s)
unfolding remove_key_root_seed delete_seed
remove_seed-IsValid id s v = elim (Bool-cases (eqb id [])) [
  | inl e ↦ rw e v
  | inr e ↦ rw e (record {
    counted = v.counted;
    sized = v.sized;
    first = v.first;
    partial = v.partial;
    unsealed_clean = v.unsealed_clean;
    configured = v.configured;
    sealed_clean = λ h. ap (delete_seed id) (v.sealed_clean h);
  })
]

-- The table with one more key in a free place, of an attempt that is not complete.
filled-IsValid :
    (slot : ℕ) (key : Pointer) (s : Store)
    → IsValid s
    → 0 < slot
    → slot ≤ s.required_unseal_keys
    → is_some s.vault_encryption_key ≡ false
    → get_elem? s.unseal_keys slot ≡ some none
    → s.submitted_unseal_keys + 1 < s.required_unseal_keys
    → IsValid (record s {
      unseal_keys = set s.unseal_keys slot (some key);
      submitted_unseal_keys = s.submitted_unseal_keys + 1;
    })
filled-IsValid slot key s v pos fits sealed free more = record {
  counted = taken-set s.unseal_keys slot key free ∙ omega (arith, v.counted);
  sized = λ h. length-set s.unseal_keys slot (some key) ∙ v.sized h;
  first =
      λ h. get_elem?-set_ne s.unseal_keys slot 0 (some key) (λ e. absurd (omega arith)) ∙ v.first h;
  partial = omega arith;
  unsealed_clean = λ h. cc;
  configured = λ h. cc;
  sealed_clean = v.sealed_clean;
}

-- A place of the table that the guards let pass is there and free.
pub free_place :
    (slot : ℕ) (s : Store)
    → IsValid s
    → 0 < slot
    → slot ≤ s.required_unseal_keys
    → is_some (key_in_slot slot s) ≡ false
    → get_elem? s.unseal_keys slot ≡ some none
free_place slot s v pos fits empty = elim (Option-cases (get_elem? s.unseal_keys slot)) [
  | inl e ↦ absurd (omega (arith, v.sized (omega arith), get_elem?-none s.unseal_keys slot e))
  | inr (none, e) ↦ e
  | inr (some key, e) ↦ ground (arith, e)
]

module _ (sodium : Sodium) (sha256 : Bytes → Bytes) where
  finish-IsValid :
      (s : Store) (r : Outcome Fault Pointer × Memory)
      → 0 < s.required_unseal_keys
      → is_some s.vault_encryption_key ≡ false
      → s.key_root_seeds ≡ []
      → IsValid (finish_submit sodium sha256 s r).1
  unfolding finish_submit
  finish-IsValid s (ok key, m) pos sealed clean =
      emptied-IsValid s (some key) _ (λ h. pos) (λ h. cc)
  finish-IsValid s (err e, m) pos sealed clean =
      emptied-IsValid s s.vault_encryption_key _ (λ h. pos) (λ h. clean)

  accept-IsValid :
      (slot : ℕ) (key : Pointer) (s : Store)
      → IsValid s
      → 0 < slot
      → slot ≤ s.required_unseal_keys
      → is_some s.vault_encryption_key ≡ false
      → is_some (key_in_slot slot s) ≡ false
      → IsValid (accept_key sodium sha256 slot key s).1
  unfolding accept_key
  accept-IsValid slot key s v pos fits sealed empty =
      let filled : Store = record s {
        unseal_keys = set s.unseal_keys slot (some key);
        submitted_unseal_keys = s.submitted_unseal_keys + 1;
      } in
      elim (Bool-cases (ltb (s.submitted_unseal_keys + 1) s.required_unseal_keys)) [
        | inl more ↦ rw more (
            filled-IsValid slot key s v pos fits sealed (free_place slot s v pos fits empty)
              (ltb→lt _ _ more))
        | inr last ↦ rw last (
            finish-IsValid filled (derive_vault_encryption_key sodium sha256 filled) (omega arith)
              sealed (v.sealed_clean sealed))
      ]

  pub submit-IsValid :
      (slot : ℕ) (key : Option Pointer) (s : Store)
      → IsValid s
      → IsValid (submit_unseal_key sodium sha256 slot key s).1
  unfolding submit_unseal_key
  submit-IsValid slot none s v = v
  submit-IsValid slot (some key) s v =
      ground (arith, memory-IsValid (destroy key s.memory) s v, accept-IsValid slot key s v)

pub use_secret-IsValid :
    {A : Type 0} (sodium : Sodium) (e : Fault) (p : Option Pointer)
    (fn : Bytes → Memory → Outcome Fault A × Memory) (s : Store)
    → IsValid s
    → IsValid (use_secret sodium e p fn s).1
unfolding use_secret
use_secret-IsValid sodium e none fn s v = v
use_secret-IsValid sodium e (some p) fn s v = memory-IsValid _ s v
