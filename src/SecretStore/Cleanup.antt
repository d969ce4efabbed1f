-- ===== src/SecretStore/Cleanup.antt =====
-- Which secrets the methods of the store destroy, and which they leave.
use sigryx.Base.{
  ℕ, zero, suc, ◌+◌, ◌<◌, ◌≡◌, refl, ap, ◌∙◌, Bool, true, false, Option, none, some, List, [], ◌∷◌,
  arith, length, get_elem?, set, get_elem?-set_self, not, Bool-cases, inl, inr, ◌==◌, ltb, ◌||◌,
  if◌then◌else◌, map, ◌⊎◌,
}
use sigryx.Base.Bytes.{Bytes}
use sigryx.Base.Outcome.{Outcome, ok, err}
use sigryx.Fault.{Fault}
use sigryx.SecureMem.{Sodium, Memory, Pointer, bytes_at, destroy, size}
use sigryx.SecureMem.Laws.{bytes_at-destroy}
use sigryx.SecretStore.{
  Store, is_some, is_unsealed, progress, destroy_secrets, key_in_slot, place_key, unseal_key_size,
  accept_key, submit_unseal_key, finish_submit, clear, find_seed, derive_vault_encryption_key,
}
use sigryx.SecretStore.Invariant.{IsValid}

-- A pointer that a list of pointers holds.
abbrev pub listed : Pointer → List (Option Pointer) → Bool
listed q [] = false
listed q (none ∷ ps) = listed q ps
listed q (some p ∷ ps) = (p == q) || listed q ps

pub bytes_at-destroy_secrets :
    (ps : List (Option Pointer)) (q : Pointer) (m : Memory)
    → bytes_at (destroy_secrets ps m) q ≡ (if listed q ps then none else bytes_at m q)
unfolding destroy_secrets
bytes_at-destroy_secrets [] q m = refl
bytes_at-destroy_secrets (none ∷ ps) q m = bytes_at-destroy_secrets ps q m
bytes_at-destroy_secrets (some p ∷ ps) q m =
    ground (arith, bytes_at-destroy_secrets ps q (destroy p m), bytes_at-destroy p q m)

pub listed-get_elem? :
    (ps : List (Option Pointer)) (i : ℕ) (q : Pointer)
    → get_elem? ps i ≡ some (some q)
    → listed q ps ≡ true
listed-get_elem? [] i q h = cc
listed-get_elem? (none ∷ ps) zero q h = cc
listed-get_elem? (some p ∷ ps) zero q h = ground arith
listed-get_elem? (none ∷ ps) (suc i) q h = listed-get_elem? ps i q h
listed-get_elem? (some p ∷ ps) (suc i) q h = ground (arith, listed-get_elem? ps i q h)

-- The pointers of the seeds.
abbrev pub seed_pointers : List (Bytes × Pointer) → List (Option Pointer)
seed_pointers seeds = map (λ (e : Bytes × Pointer). some e.1) seeds

-- All that a store owns: the keys of the attempt, the seeds and the vault key.
abbrev pub owned : Pointer → Store → Bool
owned q s =
    listed q s.unseal_keys
    || (listed q (seed_pointers s.key_root_seeds) || listed q (s.vault_encryption_key ∷ []))

-- After Clear the vault is sealed with no attempt under way and no seed, every secret that the store
-- owned is destroyed, and every other one is as it was.
pub clear_lem :
    (s : Store)
    → (is_unsealed (clear s) ≡ false)
      × (progress (clear s)
          ≡ record { submitted = 0; required = s.required_unseal_keys; unsealed = false })
      × ((id : Bytes) → find_seed id (clear s).key_root_seeds ≡ none)
      × ((q : Pointer)
          → bytes_at (clear s).memory q ≡ (if owned q s then none else bytes_at s.memory q))
unfolding clear is_unsealed progress find_seed
clear_lem s = (
  refl,
  refl,
  (λ id. refl),
  λ q. ground (
    arith,
    bytes_at-destroy_secrets s.unseal_keys q s.memory,
    bytes_at-destroy_secrets (seed_pointers s.key_root_seeds) q
        (destroy_secrets s.unseal_keys s.memory),
    bytes_at-destroy_secrets (s.vault_encryption_key ∷ []) q
        (destroy_secrets (seed_pointers s.key_root_seeds) (destroy_secrets s.unseal_keys s.memory)),
  ),
)

module _ (sodium : Sodium) (sha256 : Bytes → Bytes) where
  finish_consumes :
      (s : Store) (r : Outcome Fault Pointer × Memory) (key : Pointer)
      → listed key s.unseal_keys ≡ true
      → bytes_at (finish_submit sodium sha256 s r).1.memory key ≡ none
  unfolding finish_submit
  finish_consumes s (ok k, m) key h = ground (arith, bytes_at-destroy_secrets s.unseal_keys key m)
  finish_consumes s (err e, m) key h = ground (arith, bytes_at-destroy_secrets s.unseal_keys key m)

  accept_consumes :
      (slot key : ℕ) (s : Store)
      → slot < length s.unseal_keys
      → (bytes_at (accept_key sodium sha256 slot key s).1.memory key ≡ none)
        ⊎ ((key_in_slot slot (accept_key sodium sha256 slot key s).1 ≡ some key)
            × ((accept_key sodium sha256 slot key s).0.1 ≡ none))
  unfolding accept_key
  accept_consumes slot key s inside =
      let there = get_elem?-set_self s.unseal_keys slot (some key) inside in
      let filled : Store = record s {
        unseal_keys = set s.unseal_keys slot (some key);
        submitted_unseal_keys = s.submitted_unseal_keys + 1;
      } in
      elim (Bool-cases (ltb (s.submitted_unseal_keys + 1) s.required_unseal_keys)) [
        | inl more ↦ inr (rw more (ap place_key there), rw more refl)
        | inr last ↦ inl (
            rw last (
              finish_consumes filled (derive_vault_encryption_key sodium sha256 filled) key
                (listed-get_elem? filled.unseal_keys slot key there)))
      ]

  -- Whatever SubmitUnsealKey returns, its key is destroyed, unless the method returned no error and
  -- the key stands in its slot.
  pub submit_consumes :
      (slot key : ℕ) (s : Store)
      → IsValid s
      → (bytes_at (submit_unseal_key sodium sha256 slot (some key) s).1.memory key ≡ none)
        ⊎ ((key_in_slot slot (submit_unseal_key sodium sha256 slot (some key) s).1 ≡ some key)
            × ((submit_unseal_key sodium sha256 slot (some key) s).0.1 ≡ none))
  unfolding submit_unseal_key
  submit_consumes slot key s v =
      let refused : bytes_at (destroy key s.memory) key ≡ none =
        bytes_at-destroy key key s.memory ∙ ground arith in
      elim (Bool-cases (not (size key s.memory == unseal_key_size))) [
        | inl e ↦ inl (rw e refused)
        | inr e ↦ elim (Bool-cases ((slot == 0) || ltb s.required_unseal_keys slot)) [
          | inl f ↦ inl (rw (e, f) refused)
          | inr f ↦ elim (Bool-cases (is_some s.vault_encryption_key)) [
            | inl g ↦ inl (rw (e, f, g) refused)
            | inr g ↦ elim (Bool-cases (is_some (key_in_slot slot s))) [
              | inl k ↦ inl (rw (e, f, g, k) refused)
              | inr k ↦
                  let pos : 0 < s.required_unseal_keys = ground arith in
                  let inside : slot < length s.unseal_keys = ground (arith, v.sized pos) in
                  rw (e, f, g, k) (accept_consumes slot key s inside)
            ]
          ]
        ]
      ]
