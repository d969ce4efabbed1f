-- ===== src/KeyRoots/Rollback.antt =====
-- What Create of the key root service leaves in the tables and in the secret store.
use sigryx.Base.{
  ◌≡◌, refl, ap, true, false, not, Option, none, some, List, [], ◌∷◌, eqb, eqb_refl, Bool-cases,
  inl, inr, ◌⊎◌,
}
use sigryx.Base.Bytes.{Bytes}
use sigryx.Base.Outcome.{Outcome, ok, err}
use sigryx.Fault.{Fault}
use sigryx.SecureMem.{Memory, Pointer}
use sigryx.SecretStore.{
  Store, is_unsealed, with_vault_encryption_key, use_secret, store_key_root_seed,
  remove_key_root_seed, is_some, find_seed, delete_seed, with_memory,
}
use sigryx.Wallet.{KeyRoot, Wallets}
use sigryx.Wallet.Service.{Outside, key_root_aad}
use sigryx.KeyRoots
use sigryx.KeyRoots.{
  KeyRootError, fault, CreateKeyRootResult, has_key_root, with_secrets, insert_key_root, generate,
  seal_seed, scheme_of, persisted, cached, sealed_as, seeded, create_for, create_key_root,
}

-- Either the key root is in both places, where it was in none, or both are as before.
abbrev pub Transacted : Wallets → Outcome KeyRootError CreateKeyRootResult × Wallets → Type 0
Transacted w (ok result, v) =
    (row : KeyRoot) × (seed : Pointer) × (v.key_roots ≡ row ∷ w.key_roots)
    × (v.secrets.key_root_seeds ≡ (row.id, seed) ∷ w.secrets.key_root_seeds)
    × (has_key_root row.id w.key_roots ≡ false)
    × (find_seed row.id w.secrets.key_root_seeds ≡ none)
    × (result.id ≡ row.id)
    × (result.derivation_scheme ≡ row.derivation_scheme)
Transacted w (err e, v) =
    (v.key_roots ≡ w.key_roots) × (v.secrets.key_root_seeds ≡ w.secrets.key_root_seeds)

delete_fresh :
    (id : Bytes) (seeds : List (Bytes × Pointer))
    → find_seed id seeds ≡ none
    → delete_seed id seeds ≡ seeds
unfolding delete_seed find_seed
delete_fresh id [] h = refl
delete_fresh id ((j, p) ∷ seeds) h = elim (Bool-cases (eqb j id)) [
  | inl e ↦ absurd (let found : some p ≡ none = rw e at h in cc)
  | inr e ↦
      rw e (ap (λ (t : List (Bytes × Pointer)). (j, p) ∷ t) (delete_fresh id seeds (rw e at h)))
]

-- What was stored first is removed again.
remove_stored :
    (id : Bytes) (seed : Pointer) (seeds : List (Bytes × Pointer)) (s : Store)
    → s.key_root_seeds ≡ (id, seed) ∷ seeds
    → eqb id [] ≡ false
    → find_seed id seeds ≡ none
    → (remove_key_root_seed id s).key_root_seeds ≡ seeds
unfolding remove_key_root_seed delete_seed
remove_stored id seed seeds s h e fresh = rw (e, h, eqb_refl id) (delete_fresh id seeds fresh)

use_secret_keeps :
    {A : Type 0} (out : Outside) (e : Fault) (key : Option Pointer)
    (fn : Bytes → Memory → Outcome Fault A × Memory) (s : Store)
    → (use_secret out.sodium e key fn s).1.key_root_seeds ≡ s.key_root_seeds
unfolding use_secret
use_secret_keeps out e none fn s = refl
use_secret_keeps out e (some p) fn s = refl

some_or_none : {A : Type 0} (o : Option A) → (is_some o ≡ true) ⊎ ((o ≡ none) × (is_some o ≡ false))
some_or_none none = inr (refl, refl)
some_or_none (some a) = inl refl

module _ (out : Outside) (wallet_type : Bytes) (w : Wallets) where
  persisted-Transacted :
      (root : KeyRoot) (seed : Pointer) (s : Store)
      → s.key_root_seeds ≡ (root.id, seed) ∷ w.secrets.key_root_seeds
      → eqb root.id [] ≡ false
      → find_seed root.id w.secrets.key_root_seeds ≡ none
      → Transacted w (persisted out wallet_type root (insert_key_root out root (with_secrets s w)))
  unfolding persisted insert_key_root
  persisted-Transacted root seed s h e fresh =
      let back = remove_stored root.id seed w.secrets.key_root_seeds s h e fresh in
      elim (Bool-cases (not (out.database_up w.queries))) [
        | inl d ↦ rw d (refl, back)
        | inr d ↦ elim (Bool-cases (has_key_root root.id w.key_roots)) [
          | inl r ↦ rw (d, r) (refl, back)
          | inr r ↦ rw (d, r) (root, seed, refl, h, r, fresh, refl, refl)
        ]
      ]

  -- Create behind the seal, where the store has the seeds of the start
  sealed-Transacted :
      (scheme id : Bytes) (seed : Pointer) (o : Outcome Fault Bytes) (s : Store)
      → s.key_root_seeds ≡ w.secrets.key_root_seeds
      → Transacted w (sealed_as out wallet_type scheme id seed (o, s) w)
  unfolding sealed_as cached store_key_root_seed
  sealed-Transacted scheme id seed (err e) s h = (refl, h)
  sealed-Transacted scheme id seed (ok sealed) s h =
      let root : KeyRoot = record { id = id; derivation_scheme = scheme; sealed_seed = sealed } in
      elim (Bool-cases (eqb id [])) [
        | inl e ↦ rw e (refl, h)
        | inr e ↦ elim (Bool-cases (not (is_some s.vault_encryption_key))) [
          | inl k ↦ rw (e, k) (refl, h)
          | inr k ↦ elim (some_or_none (find_seed id s.key_root_seeds)) [
            | inl f ↦ rw (e, k, f) (refl, h)
            | inr (none_there, f) ↦
                rw (e, k, f)
                  (persisted-Transacted root seed
                    (record s { key_root_seeds = (id, seed) ∷ s.key_root_seeds })
                    (ap (λ (t : List (Bytes × Pointer)). (id, seed) ∷ t) h) e (rw h at none_there))
          ]
        ]
      ]

  seeded-Transacted :
      (scheme id : Bytes) (drawn : Outcome Fault Pointer × Memory)
      → Transacted w (seeded out wallet_type scheme id drawn w)
  unfolding seeded with_vault_encryption_key
  seeded-Transacted scheme id (err e, m) = (refl, refl)
  seeded-Transacted scheme id (ok seed, m) =
      let s = with_memory m w.secrets in
      let fn = seal_seed out seed (key_root_aad id scheme) in
      let (o, s') = use_secret out.sodium Fault.vault_sealed w.secrets.vault_encryption_key fn s in
      sealed-Transacted scheme id seed o s'
        (use_secret_keeps out Fault.vault_sealed w.secrets.vault_encryption_key fn s)

-- Whatever the wallet type, the libraries and the database answer: Create of a key root either returns a
-- key root that then stands, by a row and by a cached seed, in front of a table and a cache that had
-- neither before, or it returns an error and leaves the rows of the table and the cached seeds as they
-- were.
pub create_key_root-Transacted :
    (out : Outside) (wallet_type : Bytes) (w : Wallets)
    → Transacted w (create_key_root out wallet_type w)
unfolding create_key_root create_for
create_key_root-Transacted out wallet_type w =
    elim (scheme_of wallet_type)
      as (λ o. Transacted w (elim o [
        | none ↦ (err KeyRoots.unsupported_wallet_type, w)
        | some scheme ↦ create_for out wallet_type scheme w
      ])) [
        | none ↦ (refl, refl)
        | some scheme ↦ elim (Bool-cases (not (is_unsealed w.secrets))) [
          | inl e ↦ rw e (refl, refl)
          | inr e ↦ rw e (
              seeded-Transacted out wallet_type w scheme (out.new_id w.queries)
                (generate out w.secrets.memory))
        ]
      ]
