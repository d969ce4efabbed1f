-- ===== src/Seal/Requests.antt =====
-- Any sequence of requests to the seal service, with what the other services do to the secret store
-- between them, whatever fails outside.
use sigryx.Base.{
  ℕ, ◌≡◌, refl, ap, sym, subst, ◌∙◌, not, Option, none, some, List, [], ◌∷◌, arith, length, ◌⊎◌,
  ◌==◌, ltb, ◌||◌, eqb, Bool-cases, Option-cases, inl, inr,
}
use sigryx.Base.Bytes.{Bytes}
use sigryx.Base.Outcome.{Outcome, ok, err}
use sigryx.Fault.{Fault}
use sigryx.SecureMem.{Memory, Pointer}
use sigryx.Cryptox.{key_size}
use sigryx.SecretStore.{
  Store, is_some, configure_unseal_key_count, submit_unseal_key, with_memory, clear, new_store,
  store_key_root_seed, remove_key_root_seed,
}
use sigryx.SecretStore.Invariant.{
  IsValid, configure-IsValid, submit-IsValid, memory-IsValid, clear-IsValid, new_store-IsValid,
  store_seed-IsValid, remove_seed-IsValid,
}
use sigryx.Seal.{
  Outside, Vault, UnsealKeySlot, UnsealCredential, SealStatus, get_by_id, queried, with_secrets,
  initialize, count, status, seal_vault, find_slot,
}
use sigryx.Seal.Submit.{
  submit_unseal_credential, submit_counted, submit_configured, submit_found, submit_for_slot,
  submit_opened, submit_protected, refuse_malformed, is_slot_not_found,
}
use sigryx.Seal.Unseal.{submit_required}
use sigryx.Seal.Consistent.{
  Post, IsConsistent, queried-IsConsistent, memory-IsConsistent, count-Post, initialize-Post,
  Allowed, Initialized, Unchanged,
}

pub data Request : Type 0 where
  initialize_request : ℕ → Request
  submit_request : ℕ → Bytes → Bytes → Request
  seal_request : Request
  status_request : Request
  -- StoreKeyRootSeed and RemoveKeyRootSeed of the key root services
  seed_request : Bytes → Option Pointer → Request
  remove_request : Bytes → Request
  -- anything that happens to the secret memory meanwhile
  memory_request : Memory → Request

store-IsConsistent :
    (s : Store) (w : Vault)
    → IsConsistent w
    → IsValid s
    → s.required_unseal_keys ≡ w.secrets.required_unseal_keys
    → IsConsistent (with_secrets s w)
store-IsConsistent s w c v e = record {
  valid = v;
  numbered = c.numbered;
  size = subst (λ n. (n ≡ 0) ⊎ (n ≡ length w.slots)) (sym e) c.size;
}

configured_size :
    (n : ℕ) (s : Store)
    → (s.required_unseal_keys ≡ 0) ⊎ (s.required_unseal_keys ≡ n)
    → ((configure_unseal_key_count n s).1.required_unseal_keys ≡ 0)
      ⊎ ((configure_unseal_key_count n s).1.required_unseal_keys ≡ n)
unfolding configure_unseal_key_count
configured_size n s h = elim (Bool-cases (n == 0)) [
  | inl a ↦ rw a h
  | inr a ↦ elim (Bool-cases (s.required_unseal_keys == n)) [
    | inl b ↦ rw (a, b) h
    | inr b ↦
        elim (Bool-cases (
          ltb 0 s.required_unseal_keys
          || (ltb 0 s.submitted_unseal_keys || is_some s.vault_encryption_key))) [
            | inl c ↦ rw (a, b, c) h
            | inr c ↦ rw (a, b, c) (inr refl)
          ]
  ]
]

store_required :
    (id : Bytes) (seed : Option Pointer) (s : Store)
    → (store_key_root_seed id seed s).1.required_unseal_keys ≡ s.required_unseal_keys
unfolding store_key_root_seed
store_required id none s = refl
store_required id (some seed) s = ground arith

remove_required :
    (id : Bytes) (s : Store)
    → (remove_key_root_seed id s).required_unseal_keys ≡ s.required_unseal_keys
unfolding remove_key_root_seed
remove_required id s = ground arith

module _ (out : Outside) (max : ℕ) where
  protected-IsConsistent :
      (id : ℕ) (w : Vault) (r : Outcome Fault Pointer × Memory)
      → IsConsistent w
      → IsConsistent (submit_protected out id w r).1
  unfolding submit_protected
  protected-IsConsistent id w (ok p, m) c =
      let s = with_memory m w.secrets in
      store-IsConsistent (submit_unseal_key out.sodium out.sha256 id (some p) s).1 w c
        (submit-IsValid out.sodium out.sha256 id (some p) s (memory-IsValid m w.secrets c.valid))
        (submit_required out.sodium out.sha256 id p s)
  protected-IsConsistent id w (err e, m) c = memory-IsConsistent out m w c

  opened-IsConsistent :
      (id found : ℕ) (w : Vault) (r : Outcome Fault Bytes)
      → IsConsistent w
      → IsConsistent (submit_opened out id found w r).1
  unfolding submit_opened
  opened-IsConsistent id found w (ok key) c = protected-IsConsistent id w _ c
  opened-IsConsistent id found w (err e) c = c

  for_slot-IsConsistent :
      (id : ℕ) (wrapped owner : Bytes) (found : ℕ) (w : Vault) (slot : UnsealKeySlot)
      → IsConsistent w
      → IsConsistent (submit_for_slot out id wrapped owner found w slot).1
  unfolding submit_for_slot
  for_slot-IsConsistent id wrapped owner found w slot c =
      elim (Bool-cases (
        not (slot.id == id)
        || (not (length slot.server_key_material == key_size) || eqb slot.wrapped_key []))) [
          | inl e ↦ rw e c
          | inr e ↦ elim (Bool-cases (not (eqb slot.wrapped_key wrapped))) [
            | inl f ↦ rw (e, f) c
            | inr f ↦ rw (e, f) (opened-IsConsistent id found w _ c)
          ]
        ]

  get-IsConsistent : (id : ℕ) (w : Vault) → (get_by_id out id w).1 ≡ queried w
  unfolding get_by_id
  get-IsConsistent id w = elim (Bool-cases (out.database w.queries)) [
    | inl e ↦ elim (Option-cases (find_slot id w.slots)) [
      | inl f ↦ ground (arith, e, f)
      | inr (slot, f) ↦ ground (arith, e, f)
    ]
    | inr e ↦ rw e refl
  ]

  found-IsConsistent :
      (id : ℕ) (wrapped owner : Bytes) (found : ℕ) (r : Outcome Fault UnsealKeySlot × Vault)
      → IsConsistent r.1
      → IsConsistent (submit_found out id wrapped owner found r).1
  unfolding submit_found
  found-IsConsistent id wrapped owner found (ok slot, w) c =
      for_slot-IsConsistent id wrapped owner found w slot c
  found-IsConsistent id wrapped owner found (err e, w) c = elim (Bool-cases (is_slot_not_found e)) [
    | inl h ↦ rw h c
    | inr h ↦ rw h c
  ]

  configured-IsConsistent :
      (id : ℕ) (wrapped owner : Bytes) (found : ℕ) (w : Vault)
      (r : Outcome Fault (Unit {0}) × Store)
      → IsConsistent (with_secrets r.1 w)
      → IsConsistent (submit_configured out id wrapped owner found w r).1
  unfolding submit_configured
  configured-IsConsistent id wrapped owner found w (ok done, s) c =
      found-IsConsistent id wrapped owner found _ (
        subst IsConsistent (sym (get-IsConsistent id (with_secrets s w)))
          (queried-IsConsistent out (with_secrets s w) c))
  configured-IsConsistent id wrapped owner found w (err e, s) c = c

  counted-IsConsistent :
      (id : ℕ) (wrapped owner : Bytes) (w : Vault) (r : Outcome Fault ℕ × Vault)
      → IsConsistent w
      → Post (λ found w'. (found ≡ length w.slots) × (w' ≡ queried w)) (λ w'. w' ≡ queried w) r
      → IsConsistent (submit_counted out id wrapped owner r).1
  unfolding submit_counted
  counted-IsConsistent id wrapped owner w (err e, w1) c h =
      subst IsConsistent (sym h) (queried-IsConsistent out w c)
  counted-IsConsistent id wrapped owner w (ok found, w1) c (size, h) =
      let c1 = subst IsConsistent (sym h) (queried-IsConsistent out w c) in
      elim (Bool-cases (found == 0)) [
        | inl e ↦ rw e c1
        | inr e ↦
            let fits : found ≡ length w1.slots =
              size ∙ ap (λ (v : Vault). length v.slots) (sym h) in
            rw e (
              configured-IsConsistent id wrapped owner found w1
                (configure_unseal_key_count found w1.secrets)
                (record {
                  valid = configure-IsValid found w1.secrets c1.valid;
                  numbered = c1.numbered;
                  size =
                      subst
                        (λ k.
                          ((configure_unseal_key_count found w1.secrets).1.required_unseal_keys ≡ 0)
                          ⊎ ((configure_unseal_key_count found w1.secrets).1.required_unseal_keys
                              ≡ k))
                        fits
                        (configured_size found w1.secrets (
                          subst
                            (λ k.
                              (w1.secrets.required_unseal_keys ≡ 0)
                              ⊎ (w1.secrets.required_unseal_keys ≡ k))
                            (sym fits) c1.size));
                }))
      ]

  status-queried : (w : Vault) → (status out w).1 ≡ queried w
  unfolding status count
  status-queried w = ground arith

  malformed-queried : (r : Outcome Fault SealStatus × Vault) → (refuse_malformed out r).1 ≡ r.1
  unfolding refuse_malformed
  malformed-queried (ok st, w) = refl
  malformed-queried (err e, w) = refl

  submit-IsConsistent :
      (id : ℕ) (wrapped owner : Bytes) (w : Vault)
      → IsConsistent w
      → IsConsistent (submit_unseal_credential out id wrapped owner w).1
  unfolding submit_unseal_credential
  submit-IsConsistent id wrapped owner w c =
      elim (Bool-cases ((id == 0) || (not (length owner == key_size) || eqb wrapped []))) [
        | inl e ↦ rw e (
            subst IsConsistent (sym (malformed-queried (status out w) ∙ status-queried w))
              (queried-IsConsistent out w c))
        | inr e ↦ rw e (counted-IsConsistent id wrapped owner w (count out w) c (count-Post out w))
      ]

  seal-IsConsistent : (w : Vault) → IsConsistent w → IsConsistent (seal_vault out w).1
  unfolding seal_vault count clear
  seal-IsConsistent w c =
      let c1 = queried-IsConsistent out w c in
      let cleared =
        store-IsConsistent (clear w.secrets) (queried w) c1 (clear-IsValid w.secrets) refl in
      elim (Bool-cases (out.database w.queries)) [
        | inl e ↦ elim (Bool-cases (length w.slots == 0)) [
          | inl f ↦ rw (e, f) c1
          | inr f ↦ rw (e, f) cleared
        ]
        | inr e ↦ rw e c1
      ]

  pub request : Request → Vault → Vault
  request (initialize_request n) w = (initialize out max n w).1
  request (submit_request id wrapped owner) w = (submit_unseal_credential out id wrapped owner w).1
  request seal_request w = (seal_vault out w).1
  request status_request w = (status out w).1
  request (seed_request id seed) w = with_secrets (store_key_root_seed id seed w.secrets).1 w
  request (remove_request id) w = with_secrets (remove_key_root_seed id w.secrets) w
  request (memory_request m) w = with_secrets (with_memory m w.secrets) w

  pub requests : List Request → Vault → Vault
  requests [] w = w
  requests (r ∷ rs) w = requests rs (request r w)

  after_initialize :
      (n : ℕ) (w : Vault) (r : Outcome Fault (List UnsealCredential) × Vault)
      → Post
          (λ credentials w'. Allowed max n × Initialized out n w credentials w')
          (Unchanged out w)
          r
      → IsConsistent r.1
  after_initialize n w (ok credentials, w') h = h.1.0
  after_initialize n w (err e, w') h = h.0

  seed-IsConsistent :
      (id : Bytes) (seed : Option Pointer) (w : Vault)
      → IsConsistent w
      → IsConsistent (with_secrets (store_key_root_seed id seed w.secrets).1 w)
  seed-IsConsistent id seed w c =
      store-IsConsistent (store_key_root_seed id seed w.secrets).1 w c
        (store_seed-IsValid id seed w.secrets c.valid) (store_required id seed w.secrets)

  request-IsConsistent : (r : Request) (w : Vault) → IsConsistent w → IsConsistent (request r w)
  unfolding request
  request-IsConsistent (initialize_request n) w c =
      after_initialize n w (initialize out max n w) (initialize-Post out max n w c)
  request-IsConsistent (submit_request id wrapped owner) w c =
      submit-IsConsistent id wrapped owner w c
  request-IsConsistent seal_request w c = seal-IsConsistent w c
  request-IsConsistent status_request w c =
      subst IsConsistent (sym (status-queried w)) (queried-IsConsistent out w c)
  request-IsConsistent (seed_request id seed) w c = seed-IsConsistent id seed w c
  request-IsConsistent (remove_request id) w c =
      store-IsConsistent (remove_key_root_seed id w.secrets) w c
        (remove_seed-IsValid id w.secrets c.valid) (remove_required id w.secrets)
  request-IsConsistent (memory_request m) w c = memory-IsConsistent out m w c

  requests-keep : (rs : List Request) (w : Vault) → IsConsistent w → IsConsistent (requests rs w)
  unfolding requests
  requests-keep [] w c = c
  requests-keep (r ∷ rs) w c = requests-keep rs (request r w) (request-IsConsistent r w c)

  -- Whatever fails outside, and whatever the other services do to the seeds and to the secret memory
  -- meanwhile: after any sequence of requests on an empty vault with a new store, the store is valid,
  -- the slots are numbered from 1, and the store is not configured or asks for as many keys as there
  -- are slots.
  pub requests-IsConsistent :
      (rs : List Request) (queries : ℕ) (m : Memory)
      → IsConsistent (requests rs (record { slots = []; queries = queries; secrets = new_store m }))
  requests-IsConsistent rs queries m =
      requests-keep rs _ (record {
        valid = new_store-IsValid m;
        numbered = tt;
        size = (unfold new_store in inl refl);
      })
