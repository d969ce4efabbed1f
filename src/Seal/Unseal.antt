-- ===== src/Seal/Unseal.antt =====
-- Unsealing with the credentials that Initialize issued.
use sigryx.Base.{
  ℕ, zero, suc, ◌+◌, ◌-◌, ◌≤◌, ◌<◌, ◌≡◌, refl, ap, sym, subst, ◌∙◌, true, false, Option, none, some,
  List, [], ◌∷◌, arith, length, get_elem?, set, replicate, ◌⊎◌, eqb, eqb_refl, inl, inr,
}
use sigryx.Base.Bytes.{Bytes}
use sigryx.Base.Outcome.{Outcome, ok, err}
use sigryx.Fault.{Fault}
use sigryx.SecureMem.{Sodium, Memory, Pointer, new}
use sigryx.SecretStore.{
  Store, configure_unseal_key_count, submit_unseal_key, accept_key, finish_submit,
  derive_vault_encryption_key, with_memory,
}
use sigryx.SecretStore.Invariant.{IsValid, configure-IsValid}
use sigryx.SecretStore.Order.{with_protected, submit_material, submit_all, joined, distinct, within}
use sigryx.SecretStore.Order.AnyOrder.{VaultKey, submit_all_opens}
use sigryx.Seal.{
  Outside, Vault, UnsealKeySlot, UnsealCredential, get_by_id, queried, with_secrets, initialize,
  find_slot, count,
}
use sigryx.Seal.Submit.{
  Answer, submit_unseal_credential, submit_counted, submit_configured, submit_found,
  submit_for_slot, submit_protected,
}
use sigryx.Seal.Credentials.{
  Works, Wraps, Batch, batch_slots, batch_credentials, batch_key, Issues, batch_slots-length,
  batch_key-length, batch_credentials-length, find_slot-Issues, count_lem, initialize_lem,
}

-- What is left where the owner of slot `id` submits the credential, if there is one.
unfoldable pub with_credential : Outside → ℕ → Vault → Option UnsealCredential → Vault
with_credential out id w none = w
with_credential out id w (some c) =
    (submit_unseal_credential out id c.wrapped_key c.owner_secret w).1

unfoldable pub submit_credential : Outside → List UnsealCredential → ℕ → Vault → Vault
unfolding with_credential
submit_credential out credentials id w = with_credential out id w (get_elem? credentials (id - 1))

-- The owners of the slots submit their credentials, one after the other.
unfoldable pub submit_credentials : Outside → List UnsealCredential → List ℕ → Vault → Vault
submit_credentials out credentials [] w = w
submit_credentials out credentials (id ∷ ids) w =
    submit_credentials out credentials ids (submit_credential out credentials id w)

not_empty : (bytes : Bytes) → 0 < length bytes → eqb bytes [] ≡ false
not_empty [] h = elim h [ ]
not_empty (b ∷ bytes) h = refl

module _ (out : Outside) (works : Works out) where
  protected_lem :
      (id : ℕ) (w : Vault) (r : Outcome Fault Pointer × Memory)
      → (submit_protected out id w r).1
        ≡ with_secrets (with_protected (submit_unseal_key out.sodium out.sha256) id w.secrets r) w
  unfolding submit_protected with_protected
  protected_lem id w (ok p, m) = refl
  protected_lem id w (err e, m) = refl

  get_by_id_lem :
      (id : ℕ) (w : Vault) (slot : UnsealKeySlot)
      → find_slot id w.slots ≡ some slot
      → get_by_id out id w ≡ (ok slot, queried w)
  unfolding get_by_id
  get_by_id_lem id w slot there = ground (arith, works.queries w.queries, there)

  for_slot_lem :
      (id found : ℕ) (w : Vault) (slot : UnsealKeySlot) (c : UnsealCredential) (key : Bytes)
      → Wraps out id slot c key
      → submit_for_slot out id c.wrapped_key c.owner_secret found w slot
        ≡ submit_protected out id w (new out.sodium key w.secrets.memory)
  unfolding submit_for_slot
  for_slot_lem id found w slot c key wraps =
      let filled : eqb slot.wrapped_key [] ≡ false =
        not_empty slot.wrapped_key wraps.wrapped_size in
      let same : eqb slot.wrapped_key c.wrapped_key ≡ true =
        ap (eqb slot.wrapped_key) (sym wraps.same) ∙ eqb_refl slot.wrapped_key in
      ground (arith, wraps.slot_id, wraps.server_size, filled, same, wraps.opens)

  -- One submission, where the store takes the count.
  submit_lem :
      (id : ℕ) (w : Vault) (slot : UnsealKeySlot) (c : UnsealCredential) (key : Bytes) (s : Store)
      → 0 < id
      → 0 < length w.slots
      → find_slot id w.slots ≡ some slot
      → Wraps out id slot c key
      → configure_unseal_key_count (length w.slots) w.secrets ≡ (ok tt, s)
      → (submit_unseal_credential out id c.wrapped_key c.owner_secret w).1 ≡ record {
        slots = w.slots;
        queries = w.queries + 1 + 1;
        secrets = submit_material out.sodium out.sha256 id key s;
      }
  unfolding submit_unseal_credential
  submit_lem id w slot c key s pos some_slots there wraps configured =
      let owner = c.owner_secret in
      let w2 = with_secrets s (queried w) in
      let filled : eqb c.wrapped_key [] ≡ false =
        ap (λ b. eqb b []) (sym wraps.same) ∙ not_empty slot.wrapped_key wraps.wrapped_size in
      let passes : submit_unseal_credential out id c.wrapped_key owner w
          ≡ submit_counted out id c.wrapped_key owner (count out w) =
        ground (arith, wraps.owner_size, filled) in
      let past_count : submit_counted out id c.wrapped_key owner (ok (length w.slots), queried w)
          ≡ submit_configured out id c.wrapped_key owner (length w.slots) (queried w)
              (configure_unseal_key_count (length w.slots) w.secrets) =
        (unfold submit_counted in ground arith) in
      ap (λ (a : Answer). a.1)
        (passes
          ∙ ap (submit_counted out id c.wrapped_key owner) (count_lem out works w)
          ∙ past_count
          ∙ ap (submit_configured out id c.wrapped_key owner (length w.slots) (queried w))
              configured
          ∙ (unfold submit_configured in
              ap (submit_found out id c.wrapped_key owner (length w.slots))
                (get_by_id_lem id w2 slot there))
          ∙ (unfold submit_found in for_slot_lem id (length w.slots) (queried w2) slot c key wraps))
      ∙ protected_lem id (queried w2) (new out.sodium key s.memory)
      ∙ (unfold submit_material in refl)

  -- A batch whose slots the repository holds: one submission.
  batch_submit :
      (batch : Batch) (i : ℕ) (w : Vault) (s : Store)
      → Issues out 1 batch
      → w.slots ≡ batch_slots batch
      → i < length batch
      → configure_unseal_key_count (length batch) w.secrets ≡ (ok tt, s)
      → submit_credential out (batch_credentials batch) (suc i) w ≡ record {
        slots = w.slots;
        queries = w.queries + 1 + 1;
        secrets = submit_material out.sodium out.sha256 (suc i) (batch_key batch (suc i - 1)) s;
      }
  unfolding submit_credential with_credential
  batch_submit batch i w s issued stored inside configured =
      let (slot, c, found, held, wraps) = find_slot-Issues out 1 batch issued i inside in
      let number : 1 + i ≡ suc i = omega arith in
      let size : length w.slots ≡ length batch = ap length stored ∙ batch_slots-length batch in
      let there : find_slot (suc i) w.slots ≡ some slot =
        ap (find_slot (suc i)) stored
        ∙ ap (λ j. find_slot j (batch_slots batch)) (sym number)
        ∙ found in
      let back : i ≡ suc i - 1 = omega arith in
      let wraps' : Wraps out (suc i) slot c (batch_key batch (suc i - 1)) =
        subst (λ j. Wraps out (suc i) slot c (batch_key batch j)) back
          (subst (λ j. Wraps out j slot c (batch_key batch i)) number wraps) in
      let held' : get_elem? (batch_credentials batch) (suc i - 1) ≡ some c =
        ap (get_elem? (batch_credentials batch)) (omega arith) ∙ held in
      let configured' : configure_unseal_key_count (length w.slots) w.secrets ≡ (ok tt, s) =
        ap (λ n. configure_unseal_key_count n w.secrets) size ∙ configured in
      ap (with_credential out (suc i) w) held'
      ∙ submit_lem (suc i) w slot c (batch_key batch (suc i - 1)) s (omega arith) (omega arith)
          there wraps' configured'

module _ (sodium : Sodium) (sha256 : Bytes → Bytes) where
  finish_required :
      (s : Store) (r : Outcome Fault Pointer × Memory)
      → (finish_submit sodium sha256 s r).1.required_unseal_keys ≡ s.required_unseal_keys
  unfolding finish_submit
  finish_required s (ok key, m) = refl
  finish_required s (err e, m) = refl

  accept_required :
      (slot key : ℕ) (s : Store)
      → (accept_key sodium sha256 slot key s).1.required_unseal_keys ≡ s.required_unseal_keys
  unfolding accept_key
  accept_required slot key s =
      let filled : Store = record s {
        unseal_keys = set s.unseal_keys slot (some key);
        submitted_unseal_keys = s.submitted_unseal_keys + 1;
      } in
      ground (arith, finish_required filled (derive_vault_encryption_key sodium sha256 filled))

  pub submit_required :
      (slot key : ℕ) (s : Store)
      → (submit_unseal_key sodium sha256 slot (some key) s).1.required_unseal_keys
        ≡ s.required_unseal_keys
  unfolding submit_unseal_key
  submit_required slot key s = ground (arith, accept_required slot key s)

  protected_required :
      (slot : ℕ) (s : Store) (r : Outcome Fault Pointer × Memory)
      → (with_protected (submit_unseal_key sodium sha256) slot s r).required_unseal_keys
        ≡ s.required_unseal_keys
  unfolding with_protected
  protected_required slot s (ok p, m) = submit_required slot p (with_memory m s)
  protected_required slot s (err e, m) = refl

  material_required :
      (slot : ℕ) (key : Bytes) (s : Store)
      → (submit_material sodium sha256 slot key s).required_unseal_keys ≡ s.required_unseal_keys
  unfolding submit_material
  material_required slot key s = protected_required slot s (new sodium key s.memory)

configured_lem :
    (n : ℕ) (s : Store)
    → 0 < n
    → s.required_unseal_keys ≡ n
    → configure_unseal_key_count n s ≡ (ok tt, s)
unfolding configure_unseal_key_count
configured_lem n s pos same = ground arith

module _ (out : Outside) (works : Works out) where
  -- Submissions by the credentials of a batch are submissions of its keys.
  submit_credentials_lem :
      (batch : Batch) (id : ℕ) (ids : List ℕ) (w : Vault) (s : Store)
      → Issues out 1 batch
      → w.slots ≡ batch_slots batch
      → within (length batch) (id ∷ ids) ≡ true
      → s.required_unseal_keys ≡ length batch
      → configure_unseal_key_count (length batch) w.secrets ≡ (ok tt, s)
      → (submit_credentials out (batch_credentials batch) (id ∷ ids) w).secrets
        ≡ submit_all out.sodium out.sha256 (λ j. batch_key batch (j - 1)) (id ∷ ids) s
  unfolding submit_credentials submit_all
  submit_credentials_lem batch zero ids w s issued stored inside size configured = ground arith
  submit_credentials_lem batch (suc i) [] w s issued stored inside size configured =
      ap (λ (v : Vault). v.secrets)
        (batch_submit out works batch i w s issued stored (ground arith) configured)
  submit_credentials_lem batch (suc i) (next ∷ ids) w s issued stored inside size configured =
      let s1 = submit_material out.sodium out.sha256 (suc i) (batch_key batch (suc i - 1)) s in
      let w1 : Vault = record { slots = w.slots; queries = w.queries + 1 + 1; secrets = s1 } in
      let size1 : s1.required_unseal_keys ≡ length batch =
        material_required out.sodium out.sha256 (suc i) (batch_key batch (suc i - 1)) s ∙ size in
      ap (λ v. (submit_credentials out (batch_credentials batch) (next ∷ ids) v).secrets)
        (batch_submit out works batch i w s issued stored (ground arith) configured)
      ∙ submit_credentials_lem batch next ids w1 s1 issued stored (ground arith) size1
          (configured_lem (length batch) s1 (ground arith) size1)

-- The slots 1 to `n`, each once.
pub record IsOrder (n : ℕ) (order : List ℕ) : Type 0 where
  pub complete : length order ≡ n
  pub apart : distinct order ≡ true
  pub inside : within n order ≡ true

-- A store in which no attempt is under way: a new one, or one for `n` keys that Clear or a reset left.
pub record IsIdle (n : ℕ) (s : Store) : Type 0 where
  pub valid : IsValid s
  pub sealed : s.vault_encryption_key ≡ none
  pub none_submitted : s.submitted_unseal_keys ≡ 0
  pub size : (s.required_unseal_keys ≡ 0) ⊎ (s.required_unseal_keys ≡ n)

configure_idle :
    (n : ℕ) (s : Store)
    → 0 < n
    → IsIdle n s
    → (s' : Store) × (configure_unseal_key_count n s ≡ (ok tt, s'))
      × (s'.required_unseal_keys ≡ n)
      × (s'.vault_encryption_key ≡ none)
      × (s'.submitted_unseal_keys ≡ 0)
configure_idle n s pos idle = elim idle.size [
  | inl e ↦ (
    record s { required_unseal_keys = n; unseal_keys = replicate (suc n) none },
    (unfold configure_unseal_key_count in ground (arith, e, idle.sealed, idle.none_submitted)),
    refl,
    idle.sealed,
    idle.none_submitted,
  )
  | inr e ↦ (s, configured_lem n s pos e, e, idle.sealed, idle.none_submitted)
]

module _ (out : Outside) (works : Works out) where
  -- All credentials of a batch, in some order, on an idle store.
  batch_unseals :
      (batch : Batch) (order : List ℕ) (w : Vault)
      → Issues out 1 batch
      → w.slots ≡ batch_slots batch
      → 0 < length batch
      → IsIdle (length batch) w.secrets
      → length order ≡ length batch
      → distinct order ≡ true
      → within (length batch) order ≡ true
      → VaultKey
          (out.sha256 (joined (λ j. batch_key batch (j - 1)) 1 (length batch)))
          (submit_credentials out (batch_credentials batch) order w).secrets
  batch_unseals batch [] w issued stored pos idle count apart inside = absurd (omega arith)
  batch_unseals batch (id ∷ ids) w issued stored pos idle count apart inside =
      let (s, configured, size, sealed, fresh) = configure_idle (length batch) w.secrets pos idle in
      let valid : IsValid s =
        subst IsValid (ap (λ (r : Outcome Fault (Unit {0}) × Store). r.1) configured)
          (configure-IsValid (length batch) w.secrets idle.valid) in
      let table : ℕ → Bytes = λ j. batch_key batch (j - 1) in
      let opened =
        submit_all_opens out.sodium out.sha256 works.reliable
          (λ bytes. omega (arith, works.digest bytes)) table
          (λ j. batch_key-length out 1 batch issued (j - 1)) (id ∷ ids) s valid sealed fresh
          (omega arith) (count ∙ sym size) apart (ap (λ n. within n (id ∷ ids)) size ∙ inside) in
      subst
        (λ n.
          VaultKey (out.sha256 (joined table 1 n))
            (submit_credentials out (batch_credentials batch) (id ∷ ids) w).secrets)
        size
        (subst (VaultKey (out.sha256 (joined table 1 s.required_unseal_keys)))
          (sym (
            submit_credentials_lem out works batch id ids w s issued stored inside size configured))
          opened)

  -- Where everything outside works: Initialize for an allowed number `n` of keys, on an empty repository,
  -- issues `n` credentials, and submitting them once each, in any two orders on any two idle stores (a
  -- new one, or one for `n` keys with no attempt under way), leaves the same vault key in both.
  pub initialize_unseals :
      (max n : ℕ) (w : Vault) (order order' : List ℕ) (s s' : Store)
      → 0 < n
      → ((max ≡ 0) ⊎ (n ≤ max))
      → length w.slots ≡ 0
      → IsIdle n s
      → IsIdle n s'
      → IsOrder n order
      → IsOrder n order'
      → (credentials : List UnsealCredential) × (w' : Vault) × (key : Bytes) × (initialize out max n
            w
          ≡ (ok credentials, w'))
        × (length credentials ≡ n)
        × VaultKey key (submit_credentials out credentials order (with_secrets s w')).secrets
        × VaultKey key (submit_credentials out credentials order' (with_secrets s' w')).secrets
  initialize_unseals max n w order order' s s' pos fits empty idle idle' o o' =
      let (batch, m, ran, size, issued) = initialize_lem out works max n w pos fits empty in
      let w1 : Vault = record {
        slots = batch_slots batch;
        queries = w.queries + 1 + 1;
        secrets = with_memory m w.secrets;
      } in
      let key = out.sha256 (joined (λ j. batch_key batch (j - 1)) 1 (length batch)) in
      let unseals : (order : List ℕ) (s : Store)
          → IsIdle n s
          → IsOrder n order
          → VaultKey key
              (submit_credentials out (batch_credentials batch) order (with_secrets s w1)).secrets =
        λ order s idle o.
          batch_unseals batch order (with_secrets s w1) issued refl (omega arith)
            (subst (λ k. IsIdle k s) (sym size) idle) (o.complete ∙ sym size) o.apart
            (ap (λ k. within k order) size ∙ o.inside) in
      (
        batch_credentials batch,
        w1,
        key,
        ran,
        batch_credentials-length batch ∙ size,
        unseals order s idle o,
        unseals order' s' idle' o',
      )
