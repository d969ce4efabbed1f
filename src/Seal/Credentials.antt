-- ===== src/Seal/Credentials.antt =====
-- The credentials that Initialize issues, where everything outside works.
use sigryx.Base.{
  ℕ, zero, suc, ◌+◌, ◌≤◌, ◌<◌, ◌≡◌, refl, ap, sym, subst, ◌∙◌, true, some, List, [], ◌∷◌, ◌++◌,
  arith, length, get_elem?, replicate, ◌⊎◌,
}
use sigryx.Base.Bytes.{Bytes}
use sigryx.Base.Outcome.{Outcome, ok, and_then, ◌>>=◌}
use sigryx.Fault.{Fault}
use sigryx.SecureMem.{
  Memory, Pointer, random, destroy, with_bytes, with_live, bytes_at, called, close,
}
use sigryx.SecureMem.Laws.{IsReliable, extended, bytes_at-extended_self}
use sigryx.Cryptox.{key_size, random_key, seal_payload, open_payload}
use sigryx.Cryptox.Payload.{IsSound, random_bytes_lem, open_payload-seal_payload}
use sigryx.SecretStore.{with_memory}
use sigryx.Seal.{
  Outside, Vault, UnsealKeySlot, UnsealCredential, issued, derive_unseal_wrapping_key, unseal_aad,
  wrap_real_key, generate_unseal_key_slot, generate_slots, persist, initialize, count, queried,
  find_slot,
}

-- Everything outside works and keeps what it documents.
pub record Works (out : Outside) : Type 0 where
  pub reliable : IsReliable out.sodium
  pub randoms : (call size : ℕ) → length (out.sodium.randombytes call size) ≡ size
  pub crypto : IsSound out.crypto
  pub digest : (bytes : Bytes) → length (out.sha256 bytes) ≡ 32
  pub queries : (n : ℕ) → out.database n ≡ true

-- A slot, the credential issued for it and the key that they wrap.
pub record Wraps (out : Outside) (id : ℕ) (slot : UnsealKeySlot) (c : UnsealCredential)
    (key : Bytes) : Type 0 where
  pub slot_id : slot.id ≡ id
  pub same : slot.wrapped_key ≡ c.wrapped_key
  pub owner_size : length c.owner_secret ≡ 32
  pub server_size : length slot.server_key_material ≡ 32
  pub wrapped_size : 0 < length slot.wrapped_key
  pub key_sized : length key ≡ 32
  pub opens :
      open_payload out.crypto
        (derive_unseal_wrapping_key out c.owner_secret slot.server_key_material)
        slot.wrapped_key
        (unseal_aad out.decimal id)
      ≡ ok key

module _ (out : Outside) (works : Works out) where
  random_lem :
      (n : ℕ) (m : Memory)
      → 0 < n
      → (bytes : Bytes) × (random out.sodium n m ≡ (ok (length m.secrets), extended bytes m))
        × (length bytes ≡ n)
  unfolding random
  random_lem n m h = (
    out.sodium.randombytes m.calls n,
    ground (
      arith,
      works.reliable.init,
      works.reliable.malloc m.calls,
      works.reliable.mlock (m.calls + 1),
      works.reliable.noaccess (m.calls + 2),
    ),
    works.randoms m.calls n,
  )

  -- Reading a secret that lives, with a callback that succeeds
  with_bytes_ok :
      {A : Type 0} (p : Pointer) (fn : Bytes → Memory → Outcome Fault A × Memory) (bytes : Bytes)
      (a : A) (m m' : Memory)
      → bytes_at m p ≡ some bytes
      → fn bytes (called 1 m) ≡ (ok a, m')
      → with_bytes out.sodium p fn m ≡ (ok a, called 1 m')
  unfolding with_bytes close
  with_bytes_ok p fn bytes a m m' there runs =
      ap (λ o. with_live out.sodium o fn m) there
      ∙ ground (arith, works.reliable.readonly m.calls, runs, works.reliable.noaccess m'.calls)

  wrap_real_key_lem :
      (id : ℕ) (owner server key : Bytes) (real : Pointer) (m : Memory)
      → length owner ≡ 32
      → length server ≡ 32
      → length key ≡ 32
      → bytes_at m real ≡ some key
      → (slot : UnsealKeySlot) × (c : UnsealCredential) × (m' : Memory) × (wrap_real_key out id
            owner server real m
          ≡ (ok (slot, c), m'))
        × Wraps out id slot c key
  unfolding wrap_real_key
  wrap_real_key_lem id owner server key real m osize ssize ksize there =
      let wrapping = derive_unseal_wrapping_key out owner server in
      let wsize : length wrapping ≡ 32 =
        (unfold derive_unseal_wrapping_key in works.digest (owner ++ server)) in
      let aad = unseal_aad out.decimal id in
      let (payload, sealed, size, opened) =
        open_payload-seal_payload out.crypto works.crypto wrapping key aad (called 1 m) wsize in
      let fn : Bytes → Memory → Outcome Fault Bytes × Memory =
        λ real_key m'. seal_payload out.crypto wrapping real_key aad m' in
      let ran = with_bytes_ok real fn key payload m (called 1 (called 1 m)) there sealed in
      let both = issued out id owner server payload in
      (
        both.0,
        both.1,
        destroy real (called 1 (called 1 (called 1 m))),
        ap
            (λ (r : Outcome Fault Bytes × Memory).
              (r.0 >>= λ wrapped. ok (issued out id owner server wrapped), destroy real r.1))
            ran,
        record {
          slot_id = refl;
          same = refl;
          owner_size = osize;
          server_size = ssize;
          wrapped_size = omega (arith, size);
          key_sized = ksize;
          opens = opened;
        },
      )

  -- What one round of Initialize issues.
  record Round (id : ℕ) (m : Memory) : Type 0 where
    slot : UnsealKeySlot
    credential : UnsealCredential
    key : Bytes
    after : Memory
    runs : generate_unseal_key_slot out id m ≡ (ok (slot, credential), after)
    wraps : Wraps out id slot credential key

  generate_unseal_key_slot_lem : (id : ℕ) (m : Memory) → Round id m
  unfolding generate_unseal_key_slot random_key
  generate_unseal_key_slot_lem id m =
      let (owner, e1, osize) = random_bytes_lem out.crypto works.crypto key_size m in
      let (server, e2, ssize) = random_bytes_lem out.crypto works.crypto key_size (called 1 m) in
      let m2 = called 1 (called 1 m) in
      let (key, e3, ksize) = random_lem key_size m2 (omega arith) in
      let (slot, c, m', e4, w) =
        wrap_real_key_lem id owner server key (length m2.secrets) (extended key m2) osize ssize
          ksize (bytes_at-extended_self key m2) in
      record {
        slot = slot;
        credential = c;
        key = key;
        after = m';
        runs =
            ap
              (λ r. and_then r (λ owner_secret m1.
                and_then (random_key out.crypto m1) (λ server_key_material m2.
                  and_then (random out.sodium key_size m2)
                    (wrap_real_key out id owner_secret server_key_material))))
              e1
            ∙ ap
                (λ r. and_then r (λ server_key_material m2.
                  and_then (random out.sodium key_size m2)
                    (wrap_real_key out id owner server_key_material)))
                e2
            ∙ ap (λ r. and_then r (wrap_real_key out id owner server)) e3
            ∙ e4;
        wraps = w;
      }

-- What the rounds of Initialize issue, with the keys that are wrapped.
abbrev pub Batch : Type 0
Batch = List (UnsealKeySlot × UnsealCredential × Bytes)

abbrev pub batch_slots : Batch → List UnsealKeySlot
batch_slots [] = []
batch_slots ((slot, c, key) ∷ batch) = slot ∷ batch_slots batch

abbrev pub batch_credentials : Batch → List UnsealCredential
batch_credentials [] = []
batch_credentials ((slot, c, key) ∷ batch) = c ∷ batch_credentials batch

-- The key of a slot, where the slots are numbered from `first`.
abbrev pub batch_key : Batch → ℕ → Bytes
batch_key [] i = replicate 32 0
batch_key ((slot, c, key) ∷ batch) zero = key
batch_key ((slot, c, key) ∷ batch) (suc i) = batch_key batch i

abbrev pub Issues : Outside → ℕ → Batch → Type 0
Issues out first [] = Unit {0}
Issues out first ((slot, c, key) ∷ batch) =
    Wraps out first slot c key × Issues out (first + 1) batch

pub batch_slots-length : (batch : Batch) → length (batch_slots batch) ≡ length batch
batch_slots-length [] = refl
batch_slots-length ((slot, c, key) ∷ batch) = ap suc (batch_slots-length batch)

pub batch_credentials-length : (batch : Batch) → length (batch_credentials batch) ≡ length batch
batch_credentials-length [] = refl
batch_credentials-length ((slot, c, key) ∷ batch) = ap suc (batch_credentials-length batch)

pub batch_key-length :
    (out : Outside) (first : ℕ) (batch : Batch)
    → Issues out first batch
    → (i : ℕ) → length (batch_key batch i) ≡ 32
batch_key-length out first [] issued i = refl
batch_key-length out first ((slot, c, key) ∷ batch) (w, issued) zero = w.key_sized
batch_key-length out first ((slot, c, key) ∷ batch) (w, issued) (suc i) =
    batch_key-length out (first + 1) batch issued i

-- Each credential of a batch finds the slot of its number, which wraps its key.
pub find_slot-Issues :
    (out : Outside) (first : ℕ) (batch : Batch)
    → Issues out first batch
    → (i : ℕ) → i < length batch
    → (slot : UnsealKeySlot) × (c : UnsealCredential) × (find_slot (first + i) (batch_slots batch)
        ≡ some slot)
      × (get_elem? (batch_credentials batch) i ≡ some c)
      × Wraps out (first + i) slot c (batch_key batch i)
unfolding find_slot
find_slot-Issues out first [] issued i h = elim h [ ]
find_slot-Issues out first ((slot, c, key) ∷ batch) (w, issued) zero h =
    let here : first ≡ first + 0 = omega arith in
    (slot, c, ground (arith, w.slot_id), refl, subst (λ j. Wraps out j slot c key) here w)
find_slot-Issues out first ((slot, c, key) ∷ batch) (w, issued) (suc i) h =
    let (slot', c', e, k, w') = find_slot-Issues out (first + 1) batch issued i (omega arith) in
    let shift : (first + 1) + i ≡ first + suc i = omega arith in
    let later : find_slot (first + suc i) (batch_slots batch) ≡ some slot' =
      ap (λ j. find_slot j (batch_slots batch)) (sym shift) ∙ e in
    (
      slot',
      c',
      ground (arith, w.slot_id, later),
      k,
      subst (λ j. Wraps out j slot' c' (batch_key batch i)) shift w',
    )

module _ (out : Outside) (works : Works out) where
  pub generate_slots_lem :
      (n first : ℕ) (m : Memory)
      → (batch : Batch) × (m' : Memory) × (generate_slots out n first m
          ≡ (ok (batch_slots batch, batch_credentials batch), m'))
        × (length batch ≡ n)
        × Issues out first batch
  unfolding generate_slots
  generate_slots_lem zero first m = ([], m, refl, refl, tt)
  generate_slots_lem (suc n) first m =
      let one = generate_unseal_key_slot_lem out works first m in
      let (batch, m', e, size, issued) = generate_slots_lem n (first + 1) one.after in
      (
        (one.slot, one.credential, one.key) ∷ batch,
        m',
        ap
              (λ r. and_then r (λ one m1.
                and_then (generate_slots out n (first + 1) m1)
                  (λ more m2. (ok (one.0 ∷ more.0, one.1 ∷ more.1), m2))))
              one.runs
            ∙ ap
                (λ r. and_then r (λ more m2. (ok (one.slot ∷ more.0, one.credential ∷ more.1), m2)))
                e,
        ap suc size,
        (one.wraps, issued),
      )

  pub count_lem : (w : Vault) → count out w ≡ (ok (length w.slots), queried w)
  unfolding count
  count_lem w = ground (arith, works.queries w.queries)

  persist_lem :
      (batch : Batch) (w : Vault) (m : Memory)
      → 0 < length batch
      → length w.slots ≡ 0
      → persist out w (ok (batch_slots batch, batch_credentials batch), m) ≡ (
        ok (batch_credentials batch),
        record {
          slots = batch_slots batch;
          queries = w.queries + 1;
          secrets = with_memory m w.secrets;
        },
      )
  unfolding persist
  persist_lem [] w m pos empty = absurd (omega arith)
  persist_lem ((slot, c, key) ∷ batch) w m pos empty = ground (arith, works.queries w.queries)

  -- Initialize on an empty repository.
  pub initialize_lem :
      (max n : ℕ) (w : Vault)
      → 0 < n
      → ((max ≡ 0) ⊎ (n ≤ max))
      → length w.slots ≡ 0
      → (batch : Batch) × (m : Memory) × (initialize out max n w ≡ (
        ok (batch_credentials batch),
        record {
          slots = batch_slots batch;
          queries = w.queries + 1 + 1;
          secrets = with_memory m w.secrets;
        },
      ))
        × (length batch ≡ n)
        × Issues out 1 batch
  unfolding initialize
  initialize_lem max n w pos fits empty =
      let (batch, m, e, size, issued) = generate_slots_lem n 1 w.secrets.memory in
      let w1 = queried w in
      let counted : count out w ≡ (ok (length w.slots), w1) = count_lem w in
      let stored = persist_lem batch w1 m (omega arith) empty in
      (batch, m, ground (arith, fits, counted, e, stored), size, issued)
