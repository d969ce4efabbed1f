-- ===== src/Seal/Consistent.antt =====
-- What Initialize does to the vault, whatever fails outside.
use sigryx.Base.{
  ℕ, zero, suc, ◌+◌, ◌≤◌, ◌<◌, ◌≡◌, refl, ap, sym, subst, ◌∙◌, false, not, List, [], ◌∷◌, arith,
  length, ◌⊎◌, ◌==◌, ltb, ◌&&◌, ◌||◌, if◌then◌else◌, Bool-cases, inl, inr,
}
use sigryx.Base.Bytes.{Bytes}
use sigryx.Base.Outcome.{Outcome, ok, err, and_then, ◌>>=◌}
use sigryx.Fault.{Fault}
use sigryx.SecureMem.{Memory, Pointer, random}
use sigryx.Cryptox.{key_size, random_key}
use sigryx.SecretStore.{with_memory}
use sigryx.SecretStore.Invariant.{IsValid, memory-IsValid}
use sigryx.Seal.{
  Outside, Vault, UnsealKeySlot, UnsealCredential, queried, with_secrets, initialize, count, issued,
  wrap_real_key, generate_unseal_key_slot, generate_slots, persist,
}

-- What holds behind a call: `Q` of its result and state, or `R` of the state beside an error.
abbrev pub Post {ℓ} :
    {A S : Type 0} → (A → S → Type ℓ) → (S → Type ℓ) → Outcome Fault A × S → Type ℓ
Post Q R (ok a, s) = Q a s
Post Q R (err e, s) = R s

Post-then :
    {A B S : Type 0} (Q : A → S → Type 0) (P : B → S → Type 0) (R : S → Type 0)
    (r : Outcome Fault A × S) (f : A → S → Outcome Fault B × S)
    → Post Q R r
    → ((a : A) (s : S) → Q a s → Post P R (f a s))
    → Post P R (and_then r f)
Post-then Q P R (ok a, s) f h k = k a s h
Post-then Q P R (err e, s) f h k = h

-- No claim on a result.
anything : {A S : Type 0} (r : Outcome Fault A × S) → Post (λ a s. Unit {0}) (λ s. Unit {0}) r
anything (ok a, s) = tt
anything (err e, s) = tt

-- Slots that are numbered from `first` on.
abbrev pub Numbered : ℕ → List UnsealKeySlot → Type 0
Numbered first [] = Unit {0}
Numbered first (slot ∷ slots) = (slot.id ≡ first) × Numbered (first + 1) slots

-- The store is valid, the slots are numbered from 1, and the store is not configured or asks for as
-- many keys as there are slots.
pub record IsConsistent (w : Vault) : Type 0 where
  pub valid : IsValid w.secrets
  pub numbered : Numbered 1 w.slots
  pub size :
      (w.secrets.required_unseal_keys ≡ 0) ⊎ (w.secrets.required_unseal_keys ≡ length w.slots)

no_slots : (slots : List UnsealKeySlot) → length slots ≡ 0 → slots ≡ []
no_slots [] h = refl
no_slots (slot ∷ slots) h = absurd (omega arith)

-- Without slots the store is not configured.
unconfigured :
    (w : Vault)
    → IsConsistent w
    → length w.slots ≡ 0
    → {n : ℕ} → (w.secrets.required_unseal_keys ≡ 0) ⊎ (w.secrets.required_unseal_keys ≡ n)
unconfigured w c h = elim c.size [ inl e ↦ inl e | inr e ↦ inl (e ∙ h) ]

abbrev pub Allowed : ℕ → ℕ → Type 0
Allowed max n = (0 < n) × ((max ≡ 0) ⊎ (n ≤ max))

allowed_max : (max n : ℕ) → ((n == 0) || (ltb 0 max && ltb max n)) ≡ false → (max ≡ 0) ⊎ (n ≤ max)
allowed_max zero n e = inl refl
allowed_max (suc k) n e = inr (ground arith)

Post-with :
    {A S P : Type 0} (Q : A → S → Type 0) (R : S → Type 0)
    → P
    → (r : Outcome Fault A × S) → Post Q R r
    → Post (λ a s. P × Q a s) R r
Post-with Q R p (ok a, s) h = (p, h)
Post-with Q R p (err e, s) h = h

module _ (out : Outside) where
  issued-id :
      (id : ℕ) (owner server : Bytes) (r : Outcome Fault Bytes) (m : Memory)
      → Post
          (λ (both : UnsealKeySlot × UnsealCredential) (m' : Memory). both.0.id ≡ id)
          (λ m'. Unit {0})
          (r >>= λ wrapped. ok (issued out id owner server wrapped), m)
  issued-id id owner server (ok wrapped) m = refl
  issued-id id owner server (err e) m = tt

  wrap-id :
      (id : ℕ) (owner server : Bytes) (real : Pointer) (m : Memory)
      → Post (λ both m'. both.0.id ≡ id) (λ m'. Unit {0}) (wrap_real_key out id owner server real m)
  unfolding wrap_real_key
  wrap-id id owner server real m = issued-id id owner server _ _

  generate-id :
      (id : ℕ) (m : Memory)
      → Post (λ both m'. both.0.id ≡ id) (λ m'. Unit {0}) (generate_unseal_key_slot out id m)
  unfolding generate_unseal_key_slot
  generate-id id m =
      Post-then (λ a s. Unit {0}) _ _ (random_key out.crypto m) _ (anything _)
        (λ owner m1 h.
          Post-then (λ a s. Unit {0}) _ _ (random_key out.crypto m1) _ (anything _)
            (λ server m2 h'.
              Post-then (λ a s. Unit {0}) _ _ (random out.sodium key_size m2) _ (anything _)
                (λ real m3 h''. wrap-id id owner server real m3)))

  generate-Numbered :
      (n first : ℕ) (m : Memory)
      → Post
          (λ both m'. Numbered first both.0 × (length both.0 ≡ n) × (length both.1 ≡ n))
          (λ m'. Unit {0})
          (generate_slots out n first m)
  unfolding generate_slots
  generate-Numbered zero first m = (tt, refl, refl)
  generate-Numbered (suc n) first m =
      Post-then (λ one m1. one.0.id ≡ first) _ _ (generate_unseal_key_slot out first m) _
        (generate-id first m)
        (λ one m1 h.
          Post-then
            (λ both m'. Numbered (first + 1) both.0 × (length both.0 ≡ n) × (length both.1 ≡ n)) _ _
            (generate_slots out n (first + 1) m1) _ (generate-Numbered n (first + 1) m1)
            (λ more m2 k. ((h, k.0), ap suc k.1, ap suc k.2)))

  pub memory-IsConsistent :
      (m : Memory) (w : Vault)
      → IsConsistent w
      → IsConsistent (with_secrets (with_memory m w.secrets) w)
  memory-IsConsistent m w c = record {
    valid = memory-IsValid m w.secrets c.valid;
    numbered = c.numbered;
    size = c.size;
  }

  pub queried-IsConsistent : (w : Vault) → IsConsistent w → IsConsistent (queried w)
  queried-IsConsistent w c = record { valid = c.valid; numbered = c.numbered; size = c.size }

  -- What Initialize promises of the vault `w` it starts on.
  abbrev pub Initialized : ℕ → Vault → List UnsealCredential → Vault → Type 0
  Initialized n w credentials w' =
      IsConsistent w' × (w.slots ≡ []) × (length w'.slots ≡ n) × (length credentials ≡ n)

  abbrev pub Unchanged : Vault → Vault → Type 0
  Unchanged w w' = IsConsistent w' × (w'.slots ≡ w.slots)

  persist-Post :
      (n : ℕ) (w : Vault) (r : Outcome Fault (List UnsealKeySlot × List UnsealCredential) × Memory)
      → IsConsistent w
      → 0 < n
      → Post
          (λ both m'. Numbered 1 both.0 × (length both.0 ≡ n) × (length both.1 ≡ n))
          (λ m'. Unit {0})
          r
      → Post (Initialized n w) (Unchanged w) (persist out w r)
  unfolding persist
  persist-Post n w (err e, m) c pos h = (memory-IsConsistent m w c, refl)
  persist-Post n w (ok ([], credentials), m) c pos (numbered, size, size') = absurd (omega arith)
  persist-Post n w (ok (slot ∷ slots, credentials), m) c pos (numbered, size, size') =
      let w1 = with_secrets (with_memory m w.secrets) w in
      let c1 = queried-IsConsistent w1 (memory-IsConsistent m w c) in
      elim (Bool-cases (not (out.database w.queries))) [
        | inl e ↦ rw e (c1, refl)
        | inr e ↦ elim (Bool-cases (not (length w.slots == 0))) [
          | inl f ↦ rw (e, f) (c1, refl)
          | inr f ↦
              let empty : length w.slots ≡ 0 = ground arith in
              rw (e, f)
                (
                  record {
                    valid = memory-IsValid m w.secrets c.valid;
                    numbered = numbered;
                    size = unconfigured w c empty;
                  },
                  no_slots w.slots empty,
                  size,
                  size',
                )
        ]
      ]

  pub count-Post :
      (w : Vault)
      → Post
          (λ found w'. (found ≡ length w.slots) × (w' ≡ queried w))
          (λ w'. w' ≡ queried w)
          (count out w)
  unfolding count
  count-Post w = elim (Bool-cases (out.database w.queries)) [
    | inl e ↦ rw e (refl, refl)
    | inr e ↦ rw e refl
  ]

  Post-initialize :
      (max n : ℕ) (w : Vault)
      → IsConsistent w
      → 0 < n
      → (r : Outcome Fault ℕ × Vault)
      → Post (λ found w'. (found ≡ length w.slots) × (w' ≡ queried w)) (λ w'. w' ≡ queried w) r
      → Post (Initialized n w) (Unchanged w) (
          and_then r (λ found w1.
            if not (found == 0)
            then (err Fault.already_initialized, w1)
            else persist out w1 (generate_slots out n 1 w1.secrets.memory)))
  Post-initialize max n w c pos (err e, w1) h =
      subst (Unchanged w) (sym h) (queried-IsConsistent w c, refl)
  Post-initialize max n w c pos (ok found, w1) (size, h) =
      subst
        (λ v. Post (Initialized n w) (Unchanged w) (
          if not (found == 0)
          then (err Fault.already_initialized, v)
          else persist out v (generate_slots out n 1 v.secrets.memory)))
        (sym h)
        (elim (Bool-cases (not (found == 0))) [
          | inl e ↦ rw e (queried-IsConsistent w c, refl)
          | inr e ↦ rw e (
              persist-Post n (queried w) (generate_slots out n 1 w.secrets.memory)
                (queried-IsConsistent w c) pos (generate-Numbered n 1 w.secrets.memory))
        ])

  -- Whatever fails outside: if Initialize returns credentials, then it was asked for at least one key
  -- and at most the allowed maximum, the repository was empty, and it holds as many slots as asked for
  -- and there are as many credentials; if it returns an error, then the slots are as they were. A
  -- consistent vault stays consistent in both cases.
  pub initialize-Post :
      (max n : ℕ) (w : Vault)
      → IsConsistent w
      → Post
          (λ credentials w'. Allowed max n × Initialized n w credentials w')
          (Unchanged w)
          (initialize out max n w)
  unfolding initialize
  initialize-Post max n w c = elim (Bool-cases ((n == 0) || (ltb 0 max && ltb max n))) [
    | inl e ↦ rw e (c, refl)
    | inr e ↦
        let allowed : Allowed max n = (ground arith, allowed_max max n e) in
        rw e (
          Post-with (Initialized n w) (Unchanged w) allowed _
            (Post-initialize max n w c allowed.0 (count out w) (count-Post w)))
  ]
