-- ===== src/SecretStore/Order.antt =====
-- N-of-N unsealing: what the vault key is, in whatever order the keys are submitted.
pub mod Step
pub mod AnyOrder
use sigryx.Base.{
  ℕ, zero, suc, Bool, true, false, not, ◌&&◌, ◌||◌, ltb, leb, ◌==◌, ◌+◌, ◌<◌, ◌≡◌, refl, ap, sym,
  ◌∙◌, Option, none, some, List, [], ◌∷◌, ◌++◌, arith, length, get_elem?, append_assoc, append-nil,
}
use sigryx.Base.Bytes.{Bytes}
use sigryx.Base.Outcome.{Outcome, ok, err, and_then}
use sigryx.Fault.{Fault}
use sigryx.SecureMem.{Sodium, Memory, Pointer, bytes_at, new, called}
use sigryx.SecureMem.Laws.{IsReliable, with_bytes-reliable, bytes_at_secrets}
use sigryx.SecretStore.{Store, Submission, key_in_slot, with_memory, hash_keys, submit_unseal_key}

-- What a submission of key bytes does: `securemem.New` on them, then SubmitUnsealKey.
unfoldable pub with_protected :
    (ℕ → Option Pointer → Store → Submission) → ℕ → Store → Outcome Fault Pointer × Memory → Store
with_protected submit slot s (ok p, m) = (submit slot (some p) (with_memory m s)).1
with_protected submit slot s (err e, m) = with_memory m s

-- The keys of the slots from `first` on, `n` of them, one after the other.
abbrev pub joined : (ℕ → Bytes) → ℕ → ℕ → Bytes
joined table first zero = []
joined table first (suc n) = table first ++ joined table (suc first) n

-- A slot that a list of slots names.
abbrev pub occurs : ℕ → List ℕ → Bool
occurs slot [] = false
occurs slot (j ∷ slots) = (j == slot) || occurs slot slots

-- No slot comes twice.
abbrev pub distinct : List ℕ → Bool
distinct [] = true
distinct (slot ∷ slots) = not (occurs slot slots) && distinct slots

-- Every slot is one of 1 to `n`.
abbrev pub within : ℕ → List ℕ → Bool
within n [] = true
within n (slot ∷ slots) = (ltb 0 slot && leb slot n) && within n slots

-- The keys that the store holds are those of the table.
abbrev pub Holds : (ℕ → Bytes) → Store → Type 0
Holds table s =
    (j : ℕ) (p : Pointer) → key_in_slot j s ≡ some p → bytes_at s.memory p ≡ some (table j)

later_key :
    (table : ℕ → Bytes) (first : ℕ) (o : Option Pointer) (ps : List (Option Pointer)) (m : Memory)
    (i : ℕ)
    → (p : Pointer) × (get_elem? (o ∷ ps) (suc i) ≡ some (some p))
      × (bytes_at m p ≡ some (table (first + suc i)))
    → (p : Pointer) × (get_elem? ps i ≡ some (some p))
      × (bytes_at (called 1 (called 1 m)) p ≡ some (table (suc first + i)))
later_key table first o ps m i (p, e, b) =
    let shift : first + suc i ≡ suc first + i = omega arith in
    (p, e, bytes_at_secrets (called 1 (called 1 m)) m p refl ∙ b ∙ ap (λ k. some (table k)) shift)

module _ (sodium : Sodium) (sha256 : Bytes → Bytes) where
  unfoldable pub submit_material : ℕ → Bytes → Store → Store
  unfolding with_protected
  submit_material slot key s =
      with_protected (submit_unseal_key sodium sha256) slot s (new sodium key s.memory)

  unfoldable pub submit_all : (ℕ → Bytes) → List ℕ → Store → Store
  submit_all table [] s = s
  submit_all table (slot ∷ slots) s = submit_all table slots (submit_material slot (table slot) s)

  module _ (reliable : IsReliable sodium) where
    pub hash_keys-reliable :
        (table : ℕ → Bytes) (first : ℕ) (ps : List (Option Pointer)) (written : Bytes) (m : Memory)
        → ((i : ℕ)
            → i < length ps
            → (p : Pointer) × (get_elem? ps i ≡ some (some p))
              × (bytes_at m p ≡ some (table (first + i))))
        → (m' : Memory) × (hash_keys sodium sha256 ps written m
            ≡ (ok (written ++ joined table first (length ps)), m'))
          × (m'.secrets ≡ m.secrets)
    unfolding hash_keys
    hash_keys-reliable table first [] written m h =
        (m, ap (λ w. (ok w, m)) (sym (append-nil written)), refl)
    hash_keys-reliable table first (none ∷ ps) written m h =
        let (p, e, b) = h 0 (omega arith) in absurd (cc e)
    hash_keys-reliable table first (some q ∷ ps) written m h =
        let (p, e, b) = h 0 (omega arith) in
        let same : q ≡ p = ground (arith, e) in
        let here : first + 0 ≡ first = omega arith in
        let read : bytes_at m q ≡ some (table first) =
          ap (bytes_at m) same ∙ b ∙ ap (λ k. some (table k)) here in
        let (m', r, k) =
          hash_keys-reliable table (suc first) ps (written ++ table first) (called 1 (called 1 m))
            (λ i lt. later_key table first (some q) ps m i (h (suc i) (omega arith))) in
        (
          m',
          ap (λ d. and_then d (hash_keys sodium sha256 ps))
                (with_bytes-reliable sodium reliable (λ bytes. written ++ bytes) q (table first) m
                  read)
              ∙ r
              ∙ ap (λ w. (ok w, m'))
                  (append_assoc written (table first) (joined table (suc first) (length ps))),
          k,
        )
