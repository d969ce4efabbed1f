-- ===== src/SecretStore/Order/AnyOrder.antt =====
-- The vault key behind a complete attempt.
use sigryx.Base.{
  ℕ, zero, suc, ◌+◌, ◌≤◌, ◌<◌, ◌≡◌, ◌≢◌, refl, ap, sym, subst, ◌∙◌, true, false, Option, none, some,
  List, [], ◌∷◌, arith, length, get_elem?, take, drop, length-set, get_elem?-set_ne, Bool-cases,
  inl, inr, ◌==◌, if◌then◌else◌,
}
use sigryx.Base.Bytes.{Bytes}
use sigryx.Base.Outcome.{ok, and_then}
use sigryx.SecureMem.{Sodium, Memory, Pointer, bytes_at, new}
use sigryx.SecureMem.Laws.{IsReliable, extended, bytes_at-extended_self, new-reliable, bytes_at-lt}
use sigryx.SecretStore.{
  Store, is_some, key_in_slot, place_key, derive_vault_encryption_key, finish_submit, hash_keys,
}
use sigryx.SecretStore.Slots.{taken, taken-set, uncons}
use sigryx.SecretStore.Invariant.{IsValid, free_place}
use sigryx.SecretStore.Threshold.{full_table}
use sigryx.SecretStore.Cleanup.{listed, bytes_at-destroy_secrets}
use sigryx.SecretStore.Order.{
  submit_material, submit_all, joined, Holds, hash_keys-reliable, occurs, distinct, within,
}
use sigryx.SecretStore.Order.Step.{
  filled, Passes, filled-other, filled-Holds, submit_material-more, submit_material-last,
  filled-IsValid,
}

take_all : {A : Type 0} (xs : List A) (n : ℕ) → n ≡ length xs → take n xs ≡ xs
take_all [] zero h = refl
take_all [] (suc n) h = refl
take_all (x ∷ xs) zero h = absurd (omega arith)
take_all (x ∷ xs) (suc n) h = ap (λ l. x ∷ l) (take_all xs n (omega arith))

listed_place :
    (ps : List (Option Pointer)) (q : Pointer)
    → listed q ps ≡ true
    → (i : ℕ) × (get_elem? ps i ≡ some (some q))
listed_place [] q h = cc
listed_place (none ∷ ps) q h = let (i, e) = listed_place ps q h in (suc i, e)
listed_place (some p ∷ ps) q h = elim (Bool-cases (p == q)) [
  | inl e ↦ (0, ground arith)
  | inr e ↦ let (i, k) = listed_place ps q (ground arith) in (suc i, k)
]

other :
    (j slot : ℕ) (slots : List ℕ)
    → distinct (slot ∷ slots) ≡ true
    → occurs j slots ≡ true
    → j ≢ slot
other j slot slots apart o e =
    let there : occurs slot slots ≡ true = ap (λ i. occurs i slots) (sym e) ∙ o in ground arith

none-taken :
    (keys : List (Option Pointer)) (j : ℕ) → taken keys ≡ 0 → place_key (get_elem? keys j) ≡ none
none-taken [] j h = refl
none-taken (none ∷ keys) zero h = refl
none-taken (none ∷ keys) (suc j) h = none-taken keys j h
none-taken (some p ∷ keys) j h = absurd (omega arith)

-- A pointer past the secrets is not one of the keys that a store holds.
fresh-listed :
    (table : ℕ → Bytes) (s : Store)
    → Holds table s
    → listed (length s.memory.secrets) s.unseal_keys ≡ false
fresh-listed table s h = elim (Bool-cases (listed (length s.memory.secrets) s.unseal_keys)) [
  | inl e ↦
      let (i, k) = listed_place s.unseal_keys (length s.memory.secrets) e in
      let b = h i (length s.memory.secrets) (ap place_key k) in
      absurd (omega (arith, bytes_at-lt s.memory (length s.memory.secrets) b))
  | inr e ↦ e
]

-- What a store keeps as its vault key.
abbrev pub VaultKey : Bytes → Store → Type 0
VaultKey key s =
    (p : Pointer) × (s.vault_encryption_key ≡ some p) × (bytes_at s.memory p ≡ some key)

module _ (sodium : Sodium) (sha256 : Bytes → Bytes) (reliable : IsReliable sodium)
    (digest : (bytes : Bytes) → 0 < length (sha256 bytes)) where
  -- The vault key that a full table of keys yields.
  record Derives (table : ℕ → Bytes) (n : ℕ) (s : Store) : Type 0 where
    after : Memory
    secrets : after.secrets ≡ s.memory.secrets
    derived :
        derive_vault_encryption_key sodium sha256 s
        ≡ (ok (length after.secrets), extended (sha256 (joined table 1 n)) after)

  full-Derives :
      (table : ℕ → Bytes) (s : Store)
      → length s.unseal_keys ≡ suc s.required_unseal_keys
      → get_elem? s.unseal_keys 0 ≡ some none
      → s.required_unseal_keys ≤ taken s.unseal_keys
      → Holds table s
      → Derives table s.required_unseal_keys s
  unfolding derive_vault_encryption_key
  full-Derives table s sized first full holds =
      let n = s.required_unseal_keys in
      let (ys, e, size) = uncons s.unseal_keys n sized first in
      let keys : take n (drop 1 s.unseal_keys) ≡ ys =
        ap (λ l. take n (drop 1 l)) e ∙ take_all ys n (sym size) in
      let places : (i : ℕ)
          → i < length ys
          → (p : Pointer) × (get_elem? ys i ≡ some (some p))
            × (bytes_at s.memory p ≡ some (table (1 + i))) =
        λ i lt.
          let (p, k) =
            full_table s.unseal_keys n (suc i) sized first full (omega arith) (omega arith) in
          let shift : suc i ≡ 1 + i = omega arith in
          (
            p,
            sym (ap (λ l. get_elem? l (suc i)) e) ∙ k,
            holds (suc i) p (ap place_key k) ∙ ap (λ j. some (table j)) shift,
          ) in
      let (m, r, k) = hash_keys-reliable sodium sha256 reliable table 1 ys [] s.memory places in
      record {
        after = m;
        secrets = k;
        derived =
            ap
              (λ l.
                and_then (hash_keys sodium sha256 l [] s.memory)
                  (λ written m'. new sodium (sha256 written) m'))
              keys
            ∙ ap (λ r'. and_then r' (λ written m'. new sodium (sha256 written) m')) r
            ∙ new-reliable sodium reliable (sha256 (joined table 1 (length ys))) m (digest _)
            ∙ ap (λ c. (ok (length m.secrets), extended (sha256 (joined table 1 c)) m)) size;
      }

  finish-VaultKey :
      (table : ℕ → Bytes) (s : Store) (n : ℕ)
      → Holds table s
      → Derives table n s
      → VaultKey
          (sha256 (joined table 1 n))
          (finish_submit sodium sha256 s (derive_vault_encryption_key sodium sha256 s)).1
  unfolding finish_submit
  finish-VaultKey table s n holds d =
      let key = sha256 (joined table 1 n) in
      let p : Pointer = length d.after.secrets in
      let fresh : listed p s.unseal_keys ≡ false =
        ap (λ l. listed (length l) s.unseal_keys) d.secrets ∙ fresh-listed table s holds in
      subst (λ r. VaultKey key (finish_submit sodium sha256 s r).1) (sym d.derived)
        (
          p,
          refl,
          bytes_at-destroy_secrets s.unseal_keys p (extended key d.after)
              ∙ ap (λ b. if b then none else bytes_at (extended key d.after) p) fresh
              ∙ bytes_at-extended_self key d.after,
        )

  last-VaultKey :
      (table : ℕ → Bytes) (slot : ℕ) (s : Store)
      → IsValid s
      → Holds table s
      → Passes slot (table slot) s
      → s.submitted_unseal_keys + 1 ≡ s.required_unseal_keys
      → VaultKey
          (sha256 (joined table 1 s.required_unseal_keys))
          (submit_material sodium sha256 slot (table slot) s)
  last-VaultKey table slot s v holds g last =
      let pos : 0 < s.required_unseal_keys = omega arith in
      let full = filled slot (table slot) s in
      let fresh = length s.memory.secrets in
      let free = free_place slot s v g.positive g.fits (ap is_some g.free) in
      let d : Derives table s.required_unseal_keys full =
        full-Derives table full (length-set s.unseal_keys slot (some fresh) ∙ v.sized pos)
          (get_elem?-set_ne s.unseal_keys slot 0 (some fresh)
              (λ e. absurd (omega (arith, g.positive)))
            ∙ v.first pos)
          (omega (arith, taken-set s.unseal_keys slot fresh free, v.counted))
          (filled-Holds table slot s v g holds) in
      subst (VaultKey (sha256 (joined table 1 s.required_unseal_keys)))
        (sym (submit_material-last sodium sha256 reliable slot (table slot) s g (omega arith)))
        (finish-VaultKey table full s.required_unseal_keys (filled-Holds table slot s v g holds) d)

  module _ (table : ℕ → Bytes) (sizes : (slot : ℕ) → length (table slot) ≡ 32) where
    passes :
        (slot : ℕ) (slots : List ℕ) (s : Store)
        → s.vault_encryption_key ≡ none
        → within s.required_unseal_keys (slot ∷ slots) ≡ true
        → ((j : ℕ) → occurs j (slot ∷ slots) ≡ true → key_in_slot j s ≡ none)
        → Passes slot (table slot) s
    passes slot slots s sealed inside free = record {
      key_size = sizes slot;
      positive = ground arith;
      fits = ground arith;
      sealed = sealed;
      free = free slot (ground arith);
    }

    rest_opens :
        (slot : ℕ) (slots : List ℕ) (s : Store)
        → IsValid s
        → Holds table s
        → s.vault_encryption_key ≡ none
        → s.submitted_unseal_keys + length (slot ∷ slots) ≡ s.required_unseal_keys
        → distinct (slot ∷ slots) ≡ true
        → within s.required_unseal_keys (slot ∷ slots) ≡ true
        → ((j : ℕ) → occurs j (slot ∷ slots) ≡ true → key_in_slot j s ≡ none)
        → VaultKey
            (sha256 (joined table 1 s.required_unseal_keys))
            (submit_all sodium sha256 table (slot ∷ slots) s)
    unfolding submit_all
    rest_opens slot [] s v holds sealed count apart inside free =
        last-VaultKey table slot s v holds (passes slot [] s sealed inside free) (omega arith)
    rest_opens slot (next ∷ slots) s v holds sealed count apart inside free =
        let g = passes slot (next ∷ slots) s sealed inside free in
        let more : s.submitted_unseal_keys + 1 < s.required_unseal_keys = omega arith in
        let full = filled slot (table slot) s in
        subst
          (λ t.
            VaultKey (sha256 (joined table 1 s.required_unseal_keys))
              (submit_all sodium sha256 table (next ∷ slots) t))
          (sym (submit_material-more sodium sha256 reliable slot (table slot) s g more))
          (rest_opens next slots full
            (filled-IsValid sodium sha256 reliable slot (table slot) s v g more)
            (filled-Holds table slot s v g holds) sealed (omega arith) (ground arith) (ground arith)
            (λ j o.
              filled-other table slot s v g j (other j slot (next ∷ slots) apart o)
              ∙ free j (ground arith)))

    -- With a libsodium that never fails and a hash that is never empty: if keys of 32 bytes are
    -- submitted to a valid sealed store in which no key stands, one for each of its required slots, in
    -- whatever order, then the store holds the hash of the keys in the order of their slots as vault
    -- key.
    pub submit_all_opens :
        (order : List ℕ) (s : Store)
        → IsValid s
        → s.vault_encryption_key ≡ none
        → s.submitted_unseal_keys ≡ 0
        → 0 < s.required_unseal_keys
        → length order ≡ s.required_unseal_keys
        → distinct order ≡ true
        → within s.required_unseal_keys order ≡ true
        → VaultKey
            (sha256 (joined table 1 s.required_unseal_keys))
            (submit_all sodium sha256 table order s)
    submit_all_opens [] s v sealed fresh pos count apart inside = absurd (omega arith)
    submit_all_opens (slot ∷ slots) s v sealed fresh pos count apart inside =
        let free : (j : ℕ) → key_in_slot j s ≡ none =
          λ j. none-taken s.unseal_keys j (v.counted ∙ fresh) in
        rest_opens slot slots s v (λ j p e. absurd (cc (sym (free j) ∙ e))) sealed (omega arith)
          apart inside (λ j o. free j)
