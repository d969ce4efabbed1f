-- ===== src/SecureMem/Laws.antt =====
-- What the methods of a secret do to it and to the other secrets of the memory.
use sigryx.Base.{
  ℕ, ◌+◌, ◌<◌, ◌≡◌, refl, sym, ap, ◌∙◌, true, false, none, some, [], ◌∷◌, ◌++◌, arith, ◌==◌,
  if◌then◌else◌, length, get_elem?, set, length-set, get_elem?-set_self, get_elem?-set_ne,
  get_elem?-append_left, get_elem?-append_here, get_elem?-beyond,
}
use sigryx.Base.Bytes.{Bytes}
use sigryx.Base.Outcome.{ok}
use sigryx.SecureMem.{
  Sodium, Secret, Memory, Pointer, called, destroy, bytes_at, new, with_bytes, with_live,
  live_bytes, close,
}
use native.Mathlib.Decide.{dec_lt, ℕ_discrete}

abbrev gone : Secret
gone = record { region = none; is_destroyed = true }

-- Destroying a secret takes its bytes away and leaves those of every other.
pub bytes_at-destroy :
    (p q : Pointer) (m : Memory)
    → bytes_at (destroy p m) q ≡ (if p == q then none else bytes_at m q)
unfolding bytes_at destroy
bytes_at-destroy p q m = elim (ℕ_discrete p q) [
  | yes e ↦ elim (dec_lt p (length m.secrets)) [
    | yes h ↦
        ap live_bytes (ap (get_elem? _) (sym e) ∙ get_elem?-set_self m.secrets p gone h)
        ∙ ground arith
    | no h ↦
        ap live_bytes
          (get_elem?-beyond (set m.secrets p gone) q (omega (arith, length-set m.secrets p gone)))
        ∙ ground arith
  ]
  | no n ↦ ap live_bytes (get_elem?-set_ne m.secrets p q gone n) ∙ ground arith
]

-- The answers of a libsodium that never fails.
pub record IsReliable (sodium : Sodium) : Type 0 where
  pub init : sodium.init ≡ true
  pub malloc : (n : ℕ) → sodium.malloc n ≡ true
  pub mlock : (n : ℕ) → sodium.mlock n ≡ true
  pub noaccess : (n : ℕ) → sodium.noaccess n ≡ true
  pub readonly : (n : ℕ) → sodium.readonly n ≡ true

-- The memory that `new` leaves where it succeeds.
abbrev pub extended : Bytes → Memory → Memory
extended bytes m = record {
  secrets = m.secrets ++ (record { region = some bytes; is_destroyed = false } ∷ []);
  calls = m.calls + 3;
}

pub bytes_at-extended_self :
    (bytes : Bytes) (m : Memory) → bytes_at (extended bytes m) (length m.secrets) ≡ some bytes
unfolding bytes_at
bytes_at-extended_self bytes m = ap live_bytes (
    get_elem?-append_here m.secrets [] (record { region = some bytes; is_destroyed = false })
      (length m.secrets) refl)

pub bytes_at-extended :
    (bytes : Bytes) (m : Memory) (q : Pointer)
    → q < length m.secrets
    → bytes_at (extended bytes m) q ≡ bytes_at m q
unfolding bytes_at
bytes_at-extended bytes m q h = ap live_bytes (
    get_elem?-append_left m.secrets (record { region = some bytes; is_destroyed = false } ∷ []) q h)

module _ (sodium : Sodium) (reliable : IsReliable sodium) where
  pub new-reliable :
      (bytes : Bytes) (m : Memory)
      → 0 < length bytes
      → new sodium bytes m ≡ (ok (length m.secrets), extended bytes m)
  unfolding new
  new-reliable bytes m h = ground (
    arith,
    reliable.init,
    reliable.malloc m.calls,
    reliable.mlock (m.calls + 1),
    reliable.noaccess (m.calls + 2),
  )

  pub with_bytes-reliable :
      {A : Type 0} (f : Bytes → A) (p : Pointer) (bytes : Bytes) (m : Memory)
      → bytes_at m p ≡ some bytes
      → with_bytes sodium p (λ b m'. (ok (f b), m')) m ≡ (ok (f bytes), called 1 (called 1 m))
  unfolding with_bytes close
  with_bytes-reliable f p bytes m h =
      ap (λ o. with_live sodium o (λ b m'. (ok (f b), m')) m) h
      ∙ ground (arith, reliable.readonly m.calls, reliable.noaccess (m.calls + 1))

pub bytes_at_secrets :
    (m m' : Memory) (p : Pointer) → m.secrets ≡ m'.secrets → bytes_at m p ≡ bytes_at m' p
unfolding bytes_at
bytes_at_secrets m m' p e = ap (λ l. live_bytes (get_elem? l p)) e

pub bytes_at-lt :
    (m : Memory) (p : Pointer) {b : Bytes} → bytes_at m p ≡ some b → p < length m.secrets
unfolding bytes_at
bytes_at-lt m p e = elim (dec_lt p (length m.secrets)) [
  | yes h ↦ h
  | no h ↦ absurd (cc (ap live_bytes (get_elem?-beyond m.secrets p (omega arith))))
]
