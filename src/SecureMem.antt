-- ===== src/SecureMem.antt =====
-- pkg/securemem/secret.go and the region functions of pkg/securemem/sodium_linux.go. A `*Secret` is
-- an index into the memory, so two holders of one pointer see one secret. libsodium is a parameter:
-- what each call answers, by the number of calls made before it. Each method runs under the mutex of
-- its secret, so it is one step.
pub mod Laws
use sigryx.Base.{
  ℕ, ◌+◌, Bool, true, false, not, Option, none, some, List, [], ◌∷◌, ◌++◌, ◌==◌, if◌then◌else◌,
  length, get_elem?, set,
}
use sigryx.Base.Bytes.{Bytes}
use sigryx.Base.Outcome.{Outcome, ok, err}
use sigryx.Fault.{
  Fault, empty_secret, invalid_size, destroyed, sodium_initialization, allocation, memory_lock,
  memory_protection,
}

-- What libsodium answers: `sodium_init` once, the others by the number of the call.
pub record Sodium : Type 0 where
  pub init : Bool
  pub malloc : ℕ → Bool
  pub mlock : ℕ → Bool
  pub noaccess : ℕ → Bool
  pub readonly : ℕ → Bool
  pub randombytes : ℕ → ℕ → Bytes

-- The struct `Secret`; the region of a destroyed secret is nil.
pub record Secret : Type 0 where
  pub region : Option Bytes
  pub is_destroyed : Bool

pub record Memory : Type 0 where
  pub secrets : List Secret
  pub calls : ℕ

abbrev pub Pointer : Type 0
Pointer = ℕ

-- The memory behind `n` more calls of libsodium.
abbrev pub called : ℕ → Memory → Memory
called n m = record m { calls = m.calls + n }

-- Destroy
unfoldable pub destroy : Pointer → Memory → Memory
destroy p m = record m { secrets = set m.secrets p (record { region = none; is_destroyed = true }) }

-- The bytes of a secret that is there and lives.
abbrev pub live_bytes : Option Secret → Option Bytes
live_bytes none = none
live_bytes (some s) = if s.is_destroyed then none else s.region

-- The bytes that a pointer gives access to.
unfoldable pub bytes_at : Memory → Pointer → Option Bytes
bytes_at m p = live_bytes (get_elem? m.secrets p)

-- Size
unfoldable pub size : Pointer → Memory → ℕ
unfolding bytes_at
size p m = elim (bytes_at m p) [ none ↦ 0 | some bytes ↦ length bytes ]

-- `&Secret{region: region}`, behind the call that made the region
unfoldable pub wrap : Outcome Fault Bytes × Memory → Outcome Fault Pointer × Memory
wrap (ok bytes, m) = (
  ok (length m.secrets),
  record m { secrets = m.secrets ++ (record { region = some bytes; is_destroyed = false } ∷ []) },
)
wrap (err e, m) = (err e, m)

module _ (sodium : Sodium) where
  -- The calls that newRegionFromBytes and newRandomRegion share: the region comes to hold `bytes`.
  unfoldable pub protect : Bytes → Memory → Outcome Fault Bytes × Memory
  protect bytes m =
      if not sodium.init
      then (err sodium_initialization, m)
      else if not (sodium.malloc m.calls)
      then (err allocation, called 1 m)
      else if not (sodium.mlock (m.calls + 1))
      then (err memory_lock, called 2 m)
      else if not (sodium.noaccess (m.calls + 2))
      then (err memory_protection, called 3 m)
      else (ok bytes, called 3 m)

  -- newRegionFromBytes
  unfoldable pub new_region_from_bytes : Bytes → Memory → Outcome Fault Bytes × Memory
  unfolding protect
  new_region_from_bytes bytes m =
      if length bytes == 0 then (err empty_secret, m) else protect bytes m

  -- New
  unfoldable pub new : Bytes → Memory → Outcome Fault Pointer × Memory
  unfolding new_region_from_bytes wrap
  new bytes m = wrap (new_region_from_bytes bytes m)

  -- newRandomRegion
  unfoldable pub new_random_region : ℕ → Memory → Outcome Fault Bytes × Memory
  unfolding protect
  new_random_region n m =
      if n == 0 then (err invalid_size, m) else protect (sodium.randombytes m.calls n) m

  -- Random
  unfoldable pub random : ℕ → Memory → Outcome Fault Pointer × Memory
  unfolding new_random_region wrap
  random n m = wrap (new_random_region n m)

  -- The deferred `sodium_mprotect_noaccess` of region.withBytes
  unfoldable pub close : {A : Type 0} → Outcome Fault A × Memory → Outcome Fault A × Memory
  close (ok a, m) = (if sodium.noaccess m.calls then ok a else err memory_protection, called 1 m)
  close (err e, m) = (err e, called 1 m)

  -- region.withBytes, where the secret lives
  unfoldable pub with_live :
      {A : Type 0}
      → Option Bytes
      → (Bytes → Memory → Outcome Fault A × Memory)
      → Memory
      → Outcome Fault A × Memory
  unfolding close
  with_live none fn m = (err destroyed, m)
  with_live (some bytes) fn m =
      if sodium.readonly m.calls
      then close (fn bytes (called 1 m))
      else (err memory_protection, called 1 m)

  -- WithBytes, where the callback is not nil. What it writes to captured variables is its result.
  unfoldable pub with_bytes :
      {A : Type 0}
      → Pointer
      → (Bytes → Memory → Outcome Fault A × Memory)
      → Memory
      → Outcome Fault A × Memory
  unfolding with_live bytes_at
  with_bytes p fn m = with_live (bytes_at m p) fn m
