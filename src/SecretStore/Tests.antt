-- ===== src/SecretStore/Tests.antt =====
-- The secret store on a vault of two keys, with a libsodium that never fails and a hash that returns
-- the first byte of its input 32 times.
use sigryx.Base.{
  ℕ, ◌≡◌, refl, true, false, none, some, List, [], ◌∷◌, ◌⊎◌, arith, replicate, if◌then◌else◌,
}
use sigryx.Base.Bytes.{Bytes}
use sigryx.Fault
use sigryx.SecureMem.{Sodium, Memory, Pointer, bytes_at, size, new, with_bytes, destroy}
use sigryx.SecretStore.{
  Store, new_store, configure_unseal_key_count, destroy_secrets, is_unsealed, progress,
  submit_unseal_key, key_in_slot, clear, find_seed,
}
use sigryx.SecretStore.Invariant.{IsValid}
use sigryx.SecretStore.Calls.{Call, configure, submit, new_secret, run_all, run_all-IsValid}
use sigryx.SecureMem.Laws.{IsReliable}
use sigryx.SecretStore.Order.{joined, submit_all}
use sigryx.SecretStore.Order.AnyOrder.{VaultKey, submit_all_opens}
use sigryx.SecretStore.Threshold.{submit_opens}
use sigryx.SecretStore.Cleanup.{owned, clear_lem, submit_consumes}

abbrev pub sodium : Sodium
sodium = record {
  init = true;
  malloc = λ n. true;
  mlock = λ n. true;
  noaccess = λ n. true;
  readonly = λ n. true;
  randombytes = λ call n. replicate n call;
}

abbrev first_byte : Bytes → ℕ
first_byte [] = 0
first_byte (b ∷ bs) = b

abbrev pub hash : Bytes → Bytes
hash bs = replicate 32 (first_byte bs)

abbrev pub no_memory : Memory
no_memory = record { secrets = []; calls = 0 }

abbrev key : ℕ → Bytes
key b = replicate 32 b

-- A vault of two keys, where slot 2 has its key and a key for slot 1 is at hand.
abbrev half_open_calls : List Call
half_open_calls = configure 2 ∷ new_secret (key 7) ∷ submit 2 (some 0) ∷ new_secret (key 9) ∷ []

abbrev half_open : Store
unfolding run_all
half_open = run_all sodium hash half_open_calls (new_store no_memory)

abbrev opened : Store
opened = (submit_unseal_key sodium hash 1 (some 1) half_open).1

half_open-IsValid : IsValid half_open
unfolding half_open
half_open-IsValid = run_all-IsValid sodium hash half_open_calls no_memory

progress-half_open : progress half_open ≡ record { submitted = 1; required = 2; unsealed = false }
unfolding progress size new configure_unseal_key_count new_store submit_unseal_key run_all half_open
progress-half_open = refl

progress-opened : progress opened ≡ record { submitted = 2; required = 2; unsealed = true }
unfolding progress size new configure_unseal_key_count new_store submit_unseal_key run_all half_open
    with_bytes
progress-opened = refl

opened_key : bytes_at opened.memory 2 ≡ some (key 9)
unfolding bytes_at size new configure_unseal_key_count new_store submit_unseal_key run_all half_open
    with_bytes destroy_secrets destroy
opened_key = refl

refused_twice :
    (submit_unseal_key sodium hash 2 (some 1) half_open).0.1 ≡ some Fault.duplicate_unseal_slot
unfolding size new configure_unseal_key_count new_store submit_unseal_key run_all half_open destroy
refused_twice = refl

run_all-IsValid_example : IsValid (run_all sodium hash half_open_calls (new_store no_memory))
run_all-IsValid_example = run_all-IsValid sodium hash half_open_calls no_memory

half_open_sealed : is_unsealed half_open ≡ false
unfolding is_unsealed size new configure_unseal_key_count new_store submit_unseal_key run_all
    half_open
half_open_sealed = refl

opened_unsealed : is_unsealed opened ≡ true
unfolding is_unsealed size new configure_unseal_key_count new_store submit_unseal_key run_all
    half_open with_bytes
opened_unsealed = refl

half_open_required : half_open.required_unseal_keys ≡ 2
unfolding size new configure_unseal_key_count new_store submit_unseal_key run_all half_open
half_open_required = refl

submit_opens_example : (p : Pointer) × (key_in_slot 2 half_open ≡ some p)
submit_opens_example =
    submit_opens sodium hash 1 (some 1) half_open half_open-IsValid half_open_sealed opened_unsealed
      2 (omega arith) (omega (arith, half_open_required)) (λ e. absurd (omega arith))

submit_consumes_example :
    (bytes_at (submit_unseal_key sodium hash 1 (some 1) half_open).1.memory 1 ≡ none)
    ⊎ ((key_in_slot 1 (submit_unseal_key sodium hash 1 (some 1) half_open).1 ≡ some 1)
        × ((submit_unseal_key sodium hash 1 (some 1) half_open).0.1 ≡ none))
submit_consumes_example = submit_consumes sodium hash 1 1 half_open half_open-IsValid

clear_lem_example :
    (is_unsealed (clear opened) ≡ false)
    × (progress (clear opened)
        ≡ record { submitted = 0; required = opened.required_unseal_keys; unsealed = false })
    × ((id : Bytes) → find_seed id (clear opened).key_root_seeds ≡ none)
    × ((q : Pointer)
        → bytes_at (clear opened).memory q
          ≡ (if owned q opened then none else bytes_at opened.memory q))
clear_lem_example = clear_lem opened

pub sodium-IsReliable : IsReliable sodium
sodium-IsReliable = record {
  init = refl;
  malloc = λ n. refl;
  mlock = λ n. refl;
  noaccess = λ n. refl;
  readonly = λ n. refl;
}

abbrev two_slots : Store
two_slots = (configure_unseal_key_count 2 (new_store no_memory)).1

two_slots-IsValid : IsValid two_slots
unfolding run_all
two_slots-IsValid = run_all-IsValid sodium hash (configure 2 ∷ []) no_memory

submit_all_opens_example :
    VaultKey (hash (joined key 1 2)) (submit_all sodium hash key (2 ∷ 1 ∷ []) two_slots)
unfolding configure_unseal_key_count new_store
submit_all_opens_example =
    submit_all_opens sodium hash sodium-IsReliable (λ bytes. omega arith) key (λ slot. refl)
      (2 ∷ 1 ∷ []) two_slots two_slots-IsValid refl refl (omega arith) refl refl refl
