-- ===== src/Cryptox/Tests.antt =====
-- Sealed payloads of a cipher that puts a checksum of the key and the data in front of the text.
use sigryx.Base.{
  ℕ, ◌+◌, ◌%◌, ◌≤◌, ◌≡◌, refl, ◌∙◌, true, none, some, [], ◌∷◌, ◌++◌, arith, eqb, eqb_refl,
  if◌then◌else◌, length, take, drop, replicate, take-append, drop-append, length-append,
  length-replicate,
}
use sigryx.Base.Bytes.{Bytes}
use sigryx.Base.Outcome.{ok, err}
use sigryx.Fault
use sigryx.SecureMem.{Memory, called}
use sigryx.Cryptox.{Crypto, seal_payload, open_payload}
use sigryx.Cryptox.Payload.{IsSound, open_payload-seal_payload, open_ok}

abbrev sum : Bytes → ℕ
sum [] = 0
sum (b ∷ bs) = b + sum bs

abbrev checksum : Bytes → Bytes → Bytes
checksum key aad = replicate 16 ((sum key + sum aad) % 256)

abbrev pub toy : Crypto
toy = record {
  read = λ n size. some (replicate size (n % 256));
  accepts = λ key. true;
  nonce_size = 12;
  overhead = 16;
  gcm_seal = λ key nonce text aad. checksum key aad ++ text;
  gcm_open = λ key nonce text aad.
      if eqb (take 16 text) (checksum key aad) then some (drop 16 text) else none;
}

pub toy-IsSound : IsSound toy
toy-IsSound = record {
  reads = λ n size. (replicate size (n % 256), refl, length-replicate size (n % 256));
  accepts = λ key size. refl;
  sized = λ key nonce text aad. length-append (checksum key aad) text ∙ omega arith;
  opens = λ key nonce text aad fits.
      let front : take 16 (checksum key aad ++ text) ≡ checksum key aad =
        take-append 16 (checksum key aad) text refl in
      let back : drop 16 (checksum key aad ++ text) ≡ text =
        drop-append 16 (checksum key aad) text refl in
      ground (arith, front, back, eqb_refl (checksum key aad));
}

abbrev no_secrets : Memory
no_secrets = record { secrets = []; calls = 3 }

abbrev payload : Bytes
payload = 1 ∷ (replicate 12 3 ++ (replicate 16 41 ++ (5 ∷ 6 ∷ [])))

open_sample : open_payload toy (replicate 32 1) payload (4 ∷ 5 ∷ []) ≡ ok (5 ∷ 6 ∷ [])
unfolding open_payload
open_sample = refl

open_other_data : open_payload toy (replicate 32 1) payload (4 ∷ []) ≡ err Fault.open_failed
unfolding open_payload
open_other_data = refl

open_payload-seal_payload_example :
    (sealed : Bytes) × (seal_payload toy (replicate 32 1) (5 ∷ 6 ∷ []) (4 ∷ 5 ∷ []) no_secrets
      ≡ (ok sealed, called 1 no_secrets))
    × (length sealed ≡ 1 + 12 + 2 + 16)
    × (open_payload toy (replicate 32 1) sealed (4 ∷ 5 ∷ []) ≡ ok (5 ∷ 6 ∷ []))
open_payload-seal_payload_example =
    open_payload-seal_payload toy toy-IsSound (replicate 32 1) (5 ∷ 6 ∷ []) (4 ∷ 5 ∷ []) no_secrets
      refl

open_ok_example :
    (length {A = ℕ} (replicate 32 1) ≡ 32)
    × ((nonce : Bytes) × (text : Bytes) × (payload ≡ 1 ∷ (nonce ++ text))
        × (length nonce ≡ 12)
        × (16 ≤ length text)
        × ((if eqb (take 16 text) (checksum (replicate 32 1) (4 ∷ 5 ∷ []))
              then some (drop 16 text)
              else none)
            ≡ some (5 ∷ 6 ∷ [])))
open_ok_example = open_ok toy (replicate 32 1) payload (4 ∷ 5 ∷ []) (5 ∷ 6 ∷ []) open_sample
