-- ===== src/Derivation/Tests.antt =====
-- Paths with a decimal printer and reader.
use sigryx.Base.{
  ℕ, zero, suc, ◌+◌, ◌-◌, ◌*◌, ◌/◌, ◌%◌, ◌^◌, ◌<◌, ◌≤◌, ◌≡◌, refl, ap, ◌∙◌, Bool, true, false,
  Option, none, some, List, [], ◌∷◌, ◌&&◌, ltb, leb, arith, All, if◌then◌else◌, Bool-cases, inl,
  inr,
}
use sigryx.Base.Text.{codes}
use sigryx.Derivation.{Text, Segment, indexes_fit, new_path, parse_path, print_path}
use sigryx.Derivation.RoundTrip.{IsDigit, IsDecimal, parse_path-print_path, parse_path_ok}

print_loop : ℕ → ℕ → Text → Text
print_loop zero n acc = (0x30 + n % 10) ∷ acc
print_loop (suc fuel) n acc =
    let more = print_loop fuel (n / 10) ((0x30 + n % 10) ∷ acc) in
    if ltb n 10 then (0x30 + n) ∷ acc else more

value : ℕ → Text → ℕ
value acc [] = acc
value acc (c ∷ text) = value (acc * 10 + (c - 0x30)) text

abbrev all_digits : Text → Bool
all_digits [] = true
all_digits (c ∷ text) = (leb 0x30 c && leb c 0x39) && all_digits text

decimal : ℕ → Text
unfolding print_loop
decimal n = print_loop n n []

parse_uint : Text → Option ℕ
unfolding value
parse_uint text =
    if all_digits text
    then if ltb (value 0 text) (2 ^ 31) then some (value 0 text) else none
    else none

value-print_loop :
    (fuel n : ℕ) (acc : Text) → n ≤ fuel → value 0 (print_loop fuel n acc) ≡ value n acc
unfolding value print_loop
value-print_loop zero n acc h = ap (λ a. value a acc) (omega arith)
value-print_loop (suc fuel) n acc h = elim (Bool-cases (ltb n 10)) [
  | inl e ↦ rw e (ap (λ a. value a acc) (omega arith))
  | inr e ↦ rw e (
      value-print_loop fuel (n / 10) ((0x30 + n % 10) ∷ acc) (ground arith)
      ∙ ap (λ a. value a acc) (omega arith))
]

print_loop-IsDigit :
    (fuel n : ℕ) (acc : Text) → All IsDigit acc → All IsDigit (print_loop fuel n acc)
unfolding print_loop
print_loop-IsDigit zero n acc h = ((omega arith, omega arith), h)
print_loop-IsDigit (suc fuel) n acc h = elim (Bool-cases (ltb n 10)) [
  | inl e ↦ rw e ((omega arith, ground arith), h)
  | inr e ↦
      rw e
        (print_loop-IsDigit fuel (n / 10) ((0x30 + n % 10) ∷ acc) ((omega arith, omega arith), h))
]

print_loop_filled :
    (fuel n : ℕ) (acc : Text) → (c : ℕ) × (cs : Text) × (print_loop fuel n acc ≡ c ∷ cs)
unfolding print_loop
print_loop_filled zero n acc = (0x30 + n % 10, acc, refl)
print_loop_filled (suc fuel) n acc =
    let (c, cs, k) = print_loop_filled fuel (n / 10) ((0x30 + n % 10) ∷ acc) in
    elim (Bool-cases (ltb n 10)) [ inl e ↦ (0x30 + n, acc, rw e refl) | inr e ↦ (c, cs, rw e k) ]

all_digits-IsDigit : (text : Text) → All IsDigit text → all_digits text ≡ true
all_digits-IsDigit [] h = refl
all_digits-IsDigit (c ∷ text) (hc, h) = ground (arith, hc, all_digits-IsDigit text h)

decimal_reads : (n : ℕ) → n < 2 ^ 31 → parse_uint (decimal n) ≡ some n
unfolding decimal parse_uint
decimal_reads n h =
    let written : value 0 (print_loop n n []) ≡ n =
      value-print_loop n n [] (omega arith) ∙ (unfold value in refl) in
    let digits : all_digits (print_loop n n []) ≡ true =
      all_digits-IsDigit (print_loop n n []) (print_loop-IsDigit n n [] tt) in
    ground (arith, written, digits)

decimal-IsDecimal : IsDecimal parse_uint decimal
unfolding decimal
decimal-IsDecimal = record {
  digits = λ n. print_loop-IsDigit n n [] tt;
  some_digit = λ n. print_loop_filled n n [];
  reads = decimal_reads;
}

abbrev sample : List Segment
sample = record { index = 44; hardened = true } ∷ record { index = 7; hardened = false } ∷ []

print_sample : print_path parse_uint decimal sample ≡ codes "m/44'/7"
unfolding print_path decimal
print_sample = refl

parse_sample : parse_path parse_uint decimal (codes "m/044'/7") ≡ some sample
unfolding parse_path parse_uint
parse_sample = refl

parse_empty_part : parse_path parse_uint decimal (codes "m/44'//7") ≡ none
unfolding parse_path parse_uint
parse_empty_part = refl

parse_path-print_path_example :
    parse_path parse_uint decimal (print_path parse_uint decimal sample) ≡ some sample
unfolding new_path
parse_path-print_path_example =
    parse_path-print_path parse_uint decimal decimal-IsDecimal sample sample refl

parse_path_ok_example :
    (indexes_fit sample ≡ true)
    × (parse_path parse_uint decimal (print_path parse_uint decimal sample) ≡ some sample)
parse_path_ok_example =
    parse_path_ok parse_uint decimal decimal-IsDecimal (codes "m/044'/7") sample parse_sample
