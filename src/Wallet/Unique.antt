-- ===== src/Wallet/Unique.antt =====
-- No index is handed out twice.
use sigryx.Base.{
  ℕ, suc, ◌^◌, ◌%◌, ◌<◌, ◌≤◌, ◌≡◌, ◌≢◌, refl, sym, ap, ◌∙◌, Bool, Option, none, some, List, [], ◌∷◌,
  arith, All, Bool-cases, inl, inr,
}
use sigryx.Base.Bytes.{Bytes}
use sigryx.Base.Outcome.{Outcome, ok, err}
use sigryx.Wallet.{WalletError, WalletCounter, Wallets, advance_counter, allocated, next_index}
use sigryx.Wallet.Index.{counter_of, Advanced, advance_counter-Advanced}

-- An index that NextIndex returned, with the arguments of the call
pub record Handed : Type 0 where
  pub root : Bytes
  pub adapter : Bytes
  pub index : ℕ

abbrev pub push_handed : Bytes → Bytes → Outcome WalletError ℕ → List Handed → List Handed
push_handed root adapter (ok index) rest =
    record { root = root; adapter = adapter; index = index } ∷ rest
push_handed root adapter (err e) rest = rest

-- The indexes that a run of calls of NextIndex returns, whatever calls of the database fail
unfoldable pub hand_out : (ℕ → Bool) → List (Bytes × Bytes) → Wallets → List Handed
unfolding next_index
hand_out up [] w = []
hand_out up ((root, adapter) ∷ calls) w =
    let (index, w') = next_index up root adapter w in
    push_handed root adapter index (hand_out up calls w')

-- No index occurs twice with the same key root and the same adapter.
abbrev pub Distinct : List Handed → Type 0
Distinct [] = Unit
Distinct (x ∷ xs) = All (λ y. x ≢ y) xs × Distinct xs

-- What a call does, in terms of the counters.
record Step (root adapter : Bytes) (w : Wallets) (result : Outcome WalletError ℕ × Wallets)
    : Type 0 where
  returned :
      (i : ℕ)
      → result.0 ≡ ok i
      → (i ≡ counter_of root adapter w.counters)
        × (i < 2 ^ 31)
        × (counter_of root adapter result.1.counters ≡ suc i)
  grows : (r a : Bytes) → counter_of r a w.counters ≤ counter_of r a result.1.counters

allocated-Step :
    (root adapter : Bytes) (w : Wallets) (result : Option ℕ × List WalletCounter)
    → Advanced root adapter w.counters result
    → Step root adapter w (allocated w result)
allocated-Step root adapter w (none, counters) h = record {
  returned = λ i e. absurd (cc e);
  grows = λ r a. omega arith;
}
allocated-Step root adapter w (some index, counters) h = record {
  returned = λ i e.
      let (same, small, next) = h.handed index refl in
      let wrapped : index % 2 ^ 32 ≡ i = cc in
      let kept : index ≡ i = omega arith in (sym kept ∙ same, omega arith, next ∙ ap suc kept);
  grows = h.grows;
}

next_index-Step :
    (up : ℕ → Bool) (root adapter : Bytes) (w : Wallets)
    → Step root adapter w (next_index up root adapter w)
unfolding next_index
next_index-Step up root adapter w = elim (Bool-cases (up w.queries)) [
  | inl e ↦ rw e (
      allocated-Step root adapter w (advance_counter root adapter w.counters)
        (advance_counter-Advanced root adapter w.counters))
  | inr e ↦ rw e (record { returned = λ i h. absurd (cc h); grows = λ r a. omega arith })
]

abbrev AtLeast : Bytes → Bytes → ℕ → Handed → Type 0
AtLeast root adapter n x = root ≡ x.root → adapter ≡ x.adapter → n ≤ x.index

push_handed-All :
    (P : Handed → Type 0) (root adapter : Bytes) (index : Outcome WalletError ℕ)
    (rest : List Handed)
    → ((i : ℕ) → index ≡ ok i → P (record { root = root; adapter = adapter; index = i }))
    → All P rest
    → All P (push_handed root adapter index rest)
push_handed-All P root adapter (ok i) rest h k = (h i refl, k)
push_handed-All P root adapter (err e) rest h k = k

-- All later indexes are at least the counter is now.
hand_out-AtLeast :
    (up : ℕ → Bool) (calls : List (Bytes × Bytes)) (w : Wallets) (root adapter : Bytes) (n : ℕ)
    → n ≤ counter_of root adapter w.counters
    → All (AtLeast root adapter n) (hand_out up calls w)
unfolding hand_out
hand_out-AtLeast up [] w root adapter n h = tt
hand_out-AtLeast up ((r, a) ∷ calls) w root adapter n h =
    let step = next_index-Step up r a w in
    let (index, w') = next_index up r a w in
    push_handed-All (AtLeast root adapter n) r a index (hand_out up calls w')
      (λ i e p q. let (same, _, _) = step.returned i e in rw (same, sym p, sym q) h)
      (hand_out-AtLeast up calls w' root adapter n (omega (arith, step.grows root adapter)))

above : {i j : ℕ} → suc i ≤ j → i ≢ j
above k e = omega arith

differ-All :
    (x : Handed) (xs : List Handed)
    → All (AtLeast x.root x.adapter (suc x.index)) xs
    → All (λ y. x ≢ y) xs
differ-All x [] h = tt
differ-All x (y ∷ xs) (h, hs) = (
  (λ e.
      above (h (ap (λ (t : Handed). t.root) e) (ap (λ (t : Handed). t.adapter) e))
        (ap (λ (t : Handed). t.index) e)),
  differ-All x xs hs,
)

push_handed-Distinct :
    (root adapter : Bytes) (index : Outcome WalletError ℕ) (rest : List Handed)
    → ((i : ℕ) → index ≡ ok i → All (AtLeast root adapter (suc i)) rest)
    → Distinct rest
    → Distinct (push_handed root adapter index rest)
push_handed-Distinct root adapter (ok i) rest h k =
    (differ-All (record { root = root; adapter = adapter; index = i }) rest (h i refl), k)
push_handed-Distinct root adapter (err e) rest h k = k

-- Whatever key roots and adapters a run of calls of NextIndex names, and whatever calls of the database
-- fail: all the indexes that it returns are below 2 ^ 31, and none is returned twice for one key root and
-- one adapter.
pub hand_out-Distinct :
    (up : ℕ → Bool) (calls : List (Bytes × Bytes)) (w : Wallets)
    → Distinct (hand_out up calls w) × All (λ (x : Handed). x.index < 2 ^ 31) (hand_out up calls w)
unfolding hand_out
hand_out-Distinct up [] w = (tt, tt)
hand_out-Distinct up ((root, adapter) ∷ calls) w =
    let step = next_index-Step up root adapter w in
    let (index, w') = next_index up root adapter w in
    let (distinct, small) = hand_out-Distinct up calls w' in
    (
      push_handed-Distinct root adapter index (hand_out up calls w')
          (λ i e.
            let (_, _, next) = step.returned i e in
            hand_out-AtLeast up calls w' root adapter (suc i) (omega (arith, next)))
          distinct,
      push_handed-All (λ (x : Handed). x.index < 2 ^ 31) root adapter index (hand_out up calls w')
          (λ i e. let (_, bound, _) = step.returned i e in bound) small,
    )
