-- ===== src/Wallet/Index.antt =====
-- The indexes that NextIndex hands out.
use sigryx.Base.{
  ℕ, suc, ◌+◌, ◌^◌, ◌<◌, ◌≤◌, ◌≡◌, refl, sym, ap, Bool, true, false, Option, some, List, [], ◌∷◌,
  arith, ltb, eqb_refl, if◌then◌else◌, Bool-cases, inl, inr, subst,
}
use sigryx.Base.Bytes.{Bytes}
use sigryx.Wallet.{WalletCounter, counts_for, advance_counter}

-- The next index of a key root and an adapter; 0 where there is no row.
unfoldable pub counter_of : Bytes → Bytes → List WalletCounter → ℕ
counter_of root adapter [] = 0
counter_of root adapter (counter ∷ counters) =
    let rest = counter_of root adapter counters in
    if counts_for root adapter counter then counter.next_index else rest

-- What the statement does to the counters: it hands out the one of its row and adds 1 to it, or it hands
-- out nothing. The other counters stay.
pub record Advanced (root adapter : Bytes) (before : List WalletCounter)
    (result : Option ℕ × List WalletCounter) : Type 0 where
  pub handed :
      (i : ℕ)
      → result.0 ≡ some i
      → (i ≡ counter_of root adapter before)
        × (i < 2 ^ 31)
        × (counter_of root adapter result.1 ≡ suc i)
  pub grows : (r a : Bytes) → counter_of r a before ≤ counter_of r a result.1

if_le : (c : Bool) (x y z t : ℕ) → x ≤ y → z ≤ t → (if c then x else z) ≤ (if c then y else t)
if_le true x y z t h k = h
if_le false x y z t h k = k

counts_for_self :
    (root adapter : Bytes) (n : ℕ)
    → counts_for root adapter (record { key_root_id = root; adapter = adapter; next_index = n })
      ≡ true
counts_for_self root adapter n = rw (eqb_refl root, eqb_refl adapter) refl

below : (n m : ℕ) → ltb n m ≡ true → n < m
below n m h = ground (arith, h)

pub advance_counter-Advanced :
    (root adapter : Bytes) (counters : List WalletCounter)
    → Advanced root adapter counters (advance_counter root adapter counters)
unfolding advance_counter counter_of
advance_counter-Advanced root adapter [] = record {
  handed = λ i h.
      let zero_i : 0 ≡ i = cc in
      (sym zero_i, omega arith, rw (counts_for_self root adapter 1) (ap suc zero_i));
  grows = λ r a. omega arith;
}
advance_counter-Advanced root adapter (counter ∷ counters) =
    elim (Bool-cases (counts_for root adapter counter)) [
      | inl e ↦ elim (Bool-cases (ltb counter.next_index (2 ^ 31))) [
        | inl f ↦
            rw (e, f)
              (record {
                handed = λ i h.
                    let same : counter.next_index ≡ i = cc in
                    (
                      rw e (sym same),
                      subst (λ n. n < 2 ^ 31) same (below counter.next_index (2 ^ 31) f),
                      rw e (omega arith),
                    );
                grows = λ r a.
                    if_le (counts_for r a counter) counter.next_index (counter.next_index + 1)
                      (counter_of r a counters) (counter_of r a counters) (omega arith)
                      (omega arith);
              })
        | inr f ↦ rw (e, f) (record { handed = λ i h. absurd (cc h); grows = λ r a. omega arith })
      ]
      | inr e ↦
          let later = advance_counter-Advanced root adapter counters in
          rw e (record {
            handed =
                λ i h. let (same, small, next) = later.handed i h in (rw e same, small, rw e next);
            grows = λ r a.
                if_le (counts_for r a counter) counter.next_index counter.next_index
                  (counter_of r a counters) _ (omega arith) (later.grows r a);
          })
    ]
