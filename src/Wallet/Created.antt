-- ===== src/Wallet/Created.antt =====
-- What Create of the wallet service leaves in the table.
use sigryx.Base.{
  ℕ, ◌≡◌, refl, sym, ap, ◌∙◌, Bool, true, false, not, List, [], ◌∷◌, eqb, eqb→eq, eqb_refl,
  if◌then◌else◌, Bool-cases, inl, inr,
}
use sigryx.Base.Bytes.{Bytes}
use sigryx.Base.Outcome.{Outcome, ok, err, and_then, ok-injective}
use sigryx.SecretStore.{is_unsealed}
use sigryx.Wallet.{
  WalletError, fault, invalid_wallet_user_id, invalid_key_root_id, unsupported_wallet_type,
  wallet_scheme_mismatch, wallet_not_found, wallet_already_exists, derivation_index_exhausted,
  key_root_not_found, Wallet, KeyRoot, DerivedWallet, WalletAdapter, Wallets, queried, of_user,
  find_wallet, refused_by, find_key_root, get_by_user, get_key_root, allocated, next_index,
  create_row,
}
use sigryx.Wallet
use sigryx.Wallet.Service.{
  Outside, CreateWalletInput, WalletResult, wallet_result, derive_wallet, reload, after_row,
  new_wallet, create_with_root, after_lookup, create,
}

err-ne-ok :
    {A : Type 0} {e : WalletError} {a : A} (h : Path (Outcome WalletError A) (err e) (ok a)) → ⊥
err-ne-ok h = cc

-- A lookup that returns a row has found it.
if_ok :
    {A : Type 0} (b : Bool) (o : Outcome WalletError A) (e : WalletError) (w v : Wallets) (a : A)
    → Path (Outcome WalletError A × Wallets) (if b then (o, w) else (err e, w)) (ok a, v)
    → (o ≡ ok a) × (w ≡ v)
if_ok {A = A} true o e w v a h = (
  ap (λ (t : Outcome WalletError A × Wallets). t.0) h,
  ap (λ (t : Outcome WalletError A × Wallets). t.1) h,
)
if_ok {A = A} false o e w v a h =
    absurd (err-ne-ok (ap (λ (t : Outcome WalletError A × Wallets). t.0) h))

-- An error is no result.
first_ok :
    {A : Type 0} {e : WalletError} {a : A} {w v : Wallets}
    (h : Path (Outcome WalletError A × Wallets) (err e, w) (ok a, v))
    → ⊥
first_ok {A = A} h = err-ne-ok (ap (λ (t : Outcome WalletError A × Wallets). t.0) h)

and_then_ok :
    {A B : Type 0} (m : Outcome WalletError A × Wallets)
    (f : A → Wallets → Outcome WalletError B × Wallets) {b : B} {v : Wallets}
    → and_then m f ≡ (ok b, v)
    → (a : A) × (w : Wallets) × (m ≡ (ok a, w)) × (f a w ≡ (ok b, v))
and_then_ok (ok a, w) f h = (a, w, refl, h)
and_then_ok (err e, w) f h = absurd (first_ok h)

ok_parts :
    {A : Type 0} {a b : A} {w v : Wallets}
    (h : Path (Outcome WalletError A × Wallets) (ok a, w) (ok b, v))
    → (a ≡ b) × (w ≡ v)
ok_parts {A = A} h = (
  ok-injective (ap (λ (t : Outcome WalletError A × Wallets). t.0) h),
  ap (λ (t : Outcome WalletError A × Wallets). t.1) h,
)

find_key_root-id :
    (id : Bytes) (roots : List KeyRoot) (root : KeyRoot)
    → find_key_root id roots ≡ ok root
    → root.id ≡ id
unfolding find_key_root
find_key_root-id id [] root h = absurd (err-ne-ok h)
find_key_root-id id (r ∷ roots) root h = elim (Bool-cases (eqb r.id id)) [
  | inl e ↦
      let same : r ≡ root = ok-injective (rw e at h) in
      ap (λ (t : KeyRoot). t.id) (sym same) ∙ eqb→eq r.id id e
  | inr e ↦ find_key_root-id id roots root (rw e at h)
]

find_wallet_here :
    (test : Wallet → Bool) (row : Wallet) (rows : List Wallet)
    → test row ≡ true
    → find_wallet test (row ∷ rows) ≡ ok row
unfolding find_wallet
find_wallet_here test row rows h = rw h refl

-- The table behind an insertion that is not refused.
create_row_ok :
    (up : ℕ → Bool) (wallet : Wallet) (w v : Wallets) (u : Unit {0})
    → create_row up wallet w ≡ (ok u, v)
    → v.rows ≡ wallet ∷ w.rows
unfolding create_row
create_row_ok up wallet w v u h = elim (Bool-cases (not (up w.queries))) [
  | inl e ↦ absurd (first_ok (rw e at h))
  | inr e ↦ elim (Bool-cases (refused_by wallet w.rows)) [
    | inl f ↦ absurd (first_ok (rw (e, f) at h))
    | inr f ↦ let (_, same) = ok_parts (rw (e, f) at h) in ap (λ (t : Wallets). t.rows) (sym same)
  ]
]

module _ (out : Outside) (adapter : WalletAdapter) (input : CreateWalletInput) where
  -- The table has the wallet that the result shows as the wallet of the user.
  abbrev pub Stored : WalletResult → Wallets → Type 0
  Stored result w =
      (row : Wallet) × (find_wallet (of_user input.key_root_id adapter.name input.user_id) w.rows
        ≡ ok row)
      × (result ≡ wallet_result row input.wallet_type)

  lookup_ok :
      (root : Bytes) (w v : Wallets) (row : Wallet)
      → get_by_user out.database_up root adapter.name input.user_id w ≡ (ok row, v)
      → find_wallet (of_user root adapter.name input.user_id) v.rows ≡ ok row
  unfolding get_by_user
  lookup_ok root w v row h =
      let test = of_user root adapter.name input.user_id in
      let (found, same) =
        if_ok (out.database_up w.queries) (find_wallet test w.rows) Wallet.database (queried w) v
          row h in
      ap (λ (t : Wallets). find_wallet test t.rows) (sym same) ∙ found

  reload_ok :
      (looked : Outcome WalletError Wallet × Wallets) (result : WalletResult) (v : Wallets)
      → reload out adapter input looked ≡ (ok result, v)
      → (row : Wallet) × (looked ≡ (ok row, v)) × (result ≡ wallet_result row input.wallet_type)
  unfolding reload
  reload_ok (ok row, w) result v h =
      let (same, state) = ok_parts h in (row, ap (λ (t : Wallets). (ok row, t)) state, sym same)
  reload_ok (err (fault f), w) result v h = absurd (first_ok h)
  reload_ok (err invalid_wallet_user_id, w) result v h = absurd (first_ok h)
  reload_ok (err invalid_key_root_id, w) result v h = absurd (first_ok h)
  reload_ok (err unsupported_wallet_type, w) result v h = absurd (first_ok h)
  reload_ok (err wallet_scheme_mismatch, w) result v h = absurd (first_ok h)
  reload_ok (err wallet_not_found, w) result v h = absurd (first_ok h)
  reload_ok (err wallet_already_exists, w) result v h = absurd (first_ok h)
  reload_ok (err derivation_index_exhausted, w) result v h = absurd (first_ok h)
  reload_ok (err key_root_not_found, w) result v h = absurd (first_ok h)
  reload_ok (err Wallet.database, w) result v h = absurd (first_ok h)

  new_wallet_found :
      (root : KeyRoot) (derived : DerivedWallet) (id : Bytes)
      → of_user root.id adapter.name input.user_id (new_wallet out adapter input root derived id)
        ≡ true
  new_wallet_found root derived id =
      rw (eqb_refl root.id, eqb_refl adapter.name, eqb_refl input.user_id) refl

  after_row_ok :
      (created : Outcome WalletError (Unit {0}) × Wallets) (root : KeyRoot) (wallet : Wallet)
      (result : WalletResult) (v : Wallets)
      → ((u : Unit {0}) (t : Wallets)
          → created ≡ (ok u, t)
          → find_wallet (of_user root.id adapter.name input.user_id) t.rows ≡ ok wallet)
      → after_row out adapter input root wallet created ≡ (ok result, v)
      → (row : Wallet) × (find_wallet (of_user root.id adapter.name input.user_id) v.rows ≡ ok row)
        × (result ≡ wallet_result row input.wallet_type)
  unfolding after_row
  after_row_ok (ok u, w) root wallet result v k h =
      let (same, state) = ok_parts h in
      (
        wallet,
        ap (λ (t : Wallets). find_wallet (of_user root.id adapter.name input.user_id) t.rows)
              (sym state)
            ∙ k u w refl,
        sym same,
      )
  after_row_ok (err (fault f), w) root wallet result v k h = absurd (first_ok h)
  after_row_ok (err invalid_wallet_user_id, w) root wallet result v k h = absurd (first_ok h)
  after_row_ok (err invalid_key_root_id, w) root wallet result v k h = absurd (first_ok h)
  after_row_ok (err unsupported_wallet_type, w) root wallet result v k h = absurd (first_ok h)
  after_row_ok (err wallet_scheme_mismatch, w) root wallet result v k h = absurd (first_ok h)
  after_row_ok (err wallet_not_found, w) root wallet result v k h = absurd (first_ok h)
  after_row_ok (err wallet_already_exists, w) root wallet result v k h =
      let (row, looked, same) =
        reload_ok (get_by_user out.database_up root.id adapter.name input.user_id w) result v h in
      (row, lookup_ok root.id w v row looked, same)
  after_row_ok (err derivation_index_exhausted, w) root wallet result v k h = absurd (first_ok h)
  after_row_ok (err key_root_not_found, w) root wallet result v k h = absurd (first_ok h)
  after_row_ok (err Wallet.database, w) root wallet result v k h = absurd (first_ok h)

  create_with_root_ok :
      (root : KeyRoot) (w v : Wallets) (result : WalletResult)
      → root.id ≡ input.key_root_id
      → create_with_root out adapter input root w ≡ (ok result, v)
      → Stored result v
  unfolding create_with_root
  create_with_root_ok root w v result k h =
      elim (Bool-cases (not (eqb root.derivation_scheme adapter.derivation_scheme))) [
        | inl e ↦ absurd (first_ok (rw e at h))
        | inr e ↦
            let (index, w1, _, h1) =
              and_then_ok (next_index out.database_up root.id adapter.name w) _ (rw e at h) in
            let (derived, w2, _, h2) = and_then_ok (derive_wallet out adapter root index w1) _ h1 in
            let wallet = new_wallet out adapter input root derived (out.new_id w2.queries) in
            let (row, found, same) =
              after_row_ok (create_row out.database_up wallet w2) root wallet result v
                (λ u t c.
                  ap (find_wallet (of_user root.id adapter.name input.user_id))
                    (create_row_ok out.database_up wallet w2 t u c)
                  ∙ find_wallet_here (of_user root.id adapter.name input.user_id) wallet w2.rows
                      (new_wallet_found root derived (out.new_id w2.queries)))
                h2 in
            (
              row,
              ap (λ id. find_wallet (of_user id adapter.name input.user_id) v.rows) (sym k) ∙ found,
              same,
            )
      ]

  key_root_ok :
      (w v : Wallets) (root : KeyRoot)
      → get_key_root out.database_up input.key_root_id w ≡ (ok root, v)
      → root.id ≡ input.key_root_id
  unfolding get_key_root
  key_root_ok w v root h =
      let (found, _) =
        if_ok (out.database_up w.queries) (find_key_root input.key_root_id w.key_roots)
          Wallet.database (queried w) v root h in
      find_key_root-id input.key_root_id w.key_roots root found

  after_lookup_ok :
      (looked : Outcome WalletError Wallet × Wallets) (v : Wallets) (result : WalletResult)
      → ((row : Wallet) (t : Wallets)
          → looked ≡ (ok row, t)
          → find_wallet (of_user input.key_root_id adapter.name input.user_id) t.rows ≡ ok row)
      → after_lookup out adapter input looked ≡ (ok result, v)
      → Stored result v
  unfolding after_lookup
  after_lookup_ok (ok row, w) v result k h =
      let (same, state) = ok_parts h in
      (
        row,
        ap
              (λ (t : Wallets).
                find_wallet (of_user input.key_root_id adapter.name input.user_id) t.rows)
              (sym state)
            ∙ k row w refl,
        sym same,
      )
  after_lookup_ok (err (fault f), w) v result k h = absurd (first_ok h)
  after_lookup_ok (err invalid_wallet_user_id, w) v result k h = absurd (first_ok h)
  after_lookup_ok (err invalid_key_root_id, w) v result k h = absurd (first_ok h)
  after_lookup_ok (err unsupported_wallet_type, w) v result k h = absurd (first_ok h)
  after_lookup_ok (err wallet_scheme_mismatch, w) v result k h = absurd (first_ok h)
  after_lookup_ok (err wallet_not_found, w) v result k h =
      elim (Bool-cases (not (is_unsealed w.secrets))) [
        | inl e ↦ absurd (first_ok (rw e at h))
        | inr e ↦
            let (root, w1, got, h1) =
              and_then_ok (get_key_root out.database_up input.key_root_id w) _ (rw e at h) in
            create_with_root_ok root w1 v result (key_root_ok w w1 root got) h1
      ]
  after_lookup_ok (err wallet_already_exists, w) v result k h = absurd (first_ok h)
  after_lookup_ok (err derivation_index_exhausted, w) v result k h = absurd (first_ok h)
  after_lookup_ok (err key_root_not_found, w) v result k h = absurd (first_ok h)
  after_lookup_ok (err Wallet.database, w) v result k h = absurd (first_ok h)

  -- The guards in front of the lookup
  abbrev guarded : Wallets → Outcome WalletError WalletResult × Wallets
  guarded w =
      after_lookup out adapter input
        (get_by_user out.database_up input.key_root_id adapter.name input.user_id w)

  create_guards :
      (w v : Wallets) (result : WalletResult)
      → create out adapter input w ≡ (ok result, v)
      → (eqb input.user_id [] ≡ false)
        × (eqb input.key_root_id [] ≡ false)
        × (not (eqb input.wallet_type adapter.wallet_type) ≡ false)
        × (guarded w ≡ (ok result, v))
  unfolding create
  create_guards w v result h = elim (Bool-cases (eqb input.user_id [])) [
    | inl e ↦ absurd (first_ok (rw e at h))
    | inr e ↦ elim (Bool-cases (eqb input.key_root_id [])) [
      | inl f ↦ absurd (first_ok (rw (e, f) at h))
      | inr f ↦ elim (Bool-cases (not (eqb input.wallet_type adapter.wallet_type))) [
        | inl g ↦ absurd (first_ok (rw (e, f, g) at h))
        | inr g ↦ (e, f, g, rw (e, f, g) at h)
      ]
    ]
  ]

  -- If Create returns a wallet, then the table holds it as the wallet of the user for the key root and the
  -- adapter, and whenever the next call of the database answers, Create with the same input returns
  -- the same wallet and changes nothing but the number of calls.
  pub create_again :
      (w v : Wallets) (result : WalletResult)
      → create out adapter input w ≡ (ok result, v)
      → out.database_up v.queries ≡ true
      → Stored result v × (create out adapter input v ≡ (ok result, queried v))
  unfolding create get_by_user after_lookup
  create_again w v result h up =
      let (e, f, g, inner) = create_guards w v result h in
      let (row, found, same) =
        after_lookup_ok (get_by_user out.database_up input.key_root_id adapter.name input.user_id w)
          v result (λ r t l. lookup_ok input.key_root_id w t r l) inner in
      ((row, found, same), rw (e, f, g, up, found, same) refl)
