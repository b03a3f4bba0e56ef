-- ===== src/Products/Locks/Order.antt =====
-- Walking lines in lock order: the order, the rows, and the error.
use mathlib.Core.List.{Perm}
use mathlib.Core.List.Perm
use dream_fly_backend.Prelude.{
  ◌≡◌, refl, ap, Bool, true, some, List, [], ◌∷◌, map, arith, find, any, All, IsSorted, sort_by_key,
  sort_by_key-IsSorted, sort_by_key-Perm, All-sort_by_key, Bool-cases, Option-cases, inl, inr,
  ==_iff, ◌==◌,
}
use dream_fly_backend.Base.{Uuid}
use dream_fly_backend.AppError.{ok, Result-cases}
use dream_fly_backend.Products.Locks.{ProductLocks, row, pair_key, pair_rows, rows_in_lock_order}
use dream_fly_backend.Products.Model.{Product}
use dream_fly_backend.Products.Repository.{is_product}

find-id :
    (id : Uuid) (ps : List Product) {p : Product} → find (is_product id) ps ≡ some p → p.id ≡ id
find-id id [] h = absurd (ground arith)
find-id id (q ∷ ps) {p} h = elim (Bool-cases (q.id == id)) [
  | inl hit ↦
      let h' = rw hit at h in let same : q ≡ p = cc h' in rw (← same) ((==_iff q.id id).0 hit)
  | inr miss ↦ find-id id ps (rw miss at h)
]

find-some :
    (p : Product → Bool) (ps : List Product)
    → any p ps ≡ true
    → (q : Product) × (find p ps ≡ some q)
find-some p [] h = absurd (ground arith)
find-some p (q ∷ ps) h = elim (Bool-cases (p q)) [
  | inl hit ↦ rw hit (q, refl)
  | inr miss ↦ rw miss (find-some p ps (rw miss at h))
]

module _ {A : Type 0} (locks : ProductLocks) (id : A → Uuid) where
  -- A pair of an item and the locked row with the item's id.
  abbrev pub IsPaired : Product × A → Type 0
  IsPaired pair = (row locks (id pair.1) ≡ some pair.0) × (pair.0.id ≡ id pair.1)

  pair_rows-ok :
      (items : List A) {pairs : List (Product × A)}
      → pair_rows locks items id ≡ ok pairs
      → (map (λ p. p.1) pairs ≡ items) × All IsPaired pairs
  unfolding pair_rows row
  pair_rows-ok [] {pairs} h = let none_left : pairs ≡ [] = cc in rw none_left (refl, tt)
  pair_rows-ok (item ∷ items) {pairs} h = elim (Option-cases (row locks (id item))) [
    | inl missing ↦ let h' = rw missing at h in absurd (ground (arith, h'))
    | inr (p, found) ↦ elim (Result-cases (pair_rows locks items id)) [
      | inl (rest, e) ↦
          let h' = rw (found, e) at h in
          let is : pairs ≡ (p, item) ∷ rest = cc h' in
          let (same, paired) = pair_rows-ok items e in
          rw is (ap (item ∷◌) same, ((found, find-id (id item) locks.rows found), paired))
      | inr (x, e) ↦ let h' = rw (found, e) at h in absurd (ground (arith, h'))
    ]
  ]

  pair_rows-covered :
      (items : List A)
      → All (λ item. any (is_product (id item)) locks.rows ≡ true) items
      → (pairs : List (Product × A)) × (pair_rows locks items id ≡ ok pairs)
  unfolding pair_rows row
  pair_rows-covered [] h = ([], refl)
  pair_rows-covered (item ∷ items) (c, h) =
      let (p, found) = find-some (is_product (id item)) locks.rows c in
      let (rest, e) = pair_rows-covered items h in ((p, item) ∷ rest, rw (found, e) refl)

  -- The lines that come back in lock order are the given ones (a permutation), their products' ids
  -- ascend, and each stands beside the locked row with its id.
  pub rows_in_lock_order-IsSorted :
      (items : List A) {pairs : List (Product × A)}
      → rows_in_lock_order locks items id ≡ ok pairs
      → IsSorted pair_key pairs × Perm (map (λ p. p.1) pairs) items × All IsPaired pairs
  unfolding rows_in_lock_order
  rows_in_lock_order-IsSorted items {pairs} h = elim (Result-cases (pair_rows locks items id)) [
    | inl (rest, e) ↦
        let h' = rw e at h in
        let is : pairs ≡ sort_by_key pair_key rest = cc h' in
        let (same, paired) = pair_rows-ok items e in
        rw is (
          sort_by_key-IsSorted pair_key rest,
          rw (← same) (Perm.map (λ p. p.1) (sort_by_key-Perm pair_key rest)),
          All-sort_by_key pair_key IsPaired rest paired,
        )
    | inr (x, e) ↦ let h' = rw e at h in absurd (ground (arith, h'))
  ]

  -- If every line's product is locked, the lines come back.
  pub rows_in_lock_order-covered :
      (items : List A)
      → All (λ item. any (is_product (id item)) locks.rows ≡ true) items
      → (pairs : List (Product × A)) × (rows_in_lock_order locks items id ≡ ok pairs)
  unfolding rows_in_lock_order
  rows_in_lock_order-covered items h =
      let (rest, e) = pair_rows-covered items h in (sort_by_key pair_key rest, rw e refl)
