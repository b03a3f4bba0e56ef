-- ===== src/Prelude/Sort.antt =====
-- `sort_by_key` of Rust's slices: a stable sort by a key.
use Prim.Native.Nat.{ℕ, ◌≤◌}
use mathlib.Core.Logic.{inl, inr}
use mathlib.Core.List.{List, [], ◌∷◌, Perm}
use mathlib.Core.List.Perm
use mathlib.Core.Path.{◌≡◌, refl}
use mathlib.Core.Bool.{Bool, ◌||◌}
use native.Mathlib.Omega.{arith}
use dream_fly_backend.Prelude.Tests.{leb, if◌then◌else◌, Bool-cases}
use dream_fly_backend.Prelude.Lists.{All, any}

module _ {A : Type 0} (key : A → ℕ) where
  abbrev pub insert_by : A → List A → List A
  insert_by x [] = x ∷ []
  insert_by x (y ∷ ys) = if leb (key x) (key y) then x ∷ y ∷ ys else y ∷ insert_by x ys

  unfoldable pub sort_by_key : List A → List A
  sort_by_key [] = []
  sort_by_key (x ∷ xs) = insert_by x (sort_by_key xs)

  -- Every element's key is at most every later one's.
  abbrev pub IsSorted : List A → Type 0
  IsSorted [] = Unit
  IsSorted (x ∷ xs) = All (λ y. key x ≤ key y) xs × IsSorted xs

  All-insert_by {κ} :
      (P : A → Type κ) (x : A) (ys : List A) → P x → All P ys → All P (insert_by x ys)
  All-insert_by P x [] p q = (p, tt)
  All-insert_by P x (y ∷ ys) p (q, qs) = elim (Bool-cases (leb (key x) (key y))) [
    | inl le ↦ rw le (p, (q, qs))
    | inr gt ↦ rw gt (q, All-insert_by P x ys p qs)
  ]

  All-le :
      (x y : A) (zs : List A)
      → key x ≤ key y
      → All (λ z. key y ≤ key z) zs
      → All (λ z. key x ≤ key z) zs
  All-le x y [] h _ = tt
  All-le x y (z ∷ zs) h (k, ks) = (omega arith, All-le x y zs h ks)

  insert_by-IsSorted : (x : A) (ys : List A) → IsSorted ys → IsSorted (insert_by x ys)
  insert_by-IsSorted x [] _ = (tt, tt)
  insert_by-IsSorted x (y ∷ ys) (h, hs) = elim (Bool-cases (leb (key x) (key y))) [
    | inl le ↦ let k : key x ≤ key y = ground (arith, le) in rw le ((k, All-le x y ys k h), (h, hs))
    | inr gt ↦
        rw gt (
          All-insert_by (λ z. key y ≤ key z) x ys (ground (arith, gt)) h,
          insert_by-IsSorted x ys hs,
        )
  ]

  insert_by-Perm : (x : A) (ys : List A) → Perm (insert_by x ys) (x ∷ ys)
  insert_by-Perm x [] = Perm.refl (x ∷ [])
  insert_by-Perm x (y ∷ ys) = elim (Bool-cases (leb (key x) (key y))) [
    | inl le ↦ rw le (Perm.refl (x ∷ y ∷ ys))
    | inr gt ↦ rw gt (Perm.trans (Perm.cons y (insert_by-Perm x ys)) (Perm.swap x y ys))
  ]

  pub sort_by_key-IsSorted : (xs : List A) → IsSorted (sort_by_key xs)
  unfolding sort_by_key
  sort_by_key-IsSorted [] = tt
  sort_by_key-IsSorted (x ∷ xs) = insert_by-IsSorted x (sort_by_key xs) (sort_by_key-IsSorted xs)

  pub sort_by_key-Perm : (xs : List A) → Perm (sort_by_key xs) xs
  unfolding sort_by_key
  sort_by_key-Perm [] = Perm.refl []
  sort_by_key-Perm (x ∷ xs) =
      Perm.trans (insert_by-Perm x (sort_by_key xs)) (Perm.cons x (sort_by_key-Perm xs))

  pub All-sort_by_key {κ} : (P : A → Type κ) (xs : List A) → All P xs → All P (sort_by_key xs)
  unfolding sort_by_key
  All-sort_by_key P [] _ = tt
  All-sort_by_key P (x ∷ xs) (p, ps) =
      All-insert_by P x (sort_by_key xs) p (All-sort_by_key P xs ps)

-- Searching a sorted list.
module _ {A : Type 0} (key : A → ℕ) (p : A → Bool) where
  any-insert_by : (x : A) (ys : List A) → any p (insert_by key x ys) ≡ (p x || any p ys)
  any-insert_by x [] = refl
  any-insert_by x (y ∷ ys) = ground (arith, any-insert_by x ys)

  pub any-sort_by_key : (xs : List A) → any p (sort_by_key key xs) ≡ any p xs
  unfolding sort_by_key
  any-sort_by_key [] = refl
  any-sort_by_key (x ∷ xs) =
      ground (arith, any-insert_by x (sort_by_key key xs), any-sort_by_key xs)
