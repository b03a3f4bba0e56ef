-- ===== src/Extractors/Pagination/Bounds.antt =====
-- The bounds of a page, and where the offset wraps.
use Prim.Native.Nat.{max}
use native.Mathlib.Nat.{mul-le-mul, mod-eq_of_lt}
use dream_fly_backend.Prelude.{refl, ◌-◌, ◌*◌, ◌≤◌, ◌≡◌, arith}
use dream_fly_backend.Extractors.Pagination.{PaginationParams, limit, offset}

-- A page has from 1 to 100 rows, and its offset is the rows of the pages before it, for every page
-- number up to 42949673; page number 0 is page 1.
pub offset-exact :
    (p : PaginationParams)
    → p.page ≤ 42_949_673
    → (1 ≤ limit p) × (limit p ≤ 100) × (offset p ≡ (p.page - 1) * limit p)
unfolding offset limit
offset-exact p h =
    let most : limit p ≤ 100 = omega arith in
    let product : (p.page - 1) * limit p ≤ 42_949_672 * 100 =
      mul-le-mul {n₂ = 42_949_672} (omega arith) most in
    (omega arith, most, exact (omega arith))
  where
    exact : (p.page - 1) * limit p ≤ 4_294_967_200 → offset p ≡ (p.page - 1) * limit p
    exact product =
        let same : max p.page 1 - 1 ≡ p.page - 1 = omega arith in
        rw same (mod-eq_of_lt (omega arith))

-- The first page number whose offset wraps: at 100 rows a page it starts again near row 0.
pub offset_wraps : offset (record { page = 42_949_674; per_page = 100 }) ≡ 4
unfolding offset limit
offset_wraps = refl
