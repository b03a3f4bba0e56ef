-- ===== src/Extractors/Pagination.antt =====
-- src/extractors/pagination.rs: pages, in `u32`.
pub mod Bounds
use dream_fly_backend.Prelude.{ℕ, ℤ, ◌-◌, ◌*◌, ◌%◌, min}
use Prim.Native.Nat.{max}

pub record PaginationParams : Type 0 where
  pub page : ℕ
  pub per_page : ℕ

pub record PageMeta : Type 0 where
  pub total : ℤ
  pub page : ℕ
  pub per_page : ℕ

-- `clamp(1, 100)`
unfoldable pub limit : PaginationParams → ℕ
limit p = min (max p.per_page 1) 100

-- The product wraps in a release build.
unfoldable pub offset : PaginationParams → ℕ
unfolding limit
offset p = ((max p.page 1 - 1) * limit p) % 4_294_967_296

unfoldable pub meta : PaginationParams → ℤ → PageMeta
unfolding limit
meta p total = record { total = total; page = max p.page 1; per_page = limit p }
