-- ===== src/Base.antt =====
-- What the rows of every table share: ids and instants.
use dream_fly_backend.Prelude.{ℕ, ℤ}

-- A 128-bit id; `Ord` on `Uuid`, and PostgreSQL's order, is the order of the numbers.
abbrev pub Uuid : Type 0
Uuid = ℕ

-- A UTC instant in microseconds, the resolution of `timestamptz`.
abbrev pub Instant : Type 0
Instant = ℤ
