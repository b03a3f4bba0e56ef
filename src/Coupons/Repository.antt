-- ===== src/Coupons/Repository.antt =====
-- src/modules/coupons/repository.rs; `upper` is the full Unicode `str::to_uppercase`.
use text.Mathlib.Text.{◌==◌ as str_eq}
use dream_fly_backend.Prelude.{
  ◌+◌, ℤ, pos, leb_ℤ, ltb_ℤ, String, Bool, true, not, ◌&&◌, Option, none, some, [], ◌∷◌, ◌++◌, map,
  filter, find, any, ◌==◌, if◌then◌else◌, trim,
}
use dream_fly_backend.Base.{Uuid, Instant}
use dream_fly_backend.AppError.{database, check_violation, unique_violation}
use dream_fly_backend.Coupons.Model.{Coupon}
use dream_fly_backend.Db.{Sql, done, failed, select}

module _ (upper : String → String) where
  unfoldable pub normalize_code : String → String
  normalize_code code = upper (trim code)

  abbrev pub is_code : String → Coupon → Bool
  is_code code c = str_eq c.code code

  -- `expires_at IS NULL OR expires_at > now`
  abbrev pub is_unexpired : Option Instant → Instant → Bool
  is_unexpired none now = true
  is_unexpired (some t) now = ltb_ℤ now t

  abbrev pub is_valid : String → Instant → Coupon → Bool
  is_valid code now c = is_code code c && c.is_active && is_unexpired c.expires_at now

  -- `find_valid_by_code` and `find_valid_by_code_tx`, which share their statement.
  unfoldable pub find_valid_by_code : String → Instant → Sql (Option Coupon)
  find_valid_by_code code now = select λ db. find (is_valid (normalize_code code) now) db.coupons

  abbrev pub new_coupon : Uuid → String → ℤ → Option Instant → Coupon
  new_coupon id code discount expires_at = record {
    id = id;
    code = code;
    discount_cents = discount;
    is_active = true;
    expires_at = expires_at;
  }

  -- `CHECK (discount_cents > 0)`, then the unique index of `code`.
  unfoldable pub create : String → ℤ → Option Instant → Sql Coupon
  create code discount expires_at db =
      let row = new_coupon (db.uuids db.drawn) (normalize_code code) discount expires_at in
      if leb_ℤ discount (pos 0)
      then failed (database check_violation (some "coupons_discount_cents_check"))
      else (if any (is_code row.code) db.coupons
          then failed (database unique_violation (some "coupons_code_key"))
          else done row (record db { coupons = db.coupons ++ row ∷ []; drawn = db.drawn + 1 }))

abbrev or_old {ℓ} : {A : Type ℓ} → Option A → A → A
or_old none old = old
or_old (some new) old = new

abbrev pub is_coupon : Uuid → Coupon → Bool
is_coupon id c = c.id == id

-- The columns of a partial update.
abbrev pub updated : Option ℤ → Option Bool → Option (Option Instant) → Coupon → Coupon
updated discount active expires_at c = record c {
  discount_cents = or_old discount c.discount_cents;
  is_active = or_old active c.is_active;
  expires_at = or_old expires_at c.expires_at;
}

abbrev update_row :
    Uuid → Option ℤ → Option Bool → Option (Option Instant) → Option Coupon → Sql (Option Coupon)
update_row id discount active expires_at none db = done none db
update_row id discount active expires_at (some c) db =
    let new = updated discount active expires_at c in
    if leb_ℤ new.discount_cents (pos 0)
    then failed (database check_violation (some "coupons_discount_cents_check"))
    else done (some new) (record db {
      coupons =
          map (λ c. if is_coupon id c then updated discount active expires_at c else c) db.coupons;
    })

unfoldable pub update :
    Uuid → Option ℤ → Option Bool → Option (Option Instant) → Sql (Option Coupon)
update id discount active expires_at db =
    update_row id discount active expires_at (find (is_coupon id) db.coupons) db

unfoldable pub delete : Uuid → Sql Bool
delete id db =
    done (any (is_coupon id) db.coupons)
      (record db { coupons = filter (λ c. not (is_coupon id c)) db.coupons })
