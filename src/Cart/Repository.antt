-- ===== src/Cart/Repository.antt =====
-- src/modules/cart/repository.rs: the statements on `cart_items`.
use dream_fly_backend.Prelude.{
  ◌+◌, ℤ, pos, ◌+ℤ◌, leb_ℤ, eqb_ℤ, min_ℤ, String, Bool, false, not, ◌&&◌, ◌||◌, Option, none, some,
  List, [], ◌∷◌, ◌++◌, map, filter, find, any, ◌==◌, if◌then◌else◌,
}
use dream_fly_backend.Base.{Uuid}
use dream_fly_backend.AppError.{database, check_violation, other}
use dream_fly_backend.Cart.Model.{CartItem, LineTarget, CheckoutLine, CheckoutTargets}
use dream_fly_backend.Cart.Response.{CartItemJoined}
use dream_fly_backend.Courses.Model.{Course}
use dream_fly_backend.Courses.SeatQueries.{find_course}
use dream_fly_backend.Db.{Db, Sql, done, failed, select}
use dream_fly_backend.Products.Model.{Product}
use dream_fly_backend.Products.Repository.{find_product, is_product_line}

-- What a join with the target's table adds to a line.
pub record Listing : Type 0 where
  pub name : String
  pub price_cents : ℤ
  pub is_active : Bool

abbrev of_product : Option Product → Option Listing
of_product none = none
of_product (some p) =
    some (record { name = p.name; price_cents = p.price_cents; is_active = p.is_active })

abbrev of_course : Option Course → Option Listing
of_course none = none
of_course (some c) =
    some (record { name = c.name; price_cents = c.price_cents; is_active = c.is_active })

unfoldable pub listing : Db → LineTarget → Option Listing
listing db (LineTarget.product id) = of_product (find_product id db)
listing db (LineTarget.course id) = of_course (find_course id db)

-- The rows are kept in the order of `created_at`.
abbrev pub items_of : Uuid → Db → List CartItem
items_of user db = filter (λ i. i.user_id == user) db.cart_items

-- A missing target is NULL, which the row's decoder refuses.
abbrev joined :
    CartItem → Option Listing → Option (List CartItemJoined) → Option (List CartItemJoined)
joined item (some l) (some rest) = some (
    record {
      id = item.id;
      target = item.target;
      quantity = item.quantity;
      name = l.name;
      price_cents = l.price_cents;
      is_active = l.is_active;
    }
    ∷ rest)
joined item _ _ = none

abbrev join_all : Db → List CartItem → Option (List CartItemJoined)
join_all db [] = some []
join_all db (item ∷ items) = joined item (listing db item.target) (join_all db items)

abbrev decoded : Option (List CartItemJoined) → Sql (List CartItemJoined)
decoded none db = failed other
decoded (some rows) db = done rows db

unfoldable pub find_by_user : Uuid → Sql (List CartItemJoined)
find_by_user user db = decoded (join_all db (items_of user db)) db

abbrev pub is_item : Uuid → Uuid → CartItem → Bool
is_item user id i = i.id == id && i.user_id == user

unfoldable pub find_item_by_id : Uuid → Uuid → Sql (Option CartItem)
find_item_by_id user id = select λ db. find (is_item user id) db.cart_items

abbrev pub same_target : LineTarget → LineTarget → Bool
same_target (LineTarget.product a) (LineTarget.product b) = a == b
same_target (LineTarget.course a) (LineTarget.course b) = a == b
same_target _ _ = false

-- The row that the unique index of `(user_id, product_id)`, or of the course, allows once.
abbrev pub is_line : Uuid → LineTarget → CartItem → Bool
is_line user target i = i.user_id == user && same_target i.target target

-- `CHECK (quantity > 0)`, and `cart_items_course_qty`.
abbrev pub is_refused : LineTarget → ℤ → Bool
is_refused target quantity =
    leb_ℤ quantity (pos 0) || not (is_product_line target) && not (eqb_ℤ quantity (pos 1))

unfoldable pub set_quantity : (CartItem → Bool) → ℤ → List CartItem → List CartItem
set_quantity p quantity items = map (λ i. if p i then record i { quantity = quantity } else i) items

abbrev insert_line : Uuid → LineTarget → ℤ → Sql CartItem
insert_line user target quantity db =
    let row : CartItem = record {
      id = db.uuids db.drawn;
      user_id = user;
      target = target;
      quantity = quantity;
    } in
    if is_refused target quantity
    then failed (database check_violation none)
    else done row (record db { cart_items = db.cart_items ++ row ∷ []; drawn = db.drawn + 1 })

-- `DO UPDATE SET quantity = LEAST(quantity::bigint + n, 2147483647)::int`
abbrev pub merged_quantity : ℤ → ℤ → ℤ
merged_quantity old n = min_ℤ (old +ℤ n) (pos 2_147_483_647)

abbrev upsert : Uuid → LineTarget → ℤ → Option CartItem → Sql CartItem
upsert user target quantity none db = insert_line user target quantity db
upsert user target quantity (some old) db =
    let merged = merged_quantity old.quantity quantity in
    if is_refused target quantity || is_refused target merged
    then failed (database check_violation none)
    else done (record old { quantity = merged })
        (record db { cart_items = set_quantity (is_line user target) merged db.cart_items })

unfoldable pub add_product_item_tx : Uuid → Uuid → ℤ → Sql CartItem
add_product_item_tx user id quantity db =
    let target = LineTarget.product id in
    upsert user target quantity (find (is_line user target) db.cart_items) db

abbrev some_row : Sql CartItem → Sql (Option CartItem)
some_row m db = elim (m db) [ done i db' ↦ done (some i) db' | failed e ↦ failed e ]

-- `ON CONFLICT DO NOTHING`
unfoldable pub add_course_item : Uuid → Uuid → Sql (Option CartItem)
add_course_item user id db =
    let target = LineTarget.course id in
    if any (is_line user target) db.cart_items
    then done none db
    else some_row (insert_line user target (pos 1)) db

abbrev update_row : Uuid → Uuid → ℤ → Option CartItem → Sql (Option CartItem)
update_row user id quantity none db = done none db
update_row user id quantity (some item) db =
    if is_refused item.target quantity
    then failed (database check_violation none)
    else done (some (record item { quantity = quantity }))
        (record db { cart_items = set_quantity (is_item user id) quantity db.cart_items })

unfoldable pub update_quantity : Uuid → Uuid → ℤ → Sql (Option CartItem)
update_quantity user id quantity db =
    update_row user id quantity (find (is_item user id) db.cart_items) db

unfoldable pub remove_item : Uuid → Uuid → Sql Bool
remove_item user id db =
    done (any (is_item user id) db.cart_items)
      (record db { cart_items = filter (λ i. not (is_item user id i)) db.cart_items })

-- `clear_cart` and `clear_cart_tx`
unfoldable pub clear_cart : Uuid → Sql (Unit {0})
clear_cart user db =
    done tt (record db { cart_items = filter (λ i. not (i.user_id == user)) db.cart_items })

abbrev pub product_ids : List CartItem → List Uuid
product_ids [] = []
product_ids (i ∷ is) = elim i.target [
  | LineTarget.product id ↦ id ∷ product_ids is
  | LineTarget.course id ↦ product_ids is
]

abbrev pub course_ids : List CartItem → List Uuid
course_ids [] = []
course_ids (i ∷ is) = elim i.target [
  | LineTarget.product id ↦ course_ids is
  | LineTarget.course id ↦ id ∷ course_ids is
]

unfoldable pub find_checkout_targets_tx : Uuid → Sql CheckoutTargets
find_checkout_targets_tx user = select λ db. record {
  product_ids = product_ids (items_of user db);
  course_ids = course_ids (items_of user db);
}

abbrev snapshot_line : CartItem → Option Listing → List CheckoutLine → List CheckoutLine
snapshot_line item none rest = rest
snapshot_line item (some l) rest =
    record {
      target = item.target;
      quantity = item.quantity;
      price_cents = l.price_cents;
      name = l.name;
      is_active = l.is_active;
    }
    ∷ rest

-- An inner join of the lines with their targets.
abbrev pub snapshot : Db → List CartItem → List CheckoutLine
snapshot db [] = []
snapshot db (item ∷ items) = snapshot_line item (listing db item.target) (snapshot db items)

-- The product lines, then the course lines.
unfoldable pub find_cart_items_for_checkout_tx : Uuid → Sql (List CheckoutLine)
find_cart_items_for_checkout_tx user = select λ db.
    snapshot db (filter (λ i. is_product_line i.target) (items_of user db))
    ++ snapshot db (filter (λ i. not (is_product_line i.target)) (items_of user db))
