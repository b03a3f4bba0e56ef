-- ===== src/Orders/Replay/Named.antt =====
-- The order that a key names, as the replay finds it.
use dream_fly_backend.Prelude.{
  find, Bool-cases, inl, inr, ◌≡◌, refl, ◌∙◌, ap, Option, none, some, List, [], ◌∷◌, arith, ==_iff,
  ◌==◌, sym, Option-cases,
}
use dream_fly_backend.Base.{Uuid}
use dream_fly_backend.AppError.{Result, ok, err}
use dream_fly_backend.Db.{Db}
use dream_fly_backend.Orders.Frame.Kept.{IsKept}
use dream_fly_backend.Orders.Model.{Order}
use dream_fly_backend.Orders.Idempotency.{IdempotencyKey, find_idempotency, replay, replay_by_key}
use dream_fly_backend.Orders.Repository.{is_order}
use dream_fly_backend.Orders.Responses.{OrderResponse, assemble}

find_order : (id : Uuid) (os : List Order) {o : Order} → find (is_order id) os ≡ some o → o.id ≡ id
find_order id [] h = cc h
find_order id (x ∷ os) h = elim (Bool-cases (x.id == id)) [
  | inl hit ↦ let e = rw hit at h in let e' = (==_iff x.id id).0 hit in ground (arith, e, e')
  | inr miss ↦ find_order id os (rw miss at h)
]

-- What a key finds is recorded, and what is recorded is found.
pub replay-IsKept :
    (user : Uuid) (key : IdempotencyKey) (db : Db) {a : OrderResponse}
    → replay user (some key) db ≡ ok (some a)
    → IsKept user key a.order db
unfolding replay replay_by_key assemble
replay-IsKept user key db {a} e = elim (Option-cases (find_idempotency user key.key db)) [
  | inl unknown ↦ absurd (ground (arith, rw (unknown, replay_by_key) at e))
  | inr (id, is) ↦
      let e₁ = rw (is, replay_by_key) at e in
      elim (Option-cases (find (is_order id) db.orders)) [
        | inl missing ↦ (let e₂ = rw missing at e₁ in absurd (ground (arith, e₂)))
        | inr (o, found) ↦
            let e₂ = rw found at e₁ in
            let same : o ≡ a.order = ap (λ (r : Result (Option OrderResponse)). order_in o r) e₂ in
            let named : id ≡ a.order.id =
              sym (find_order id db.orders found) ∙ ap (λ (x : Order). x.id) same in
            record {
              by_key = is ∙ ap some named;
              status = a.order.status;
              by_id =
                  ap (λ (i : Uuid). find (is_order i) db.orders) (sym named) ∙ found ∙ ap some same;
            }
      ]
]
  where
    order_in : Order → Result (Option OrderResponse) → Order
    order_in o (ok (some r)) = r.order
    order_in o (ok none) = o
    order_in o (err x) = o

pub IsKept-replay :
    (user : Uuid) (key : IdempotencyKey) (order : Order) (db : Db) (k : IsKept user key order db)
    → replay user (some key) db ≡ ok (some (assemble (record order { status = k.status }) db))
unfolding replay replay_by_key
IsKept-replay user key order db k = rw (k.by_key, replay_by_key) (rw k.by_id refl)
