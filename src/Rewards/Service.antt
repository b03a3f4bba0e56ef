-- ===== src/Rewards/Service.antt =====
-- src/modules/rewards/service.rs and repository.rs: rewards redeemed for points.
pub mod Stock
use dream_fly_backend.Prelude.{
  ◌+◌, ℤ, pos, ◌-ℤ◌, leb_ℤ, ltb_ℤ, Bool, true, false, not, ◌&&◌, Option, none, some, List, [], ◌∷◌,
  ◌++◌, map, find, any, ◌==◌, if◌then◌else◌,
}
use dream_fly_backend.Base.{Uuid, Instant}
use dream_fly_backend.AppError.{Result, not_found, conflict, plain, database, check_violation}
use dream_fly_backend.Db.{
  Db, Sql, done, failed, select, Tx, ◌>>=◌, ◌>>◌, pure, some_or, reject_if, query, transaction,
}
use dream_fly_backend.Points.Service.{try_spend_tx}
use dream_fly_backend.Rewards.Model.{Reward, RewardRedemption}

abbrev pub is_reward : Uuid → Reward → Bool
is_reward id r = r.id == id

unfoldable pub lock_by_id_tx : Uuid → Sql (Option Reward)
lock_by_id_tx id = select λ db. find (is_reward id) db.rewards

-- `NULL` stays `NULL`.
abbrev pub less_one : Option ℤ → Option ℤ
less_one none = none
less_one (some stock) = some (stock -ℤ pos 1)

abbrev pub take_one : Reward → Reward
take_one r = record r { stock = less_one r.stock }

abbrev pub is_negative : Option ℤ → Bool
is_negative none = false
is_negative (some stock) = ltb_ℤ stock (pos 0)

abbrev pub decrement_rows : Uuid → List Reward → List Reward
decrement_rows id rows = map (λ r. if is_reward id r then take_one r else r) rows

-- With the check of the table.
unfoldable pub decrement_stock_tx : Uuid → Sql (Unit {0})
decrement_stock_tx id db =
    if any (λ r. is_reward id r && is_negative (less_one r.stock)) db.rewards
    then failed (database check_violation (some "rewards_stock_nonneg"))
    else done tt (record db { rewards = decrement_rows id db.rewards })

unfoldable pub insert_redemption_tx : Uuid → Uuid → ℤ → Sql RewardRedemption
insert_redemption_tx reward_id user_id points_spent db =
    let row : RewardRedemption = record {
      id = db.uuids db.drawn;
      reward_id = reward_id;
      user_id = user_id;
      points_spent = points_spent;
    } in
    done row
      (record db { reward_redemptions = db.reward_redemptions ++ row ∷ []; drawn = db.drawn + 1 })

pub record RedeemResponse : Type 0 where
  pub redemption_id : Uuid
  pub points_spent : ℤ
  pub balance_after : ℤ

abbrev pub is_out : Option ℤ → Bool
is_out none = false
is_out (some stock) = leb_ℤ stock (pos 0)

abbrev pub take_finite : Uuid → Option ℤ → Tx (Unit {0})
take_finite id none = pure tt
take_finite id (some stock) = query (decrement_stock_tx id)

unfoldable pub redeem_body : Uuid → Uuid → Instant → Tx RedeemResponse
redeem_body user_id reward_id now = do
  found ← query (lock_by_id_tx reward_id)
  reward ← some_or found (not_found (plain "獎勵不存在"))
  reject_if (not reward.is_active) (not_found (plain "獎勵不存在"))
  reject_if (is_out reward.stock) (conflict (plain "已兌換完畢"))
  balance_after ← try_spend_tx user_id reward.points_cost now
  take_finite reward.id reward.stock
  redemption ← query (insert_redemption_tx reward.id user_id reward.points_cost)
  pure record {
    redemption_id = redemption.id;
    points_spent = redemption.points_spent;
    balance_after = balance_after;
  }

abbrev pub redeem : Uuid → Uuid → Instant → Db → Result RedeemResponse × Db
redeem user_id reward_id now db = transaction (redeem_body user_id reward_id now) db
