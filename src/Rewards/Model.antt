-- ===== src/Rewards/Model.antt =====
-- src/modules/rewards/model.rs: the columns that redeeming reads or writes.
use dream_fly_backend.Prelude.{ℤ, String, Bool, Option}
use dream_fly_backend.Base.{Uuid}

pub record Reward : Type 0 where
  pub id : Uuid
  pub name : String
  pub points_cost : ℤ
  pub stock : Option ℤ
  pub is_active : Bool

pub record RewardRedemption : Type 0 where
  pub id : Uuid
  pub reward_id : Uuid
  pub user_id : Uuid
  pub points_spent : ℤ
