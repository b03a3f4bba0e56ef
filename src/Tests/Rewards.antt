-- ===== src/Tests/Rewards.antt =====
-- A limited reward at concrete inputs.
use dream_fly_backend.Prelude.{pos, true, some, [], ◌∷◌, refl}
use dream_fly_backend.Db.{Db}
use dream_fly_backend.Rewards.Model.{Reward}
use dream_fly_backend.Rewards.Service.Stock.{IsGiven, Redemption, redeem_all, redeem_all-IsGiven}
use dream_fly_backend.Tests.{shop, noon}

abbrev mug : Reward
mug = record {
  id = 80;
  name = "Mug";
  points_cost = pos 300;
  stock = some (pos 2);
  is_active = true;
}

abbrev shelf : Db
shelf = record shop { rewards = mug ∷ [] }

abbrev ask : Redemption
ask = record { user = 1; reward = 80; now = noon }

redeem_all-IsGiven_example : IsGiven 80 2 shelf (redeem_all (ask ∷ ask ∷ ask ∷ []) shelf)
redeem_all-IsGiven_example = redeem_all-IsGiven 80 (ask ∷ ask ∷ ask ∷ []) shelf 2 refl
