-- ===== src/Rewards/Service/Stock.antt =====
-- src/modules/rewards/service.rs: a limited reward is given out as often as it has stock.
use dream_fly_backend.Prelude.{
  ℕ, ◌+◌, ◌-◌, ◌≡◌, refl, ap, sym, ◌∙◌, ℤ, pos, ◌-ℤ◌, leb_ℤ, Bool, true, false, Option, none, some,
  List, [], ◌∷◌, ◌++◌, any, ◌&&◌, find, count, count-snoc, ◌==◌, ==_iff, arith, Bool-cases, inl,
  inr, if◌then◌else◌,
}
use dream_fly_backend.Base.{Uuid, Instant}
use dream_fly_backend.Db.{
  Db, done, committed, Respects, Same, IsFrame, Same-IsFrame, but_points, >>=-Respects,
  reject_if-Respects, query-then, some_or-then, reject_if-then, >>=-committed, pure-state,
  query_or-committed,
}
use dream_fly_backend.Db.Pool.Frame.{in_transaction-RespectsPool}
use dream_fly_backend.Orders.Sound.Reads.{lock_balance-Respects}
use dream_fly_backend.Points.Service.{try_spend_tx}
use dream_fly_backend.Points.Service.Ledger.{apply_delta_tx-IsApplied}
use dream_fly_backend.Rewards.Model.{Reward, RewardRedemption}
use dream_fly_backend.Rewards.Service.{
  is_reward, lock_by_id_tx, take_one, decrement_rows, less_one, is_negative, decrement_stock_tx,
  insert_redemption_tx, RedeemResponse, is_out, take_finite, redeem_body, redeem,
}

-- The stock of a reward that has one.
abbrev pub stock_in : Option Reward → Option ℤ
stock_in none = none
stock_in (some r) = r.stock

abbrev pub stock_of : Uuid → Db → Option ℤ
stock_of id db = stock_in (find (is_reward id) db.rewards)

abbrev pub is_redeemed : Uuid → RewardRedemption → Bool
is_redeemed id r = r.reward_id == id

abbrev pub redeemed : Uuid → Db → ℕ
redeemed id db = count (is_redeemed id) db.reward_redemptions

-- A stock, not negative, that differs from the one before by the new redemptions.
pub record IsGiven (id : Uuid) (stock : ℕ) (db db' : Db) : Type 0 where
  pub left : ℕ
  pub is : stock_of id db' ≡ some (pos left)
  pub balanced : left + redeemed id db' ≡ stock + redeemed id db

abbrev pub Conserves : Uuid → Db → Db → Type 0
Conserves id db db' = (stock : ℕ) → stock_of id db ≡ some (pos stock) → IsGiven id stock db db'

conserving : (id : Uuid) → IsFrame (Conserves id)
conserving id = record {
  stay = λ db stock is. record { left = stock; is = is; balanced = refl };
  go = λ a b c p q stock is.
      let first = p stock is in
      let second = q first.left first.is in
      record { left = second.left; is = second.is; balanced = second.balanced ∙ first.balanced };
}

try_spend-Same :
    (user : Uuid) (cost : ℤ) (now : Instant)
    → Respects (Same but_points) (try_spend_tx user cost now)
unfolding try_spend_tx
try_spend-Same user cost now =
    >>=-Respects (Same-IsFrame but_points) (reject_if-Respects (Same-IsFrame but_points) _ _) λ u.
      >>=-Respects (Same-IsFrame but_points) (lock_balance-Respects (Same-IsFrame but_points) user)
        λ lock.
          >>=-Respects (Same-IsFrame but_points) (reject_if-Respects (Same-IsFrame but_points) _ _)
            λ v db b db' e. ap but_points (apply_delta_tx-IsApplied lock _ now db e).state

find-decrement :
    (id : Uuid) (rows : List Reward) {r : Reward}
    → find (is_reward id) rows ≡ some r
    → find (is_reward id) (decrement_rows id rows) ≡ some (take_one r)
find-decrement id [] h = cc h
find-decrement id (x ∷ xs) h = elim (Bool-cases (x.id == id)) [
  | inl hit ↦
      let h' = rw hit at h in
      rw (hit, hit)
        (ap (λ (o : Option Reward). elim o [ none ↦ none | some y ↦ some (take_one y) ]) h')
  | inr miss ↦ rw (miss, miss) (find-decrement id xs (rw miss at h))
]

find-other :
    (id other : Uuid) (rows : List Reward)
    → (other == id) ≡ false
    → find (is_reward id) (decrement_rows other rows) ≡ find (is_reward id) rows
find-other id other [] h = refl
find-other id other (x ∷ xs) h = elim (Bool-cases (x.id == other)) [
  | inl hit ↦
      let same : x.id ≡ other = (==_iff x.id other).0 hit in
      let miss : (x.id == id) ≡ false = rw same h in rw (hit, miss) (find-other id other xs h)
  | inr keep ↦
      rw keep
        (ap (λ (o : Option Reward). if x.id == id then some x else o) (find-other id other xs h))
]

less_stock :
    (stock : ℕ)
    → leb_ℤ (pos stock) (pos 0) ≡ false
    → (left : ℕ) × (pos stock -ℤ pos 1 ≡ pos left) × (left + 1 ≡ stock)
unfolding ◌-ℤ◌
less_stock stock room = (stock - 1, ground (arith, room), ground (arith, room))

find_reward :
    (id : Uuid) (rows : List Reward) {r : Reward} → find (is_reward id) rows ≡ some r → r.id ≡ id
find_reward id [] h = cc h
find_reward id (x ∷ xs) h = elim (Bool-cases (x.id == id)) [
  | inl hit ↦ let e = rw hit at h in let e' = (==_iff x.id id).0 hit in ground (arith, e, e')
  | inr miss ↦ find_reward id xs (rw miss at h)
]

abbrev taken : Uuid → Option ℤ → List Reward → List Reward
taken id none rows = rows
taken id (some stock) rows = decrement_rows id rows

-- What a redemption that commits has found and left of the rewards.
record IsTaken (reward_id : Uuid) (db db' : Db) : Type 0 where
  reward : Reward
  listed : find (is_reward reward_id) db.rewards ≡ some reward
  stocked : is_out reward.stock ≡ false
  row : RewardRedemption
  of_reward : row.reward_id ≡ reward.id
  rewards : db'.rewards ≡ taken reward.id reward.stock db.rewards
  redemptions : db'.reward_redemptions ≡ db.reward_redemptions ++ row ∷ []

take_finite-state :
    (id : Uuid) (stock : Option ℤ) (db : Db) {u : Unit {0}} {db' : Db}
    → take_finite id stock db ≡ committed u db'
    → (db'.rewards ≡ taken id stock db.rewards) × (db'.reward_redemptions ≡ db.reward_redemptions)
unfolding decrement_stock_tx
take_finite-state id none db h =
    let same = (pure-state db h).1 in
    (ap (λ (d : Db). d.rewards) same, ap (λ (d : Db). d.reward_redemptions) same)
take_finite-state id (some stock) db h =
    let wrote = query_or-committed _ (decrement_stock_tx id) db h in
    elim (Bool-cases (any (λ r. is_reward id r && is_negative (less_one r.stock)) db.rewards)) [
      | inl below ↦ (let w = rw (below, decrement_stock_tx) at wrote in cc w)
      | inr fine ↦ (let w = rw (fine, decrement_stock_tx) at wrote in (cc w, cc w))
    ]

insert_redemption-state :
    (reward user : Uuid) (spent : ℤ) (db : Db) {row : RewardRedemption} {db' : Db}
    → insert_redemption_tx reward user spent db ≡ done row db'
    → (row.reward_id ≡ reward)
      × (db'.rewards ≡ db.rewards)
      × (db'.reward_redemptions ≡ db.reward_redemptions ++ row ∷ [])
unfolding insert_redemption_tx
insert_redemption-state reward user spent db h = (cc h, cc h, cc h)

redeem_body-IsTaken :
    (user reward_id : Uuid) (now : Instant) (db : Db) {response : RedeemResponse} {db' : Db}
    → redeem_body user reward_id now db ≡ committed response db'
    → IsTaken reward_id db db'
unfolding redeem_body lock_by_id_tx
redeem_body-IsTaken user reward_id now db h =
    let (found, db₁, looked, h₁) = query-then _ _ _ db h in
    let (reward, is, h₂) = some_or-then _ _ _ db₁ h₁ in
    let (active, h₃) = reject_if-then _ _ _ db₁ h₂ in
    let (stocked, h₄) = reject_if-then _ _ _ db₁ h₃ in
    let (balance, db₂, paid, h₅) = >>=-committed _ _ db₁ h₄ in
    let (u, db₃, took, h₆) = >>=-committed _ _ db₂ h₅ in
    let (row, db₄, added, h₇) = query-then _ _ _ db₃ h₆ in
    let ended = (pure-state db₄ h₇).1 in
    let start : db₁ ≡ db = cc looked in
    let known : find (is_reward reward_id) db.rewards ≡ found = cc looked in
    let points = try_spend-Same user reward.points_cost now db₁ balance db₂ paid in
    let stock = take_finite-state reward.id reward.stock db₂ took in
    let insert = insert_redemption-state reward.id user reward.points_cost db₃ added in
    let same : db₂.rewards ≡ db.rewards =
      ap (λ (d : Db). d.rewards) points ∙ ap (λ (d : Db). d.rewards) start in
    let same' : db₂.reward_redemptions ≡ db.reward_redemptions =
      ap (λ (d : Db). d.reward_redemptions) points ∙ ap (λ (d : Db). d.reward_redemptions) start in
    record {
      reward = reward;
      listed = known ∙ is;
      stocked = stocked;
      row = row;
      of_reward = insert.0;
      rewards =
          ap (λ (d : Db). d.rewards) ended
          ∙ insert.1
          ∙ stock.0
          ∙ ap (taken reward.id reward.stock) same;
      redemptions =
          ap (λ (d : Db). d.reward_redemptions) ended
          ∙ insert.2
          ∙ ap (λ (rows : List RewardRedemption). rows ++ row ∷ []) (stock.1 ∙ same');
    }

taken-other :
    (id other : Uuid) (stock : Option ℤ) (rows : List Reward)
    → (other == id) ≡ false
    → find (is_reward id) (taken other stock rows) ≡ find (is_reward id) rows
taken-other id other none rows h = refl
taken-other id other (some stock) rows h = find-other id other rows h

taken-mine :
    (id : Uuid) (rows : List Reward) {r : Reward} {stock : ℤ}
    → find (is_reward id) rows ≡ some r
    → r.stock ≡ some stock
    → stock_in (find (is_reward id) (taken id r.stock rows)) ≡ some (stock -ℤ pos 1)
taken-mine id rows {r} h limited = rw limited (rw (find-decrement id rows h) (rw limited refl))

IsTaken-Conserves :
    (id reward_id : Uuid) (db db' : Db) → IsTaken reward_id db db' → Conserves id db db'
IsTaken-Conserves id reward_id db db' t stock is =
    let named : t.reward.id ≡ reward_id = find_reward reward_id db.rewards t.listed in
    let total : redeemed id db' ≡ redeemed id db + (if t.row.reward_id == id then 1 else 0) =
      ap (count (is_redeemed id)) t.redemptions
      ∙ count-snoc (is_redeemed id) t.row db.reward_redemptions in
    elim (Bool-cases (t.reward.id == id)) [
      | inr other ↦
          let other_row : (t.row.reward_id == id) ≡ false = rw t.of_reward other in
          record {
            left = stock;
            is =
                ap (λ (rows : List Reward). stock_in (find (is_reward id) rows)) t.rewards
                ∙ ap stock_in (taken-other id t.reward.id t.reward.stock db.rewards other)
                ∙ is;
            balanced = ground (arith, rw other_row at total);
          }
      | inl mine ↦
          let me : t.reward.id ≡ id = (==_iff t.reward.id id).0 mine in
          let my_row : (t.row.reward_id == id) ≡ true = rw t.of_reward mine in
          let listed : find (is_reward id) db.rewards ≡ some t.reward =
            rw (sym named ∙ me) at t.listed in
          let limited : t.reward.stock ≡ some (pos stock) = sym (ap stock_in listed) ∙ is in
          let room : leb_ℤ (pos stock) (pos 0) ≡ false = rw limited at t.stocked in
          let (left, is_left, sum) = less_stock stock room in
          record {
            left = left;
            is =
                ap (λ (rows : List Reward). stock_in (find (is_reward id) rows)) t.rewards
                ∙ ap
                    (λ (i : Uuid).
                      stock_in (find (is_reward id) (taken i t.reward.stock db.rewards)))
                    me
                ∙ taken-mine id db.rewards listed limited
                ∙ ap some is_left;
            balanced = ground (arith, sum, rw my_row at total);
          }
    ]

pub record Redemption : Type 0 where
  pub user : Uuid
  pub reward : Uuid
  pub now : Instant

abbrev pub redeem_all : List Redemption → Db → Db
redeem_all [] db = db
redeem_all (r ∷ rs) db = redeem_all rs (redeem r.user r.reward r.now db).1

-- A limited reward is never given out more often than it is in stock: whatever redemptions are
-- served, granted or refused, a stock that was not negative is not, and what is left of it and the
-- redemptions of the reward add up to what they did before.
pub redeem_all-IsGiven :
    (id : Uuid) (rs : List Redemption) (db : Db) (stock : ℕ)
    → stock_of id db ≡ some (pos stock)
    → IsGiven id stock db (redeem_all rs db)
redeem_all-IsGiven id [] db = (conserving id).stay db
redeem_all-IsGiven id (r ∷ rs) db =
    let served = (redeem r.user r.reward r.now db).1 in
    (conserving id).go db served (redeem_all rs served)
      (in_transaction-RespectsPool (conserving id) _
        (λ d response d' e.
          IsTaken-Conserves id r.reward d d' (redeem_body-IsTaken r.user r.reward r.now d e))
        db)
      (redeem_all-IsGiven id rs served)
