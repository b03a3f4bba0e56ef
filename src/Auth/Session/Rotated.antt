-- ===== src/Auth/Session/Rotated.antt =====
-- src/modules/auth/session.rs: what a rotation has found and written.
use dream_fly_backend.Prelude.{
  ◌+◌, ◌≡◌, ◌⊎◌, refl, ap, sym, ◌∙◌, ltb_ℤ, String, true, false, not, Option, some, List, [], ◌∷◌,
  ◌++◌, filter, find, any, arith, ◌==◌, ==_iff, Bool-cases, inl, inr, if◌then◌else◌,
}
use dream_fly_backend.Base.{Uuid, Instant}
use dream_fly_backend.AppError.{ok}
use dream_fly_backend.Auth.Model.{RefreshToken}
use dream_fly_backend.Auth.Session.{
  Jwt, AuthResponse, has_hash, new_token, find_refresh_token_tx, revoke_rows, revoke_refresh_token,
  is_other, end_all, is_user, find_user_by_id_for_share_tx, expiry, Rotation, issued, all_ended,
  wipe, issue, exchange, rotate_body,
}
use dream_fly_backend.Db.{
  Db, UserRow, done, committed, query-then, some_or-then, reject_if-then, >>=-committed, pure-state,
  at_state, if-branch,
}
use dream_fly_backend.Auth.Session.Started.{start-IsStarted}

-- A token that was live: its row is revoked, and the row of a new one for the same user appended.
pub record IsIssued (jwt : Jwt) (now : Instant) (hash : String) (user_id : Uuid)
    (response : AuthResponse) (db db' : Db) : Type 0 where
  pub user : UserRow
  pub known : find (is_user user_id) db.users ≡ some user
  pub active : user.is_active ≡ true
  pub stored : RefreshToken
  pub listed : find (has_hash hash) db.refresh_tokens ≡ some stored
  pub owned : stored.user_id ≡ user_id
  pub live : stored.revoked ≡ false
  pub unexpired : ltb_ℤ stored.expires_at now ≡ false
  pub jti : Uuid
  pub supplied : jti ≡ db.uuids (db.drawn + 1)
  pub encoded : jwt.encode_refresh_token now user.id jti ≡ ok response.refresh_token
  pub row_id : Uuid
  pub state : db' ≡ record db {
    refresh_tokens =
        revoke_rows hash db.refresh_tokens
        ++ new_token row_id user.id (jwt.hash_token response.refresh_token) (expiry jwt now) ∷ [];
    drawn = db.drawn + 1 + 1 + 1;
  }

-- A replay of a spent token, or a deactivated account: no session of the user is left.
pub record IsWiped (hash : String) (user_id : Uuid) (db db' : Db) : Type 0 where
  pub stored : RefreshToken
  pub listed : find (has_hash hash) db.refresh_tokens ≡ some stored
  pub user : UserRow
  pub known : find (is_user user_id) db.users ≡ some user
  pub cause : (stored.revoked ≡ true) ⊎ (user.is_active ≡ false)
  pub gone : any (λ r. r.user_id == user_id) db'.refresh_tokens ≡ false

find_token-state :
    (hash : String) (db : Db) {o : Option RefreshToken} {db' : Db}
    → find_refresh_token_tx hash db ≡ done o db'
    → (find (has_hash hash) db.refresh_tokens ≡ o) × (db' ≡ db)
unfolding find_refresh_token_tx
find_token-state hash db h = (cc h, cc h)

find_user-state :
    (id : Uuid) (db : Db) {o : Option UserRow} {db' : Db}
    → find_user_by_id_for_share_tx id db ≡ done o db'
    → (find (is_user id) db.users ≡ o) × (db' ≡ db)
unfolding find_user_by_id_for_share_tx
find_user-state id db h = (cc h, cc h)

revoke-state :
    (hash : String) (db : Db) {u : Unit {0}} {db' : Db}
    → revoke_refresh_token hash db ≡ done u db'
    → db' ≡ record db { refresh_tokens = revoke_rows hash db.refresh_tokens }
unfolding revoke_refresh_token
revoke-state hash db h = cc h

-- A committed rotation, by its answer.
abbrev pub IsRotation : Jwt → Instant → String → Uuid → Rotation → Db → Db → Type 0
IsRotation jwt now hash user_id (issued response) db db' =
    IsIssued jwt now hash user_id response db db'
IsRotation jwt now hash user_id all_ended db db' = IsWiped hash user_id db db'

any-others :
    (user : Uuid) (rows : List RefreshToken)
    → any (λ r. r.user_id == user) (filter (is_other user) rows) ≡ false
any-others user [] = refl
any-others user (r ∷ rows) = elim (Bool-cases (r.user_id == user)) [
  | inl mine ↦ rw mine (any-others user rows)
  | inr other ↦ rw other (ground (arith, other, any-others user rows))
]

wipe-state :
    (jwt : Jwt) (now : Instant) (user : Uuid) (db : Db) {out : Rotation} {db' : Db}
    → wipe jwt now user db ≡ committed out db'
    → (out ≡ all_ended) × (any (λ r. r.user_id == user) db'.refresh_tokens ≡ false)
unfolding end_all
wipe-state jwt now user db h =
    let (u, db₁, ended, h₁) = query-then _ _ _ db h in
    let (same, stay) = pure-state db₁ h₁ in
    let rows : db₁ ≡ record db { refresh_tokens = filter (is_other user) db.refresh_tokens } =
      cc ended in
    (same, rw (stay, rows) (any-others user db.refresh_tokens))

find_user :
    (id : Uuid) (users : List UserRow) {u : UserRow} → find (is_user id) users ≡ some u → u.id ≡ id
find_user id [] h = cc h
find_user id (u ∷ us) h = elim (Bool-cases (u.id == id)) [
  | inl hit ↦ let e = rw hit at h in let e' = (==_iff u.id id).0 hit in ground (arith, e, e')
  | inr miss ↦ find_user id us (rw miss at h)
]

module _ (jwt : Jwt) (now : Instant) (hash : String) (user_id : Uuid) (db : Db) {user : UserRow}
    {stored : RefreshToken} (known : find (is_user user_id) db.users ≡ some user)
    (listed : find (has_hash hash) db.refresh_tokens ≡ some stored)
    (owned : stored.user_id ≡ user_id) where
  issue-IsRotation :
      {out : Rotation} {db' : Db}
      → stored.revoked ≡ false
      → ltb_ℤ stored.expires_at now ≡ false
      → issue jwt now user (record db { refresh_tokens = revoke_rows hash db.refresh_tokens })
        ≡ committed out db'
      → IsRotation jwt now hash user_id out db db'
  issue-IsRotation live unexpired h =
      let (response, db₁, begun, h₁) = >>=-committed _ _ _ h in
      let (same, stay) = pure-state db₁ h₁ in
      let s = start-IsStarted jwt now user _ begun in
      rw (same, stay)
        record {
          user = user;
          known = known;
          active = s.active;
          stored = stored;
          listed = listed;
          owned = owned;
          live = live;
          unexpired = unexpired;
          jti = s.jti;
          supplied = s.supplied;
          encoded = s.encoded;
          row_id = s.row_id;
          state = s.state;
        }

  wipe-IsRotation :
      (target : Uuid) (before : Db) {out : Rotation} {db' : Db}
      → target ≡ user_id
      → (stored.revoked ≡ true) ⊎ (user.is_active ≡ false)
      → wipe jwt now target before ≡ committed out db'
      → IsRotation jwt now hash user_id out db db'
  wipe-IsRotation target before same cause h =
      let (ended, gone) = wipe-state jwt now target before h in
      rw ended record {
        stored = stored;
        listed = listed;
        user = user;
        known = known;
        cause = cause;
        gone = rw (← same) gone;
      }

  exchange-IsRotation :
      {out : Rotation} {db' : Db}
      → stored.revoked ≡ false
      → exchange jwt now hash user stored db ≡ committed out db'
      → IsRotation jwt now hash user_id out db db'
  exchange-IsRotation live h =
      let (unexpired, h₁) = reject_if-then _ _ _ db h in
      let (u, db₁, flipped, h₂) = query-then _ _ _ db h₁ in
      let revoked : db₁ ≡ record db { refresh_tokens = revoke_rows hash db.refresh_tokens } =
        revoke-state hash db flipped in
      elim (if-branch (not user.is_active) (wipe jwt now user.id) (issue jwt now user) db₁ h₂) [
        | inr (active, h₃) ↦ issue-IsRotation live unexpired (rw revoked at h₃)
        | inl (shut, h₃) ↦
            wipe-IsRotation user.id db₁ (find_user user_id db.users known)
              (inr (ground (arith, shut))) h₃
      ]

  settle-IsRotation :
      {out : Rotation} {db' : Db}
      → (if stored.revoked then wipe jwt now stored.user_id else exchange jwt now hash user stored)
          db
        ≡ committed out db'
      → IsRotation jwt now hash user_id out db db'
  settle-IsRotation h =
      elim (if-branch stored.revoked (wipe jwt now stored.user_id)
        (exchange jwt now hash user stored) db h) [
          | inl (spent, h₁) ↦ wipe-IsRotation stored.user_id db owned (inl spent) h₁
          | inr (live, h₁) ↦ exchange-IsRotation live h₁
        ]

pub rotate_body-IsRotation :
    (jwt : Jwt) (now : Instant) (hash : String) (user_id : Uuid) (db : Db) {out : Rotation}
    {db' : Db}
    → rotate_body jwt now hash user_id db ≡ committed out db'
    → IsRotation jwt now hash user_id out db db'
unfolding rotate_body
rotate_body-IsRotation jwt now hash user_id db h =
    let (o₁, db₁, look₁, h₁) = query-then _ _ _ db h in
    let (user, is₁, h₂) = some_or-then _ _ _ db₁ h₁ in
    let (o₂, db₂, look₂, h₃) = query-then _ _ _ db₁ h₂ in
    let (stored, is₂, h₄) = some_or-then _ _ _ db₂ h₃ in
    let (owned, h₅) = reject_if-then _ _ _ db₂ h₄ in
    let (known, same₁) = find_user-state user_id db look₁ in
    let (listed, same₂) = find_token-state hash db₁ look₂ in
    let same = same₂ ∙ same₁ in
    let listed' : find (has_hash hash) db.refresh_tokens ≡ some stored =
      ap (λ (d : Db). find (has_hash hash) d.refresh_tokens) (sym same₁) ∙ (listed ∙ is₂) in
    settle-IsRotation jwt now hash user_id db (known ∙ is₁) listed'
      ((==_iff stored.user_id user_id).0 (ground (arith, owned)))
      (at_state
        (if stored.revoked then wipe jwt now stored.user_id else exchange jwt now hash user stored)
        same h₅)
