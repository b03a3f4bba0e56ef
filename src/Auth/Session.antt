-- ===== src/Auth/Session.antt =====
-- src/modules/auth/session.rs: issuing, rotating and ending sessions; src/modules/auth/access.rs.
pub mod Spent
pub mod Started
pub mod Rotated
pub mod Outcome
pub mod Once
use dream_fly_backend.Prelude.{
  ℕ, ◌+◌, ◌*◌, ℤ, pos, ◌+ℤ◌, ltb_ℤ, String, Bool, true, false, not, Option, none, some, List, [],
  ◌∷◌, ◌++◌, map, filter, find, any, count, ◌==◌, if◌then◌else◌,
}
use dream_fly_backend.Base.{Uuid, Instant}
use dream_fly_backend.AppError.{AppError, Result, ok, err, unauthorized, database, unique_violation}
use dream_fly_backend.Auth.Model.{RefreshToken}
use dream_fly_backend.Db.{
  Db, UserRow, Sql, done, failed, select, Tx, ◌>>=◌, ◌>>◌, pure, lift, some_or, reject_if, query,
  transaction, new_uuid,
}
use text.Mathlib.Text.{◌==◌ as str_eq}

-- The tokens of src/utils/jwt.rs, signed and checked by the JWT library at a time and, to be unique,
-- for a fresh id; a decoded refresh token gives its subject. `refresh_days` is the configuration's.
pub record Jwt : Type 0 where
  pub encode_access_token : Instant → Uuid → Uuid → Result String
  pub encode_refresh_token : Instant → Uuid → Uuid → Result String
  pub decode_refresh_token : Instant → String → Result String
  pub parse_uuid : String → Option Uuid
  pub hash_token : String → String
  pub refresh_days : ℕ

pub record AuthResponse : Type 0 where
  pub access_token : String
  pub refresh_token : String
  pub user_id : Uuid
  pub roles : List String

abbrev pub has_hash : String → RefreshToken → Bool
has_hash hash r = str_eq r.token_hash hash

abbrev pub new_token : Uuid → Uuid → String → Instant → RefreshToken
new_token id user hash expires_at = record {
  id = id;
  user_id = user;
  token_hash = hash;
  expires_at = expires_at;
  revoked = false;
}

-- With the unique constraint on the hash.
unfoldable pub save_refresh_token : Uuid → String → Instant → Sql (Unit {0})
save_refresh_token user hash expires_at db =
    if any (has_hash hash) db.refresh_tokens
    then failed (database unique_violation (some "refresh_tokens_token_hash_key"))
    else done tt (record db {
      refresh_tokens = db.refresh_tokens ++ new_token (db.uuids db.drawn) user hash expires_at ∷ [];
      drawn = db.drawn + 1;
    })

unfoldable pub find_refresh_token_tx : String → Sql (Option RefreshToken)
find_refresh_token_tx hash = select λ db. find (has_hash hash) db.refresh_tokens

abbrev pub revoke_row : RefreshToken → RefreshToken
revoke_row r = record r { revoked = true }

abbrev pub revoke_rows : String → List RefreshToken → List RefreshToken
revoke_rows hash rows = map (λ r. if has_hash hash r then revoke_row r else r) rows

unfoldable pub revoke_refresh_token : String → Sql (Unit {0})
revoke_refresh_token hash db =
    done tt (record db { refresh_tokens = revoke_rows hash db.refresh_tokens })

abbrev pub is_other : Uuid → RefreshToken → Bool
is_other user r = not (r.user_id == user)

unfoldable pub end_all : Uuid → Sql (Unit {0})
end_all user db = done tt (record db { refresh_tokens = filter (is_other user) db.refresh_tokens })

abbrev pub is_unexpired : Instant → RefreshToken → Bool
is_unexpired now r = not (ltb_ℤ r.expires_at now)

unfoldable pub purge_expired : Instant → Sql ℕ
purge_expired now db =
    done (count (λ r. not (is_unexpired now r)) db.refresh_tokens)
      (record db { refresh_tokens = filter (is_unexpired now) db.refresh_tokens })

abbrev pub is_user : Uuid → UserRow → Bool
is_user id u = u.id == id

-- src/modules/auth/repository.rs
unfoldable pub find_user_by_id_for_share_tx : Uuid → Sql (Option UserRow)
find_user_by_id_for_share_tx id = select λ db. find (is_user id) db.users

-- A committed rotation: a new pair of tokens, or the end of every session of the user.
pub data Rotation : Type 0 where
  issued : AuthResponse → Rotation
  all_ended : Rotation

module _ (jwt : Jwt) (now : Instant) where
  abbrev pub expiry : Instant
  expiry = now +ℤ pos (jwt.refresh_days * 86_400_000_000)

  unfoldable pub start : UserRow → Tx AuthResponse
  start user = do
    reject_if (not user.is_active) unauthorized
    access_id ← query new_uuid
    access ← lift (jwt.encode_access_token now user.id access_id)
    refresh_id ← query new_uuid
    refresh ← lift (jwt.encode_refresh_token now user.id refresh_id)
    query (save_refresh_token user.id (jwt.hash_token refresh) expiry)
    pure record {
      access_token = access;
      refresh_token = refresh;
      user_id = user.id;
      roles = user.roles;
    }

  abbrev pub wipe : Uuid → Tx Rotation
  wipe user = do query (end_all user); pure all_ended

  abbrev pub issue : UserRow → Tx Rotation
  issue user = do response ← start user; pure (issued response)

  abbrev pub exchange : String → UserRow → RefreshToken → Tx Rotation
  exchange hash user stored = do
    reject_if (ltb_ℤ stored.expires_at now) unauthorized
    query (revoke_refresh_token hash)
    if not user.is_active then wipe user.id else issue user

  unfoldable pub rotate_body : String → Uuid → Tx Rotation
  rotate_body hash user_id = do
    found ← query (find_user_by_id_for_share_tx user_id)
    user ← some_or found unauthorized
    row ← query (find_refresh_token_tx hash)
    stored ← some_or row unauthorized
    reject_if (not (stored.user_id == user_id)) unauthorized
    if stored.revoked then wipe stored.user_id else exchange hash user stored

  abbrev pub conclude : Result Rotation × Db → Result AuthResponse × Db
  conclude (err e, db) = (err e, db)
  conclude (ok (issued response), db) = (ok response, db)
  conclude (ok all_ended, db) = (err unauthorized, db)

  abbrev pub rotate_as : String → Option Uuid → Db → Result AuthResponse × Db
  rotate_as token none db = (err unauthorized, db)
  rotate_as token (some user_id) db =
      conclude (transaction (rotate_body (jwt.hash_token token) user_id) db)

  unfoldable pub rotate : String → Db → Result AuthResponse × Db
  rotate token db = elim (jwt.decode_refresh_token now token) [
    | err e ↦ (err e, db)
    | ok sub ↦ rotate_as token (jwt.parse_uuid sub) db
  ]

  -- A logout: one that presents no valid token changes nothing.
  unfoldable pub end : String → Db → Result (Unit {0}) × Db
  end token db = elim (jwt.decode_refresh_token now token) [
    | err e ↦ (ok tt, db)
    | ok sub ↦ transaction (query (revoke_refresh_token (jwt.hash_token token))) db
  ]

abbrev pub set_active : Uuid → Bool → List UserRow → List UserRow
set_active id active users =
    map (λ u. if is_user id u then record u { is_active = active } else u) users

unfoldable pub set_active_tx : Uuid → Bool → Sql (Unit {0})
set_active_tx id active db = done tt (record db { users = set_active id active db.users })

unfoldable pub deactivate_tx : Uuid → Tx (Unit {0})
deactivate_tx user = do query (set_active_tx user false); query (end_all user)

unfoldable pub reactivate_tx : Uuid → Tx (Unit {0})
reactivate_tx user = query (set_active_tx user true)
