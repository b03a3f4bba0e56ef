-- ===== src/Auth/Model.antt =====
-- src/modules/auth/model.rs: a refresh token's row.
use dream_fly_backend.Prelude.{String, Bool}
use dream_fly_backend.Base.{Uuid, Instant}

pub record RefreshToken : Type 0 where
  pub id : Uuid
  pub user_id : Uuid
  pub token_hash : String
  pub expires_at : Instant
  pub revoked : Bool
