-- ===== src/Auth/Session/Started.antt =====
-- src/modules/auth/session.rs: what a start has found and written.
use dream_fly_backend.Prelude.{
  ◌+◌, ◌≡◌, refl, ap, ◌∙◌, String, true, [], ◌∷◌, ◌++◌, any, arith, Bool-cases, inl, inr,
}
use dream_fly_backend.Base.{Uuid, Instant}
use dream_fly_backend.AppError.{ok}
use dream_fly_backend.Auth.Session.{
  Jwt, AuthResponse, has_hash, new_token, save_refresh_token, expiry, start,
}
use dream_fly_backend.Db.{
  Db, UserRow, done, committed, new_uuid, query-then, lift-then, reject_if-then, pure-state,
}

new_uuid-state :
    (db : Db) {id : Uuid} {db' : Db}
    → new_uuid db ≡ done id db'
    → (id ≡ db.uuids db.drawn) × (db' ≡ record db { drawn = db.drawn + 1 })
unfolding new_uuid
new_uuid-state db h = (cc h, cc h)

save-state :
    (user : Uuid) (hash : String) (at : Instant) (db : Db) {u : Unit {0}} {db' : Db}
    → save_refresh_token user hash at db ≡ done u db'
    → db' ≡ record db {
      refresh_tokens = db.refresh_tokens ++ new_token (db.uuids db.drawn) user hash at ∷ [];
      drawn = db.drawn + 1;
    }
unfolding save_refresh_token
save-state user hash at db h = elim (Bool-cases (any (has_hash hash) db.refresh_tokens)) [
  | inl twice ↦ (let h' = rw (twice, save_refresh_token) at h in cc h')
  | inr fresh ↦ (let h' = rw (fresh, save_refresh_token) at h in cc h')
]

-- What a start has found and written.
pub record IsStarted (jwt : Jwt) (now : Instant) (user : UserRow) (response : AuthResponse)
    (db db' : Db) : Type 0 where
  pub active : user.is_active ≡ true
  pub jti : Uuid
  pub supplied : jti ≡ db.uuids (db.drawn + 1)
  pub encoded : jwt.encode_refresh_token now user.id jti ≡ ok response.refresh_token
  pub row_id : Uuid
  pub state : db' ≡ record db {
    refresh_tokens =
        db.refresh_tokens
        ++ new_token row_id user.id (jwt.hash_token response.refresh_token) (expiry jwt now) ∷ [];
    drawn = db.drawn + 1 + 1 + 1;
  }

started :
    (jwt : Jwt) (now : Instant) (user : UserRow) (db db₁ db₂ db₃ : Db) {response : AuthResponse}
    {refresh : String} {jti : Uuid} {db' : Db}
    → response.refresh_token ≡ refresh
    → jti ≡ db₁.uuids db₁.drawn
    → jwt.encode_refresh_token now user.id jti ≡ ok refresh
    → user.is_active ≡ true
    → db₁ ≡ record db { drawn = db.drawn + 1 }
    → db₂ ≡ record db₁ { drawn = db₁.drawn + 1 }
    → db₃ ≡ record db₂ {
      refresh_tokens =
          db₂.refresh_tokens
          ++ new_token (db₂.uuids db₂.drawn) user.id (jwt.hash_token refresh) (expiry jwt now) ∷ [];
      drawn = db₂.drawn + 1;
    }
    → db' ≡ db₃
    → IsStarted jwt now user response db db'
started jwt now user db db₁ db₂ db₃ {response} {refresh} {jti} {db'} token drew e active s₁ s₂ s₃
      ended =
    record {
      active = active;
      jti = jti;
      supplied = drew ∙ ap (λ (d : Db). d.uuids d.drawn) s₁;
      encoded = rw token e;
      row_id = db.uuids (db.drawn + 1 + 1);
      state = rw (ended, s₃, s₂, s₁, token) refl;
    }

pub start-IsStarted :
    (jwt : Jwt) (now : Instant) (user : UserRow) (db : Db) {response : AuthResponse} {db' : Db}
    → start jwt now user db ≡ committed response db'
    → IsStarted jwt now user response db db'
unfolding start
start-IsStarted jwt now user db {response} {db'} h =
    let (shut, h₁) = reject_if-then _ _ _ db h in
    let (a, db₁, drawn₁, h₂) = query-then _ _ _ db h₁ in
    let (access, e₁, h₃) = lift-then _ _ db₁ h₂ in
    let (jti, db₂, drawn₂, h₄) = query-then _ _ _ db₁ h₃ in
    let (refresh, e₂, h₅) = lift-then _ _ db₂ h₄ in
    let (u, db₃, saved, h₆) = query-then _ _ _ db₂ h₅ in
    let (same, ended) = pure-state db₃ h₆ in
    let s₁ = new_uuid-state db drawn₁ in
    let s₂ = new_uuid-state db₁ drawn₂ in
    let s₃ = save-state user.id (jwt.hash_token refresh) (expiry jwt now) db₂ saved in
    started jwt now user db db₁ db₂ db₃ (ap (λ (r : AuthResponse). r.refresh_token) same)
      (new_uuid-state db₁ drawn₂).0 e₂ (ground (arith, shut)) (new_uuid-state db drawn₁).1
      (new_uuid-state db₁ drawn₂).1
      (save-state user.id (jwt.hash_token refresh) (expiry jwt now) db₂ saved) ended
