-- ===== src/Auth/Session/Outcome.antt =====
-- src/modules/auth/session.rs: every outcome of a rotation.
use dream_fly_backend.Prelude.{◌≡◌, ◌⊎◌, refl, String, Option-cases, inl, inr}
use dream_fly_backend.Base.{Uuid, Instant}
use dream_fly_backend.AppError.{AppError, Result, ok, err, Result-cases, unauthorized}
use dream_fly_backend.Auth.Session.{
  Jwt, AuthResponse, Rotation, issued, all_ended, rotate_body, conclude, rotate,
}
use dream_fly_backend.Auth.Session.Rotated.{IsIssued, IsWiped, rotate_body-IsRotation}
use dream_fly_backend.Db.{Db, committed, transaction, TxOut, rolled_back, kept, transaction-kept}

-- A rotation that reaches the database, by the user that the token names.
pub record IsReached (jwt : Jwt) (now : Instant) (token : String) (db : Db) : Type 0 where
  pub user_id : Uuid
  pub run :
      rotate jwt now token db
      ≡ conclude jwt now (transaction (rotate_body jwt now (jwt.hash_token token) user_id) db)

pub rotate-IsReached :
    (jwt : Jwt) (now : Instant) (token : String) (db : Db)
    → ((e : AppError) × (rotate jwt now token db ≡ (err e, db))) ⊎ IsReached jwt now token db
unfolding rotate
rotate-IsReached jwt now token db = elim (Result-cases (jwt.decode_refresh_token now token)) [
  | inr (e, bad) ↦ inl (e, rw (bad, rotate) refl)
  | inl (sub, fine) ↦ elim (Option-cases (jwt.parse_uuid sub)) [
    | inl no_id ↦ inl (unauthorized, rw (fine, rotate) (rw no_id refl))
    | inr (user_id, is) ↦ inr record { user_id = user_id; run = rw (fine, rotate) (rw is refl) }
  ]
]

abbrev pub Outcome : Jwt → Instant → String → Db → Result AuthResponse × Db → Type 0
Outcome jwt now token db r =
    ((e : AppError) × (r ≡ (err e, db)))
    ⊎ (((user_id : Uuid) × (db' : Db) × IsWiped (jwt.hash_token token) user_id db db'
          × (r ≡ (err unauthorized, db')))
        ⊎ ((user_id : Uuid) × (response : AuthResponse) × (db' : Db) × IsIssued jwt now
              (jwt.hash_token token) user_id response db db'
            × (r ≡ (ok response, db'))))

body-Outcome :
    (jwt : Jwt) (now : Instant) (token : String) (user_id : Uuid) (db : Db) (t : TxOut Rotation)
    → rotate_body jwt now (jwt.hash_token token) user_id db ≡ t
    → Outcome jwt now token db (conclude jwt now (kept db t))
body-Outcome jwt now token user_id db (rolled_back e) h = inl (e, refl)
body-Outcome jwt now token user_id db (committed (issued response) db') h = inr (
    inr (
      user_id,
      response,
      db',
      rotate_body-IsRotation jwt now (jwt.hash_token token) user_id db h,
      refl,
    ))
body-Outcome jwt now token user_id db (committed all_ended db') h =
    inr
      (inl (user_id, db', rotate_body-IsRotation jwt now (jwt.hash_token token) user_id db h, refl))

-- A rotation either reports an error and leaves the database as it was; or it refuses a token that
-- was revoked before, or whose user is deactivated, and ends every session of that user; or the token
-- was live, unexpired and of an active user, and its row is revoked and exactly one new one added.
pub rotate-Outcome :
    (jwt : Jwt) (now : Instant) (token : String) (db : Db)
    → Outcome jwt now token db (rotate jwt now token db)
rotate-Outcome jwt now token db = elim (rotate-IsReached jwt now token db) [
  | inl stopped ↦ inl stopped
  | inr it ↦
      let run =
        transaction-kept (rotate_body jwt now (jwt.hash_token token) it.user_id) db _ refl in
      rw (it.run, run)
        (body-Outcome jwt now token it.user_id db
          (rotate_body jwt now (jwt.hash_token token) it.user_id db) refl)
]
