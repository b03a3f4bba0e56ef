-- ===== src/Auth/Session/Once.antt =====
-- src/modules/auth/session.rs: a token is exchanged at most once.
use dream_fly_backend.Prelude.{
  ℕ, ◌+◌, ◌≤◌, ◌≡◌, refl, ap, sym, ◌∙◌, String, true, false, List, [], ◌∷◌, arith, inl, inr,
  all-append,
}
use dream_fly_backend.Base.{Uuid, Instant}
use dream_fly_backend.AppError.{AppError, Result, ok, err, Result-cases, unauthorized}
use dream_fly_backend.Auth.Session.{
  Jwt, AuthResponse, new_token, revoke_rows, end_all, purge_expired, expiry, start, Rotation,
  issued, all_ended, rotate_body, conclude, rotate, end, deactivate_tx, reactivate_tx,
}
use dream_fly_backend.Auth.Session.Spent.{
  IsPast, IsSpent, is_spent, keeping, all-revoked, find-spent, start-Respects, rotate_body-Respects,
  end_all-Respects, purge-Respects, revoke-Respects, set_active-Respects,
}
use dream_fly_backend.Db.{Db, UserRow, query, transaction, >>=-Respects, query-Respects}
use dream_fly_backend.Db.Pool.Frame.{in_transaction-RespectsPool}
use text.Mathlib.Text.{◌==◌ as str_eq}
use dream_fly_backend.Auth.Session.Outcome.{rotate-IsReached, rotate-Outcome}

-- A spent token is refused.
rotate-IsSpent :
    (jwt : Jwt) (now : Instant) (token : String) (db : Db)
    → IsSpent (jwt.hash_token token) db
    → (e : AppError) × ((rotate jwt now token db).0 ≡ err e)
rotate-IsSpent jwt now token db p = elim (rotate-Outcome jwt now token db) [
  | inl (e, r) ↦ (e, ap (λ (x : Result AuthResponse × Db). x.0) r)
  | inr (inl (user_id, db', wiped, r)) ↦
      (unauthorized, ap (λ (x : Result AuthResponse × Db). x.0) r)
  | inr (inr (user_id, response, db', it, r)) ↦
      let spent = find-spent (jwt.hash_token token) db.refresh_tokens p it.listed in
      absurd (ground (arith, spent, it.live))
]

-- What happens to sessions, by any user.
pub data Act : Type 0 where
  log_in : Instant → UserRow → Act
  refresh : Instant → (token : String) → Act
  log_out : Instant → (token : String) → Act
  deactivate reactivate reset_password : (user : Uuid) → Act
  purge : Instant → Act

abbrev pub act : Jwt → Act → Db → Db
act jwt (log_in now user) db = (transaction (start jwt now user) db).1
act jwt (refresh now token) db = (rotate jwt now token db).1
act jwt (log_out now token) db = (end jwt now token db).1
act jwt (deactivate user) db = (transaction (deactivate_tx user) db).1
act jwt (reactivate user) db = (transaction (reactivate_tx user) db).1
act jwt (reset_password user) db = (transaction (query (end_all user)) db).1
act jwt (purge now) db = (transaction (query (purge_expired now)) db).1

abbrev pub act_all : Jwt → List Act → Db → Db
act_all jwt [] db = db
act_all jwt (a ∷ acts) db = act_all jwt acts (act jwt a db)

conclude-state :
    (jwt : Jwt) (now : Instant) (r : Result Rotation × Db) → (conclude jwt now r).1 ≡ r.1
conclude-state jwt now (err e, db) = refl
conclude-state jwt now (ok (issued response), db) = refl
conclude-state jwt now (ok all_ended, db) = refl

module _ (hash : String) (supply : ℕ → Uuid) (base : ℕ) (jwt : Jwt)
    (fresh : (n : ℕ) (now : Instant) (user : Uuid) (token : String)
      → base ≤ n
      → jwt.encode_refresh_token now user (supply n) ≡ ok token
      → str_eq (jwt.hash_token token) hash ≡ false) where
  rotate-IsPast :
      (now : Instant) (token : String) (db : Db)
      → IsPast hash supply base db
      → IsPast hash supply base (rotate jwt now token db).1
  rotate-IsPast now token db p = elim (rotate-IsReached jwt now token db) [
    | inl (e, r) ↦ rw r p
    | inr it ↦
        rw
          (
            it.run,
            conclude-state jwt now
                (transaction (rotate_body jwt now (jwt.hash_token token) it.user_id) db),
          )
          (in_transaction-RespectsPool (keeping hash supply base) _
            (rotate_body-Respects hash supply base jwt fresh now (jwt.hash_token token) it.user_id)
            db p)
  ]

  end-IsPast :
      (now : Instant) (token : String) (db : Db)
      → IsPast hash supply base db
      → IsPast hash supply base (end jwt now token db).1
  unfolding end
  end-IsPast now token db p = elim (Result-cases (jwt.decode_refresh_token now token)) [
    | inr (e, bad) ↦ rw (bad, end) p
    | inl (sub, fine) ↦
        rw (fine, end)
          (in_transaction-RespectsPool (keeping hash supply base) _
            (query-Respects (keeping hash supply base) _ _
              (revoke-Respects hash supply base (jwt.hash_token token)))
            db p)
  ]

  act-IsPast :
      (a : Act) (db : Db) → IsPast hash supply base db → IsPast hash supply base (act jwt a db)
  unfolding deactivate_tx reactivate_tx
  act-IsPast (log_in now user) db p =
      in_transaction-RespectsPool (keeping hash supply base) _
        (start-Respects hash supply base jwt fresh now user) db p
  act-IsPast (refresh now token) db p = rotate-IsPast now token db p
  act-IsPast (log_out now token) db p = end-IsPast now token db p
  act-IsPast (deactivate user) db p =
      in_transaction-RespectsPool (keeping hash supply base) _
        (>>=-Respects (keeping hash supply base)
          (query-Respects (keeping hash supply base) _ _
            (set_active-Respects hash supply base user false))
          (λ _.
            query-Respects (keeping hash supply base) _ _ (end_all-Respects hash supply base user)))
        db p
  act-IsPast (reactivate user) db p =
      in_transaction-RespectsPool (keeping hash supply base) _
        (query-Respects (keeping hash supply base) _ _
          (set_active-Respects hash supply base user true))
        db p
  act-IsPast (reset_password user) db p =
      in_transaction-RespectsPool (keeping hash supply base) _
        (query-Respects (keeping hash supply base) _ _ (end_all-Respects hash supply base user)) db
        p
  act-IsPast (purge now) db p =
      in_transaction-RespectsPool (keeping hash supply base) _
        (query-Respects (keeping hash supply base) _ _ (purge-Respects hash supply base now)) db p

  act_all-IsPast :
      (acts : List Act) (db : Db)
      → IsPast hash supply base db
      → IsPast hash supply base (act_all jwt acts db)
  act_all-IsPast [] db p = p
  act_all-IsPast (a ∷ acts) db p = act_all-IsPast acts (act jwt a db) (act-IsPast a db p)

rotate-ok :
    (jwt : Jwt) (now : Instant) (token : String) (db db₁ : Db) {response : AuthResponse}
    → ((n : ℕ) (at : Instant) (user : Uuid) (new : String)
        → db.drawn ≤ n
        → jwt.encode_refresh_token at user (db.uuids n) ≡ ok new
        → str_eq (jwt.hash_token new) (jwt.hash_token token) ≡ false)
    → rotate jwt now token db ≡ (ok response, db₁)
    → IsPast (jwt.hash_token token) db.uuids db.drawn db₁
rotate-ok jwt now token db db₁ {response} fresh h = elim (rotate-Outcome jwt now token db) [
  | inl (e, r) ↦ cc
  | inr (inl (user_id, db', wiped, r)) ↦ cc
  | inr (inr (user_id, response', db', it, r)) ↦
      let same : db₁ ≡ db' = ap (λ (x : Result AuthResponse × Db). x.1) (sym h ∙ r) in
      let row =
        new_token it.row_id it.user.id (jwt.hash_token response'.refresh_token) (expiry jwt now) in
      let differs : str_eq (jwt.hash_token response'.refresh_token) (jwt.hash_token token) ≡ false =
        fresh (db.drawn + 1) now it.user.id response'.refresh_token (omega arith)
          (rw it.supplied at it.encoded) in
      let rows = revoke_rows (jwt.hash_token token) db.refresh_tokens in
      rw (same, it.state)
        record {
          spent = ground (
            arith,
            all-append (is_spent (jwt.hash_token token)) rows (row ∷ []),
            all-revoked (jwt.hash_token token) db.refresh_tokens,
            differs,
          );
          same_supply = refl;
          later = omega arith;
        }
]

-- A refresh token is exchanged at most once: after a rotation of it that succeeds, and whatever
-- logins, rotations, logouts, deactivations, reactivations, password resets and purges follow, every
-- further rotation of it is refused. The hypothesis: the refresh tokens that are encoded for ids
-- still to be drawn hash to other values than this token.
pub rotate_once :
    (jwt : Jwt) (token : String) (now now' : Instant) (acts : List Act) (db db₁ : Db)
    {response : AuthResponse}
    → ((n : ℕ) (at : Instant) (user : Uuid) (new : String)
        → db.drawn ≤ n
        → jwt.encode_refresh_token at user (db.uuids n) ≡ ok new
        → str_eq (jwt.hash_token new) (jwt.hash_token token) ≡ false)
    → rotate jwt now token db ≡ (ok response, db₁)
    → (e : AppError) × ((rotate jwt now' token (act_all jwt acts db₁)).0 ≡ err e)
rotate_once jwt token now now' acts db db₁ fresh h =
    rotate-IsSpent jwt now' token (act_all jwt acts db₁)
      (act_all-IsPast (jwt.hash_token token) db.uuids db.drawn jwt fresh acts db₁
        (rotate-ok jwt now token db db₁ fresh h)).spent
