-- ===== src/Auth/Session/Spent.antt =====
-- src/modules/auth/session.rs: a refresh token is exchanged at most once.
use dream_fly_backend.Prelude.{
  ℕ, ◌+◌, ◌≤◌, ◌≡◌, refl, ap, ◌∙◌, String, Bool, true, false, not, ◌||◌, some, List, [], ◌∷◌,
  filter, find, all, arith, Bool-cases, inl, inr, if◌then◌else◌, all-append,
}
use dream_fly_backend.Base.{Uuid, Instant}
use dream_fly_backend.AppError.{ok}
use dream_fly_backend.Auth.Model.{RefreshToken}
use dream_fly_backend.Auth.Session.{
  Jwt, has_hash, new_token, find_refresh_token_tx, revoke_rows, revoke_refresh_token, is_other,
  end_all, purge_expired, is_unexpired, find_user_by_id_for_share_tx, expiry, start, issued,
  all_ended, rotate_body, set_active_tx, set_active,
}
use dream_fly_backend.Auth.Session.Started.{start-IsStarted}
use text.Mathlib.Text.{◌==◌ as str_eq}
use dream_fly_backend.Db.{
  Db, UserRow, Tx, Keeps, Keeps-IsFrame, IsFrame, Respects, RespectsSql, >>=-Respects,
  pure-Respects, some_or-Respects, reject_if-Respects, query-Respects, select-Respects,
}

-- No live row has this hash.
abbrev pub is_spent : String → RefreshToken → Bool
is_spent hash r = not (has_hash hash r) || r.revoked

abbrev pub IsSpent : String → Db → Type 0
IsSpent hash db = all (is_spent hash) db.refresh_tokens ≡ true

module _ {A : Type 0} (p q : A → Bool) where
  all-filter : (xs : List A) → all p xs ≡ true → all p (filter q xs) ≡ true
  all-filter [] h = refl
  all-filter (x ∷ xs) h = elim (Bool-cases (q x)) [
    | inl hit ↦ rw hit (ground (arith, h, all-filter xs))
    | inr miss ↦ rw miss (ground (arith, h, all-filter xs))
  ]

all-revoke :
    (hash other : String) (rows : List RefreshToken)
    → all (is_spent hash) rows ≡ true
    → all (is_spent hash) (revoke_rows other rows) ≡ true
all-revoke hash other [] h = refl
all-revoke hash other (r ∷ rows) h = elim (Bool-cases (has_hash other r)) [
  | inl hit ↦ rw hit (ground (arith, h, all-revoke hash other rows))
  | inr miss ↦ rw miss (ground (arith, h, all-revoke hash other rows))
]

pub all-revoked :
    (hash : String) (rows : List RefreshToken) → all (is_spent hash) (revoke_rows hash rows) ≡ true
all-revoked hash [] = refl
all-revoked hash (r ∷ rows) = elim (Bool-cases (has_hash hash r)) [
  | inl hit ↦ rw hit (ground (arith, all-revoked hash rows))
  | inr miss ↦ rw miss (ground (arith, miss, all-revoked hash rows))
]

pub find-spent :
    (hash : String) (rows : List RefreshToken) {r : RefreshToken}
    → all (is_spent hash) rows ≡ true
    → find (has_hash hash) rows ≡ some r
    → r.revoked ≡ true
find-spent hash [] h e = cc e
find-spent hash (r ∷ rows) h e = elim (Bool-cases (has_hash hash r)) [
  | inl hit ↦ (let e' = rw hit at e in ground (arith, hit, h, e'))
  | inr miss ↦ find-spent hash rows (ground (arith, h)) (rw miss at e)
]

-- The state from the exchange on: the hash is spent, and ids come from the supply, from `base` on.
pub record IsPast (hash : String) (supply : ℕ → Uuid) (base : ℕ) (db : Db) : Type 0 where
  pub spent : IsSpent hash db
  pub same_supply : db.uuids ≡ supply
  pub later : base ≤ db.drawn

module _ (hash : String) (supply : ℕ → Uuid) (base : ℕ) where
  pub keeping : IsFrame (Keeps (IsPast hash supply base))
  keeping = Keeps-IsFrame (IsPast hash supply base)

  with_tokens :
      (db : Db) (rows : List RefreshToken)
      → IsPast hash supply base db
      → all (is_spent hash) rows ≡ true
      → IsPast hash supply base (record db { refresh_tokens = rows })
  with_tokens db rows p h = record { spent = h; same_supply = p.same_supply; later = p.later }

  pub end_all-Respects :
      (user : Uuid) → RespectsSql (Keeps (IsPast hash supply base)) (end_all user)
  unfolding end_all
  end_all-Respects user db u db' e p =
      let state : db' ≡ record db { refresh_tokens = filter (is_other user) db.refresh_tokens } =
        cc e in
      rw state (
        with_tokens db (filter (is_other user) db.refresh_tokens) p
          (all-filter (is_spent hash) (is_other user) db.refresh_tokens p.spent))

  pub purge-Respects :
      (now : Instant) → RespectsSql (Keeps (IsPast hash supply base)) (purge_expired now)
  unfolding purge_expired
  purge-Respects now db n db' e p =
      let state : db' ≡ record db { refresh_tokens = filter (is_unexpired now) db.refresh_tokens } =
        cc e in
      rw state (
        with_tokens db (filter (is_unexpired now) db.refresh_tokens) p
          (all-filter (is_spent hash) (is_unexpired now) db.refresh_tokens p.spent))

  pub revoke-Respects :
      (other : String) → RespectsSql (Keeps (IsPast hash supply base)) (revoke_refresh_token other)
  unfolding revoke_refresh_token
  revoke-Respects other db u db' e p =
      let state : db' ≡ record db { refresh_tokens = revoke_rows other db.refresh_tokens } = cc e in
      rw state (
        with_tokens db (revoke_rows other db.refresh_tokens) p
          (all-revoke hash other db.refresh_tokens p.spent))

  pub set_active-Respects :
      (user : Uuid) (active : Bool)
      → RespectsSql (Keeps (IsPast hash supply base)) (set_active_tx user active)
  unfolding set_active_tx
  set_active-Respects user active db u db' e p =
      let state : db' ≡ record db { users = set_active user active db.users } = cc e in
      rw state record { spent = p.spent; same_supply = p.same_supply; later = p.later }

  -- Tokens for the ids that are still to come have other hashes.
  module _ (jwt : Jwt)
      (fresh : (n : ℕ) (now : Instant) (user : Uuid) (token : String)
        → base ≤ n
        → jwt.encode_refresh_token now user (supply n) ≡ ok token
        → str_eq (jwt.hash_token token) hash ≡ false) where
    pub start-Respects :
        (now : Instant) (user : UserRow)
        → Respects (Keeps (IsPast hash supply base)) (start jwt now user)
    start-Respects now user db response db' e p =
        let s = start-IsStarted jwt now user db e in
        let row =
          new_token s.row_id user.id (jwt.hash_token response.refresh_token) (expiry jwt now) in
        let jti : s.jti ≡ supply (db.drawn + 1) =
          s.supplied ∙ ap (λ (f : ℕ → Uuid). f (db.drawn + 1)) p.same_supply in
        let differs : str_eq (jwt.hash_token response.refresh_token) hash ≡ false =
          fresh (db.drawn + 1) now user.id response.refresh_token (omega (arith, p.later))
            (rw jti at s.encoded) in
        rw s.state record {
          spent =
              ground
                (arith, all-append (is_spent hash) db.refresh_tokens (row ∷ []), p.spent, differs);
          same_supply = p.same_supply;
          later = omega (arith, p.later);
        }

    if-Respects :
        {A : Type 0} (c : Bool) {m k : Tx A}
        → Respects (Keeps (IsPast hash supply base)) m
        → Respects (Keeps (IsPast hash supply base)) k
        → Respects (Keeps (IsPast hash supply base)) (if c then m else k)
    if-Respects true h g = h
    if-Respects false h g = g

    pub rotate_body-Respects :
        (now : Instant) (other : String) (user_id : Uuid)
        → Respects (Keeps (IsPast hash supply base)) (rotate_body jwt now other user_id)
    unfolding rotate_body find_user_by_id_for_share_tx find_refresh_token_tx
    rotate_body-Respects now other user_id =
        >>=-Respects keeping (query-Respects keeping _ _ (select-Respects keeping _)) λ found.
          >>=-Respects keeping (some_or-Respects keeping found _) λ user.
            >>=-Respects keeping (query-Respects keeping _ _ (select-Respects keeping _)) λ row.
              >>=-Respects keeping (some_or-Respects keeping row _) λ stored.
                >>=-Respects keeping (reject_if-Respects keeping _ _) λ _.
                  if-Respects stored.revoked
                    (>>=-Respects keeping
                      (query-Respects keeping _ _ (end_all-Respects stored.user_id))
                      λ _. pure-Respects keeping all_ended)
                    (>>=-Respects keeping (reject_if-Respects keeping _ _) λ _.
                      >>=-Respects keeping (query-Respects keeping _ _ (revoke-Respects other)) λ _.
                        if-Respects (not user.is_active)
                          (>>=-Respects keeping
                            (query-Respects keeping _ _ (end_all-Respects user.id))
                            λ _. pure-Respects keeping all_ended)
                          (>>=-Respects keeping (start-Respects now user)
                            λ response. pure-Respects keeping (issued response)))
