-- ===== src/Tests/Auth.antt =====
-- A session that is rotated once, and a cached access check, at concrete inputs.
use dream_fly_backend.Prelude.{
  none, all, true, Bool-cases, inl, inr, ◌==◌, ℕ, ◌≤◌, ◌≡◌, refl, ap, sym, String, false, some,
  List, [], ◌∷◌,
}
use dream_fly_backend.Base.{Uuid, Instant}
use dream_fly_backend.AppError.{AppError, Result, ok, err}
use dream_fly_backend.Auth.Access.{AccessCache, Calls, find_role_names_by_user, resolve}
use dream_fly_backend.Auth.Access.Coherent.{IsCoherent, access}
use dream_fly_backend.Auth.Access.Fresh.{
  Event, ask, deactivate, System, steps, resolve_after-refines,
}
use dream_fly_backend.Auth.Access.Fresh as Cached
use dream_fly_backend.Auth.Access.Names.{is_name}
use dream_fly_backend.Auth.Model.{RefreshToken}
use dream_fly_backend.Auth.Session.{
  Jwt, AuthResponse, save_refresh_token, find_refresh_token_tx, revoke_refresh_token,
  find_user_by_id_for_share_tx, start, rotate_body, rotate,
}
use dream_fly_backend.Auth.Session.Outcome.{Outcome, rotate-Outcome}
use dream_fly_backend.Auth.Session.Once.{
  Act, log_in, refresh, log_out, reactivate, act_all, rotate_once,
}
use dream_fly_backend.Db.{Db}
use dream_fly_backend.Tests.{shop, noon, member}
use dream_fly_backend.Tests.Opened.{opened}
use text.Mathlib.Text.{◌==◌ as str_eq}

-- Every new refresh token reads "new", and texts stand for their own hashes.
abbrev jwt : Jwt
jwt = record {
  encode_access_token = λ now user id. ok "access";
  encode_refresh_token = λ now user id. ok "new";
  decode_refresh_token = λ now token. ok token;
  parse_uuid = λ sub. some 1;
  hash_token = λ token. token;
  refresh_days = 14;
}

abbrev live : RefreshToken
live = record { id = 90; user_id = 1; token_hash = "old"; expires_at = noon; revoked = false }

abbrev signed_in : Db
signed_in = record shop { refresh_tokens = live ∷ [] }

rotate-Outcome_example : Outcome jwt noon "old" signed_in (rotate jwt noon "old" signed_in)
rotate-Outcome_example = rotate-Outcome jwt noon "old" signed_in

abbrev text_of : Result String → String
text_of (ok text) = text
text_of (err e) = ""

abbrev rotated : Db
rotated = (rotate jwt noon "old" signed_in).1

abbrev response : AuthResponse
response = record {
  access_token = "access";
  refresh_token = "new";
  user_id = 1;
  roles = "member" ∷ [];
}

first : rotate jwt noon "old" signed_in ≡ (ok response, rotated)
unfolding rotate rotate_body find_user_by_id_for_share_tx find_refresh_token_tx revoke_refresh_token
    save_refresh_token start opened
first = refl

fresh :
    (n : ℕ) (at : Instant) (user : Uuid) (new : String)
    → 0 ≤ n
    → jwt.encode_refresh_token at user (signed_in.uuids n) ≡ ok new
    → str_eq (jwt.hash_token new) (jwt.hash_token "old") ≡ false
fresh n at user new later encoded =
    ap (λ (r : Result String). str_eq (text_of r) "old") (sym encoded)

abbrev acts : List Act
acts = refresh noon "new" ∷ log_out noon "old" ∷ reactivate 1 ∷ log_in noon member ∷ []

rotate_once_example :
    (e : AppError) × ((rotate jwt noon "old" (act_all jwt acts rotated)).0 ≡ err e)
rotate_once_example = rotate_once jwt "old" noon noon acts signed_in rotated fresh first

abbrev cold : AccessCache
cold = record { active = λ u. none; roles = λ u. none }

abbrev calls : Calls
calls = record { get_active = true; set_active = true; get_roles = true; set_roles = false }

abbrev system : System
system = record { db = shop; cache = cold }

abbrev events : List Event
events = ask calls 1 ∷ ask calls 2 ∷ deactivate 1 ∷ ask calls 1 ∷ Cached.reactivate 1 ∷ []

cold-IsCoherent : IsCoherent shop cold
cold-IsCoherent = record { active = λ u text e. cc e; roles = λ u text e. cc e }

shop-IsName : (u : Uuid) → all is_name (find_role_names_by_user u shop) ≡ true
shop-IsName u = elim (Bool-cases (1 == u)) [ inl hit ↦ rw hit refl | inr miss ↦ rw miss refl ]

resolve_after-refines_example :
    (resolve calls 1 (steps events system).db (steps events system).cache).0
    ≡ access 1 (steps events system).db
resolve_after-refines_example =
    resolve_after-refines events system calls 1 cold-IsCoherent shop-IsName
