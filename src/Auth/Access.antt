-- ===== src/Auth/Access.antt =====
-- src/modules/auth/access.rs: who may act, answered through a cache.
pub mod Names
pub mod Coherent
pub mod Fresh
use dream_fly_backend.Prelude.{
  Bool, true, false, Option, none, some, String, List, [], ◌∷◌, find, ◌==◌, if◌then◌else◌,
}
use dream_fly_backend.Base.{Uuid}
use dream_fly_backend.Auth.Session.{is_user}
use dream_fly_backend.Db.{Db, UserRow}
use Prim.Native.Char.{Char, code}
use Prim.Native.String.{◌∷◌ as cons, [] as empty}
use text.Mathlib.Text.{◌==◌ as str_eq}

-- The entries of the two kinds of key, by user.
pub record AccessCache : Type 0 where
  pub active : Uuid → Option String
  pub roles : Uuid → Option String

-- Which calls of the cache go through.
pub record Calls : Type 0 where
  pub get_active : Bool
  pub set_active : Bool
  pub get_roles : Bool
  pub set_roles : Bool

abbrev pub is_newline : Char → Bool
is_newline c = code c == 10

abbrev pub cons_head : Char → List String → List String
cons_head c [] = (cons c empty) ∷ []
cons_head c (x ∷ xs) = (cons c x) ∷ xs

-- `str::split('\n')`
unfoldable pub split : String → List String
split empty = empty ∷ []
split (cons c s) = if is_newline c then empty ∷ split s else cons_head c (split s)

unfoldable pub append : String → String → String
append empty t = t
append (cons c s) t = cons c (append s t)

-- `join("\n")`
unfoldable pub join : List String → String
join [] = empty
join (x ∷ []) = x
join (x ∷ y ∷ ys) = append x (append "\n" (join (y ∷ ys)))

abbrev pub no_roles : String
no_roles = "\0"

unfoldable pub encode : List String → String
encode [] = no_roles
encode (x ∷ xs) = join (x ∷ xs)

-- What a cached value says; an empty one is a miss.
unfoldable pub decode : String → Option (List String)
decode empty = none
decode (cons c s) = if str_eq (cons c s) no_roles then some [] else some (split (cons c s))

abbrev pub read : Bool → Option String → Option String
read true entry = entry
read false entry = none

abbrev pub write : Bool → Uuid → String → (Uuid → Option String) → Uuid → Option String
write true user value entries u = if user == u then some value else entries u
write false user value entries u = entries u

abbrev pub flag : Bool → String
flag is_active = if is_active then "1" else "0"

abbrev pub decode_flag : Option String → Option Bool
decode_flag none = none
decode_flag (some text) =
    if str_eq text "1" then some true else if str_eq text "0" then some false else none

abbrev pub active_in : Option UserRow → Bool
active_in none = false
active_in (some u) = u.is_active

abbrev pub roles_in : Option UserRow → List String
roles_in none = []
roles_in (some u) = u.roles

abbrev pub db_active : Uuid → Db → Bool
db_active user db = active_in (find (is_user user) db.users)

abbrev pub find_role_names_by_user : Uuid → Db → List String
find_role_names_by_user user db = roles_in (find (is_user user) db.users)

module _ (calls : Calls) (user : Uuid) (db : Db) where
  abbrev pub active_step : Option Bool → AccessCache → Bool × AccessCache
  active_step (some is_active) cache = (is_active, cache)
  active_step none cache =
      let is_active = db_active user db in
      (
        is_active,
        record cache { active = write calls.set_active user (flag is_active) cache.active },
      )

  abbrev pub decode_roles : Option String → Option (List String)
  decode_roles none = none
  decode_roles (some text) = decode text

  abbrev pub roles_step : Option (List String) → AccessCache → List String × AccessCache
  roles_step (some roles) cache = (roles, cache)
  roles_step none cache =
      let roles = find_role_names_by_user user db in
      (roles, record cache { roles = write calls.set_roles user (encode roles) cache.roles })

  abbrev pub resolve_roles : Bool × AccessCache → Option (List String) × AccessCache
  resolve_roles (false, cache) = (none, cache)
  resolve_roles (true, cache) =
      let r = roles_step (decode_roles (read calls.get_roles (cache.roles user))) cache in
      (some r.0, r.1)

  unfoldable pub resolve : AccessCache → Option (List String) × AccessCache
  resolve cache =
      resolve_roles (active_step (decode_flag (read calls.get_active (cache.active user))) cache)

-- Both entries go in one call, or none does.
unfoldable pub flush : Bool → Uuid → AccessCache → AccessCache
flush true user cache = record {
  active = λ u. if user == u then none else cache.active u;
  roles = λ u. if user == u then none else cache.roles u;
}
flush false user cache = cache
