-- ===== src/Auth/Access/Fresh.antt =====
-- src/modules/auth/access.rs: the cache over requests, deactivations and reactivations.
use dream_fly_backend.Prelude.{
  ◌≡◌, refl, ap, sym, ◌∙◌, Bool, true, false, Option, some, List, [], ◌∷◌, find, all, ◌==◌, ==_iff,
  Bool-cases, inl, inr, if◌then◌else◌,
}
use dream_fly_backend.Base.{Uuid}
use dream_fly_backend.Auth.Access.{
  AccessCache, Calls, encode, flag, db_active, find_role_names_by_user, active_in, roles_in,
  resolve, flush,
}
use dream_fly_backend.Auth.Access.Coherent.{IsCoherent, access, resolve-refines}
use dream_fly_backend.Auth.Access.Names.{is_name}
use dream_fly_backend.Auth.Session.{
  is_user, set_active, set_active_tx, end_all, deactivate_tx, reactivate_tx,
}
use dream_fly_backend.Db.{Db, UserRow, transaction, ◌>>=◌, query_or}

-- A request of a user, or a write of whether an account is active, whose eviction goes through.
pub data Event : Type 0 where
  ask : Calls → (user : Uuid) → Event
  deactivate reactivate : (user : Uuid) → Event

pub record System : Type 0 where
  pub db : Db
  pub cache : AccessCache

abbrev pub step : Event → System → System
step (ask calls user) s = record s { cache = (resolve calls user s.db s.cache).1 }
step (deactivate user) s = record {
  db = (transaction (deactivate_tx user) s.db).1;
  cache = flush true user s.cache;
}
step (reactivate user) s = record {
  db = (transaction (reactivate_tx user) s.db).1;
  cache = flush true user s.cache;
}

abbrev pub steps : List Event → System → System
steps [] s = s
steps (e ∷ es) s = steps es (step e s)

find-set_active :
    (id u : Uuid) (active : Bool) (users : List UserRow)
    → (id == u) ≡ false
    → find (is_user u) (set_active id active users) ≡ find (is_user u) users
find-set_active id u active [] h = refl
find-set_active id u active (x ∷ xs) h = elim (Bool-cases (x.id == id)) [
  | inl hit ↦
      let same : x.id ≡ id = (==_iff x.id id).0 hit in
      let miss : (x.id == u) ≡ false = rw same h in
      rw (hit, miss) (find-set_active id u active xs h)
  | inr keep ↦ rw keep (
      ap (λ (o : Option UserRow). if x.id == u then some x else o)
        (find-set_active id u active xs h))
]

roles-set_active :
    (id u : Uuid) (active : Bool) (users : List UserRow)
    → roles_in (find (is_user u) (set_active id active users)) ≡ roles_in (find (is_user u) users)
roles-set_active id u active [] = refl
roles-set_active id u active (x ∷ xs) = elim (Bool-cases (x.id == id)) [
  | inl hit ↦ elim (Bool-cases (x.id == u)) [
    | inl me ↦ rw (hit, me) refl
    | inr other ↦ rw (hit, other) (roles-set_active id u active xs)
  ]
  | inr keep ↦ elim (Bool-cases (x.id == u)) [
    | inl me ↦ rw (keep, me) refl
    | inr other ↦ rw (keep, other) (roles-set_active id u active xs)
  ]
]

deactivated :
    (user : Uuid) (db : Db)
    → (transaction (deactivate_tx user) db).1.users ≡ set_active user false db.users
unfolding deactivate_tx set_active_tx end_all transaction ◌>>=◌ query_or
deactivated user db = refl

reactivated :
    (user : Uuid) (db : Db)
    → (transaction (reactivate_tx user) db).1.users ≡ set_active user true db.users
unfolding reactivate_tx set_active_tx transaction query_or
reactivated user db = refl

abbrev IsNamed : Db → Type 0
IsNamed db = (u : Uuid) → all is_name (find_role_names_by_user u db) ≡ true

-- After a write of one account and its eviction, the cache says what the new database says.
module _ (user : Uuid) (active : Bool) (db db' : Db) (cache : AccessCache)
    (wrote : db'.users ≡ set_active user active db.users) where
  same_roles : (u : Uuid) → find_role_names_by_user u db' ≡ find_role_names_by_user u db
  same_roles u =
      ap (λ (us : List UserRow). roles_in (find (is_user u) us)) wrote
      ∙ roles-set_active user u active db.users

  same_active : (u : Uuid) → (user == u) ≡ false → db_active u db' ≡ db_active u db
  same_active u other =
      ap (λ (us : List UserRow). active_in (find (is_user u) us)) wrote
      ∙ ap active_in (find-set_active user u active db.users other)

  flush-IsCoherent : IsCoherent db cache → IsCoherent db' (flush true user cache)
  unfolding flush
  flush-IsCoherent h = record {
    active = λ u text e. elim (Bool-cases (user == u)) [
      | inl mine ↦ (let e' = rw mine at e in cc e')
      | inr other ↦ h.active u text (rw other at e) ∙ ap flag (sym (same_active u other))
    ];
    roles = λ u text e. elim (Bool-cases (user == u)) [
      | inl mine ↦ (let e' = rw mine at e in cc e')
      | inr other ↦ h.roles u text (rw other at e) ∙ ap encode (sym (same_roles u))
    ];
  }

  IsNamed-set_active : IsNamed db → IsNamed db'
  IsNamed-set_active h u = ap (all is_name) (same_roles u) ∙ h u

steps-IsCoherent :
    (es : List Event) (s : System)
    → IsCoherent s.db s.cache
    → IsNamed s.db
    → IsCoherent (steps es s).db (steps es s).cache × IsNamed (steps es s).db
steps-IsCoherent [] s h n = (h, n)
steps-IsCoherent (ask calls user ∷ es) s h n =
    steps-IsCoherent es (step (ask calls user) s)
      (resolve-refines calls user s.db s.cache h (n user)).1 n
steps-IsCoherent (deactivate user ∷ es) s h n =
    let wrote = deactivated user s.db in
    let db' = (transaction (deactivate_tx user) s.db).1 in
    steps-IsCoherent es (step (deactivate user) s)
      (flush-IsCoherent user false s.db db' s.cache wrote h)
      (IsNamed-set_active user false s.db db' s.cache wrote n)
steps-IsCoherent (reactivate user ∷ es) s h n =
    let wrote = reactivated user s.db in
    let db' = (transaction (reactivate_tx user) s.db).1 in
    steps-IsCoherent es (step (reactivate user) s)
      (flush-IsCoherent user true s.db db' s.cache wrote h)
      (IsNamed-set_active user true s.db db' s.cache wrote n)

-- The cached access check refines the direct lookup: from a cache whose entries say what the database
-- says, after any requests, whichever of their cache calls fail, and any deactivations and
-- reactivations that are followed by their eviction, `resolve` answers what the database then says.
-- The hypotheses: such a cache, and role names that are not empty, have no line break and are not the
-- mark for no roles.
pub resolve_after-refines :
    (es : List Event) (s : System) (calls : Calls) (user : Uuid)
    → IsCoherent s.db s.cache
    → ((u : Uuid) → all is_name (find_role_names_by_user u s.db) ≡ true)
    → (resolve calls user (steps es s).db (steps es s).cache).0 ≡ access user (steps es s).db
resolve_after-refines es s calls user h n =
    let (kept, named) = steps-IsCoherent es s h n in
    (resolve-refines calls user (steps es s).db (steps es s).cache kept (named user)).0
