-- ===== src/Auth/Access/Coherent.antt =====
-- src/modules/auth/access.rs: the cached answer is the database's.
use dream_fly_backend.Prelude.{
  ◌≡◌, refl, ap, sym, ◌∙◌, Bool, true, false, Option, none, some, String, List, all, ◌==◌, ==_iff,
  Bool-cases, Option-cases, inl, inr, if◌then◌else◌,
}
use dream_fly_backend.Base.{Uuid}
use dream_fly_backend.Auth.Access.{
  AccessCache, Calls, encode, decode, read, write, flag, decode_flag, db_active,
  find_role_names_by_user, active_step, roles_step, decode_roles, resolve_roles, resolve,
}
use dream_fly_backend.Auth.Access.Names.{is_name, decode-encode}
use dream_fly_backend.Db.{Db}

-- Every entry says what the database says.
pub record IsCoherent (db : Db) (cache : AccessCache) : Type 0 where
  pub active :
      (u : Uuid) (text : String) → cache.active u ≡ some text → text ≡ flag (db_active u db)
  pub roles :
      (u : Uuid) (text : String)
      → cache.roles u ≡ some text
      → text ≡ encode (find_role_names_by_user u db)

-- The answer without a cache.
abbrev pub access : Uuid → Db → Option (List String)
access user db = if db_active user db then some (find_role_names_by_user user db) else none

decode-flag : (b : Bool) → decode_flag (some (flag b)) ≡ some b
decode-flag true = refl
decode-flag false = refl

read-some :
    (up : Bool) (entry : Option String) {text : String}
    → read up entry ≡ some text
    → entry ≡ some text
read-some true entry h = h
read-some false entry h = cc h

-- A write of the right value keeps every entry right.
write-right :
    (up : Bool) (user : Uuid) (value : String) (entries : Uuid → Option String)
    (right : Uuid → String)
    → value ≡ right user
    → ((u : Uuid) (text : String) → entries u ≡ some text → text ≡ right u)
    → (u : Uuid) (text : String) → write up user value entries u ≡ some text
    → text ≡ right u
write-right false user value entries right v h u text e = h u text e
write-right true user value entries right v h u text e = elim (Bool-cases (user == u)) [
  | inl mine ↦
      let e' = rw mine at e in
      let same : user ≡ u = (==_iff user u).0 mine in
      let is : text ≡ value = cc e' in is ∙ v ∙ ap right same
  | inr other ↦ h u text (rw other at e)
]

module _ (calls : Calls) (user : Uuid) (db : Db) where
  active_step-eq :
      (o : Option Bool) (cache : AccessCache)
      → ((b : Bool) → o ≡ some b → b ≡ db_active user db)
      → IsCoherent db cache
      → ((active_step calls user db o cache).0 ≡ db_active user db)
        × IsCoherent db (active_step calls user db o cache).1
  active_step-eq (some b) cache right h = (right b refl, h)
  active_step-eq none cache right h = (
    refl,
    record {
      active =
          write-right calls.set_active user (flag (db_active user db)) cache.active
            (λ u. flag (db_active u db)) refl h.active;
      roles = h.roles;
    },
  )

  roles_step-eq :
      (o : Option (List String)) (cache : AccessCache)
      → ((names : List String) → o ≡ some names → names ≡ find_role_names_by_user user db)
      → IsCoherent db cache
      → ((roles_step calls user db o cache).0 ≡ find_role_names_by_user user db)
        × IsCoherent db (roles_step calls user db o cache).1
  roles_step-eq (some names) cache right h = (right names refl, h)
  roles_step-eq none cache right h = (
    refl,
    record {
      active = h.active;
      roles =
          write-right calls.set_roles user (encode (find_role_names_by_user user db)) cache.roles
            (λ u. encode (find_role_names_by_user u db)) refl h.roles;
    },
  )

  cached_flag :
      (cache : AccessCache)
      → IsCoherent db cache
      → (b : Bool) → decode_flag (read calls.get_active (cache.active user)) ≡ some b
      → b ≡ db_active user db
  cached_flag cache h b e = elim (Option-cases (read calls.get_active (cache.active user))) [
    | inl missing ↦ (let e' = rw missing at e in cc e')
    | inr (text, there) ↦
        let says = h.active user text (read-some calls.get_active (cache.active user) there) in
        let e' : decode_flag (some text) ≡ some b = rw there at e in
        let same : some b ≡ some (db_active user db) =
          sym e' ∙ ap (λ t. decode_flag (some t)) says ∙ decode-flag (db_active user db) in
        cc same
  ]

  cached_roles :
      (cache : AccessCache)
      → IsCoherent db cache
      → all is_name (find_role_names_by_user user db) ≡ true
      → (names : List String)
      → decode_roles calls user db (read calls.get_roles (cache.roles user)) ≡ some names
      → names ≡ find_role_names_by_user user db
  cached_roles cache h named names e =
      elim (Option-cases (read calls.get_roles (cache.roles user))) [
        | inl missing ↦ (let e' = rw missing at e in cc e')
        | inr (text, there) ↦
            let says = h.roles user text (read-some calls.get_roles (cache.roles user) there) in
            let e' : decode text ≡ some names = rw there at e in
            let same : some names ≡ some (find_role_names_by_user user db) =
              sym e' ∙ ap decode says ∙ decode-encode (find_role_names_by_user user db) named in
            cc same
      ]

  resolve_roles-eq :
      (r : Bool × AccessCache)
      → r.0 ≡ db_active user db
      → IsCoherent db r.1
      → all is_name (find_role_names_by_user user db) ≡ true
      → ((resolve_roles calls user db r).0 ≡ access user db)
        × IsCoherent db (resolve_roles calls user db r).1
  resolve_roles-eq (false, cache) is h named = (rw (← is) refl, h)
  resolve_roles-eq (true, cache) is h named =
      let (same, kept) =
        roles_step-eq (decode_roles calls user db (read calls.get_roles (cache.roles user))) cache
          (cached_roles cache h named) h in
      (rw (← is) (ap some same), kept)

-- The cache never shows: when its entries say what the database says, `resolve` answers what the
-- database says, whichever calls of the cache fail, and leaves such a cache. The hypothesis: the
-- names of the user's roles are not empty, have no line break, and are not the mark for no roles.
pub resolve-refines :
    (calls : Calls) (user : Uuid) (db : Db) (cache : AccessCache)
    → IsCoherent db cache
    → all is_name (find_role_names_by_user user db) ≡ true
    → ((resolve calls user db cache).0 ≡ access user db)
      × IsCoherent db (resolve calls user db cache).1
unfolding resolve
resolve-refines calls user db cache h named =
    let (same, kept) =
      active_step-eq calls user db (decode_flag (read calls.get_active (cache.active user))) cache
        (cached_flag calls user db cache h) h in
    resolve_roles-eq calls user db _ same kept named
