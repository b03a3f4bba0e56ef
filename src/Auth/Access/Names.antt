-- ===== src/Auth/Access/Names.antt =====
-- src/modules/auth/access.rs: the role names of a user, as one text and back.
use dream_fly_backend.Prelude.{
  ◌≡◌, refl, ap, ◌∙◌, Bool, true, false, not, ◌&&◌, some, String, List, [], ◌∷◌, all, all_chars,
  is_empty, arith, Bool-cases, inl, inr,
}
use dream_fly_backend.Auth.Access.{is_newline, split, append, join, no_roles, encode, decode}
use Prim.Native.String.{◌∷◌ as cons, [] as empty}
use text.Mathlib.Text.{◌==◌ as str_eq}
use text.Mathlib.TextEquality.{eq_iff}

-- A role name: not empty, without a line break, and not the mark for no roles.
abbrev pub is_name : String → Bool
is_name name =
    not (is_empty name) && all_chars (λ c. not (is_newline c)) name && not (str_eq name no_roles)

split-name : (x : String) → all_chars (λ c. not (is_newline c)) x ≡ true → split x ≡ x ∷ []
unfolding split
split-name empty h = refl
split-name (cons c s) h = elim (Bool-cases (is_newline c)) [
  | inl new ↦ absurd (ground (arith, h, new))
  | inr plain ↦ rw (plain, split-name s (ground (arith, h))) refl
]

split-append :
    (x s : String)
    → all_chars (λ c. not (is_newline c)) x ≡ true
    → split (append x (append "\n" s)) ≡ x ∷ split s
unfolding split append
split-append empty s h = refl
split-append (cons c x) s h = elim (Bool-cases (is_newline c)) [
  | inl new ↦ absurd (ground (arith, h, new))
  | inr plain ↦ rw (plain, split-append x s (ground (arith, h))) refl
]

split-join :
    (x : String) (xs : List String) → all is_name (x ∷ xs) ≡ true → split (join (x ∷ xs)) ≡ x ∷ xs
unfolding join
split-join x [] h = split-name x (ground (arith, h))
split-join x (y ∷ ys) h =
    split-append x (join (y ∷ ys)) (ground (arith, h))
    ∙ ap (x ∷◌) (split-join y ys (ground (arith, h)))

decode-some :
    (t : String) → is_empty t ≡ false → str_eq t no_roles ≡ false → decode t ≡ some (split t)
unfolding decode
decode-some empty h e = absurd (ground (arith, h))
decode-some (cons c s) h e = rw (e, decode) refl

abbrev tail : String → String
tail empty = empty
tail (cons c s) = s

is_empty-append : (x s : String) → is_empty (append x (append "\n" s)) ≡ false
unfolding append
is_empty-append empty s = refl
is_empty-append (cons c x) s = refl

is_empty-join :
    (x : String) (xs : List String) → is_empty x ≡ false → is_empty (join (x ∷ xs)) ≡ false
unfolding join append
is_empty-join x [] h = h
is_empty-join empty (y ∷ ys) h = refl
is_empty-join (cons c x) (y ∷ ys) h = refl

-- Two or more names do not read as the mark for none.
is_marked-join :
    (x y : String) (ys : List String)
    → is_empty x ≡ false
    → str_eq (join (x ∷ y ∷ ys)) no_roles ≡ false
unfolding join append
is_marked-join empty y ys h = absurd (ground (arith, h))
is_marked-join (cons c x) y ys h = elim (Bool-cases (str_eq (join (cons c x ∷ y ∷ ys)) no_roles)) [
  | inr other ↦ other
  | inl same ↦
      let e = ap (λ t. is_empty (tail t)) ((eq_iff _ _).0 same) in
      let e' = is_empty-append x (join (y ∷ ys)) in absurd (ground (arith, e, e'))
]

-- What is cached for role names is read back as them.
pub decode-encode :
    (names : List String) → all is_name names ≡ true → decode (encode names) ≡ some names
unfolding encode decode join
decode-encode [] h = refl
decode-encode (x ∷ []) h =
    decode-some x (ground (arith, h)) (ground (arith, h)) ∙ ap some (split-join x [] h)
decode-encode (x ∷ y ∷ ys) h =
    decode-some (join (x ∷ y ∷ ys)) (is_empty-join x (y ∷ ys) (ground (arith, h)))
      (is_marked-join x y ys (ground (arith, h)))
    ∙ ap some (split-join x (y ∷ ys) h)
