-- ===== src/Prelude/Spelling.antt =====
-- `FromStr` over a list of variants: the first one whose spelling is the text.
use text.Mathlib.Text.{◌==◌ as str_eq}
use text.Mathlib.TextEquality.{eq_iff}
use Prim.Native.String.{String}
use mathlib.Core.Path.{◌≡◌}
use mathlib.Core.Option.{Option, some}
use mathlib.Core.List.{List, [], ◌∷◌}
use native.Mathlib.Omega.{arith}
use dream_fly_backend.Prelude.Lists.{find}

module _ {ℓ} {A : Type ℓ} (spell : A → String) where
  abbrev pub from_str : List A → String → Option A
  from_str variants s = find (λ v. str_eq (spell v) s) variants

  pub spell-from_str :
      (variants : List A) (s : String) (a : A) → from_str variants s ≡ some a → spell a ≡ s
  spell-from_str [] s a h = ground arith
  spell-from_str (v ∷ vs) s a h = ground (arith, eq_iff (spell v) s, spell-from_str vs s a)
