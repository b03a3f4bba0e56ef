-- ===== src/Prelude/Text.antt =====
-- Rust's `str::trim` and tests on the characters of a text.
use Prim.Native.Nat.{ℕ}
use Prim.Native.Char.{Char, code}
use Prim.Native.String.{String, [], ◌∷◌}
use mathlib.Core.Bool.{Bool, true, false, ◌&&◌, ◌||◌}
use dream_fly_backend.Prelude.Tests.{leb, ◌==◌, if◌then◌else◌}

abbrev between : ℕ → ℕ → ℕ → Bool
between low high n = leb low n && leb n high

-- The code points of Unicode's `White_Space`.
abbrev pub is_space : ℕ → Bool
is_space n =
    between 9 13 n
    || (n == 32)
    || (n == 133)
    || (n == 160)
    || (n == 5_760)
    || between 8_192 8_202 n
    || between 8_232 8_233 n
    || (n == 8_239)
    || (n == 8_287)
    || (n == 12_288)

abbrev pub is_whitespace : Char → Bool
is_whitespace c = is_space (code c)

unfoldable pub trim_start : String → String
trim_start [] = []
trim_start (c ∷ s) = if is_whitespace c then trim_start s else c ∷ s

abbrev pub is_empty : String → Bool
is_empty [] = true
is_empty (c ∷ s) = false

unfoldable pub trim_end : String → String
trim_end [] = []
trim_end (c ∷ s) =
    let rest = trim_end s in if is_empty rest && is_whitespace c then [] else c ∷ rest

unfoldable pub trim : String → String
unfolding trim_start trim_end
trim s = trim_end (trim_start s)

abbrev pub all_chars : (Char → Bool) → String → Bool
all_chars p [] = true
all_chars p (c ∷ s) = p c && all_chars p s

-- `char::is_ascii_graphic`
abbrev pub is_ascii_graphic : Char → Bool
is_ascii_graphic c = between 33 126 (code c)
