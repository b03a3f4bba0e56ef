-- ===== src/Orders/Idempotency/Keys.antt =====
-- Which keys are accepted.
use Prim.Native.Char.{Char, code}
use Prim.Native.String.{[], ◌∷◌, len}
use Prim.Native.String.len
use text.Mathlib.TextPositions.{len_utf8-pos}
use dream_fly_backend.Prelude.{
  ◌≤◌, ◌≡◌, ◌↔◌, refl, sym, ap, String, true, false, arith, trim, trim_start, trim_end, all_chars,
  is_ascii_graphic, is_whitespace, is_empty, Bool-cases, inl, inr,
}
use dream_fly_backend.AppError.{ok}
use dream_fly_backend.Orders.Idempotency.{IdempotencyKey, parse, is_key_text}

graphic-space : (c : Char) → is_ascii_graphic c ≡ true → is_whitespace c ≡ false
graphic-space c h = ground (arith, h)

trim_end-graphic : (s : String) → all_chars is_ascii_graphic s ≡ true → trim_end s ≡ s
unfolding trim_end
trim_end-graphic [] h = refl
trim_end-graphic (c ∷ s) h = elim (Bool-cases (is_ascii_graphic c)) [
  | inl good ↦
      let rest = trim_end-graphic s (rw good at h) in
      let solid = graphic-space c good in
      rw (rest, solid)
        (elim (Bool-cases (is_empty s)) [
          | inl none_left ↦ rw none_left refl
          | inr more ↦ rw more refl
        ])
  | inr bad ↦ absurd (ground (arith, bad, h))
]

trim-graphic : (s : String) → all_chars is_ascii_graphic s ≡ true → trim s ≡ s
unfolding trim trim_start trim_end
trim-graphic [] h = refl
trim-graphic (c ∷ s) h = elim (Bool-cases (is_ascii_graphic c)) [
  | inl good ↦ rw (graphic-space c good) (trim_end-graphic (c ∷ s) h)
  | inr bad ↦ absurd (ground (arith, bad, h))
]

graphic_of : (s : String) → is_key_text s ≡ true → all_chars is_ascii_graphic s ≡ true
graphic_of s h = ground (arith, h)

-- 1 to 128 bytes, and every character with a code from 33 to 126.
abbrev pub IsGraphic : String → Type 0
IsGraphic [] = Unit
IsGraphic (c ∷ s) = (33 ≤ code c) × (code c ≤ 126) × IsGraphic s

abbrev pub IsKeyText : String → Type 0
IsKeyText s = (1 ≤ len s) × (len s ≤ 128) × IsGraphic s

is_ascii_graphic-IsGraphic : (s : String) → (all_chars is_ascii_graphic s ≡ true) ↔ IsGraphic s
is_ascii_graphic-IsGraphic [] = (λ h. tt, λ h. refl)
is_ascii_graphic-IsGraphic (c ∷ s) =
    let rest = is_ascii_graphic-IsGraphic s in
    (
      λ h. (ground (arith, h), ground (arith, h), rest.0 (ground (arith, h))),
      λ h. ground (arith, h.0, h.1, rest.1 h.2),
    )

is_empty-len : (s : String) → (is_empty s ≡ false) ↔ (1 ≤ len s)
is_empty-len [] = (λ h. absurd (ground (arith, h)), λ h. absurd (ground (arith, h)))
is_empty-len (c ∷ s) =
    let (k, e) = len_utf8-pos c in (λ h. omega (arith, len.cons c s, e), λ h. refl)

is_key_text-IsKeyText : (s : String) → (is_key_text s ≡ true) ↔ IsKeyText s
is_key_text-IsKeyText s =
    let text = is_ascii_graphic-IsGraphic s in
    let size = is_empty-len s in
    (
      λ h. (size.0 (ground (arith, h)), ground (arith, h), text.0 (ground (arith, h))),
      λ h. ground (arith, size.1 h.0, h.1, text.1 h.2),
    )

-- A header value is accepted as a key exactly if, trimmed, it has from 1 to 128 bytes, every
-- character a graphic ASCII one; the key is then the trimmed text, and is accepted as it stands.
pub parse-ok :
    (raw : String) (k : IdempotencyKey)
    → (parse raw ≡ ok k) ↔ ((k.key ≡ trim raw) × IsKeyText (trim raw) × (parse k.key ≡ ok k))
unfolding parse
parse-ok raw k = (there, back)
  where
    there : parse raw ≡ ok k → (k.key ≡ trim raw) × IsKeyText (trim raw) × (parse k.key ≡ ok k)
    there h = elim (Bool-cases (is_key_text (trim raw))) [
      | inl good ↦
          let h' = rw good at h in
          let is : record { key = trim raw } ≡ k = cc h' in
          let text : k.key ≡ trim raw = ap (λ k. k.key) (sym is) in
          let again : trim k.key ≡ k.key =
            trim-graphic k.key (rw text (graphic_of (trim raw) good)) in
          (text, (is_key_text-IsKeyText (trim raw)).0 good, rw again (rw text (rw good refl)))
      | inr bad ↦ let h' = rw bad at h in absurd (ground (arith, h'))
    ]

    back : (k.key ≡ trim raw) × IsKeyText (trim raw) × (parse k.key ≡ ok k) → parse raw ≡ ok k
    back (text, good, h) = rw ((is_key_text-IsKeyText (trim raw)).1 good, ← text) refl
