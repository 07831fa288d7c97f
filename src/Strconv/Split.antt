-- ===== src/Strconv/Split.antt =====
-- How a text splits at a separator.
use Prim.Native.Char.{Char, code}
use text.Mathlib.TextLemmas.{cons-append, nil-append}
use filclient.Base.{
  ℕ, zero, suc, ◌/◌, ◌%◌, ◌<◌, String, str_append, ◌≡◌, refl, ◌≢◌, [], ◌∷◌, arith, ltb, Bool-cases,
  inl, inr,
}
use filclient.Strconv.{split_parts, split, format_digits, format_uint}
use filclient.Strconv.Decimal.{code-digit}

-- The character does not occur.
abbrev pub NoChar : ℕ → String → Type 0
NoChar sep String.[] = Unit
NoChar sep (String.◌∷◌ c s) = (code c ≢ sep) × NoChar sep s

split_parts-append :
    (sep : Char) (a s : String)
    → NoChar (code sep) a
    → let (part, parts) = split_parts (code sep) s in
      split_parts (code sep) (str_append a (String.◌∷◌ sep s)) ≡ (a, part ∷ parts)
unfolding split_parts
split_parts-append sep String.[] s h = rw (nil-append (String.◌∷◌ sep s)) (ground arith)
split_parts-append sep (String.◌∷◌ c a) s h =
    rw (cons-append c a (String.◌∷◌ sep s))
      (rw (split_parts-append sep a s h.1) (ground (arith, h.0)))

-- Up to the first separator is the first part.
pub split-append :
    (sep : Char) (a s : String)
    → NoChar (code sep) a
    → split (code sep) (str_append a (String.◌∷◌ sep s)) ≡ a ∷ split (code sep) s
unfolding split
split-append sep a s h = rw (split_parts-append sep a s h)

split_parts-of_NoChar : (sep : ℕ) (s : String) → NoChar sep s → split_parts sep s ≡ (s, [])
unfolding split_parts
split_parts-of_NoChar sep String.[] h = refl
split_parts-of_NoChar sep (String.◌∷◌ c s) h =
    rw (split_parts-of_NoChar sep s h.1) (ground (arith, h.0))

-- A text without the separator is one part.
pub split-of_NoChar : (sep : ℕ) (s : String) → NoChar sep s → split sep s ≡ s ∷ []
unfolding split
split-of_NoChar sep s h = rw (split_parts-of_NoChar sep s h)

NoChar-format_digits :
    (sep fuel n : ℕ) (s : String) → sep < 48 → NoChar sep s → NoChar sep (format_digits fuel n s)
unfolding format_digits
NoChar-format_digits sep zero n s lt h = h
NoChar-format_digits sep (suc fuel) n s lt h = elim (Bool-cases (ltb n 10)) [
  | inl e ↦ rw e ((λ q. omega (arith, code-digit n (ground arith))), h)
  | inr e ↦ rw e (
      NoChar-format_digits sep fuel (n / 10) _ lt
        ((λ q. omega (arith, code-digit (n % 10) (omega arith))), h))
]

-- A printed number has no character before the digits, such as a dash.
pub NoChar-format_uint : (sep n : ℕ) → sep < 48 → NoChar sep (format_uint n)
unfolding format_uint
NoChar-format_uint sep n lt = NoChar-format_digits sep 20 n "" lt tt
