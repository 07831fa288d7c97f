-- ===== src/Strconv/Decimal.antt =====
-- Printing decimal numbers and reading them.
use Prim.Native.Char.{Char, code}
use filclient.Base.{
  ℕ, zero, suc, ◌+◌, ◌*◌, ◌/◌, ◌%◌, ◌^◌, ◌<◌, String, ◌≡◌, refl, ap, ◌∙◌, ltb, arith, Bool-cases,
  inl, inr,
}
use native.Mathlib.Nat.{pow-suc}
use filclient.Strconv.{value, parse_digits, parse_uint, digit, format_digits, format_uint}

pub code-digit : (d : ℕ) → d < 10 → code (digit d) ≡ 48 + d
code-digit zero h = refl
code-digit (suc zero) h = refl
code-digit (suc (suc zero)) h = refl
code-digit (suc (suc (suc zero))) h = refl
code-digit (suc (suc (suc (suc zero)))) h = refl
code-digit (suc (suc (suc (suc (suc zero))))) h = refl
code-digit (suc (suc (suc (suc (suc (suc zero)))))) h = refl
code-digit (suc (suc (suc (suc (suc (suc (suc zero))))))) h = refl
code-digit (suc (suc (suc (suc (suc (suc (suc (suc zero)))))))) h = refl
code-digit (suc (suc (suc (suc (suc (suc (suc (suc (suc n))))))))) h = omega arith

parse_digits-digit :
    (k d : ℕ) (s : String)
    → d < 10
    → k * 10 + d < 2 ^ 64
    → parse_digits k (String.◌∷◌ (digit d) s) ≡ parse_digits (k * 10 + d) s
unfolding parse_digits
parse_digits-digit k d s h lt = ground (arith, code-digit d)

parse_digits-format_digits :
    (fuel n : ℕ) (s : String)
    → n < 10 ^ fuel
    → n < 2 ^ 64
    → parse_digits 0 (format_digits fuel n s) ≡ parse_digits n s
unfolding format_digits
parse_digits-format_digits zero n s h lt = ap (λ m. parse_digits m s) (omega arith)
parse_digits-format_digits (suc fuel) n s h lt = elim (Bool-cases (ltb n 10)) [
  | inl e ↦ rw e (
      parse_digits-digit 0 n s (ground arith) (omega arith)
      ∙ ap (λ m. parse_digits m s) (omega arith))
  | inr e ↦ rw e (
      parse_digits-format_digits fuel (n / 10) _ (omega (arith, pow-suc 10 fuel)) (omega arith)
      ∙ parse_digits-digit (n / 10) (n % 10) s (omega arith) (omega arith)
      ∙ ap (λ m. parse_digits m s) (omega arith))
]

-- A text with a first character is read by the loop.
parse_uint-format_digits :
    (fuel n : ℕ) (c : Char) (s : String)
    → parse_uint (format_digits fuel n (String.◌∷◌ c s))
      ≡ parse_digits 0 (format_digits fuel n (String.◌∷◌ c s))
unfolding parse_uint format_digits
parse_uint-format_digits zero n c s = refl
parse_uint-format_digits (suc fuel) n c s = elim (Bool-cases (ltb n 10)) [
  | inl e ↦ rw e refl
  | inr e ↦ rw e (parse_uint-format_digits fuel (n / 10) (digit (n % 10)) (String.◌∷◌ c s))
]

parse_uint-format_digits_nil :
    (fuel n : ℕ)
    → parse_uint (format_digits (suc fuel) n "") ≡ parse_digits 0 (format_digits (suc fuel) n "")
unfolding parse_uint format_digits
parse_uint-format_digits_nil fuel n = elim (Bool-cases (ltb n 10)) [
  | inl e ↦ rw e refl
  | inr e ↦ rw e (parse_uint-format_digits fuel (n / 10) (digit (n % 10)) "")
]

-- Every 64-bit number is read back as it was printed.
pub parse_uint-format_uint : (n : ℕ) → n < 2 ^ 64 → parse_uint (format_uint n) ≡ value n
unfolding format_uint parse_digits
parse_uint-format_uint n h =
    parse_uint-format_digits_nil 19 n ∙ parse_digits-format_digits 20 n "" (omega arith) h
