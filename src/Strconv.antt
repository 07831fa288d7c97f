-- ===== src/Strconv.antt =====
-- What the program uses of Go's strconv, fmt and strings: decimal numbers and splitting.
pub mod Decimal
pub mod Split
pub mod Contains
use Prim.Native.Char.{Char, code}
use filclient.Base.{
  ℕ, zero, suc, ◌+◌, ◌-◌, ◌*◌, ◌/◌, ◌%◌, ◌^◌, ◌<◌, ◌≤◌, String, Bool, ◌&&◌, List, [], ◌∷◌, ltb, leb,
  ◌==◌, if◌then◌else◌,
}

abbrev pub max_uint64 : ℕ
max_uint64 = 2 ^ 64 - 1

-- The result of `strconv.ParseUint(s, 10, 64)`.
pub data Parsed : Type 0 where
  value : ℕ → Parsed
  syntax_error : Parsed
  range_error : Parsed

abbrev pub is_digit : ℕ → Bool
is_digit c = leb 48 c && leb c 57

-- The loop, with what has been read.
unfoldable pub parse_digits : ℕ → String → Parsed
parse_digits n String.[] = value n
parse_digits n (String.◌∷◌ c s) =
    let m = n * 10 + (code c - 48) in
    let rest = parse_digits m s in
    if is_digit (code c) then (if ltb max_uint64 m then range_error else rest) else syntax_error

unfoldable pub parse_uint : String → Parsed
unfolding parse_digits
parse_uint String.[] = syntax_error
parse_uint (String.◌∷◌ c s) = parse_digits 0 (String.◌∷◌ c s)

-- The number that is returned beside an error too.
abbrev pub parsed_number : Parsed → ℕ
parsed_number (value n) = n
parsed_number syntax_error = 0
parsed_number range_error = max_uint64

abbrev pub digit : ℕ → Char
digit zero = "0"
digit (suc zero) = "1"
digit (suc (suc zero)) = "2"
digit (suc (suc (suc zero))) = "3"
digit (suc (suc (suc (suc zero)))) = "4"
digit (suc (suc (suc (suc (suc zero))))) = "5"
digit (suc (suc (suc (suc (suc (suc zero)))))) = "6"
digit (suc (suc (suc (suc (suc (suc (suc zero))))))) = "7"
digit (suc (suc (suc (suc (suc (suc (suc (suc zero)))))))) = "8"
digit _ = "9"

-- The decimal digits before a text, on fuel.
format_digits : ℕ → ℕ → String → String
format_digits zero n s = s
format_digits (suc fuel) n s =
    let rest = format_digits fuel (n / 10) (String.◌∷◌ (digit (n % 10)) s) in
    if ltb n 10 then String.◌∷◌ (digit n) s else rest

-- `fmt.Sprintf("%d", n)`, for a 64-bit number: it has at most 20 digits.
unfoldable pub format_uint : ℕ → String
unfolding format_digits
format_uint n = format_digits 20 n ""

-- The first part of a text that is split, and the others.
unfoldable pub split_parts : ℕ → String → String × List String
split_parts sep String.[] = ("", [])
split_parts sep (String.◌∷◌ c s) =
    let (part, parts) = split_parts sep s in
    if code c == sep then ("", part ∷ parts) else (String.◌∷◌ c part, parts)

-- `strings.Split(s, sep)`, for a separator of one character.
unfoldable pub split : ℕ → String → List String
unfolding split_parts
split sep s = let (part, parts) = split_parts sep s in part ∷ parts
