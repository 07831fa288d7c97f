-- ===== src/Errors.antt =====
-- errors.go, and the errors and results of Go that the other modules use.
pub mod Action
pub mod Results
pub mod Trace
use filclient.Base.{
  ℕ, String, str_append, str_eq, Bool, Option, none, some, ◌==◌, if◌then◌else◌, ◌≡◌, refl, ◌⊎◌, inl,
  inr,
}

-- `type ErrorCode int` and its constants.
abbrev pub ErrorCode : Type 0
ErrorCode = ℕ

abbrev pub err_unknown : ErrorCode
err_unknown = 0

abbrev pub err_miner_connection_failed : ErrorCode
err_miner_connection_failed = 1

abbrev pub err_lotus_error : ErrorCode
err_lotus_error = 2

abbrev pub code_string : ErrorCode → String
code_string code =
    if code == err_unknown
    then "unknown"
    else if code == err_miner_connection_failed
    then "miner connection failed"
    else if code == err_lotus_error
    then "lotus error"
    else "(invalid error code)"

-- A Go error: a leaf with its text, `fmt.Errorf("…: %w", err)`, or the struct `Error`.
pub data GoError : Type 0 where
  message : String → GoError
  wrap : String → GoError → GoError
  coded : ErrorCode → GoError → GoError

-- `err.Error()`.
abbrev pub error_text : GoError → String
error_text (message s) = s
error_text (wrap s e) = str_append s (str_append ": " (error_text e))
error_text (coded code e) = str_append (code_string code) (str_append ": " (error_text e))

-- `err.Unwrap()`.
abbrev pub unwrap : GoError → Option GoError
unwrap (message s) = none
unwrap (wrap s e) = some e
unwrap (coded code e) = some e

-- `errors.Is(err, target)`, for a target that is a leaf.
unfoldable pub is : String → GoError → Bool
is s (message t) = str_eq s t
is s (wrap t e) = is s e
is s (coded code e) = is s e

-- The code that `errors.As` finds.
abbrev pub code_of : GoError → Option ErrorCode
code_of (message s) = none
code_of (wrap s e) = code_of e
code_of (coded code e) = some code

unfoldable pub new_error : ErrorCode → GoError → GoError
new_error code err = coded code err

unfoldable pub new_err_unknown : GoError → GoError
unfolding new_error
new_err_unknown err = new_error err_unknown err

unfoldable pub new_err_miner_connection_failed : GoError → GoError
unfolding new_error
new_err_miner_connection_failed err = new_error err_miner_connection_failed err

unfoldable pub new_err_lotus_error : GoError → GoError
unfolding new_error
new_err_lotus_error err = new_error err_lotus_error err

-- A Go result `(value, error)` of which one part is read.
pub data Result {ℓ} (A : Type ℓ) : Type ℓ where
  ok : A → Result A
  err : GoError → Result A

-- `if err != nil { return fmt.Errorf("…: %w", err) }`.
abbrev pub or_wrap {ℓ} : {A : Type ℓ} → String → Result A → Result A
or_wrap s (ok a) = ok a
or_wrap s (err e) = err (wrap s e)

-- `if err != nil { return convert(err) }`.
abbrev pub or_convert {ℓ} : {A : Type ℓ} → (GoError → GoError) → Result A → Result A
or_convert f (ok a) = ok a
or_convert f (err e) = err (f e)

-- To split on a result and keep the equation.
pub Result-cases {ℓ} :
    {A : Type ℓ} (r : Result A) → ((a : A) × (r ≡ ok a)) ⊎ ((e : GoError) × (r ≡ err e))
Result-cases (ok a) = inl (a, refl)
Result-cases (err e) = inr (e, refl)
