-- ===== src/Base/Big.antt =====
-- The integers of unbounded size that the program takes from `go-state-types/big`: an interface.
use Prim.Native.Nat.{ℕ, ◌+◌, ◌-◌, ◌*◌, ◌/◌, ◌<◌}
use Prim.Native.String.{String}
use mathlib.Core.Path.{◌≡◌, refl}
use mathlib.Core.Bool.{Bool}
use filclient.Base.Tests.{ltb, ◌==◌}

-- The calls that the program makes. `new` is `big.NewInt` at a number that is not negative.
pub record Big (Int : Type 0) : Type 0 where
  pub new : ℕ → Int
  pub add : Int → Int → Int
  pub sub : Int → Int → Int
  pub mul : Int → Int → Int
  pub div : Int → Int → Int
  pub less_than : Int → Int → Bool
  pub equals : Int → Int → Bool
  pub is_zero : Int → Bool
  pub to_string : Int → String

-- What the package documents of them, at numbers that are not negative.
pub record IsBig {Int : Type 0} (big : Big Int) : Type 0 where
  pub add_new : (a b : ℕ) → big.add (big.new a) (big.new b) ≡ big.new (a + b)
  pub mul_new : (a b : ℕ) → big.mul (big.new a) (big.new b) ≡ big.new (a * b)
  pub div_new : (a b : ℕ) → 0 < b → big.div (big.new a) (big.new b) ≡ big.new (a / b)
  pub less_than_new : (a b : ℕ) → big.less_than (big.new a) (big.new b) ≡ ltb a b
  pub equals_new : (a b : ℕ) → big.equals (big.new a) (big.new b) ≡ a == b
  pub is_zero_new : (a : ℕ) → big.is_zero (big.new a) ≡ a == 0

-- The native numbers are an instance.
abbrev pub nat_big : Big ℕ
nat_big = record {
  new = λ n. n;
  add = ◌+◌;
  sub = ◌-◌;
  mul = ◌*◌;
  div = ◌/◌;
  less_than = ltb;
  equals = ◌==◌;
  is_zero = λ n. n == 0;
  to_string = λ n. "n";
}

pub nat_big-IsBig : IsBig nat_big
nat_big-IsBig = record {
  add_new = λ a b. refl;
  mul_new = λ a b. refl;
  div_new = λ a b h. refl;
  less_than_new = λ a b. refl;
  equals_new = λ a b. refl;
  is_zero_new = λ a. refl;
}
