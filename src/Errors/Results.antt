-- ===== src/Errors/Results.antt =====
-- Lemmas on the results of Go calls that say which branch gave a result.
use filclient.Base.{String, Bool, true, false, ◌≡◌, ◌≢◌, ap, List, if◌then◌else◌}
use filclient.Errors.{GoError, Result, ok, err, or_wrap}

pub or_wrap-ok : {A : Type 0} (s : String) (r : Result A) (a : A) → or_wrap s r ≡ ok a → r ≡ ok a
or_wrap-ok s (ok b) a h = h
or_wrap-ok s (err e) a h = absurd (cc)

or_nil : {A : Type 0} → List A → Result (List A) → List A
or_nil d (ok a) = a
or_nil d (err e) = d

pub ok-injective : {A : Type 0} (a b : List A) → ok a ≡ ok b → a ≡ b
unfolding or_nil
ok-injective a b h = ap (or_nil a) h

pub err-ne-ok : {A : Type 0} (e : GoError) (a : A) → err e ≢ ok a
err-ne-ok e a h = absurd (cc)

pub if_true_lem : {A : Type 0} (b : Bool) (x y z : A) → b ≡ true → (if b then x else y) ≡ z → x ≡ z
if_true_lem true x y z q h = h
if_true_lem false x y z q h = absurd (cc)

pub if_false_lem :
    {A : Type 0} (b : Bool) (x y z : A) → b ≡ false → (if b then x else y) ≡ z → y ≡ z
if_false_lem false x y z q h = h
if_false_lem true x y z q h = absurd (cc)
