-- ===== src/Strconv/Contains.antt =====
-- `strings.Contains`.
use Prim.Native.Char.{code}
use text.Mathlib.TextLemmas.{cons-append, nil-append}
use filclient.Base.{String, str_append, Bool, true, false, ◌&&◌, ◌||◌, ◌≡◌, refl, arith, ◌==◌}

unfoldable pub starts_with : String → String → Bool
starts_with String.[] s = true
starts_with (String.◌∷◌ c sub) String.[] = false
starts_with (String.◌∷◌ c sub) (String.◌∷◌ d s) = code c == code d && starts_with sub s

unfoldable pub contains : String → String → Bool
unfolding starts_with
contains sub String.[] = starts_with sub ""
contains sub (String.◌∷◌ c s) = starts_with sub (String.◌∷◌ c s) || contains sub s

starts_with-append : (sub b : String) → starts_with sub (str_append sub b) ≡ true
unfolding starts_with
starts_with-append String.[] b = refl
starts_with-append (String.◌∷◌ c sub) b =
    rw (cons-append c sub b) (ground (arith, starts_with-append sub b))

starts_with-contains : (sub s : String) → starts_with sub s ≡ true → contains sub s ≡ true
unfolding contains
starts_with-contains sub String.[] h = h
starts_with-contains sub (String.◌∷◌ c s) h = rw h refl

pub contains-left :
    (sub a s : String) → contains sub s ≡ true → contains sub (str_append a s) ≡ true
unfolding contains
contains-left sub String.[] s h = rw (nil-append s) h
contains-left sub (String.◌∷◌ c a) s h =
    rw (cons-append c a s) (ground (arith, contains-left sub a s h))

pub contains-append : (sub b : String) → contains sub (str_append sub b) ≡ true
contains-append sub b = starts_with-contains sub _ (starts_with-append sub b)
