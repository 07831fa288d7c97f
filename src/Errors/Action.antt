-- ===== src/Errors/Action.antt =====
-- Code that calls the outside world: a function of the world that returns a result and the world.
use filclient.Base.{String, ◌≡◌, refl, subst, List, ◌∷◌}
use filclient.Errors.{GoError, Result, ok, err, or_wrap, or_convert}

abbrev pub Action : Type 0 → Type 0 → Type 0
Action W A = W → Result A × W

module _ {W : Type 0} where
  abbrev pub return : {A : Type 0} → A → Action W A
  return a w = (ok a, w)

  abbrev pub fail : {A : Type 0} → GoError → Action W A
  fail e w = (err e, w)

  abbrev pub after : {A B : Type 0} → Result A → W → (A → Action W B) → Result B × W
  after (ok a) w f = f a w
  after (err e) w f = (err e, w)

  -- A `do` block stops at the first error, as `if err != nil { return err }` does.
  infixl 5 ◌>>=◌
  abbrev pub ◌>>=◌ : {A B : Type 0} → Action W A → (A → Action W B) → Action W B
  ◌>>=◌ m f w = after (m w).0 (m w).1 f

  -- `if err != nil { return fmt.Errorf("…: %w", err) }`.
  abbrev pub wrapping : {A : Type 0} → String → Action W A → Action W A
  wrapping s m w = (or_wrap s (m w).0, (m w).1)

  -- `if err != nil { return convert(err) }`.
  abbrev pub converting : {A : Type 0} → (GoError → GoError) → Action W A → Action W A
  converting f m w = (or_convert f (m w).0, (m w).1)

-- Every error of a result satisfies `P`.
abbrev pub Fails : {A : Type 0} → (GoError → Type 0) → Result A → Type 0
Fails P (ok a) = Unit
Fails P (err e) = P e

-- The elements of a loop that stops at the first error.
abbrev pub collect : {A : Type 0} → Result A → Result (List A) → Result (List A)
collect (ok a) (ok as') = ok (a ∷ as')
collect (ok a) (err e) = err e
collect (err e) _ = err e

module _ {A : Type 0} (P : GoError → Type 0) where
  pub Fails-err : (r : Result A) (e : GoError) → Fails P r → r ≡ err e → P e
  Fails-err (ok a) e h q = absurd (cc)
  Fails-err (err e') e h q = subst (Fails P) q h

  pub Fails-collect :
      (r : Result A) (rs : Result (List A)) → Fails P r → Fails P rs → Fails P (collect r rs)
  Fails-collect (ok a) (ok as') h k = tt
  Fails-collect (ok a) (err e) h k = k
  Fails-collect (err e) rs h k = h

  pub Fails-or_convert :
      (c : GoError → GoError) (r : Result A) → ((e : GoError) → P (c e)) → Fails P (or_convert c r)
  Fails-or_convert c (ok a) h = tt
  Fails-or_convert c (err e) h = h e

  pub Fails-mono :
      (Q : GoError → Type 0) (r : Result A) → ((e : GoError) → P e → Q e) → Fails P r → Fails Q r
  Fails-mono Q (ok a) h k = tt
  Fails-mono Q (err e) h k = h e k

  -- A chain fails as one of its two parts does.
  pub Fails-after :
      {W B : Type 0} (r : Result B) (w : W) (f : B → Action W A)
      → Fails P r
      → ((b : B) → r ≡ ok b → Fails P (f b w).0)
      → Fails P (after r w f).0
  Fails-after (ok b) w f h k = k b refl
  Fails-after (err e) w f h k = h

  pub Fails-converted :
      {W B : Type 0} (c : GoError → GoError) (r : Result B) (w : W) (f : B → Action W A)
      → ((e : GoError) → r ≡ err e → P (c e))
      → ((b : B) → r ≡ ok b → Fails P (f b w).0)
      → Fails P (after (or_convert c r) w f).0
  Fails-converted c (ok b) w f h k = k b refl
  Fails-converted c (err e) w f h k = h e refl

-- A chain that succeeds has succeeded in its first part.
pub converted-ok :
    {W A B : Type 0} (c : GoError → GoError) (r : Result B) (w : W) (f : B → Action W A) (a : A)
    → (after (or_convert c r) w f).0 ≡ ok a
    → (b : B) × (r ≡ ok b)
converted-ok c (ok b) w f a h = (b, refl)
converted-ok c (err e) w f a h = cc

-- A result that is not an error satisfies `P`.
abbrev pub Succeeds : {A : Type 0} → (A → Type 0) → Result A → Type 0
Succeeds P (ok a) = P a
Succeeds P (err e) = Unit

module _ {W A B : Type 0} (P : A → Type 0) where
  -- What a chain returns is what its last part returns.
  pub Succeeds-after :
      (r : Result B) (w : W) (f : B → Action W A)
      → ((b : B) → r ≡ ok b → (v : W) → Succeeds P (f b v).0)
      → Succeeds P (after r w f).0
  Succeeds-after (ok b) w f h = h b refl w
  Succeeds-after (err e) w f h = tt

  pub Succeeds-after-Succeeds :
      (Q : B → Type 0) (r : Result B) (w : W) (f : B → Action W A)
      → Succeeds Q r
      → ((b : B) → Q b → (v : W) → Succeeds P (f b v).0)
      → Succeeds P (after r w f).0
  Succeeds-after-Succeeds Q (ok b) w f q h = h b q w
  Succeeds-after-Succeeds Q (err e) w f q h = tt

pub Succeeds-mono :
    {A : Type 0} (P Q : A → Type 0) (r : Result A)
    → ((a : A) → P a → Q a)
    → Succeeds P r
    → Succeeds Q r
Succeeds-mono P Q (ok a) f h = f a h
Succeeds-mono P Q (err e) f h = tt
