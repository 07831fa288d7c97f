-- ===== src/Errors/Trace.antt =====
-- Chains of calls of the outside, by the calls that the world has recorded.
use filclient.Base.{String, ◌≡◌, refl, sym, List, [], ◌∷◌, ◌++◌, append-nil, append_assoc}
use filclient.Errors.{Result, ok, err, or_wrap}
use filclient.Errors.Action.{Action, after, ◌>>=◌}

module _ {W Call : Type 0} (trace : W → List Call) where
  -- A chain that ends with a value has made all its calls, one that ends with an error the first of
  -- them, the last of which is the one that has failed.
  abbrev pub Ends : {A : Type 0} → List Call → W → Result A × W → Type 0
  Ends calls w (ok a, w') = trace w' ≡ trace w ++ calls
  Ends calls w (err e, w') =
      (made : List Call) × (failed : Call) × (rest : List Call) × (calls
        ≡ (made ++ failed ∷ []) ++ rest)
      × (trace w' ≡ trace w ++ (made ++ failed ∷ []))

  module _ {A : Type 0} where
    pub call-Ends :
        (call : Call) (w w' : W) (r : Result A)
        → trace w' ≡ trace w ++ call ∷ []
        → Ends (call ∷ []) w (r, w')
    call-Ends call w w' (ok a) h = h
    call-Ends call w w' (err e) h = ([], call, [], refl, h)

    pub or_wrap-Ends :
        (calls : List Call) (s : String) (w w' : W) (r : Result A)
        → Ends calls w (r, w')
        → Ends calls w (or_wrap s r, w')
    or_wrap-Ends calls s w w' (ok a) h = h
    or_wrap-Ends calls s w w' (err e) h = h

    pub return-Ends : (w : W) (a : A) → Ends {A = A} [] w (ok a, w)
    return-Ends w a = sym (append-nil (trace w))

    continued-Ends :
        (cs ds : List Call) (w v : W) (x : Result A × W)
        → trace v ≡ trace w ++ cs
        → Ends ds v x
        → Ends (cs ++ ds) w x
    continued-Ends cs ds w v (ok a, u) h k = simp (k, h, append_assoc) refl
    continued-Ends cs ds w v (err e, u) h (made, failed, rest, q, k) =
        (cs ++ made, failed, rest, simp (q, append_assoc) refl, simp (k, h, append_assoc) refl)

    pub after-Ends :
        {B : Type 0} (cs ds : List Call) (w v : W) (r : Result B) (f : B → Action W A)
        → Ends cs w (r, v)
        → ((b : B) → Ends ds v (f b v))
        → Ends (cs ++ ds) w (after r v f)
    after-Ends cs ds w v (ok b) f h k = continued-Ends cs ds w v (f b v) h (k b)
    after-Ends cs ds w v (err e) f (made, failed, rest, q, h) k =
        (made, failed, rest ++ ds, rw q (append_assoc (made ++ failed ∷ []) rest ds), h)

  -- An action, and what follows it in any world.
  pub bind-Ends :
      {A B : Type 0} (cs ds : List Call) (w : W) (m : Action W B) (f : B → Action W A)
      → Ends cs w (m w)
      → ((b : B) (v : W) → Ends ds v (f b v))
      → Ends (cs ++ ds) w ((m >>= f) w)
  bind-Ends cs ds w m f h k = after-Ends cs ds w (m w).1 (m w).0 f h (λ b. k b (m w).1)
