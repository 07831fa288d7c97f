-- ===== src/Retrieval/Async/Soundness.antt =====
-- What goes through the channels of an asynchronous retrieval.
use mathlib.Core.List.{Sublistᴰ}
use filclient.Base.{
  ◌⊎◌, ℕ, ◌+◌, ◌≡◌, Bool, true, false, String, Option, none, some, List, [], ◌∷◌, ◌++◌,
}
use filclient.Base.Big.{Big}
use filclient.Retrieval.Content.{Proposal, Env, retrieve_content_from_peer}
use filclient.Retrieval.Async.Settled.{IsSettled}
use filclient.Retrieval.Async.{RetrievalResult, result_of, shutdowns, Async}

abbrev pub as_list : Option ℕ → List ℕ
as_list none = []
as_list (some n) = n ∷ []

abbrev pub places : Bool → ℕ
places true = 1
places false = 0

-- `gone` has left the callback: the caller has received a part of it, and all of it while the context is
-- not done.
abbrev pub Passes : {Int : Type 0} → Async Int → List ℕ → Type 0
Passes s gone =
    (s.reported ≡ gone ++ as_list s.waiting)
    × Sublistᴰ s.delivered gone
    × (s.is_done ≡ false → s.delivered ≡ gone)

-- Each call of the shutdown function that has returned has been seen, but for one at most, which waits.
abbrev pub Counts : {Int : Type 0} → Async Int → Type 0
Counts s = s.asked ≡ s.seen + places s.shutdown

module _ {Int : Type 0} (big : Big Int) (proposal : Proposal Int) (peer_id : String) where
  -- The result `r` is the outcome of a retrieval that has seen the shutdown requests and whose reports are
  -- the first calls of the callback; the later ones come while it returns.
  abbrev pub Explains : Async Int → RetrievalResult Int → Env Int → Type 0
  Explains s r env =
      let (exit, p) = retrieve_content_from_peer big env proposal peer_id in
      (result_of exit ≡ some r)
      × (s.seen ≡ shutdowns p)
      × ((late : List ℕ) × (s.reported ≡ p.reported ++ late))

  -- There is no result before the return, and one afterwards, which waits or has been received.
  abbrev pub Concludes : Async Int → Bool → Type 0
  Concludes s false = (s.results ≡ []) × (s.received ≡ [])
  Concludes s true =
      (s.is_done ≡ true)
      × ((r : RetrievalResult Int) × (env : Env Int) × (((s.results ≡ r ∷ []) × (s.received ≡ []))
            ⊎ ((s.results ≡ []) × (s.received ≡ r ∷ [])))
          × Explains s r env)

  abbrev Holds : Async Int → Type 0
  Holds s = ((gone : List ℕ) × Passes s gone) × Counts s × Concludes s s.has_returned

  -- What holds after the return: the result fits to a retrieval whose reports are the calls of the
  -- callback, but for those after its end, and the requests for a shutdown that were accepted are those
  -- that the retrieval has received, and one more if one waits.
  abbrev pub Concerns : Async Int → RetrievalResult Int → Env Int → Type 0
  Concerns s r env =
      let (exit, p) = retrieve_content_from_peer big env proposal peer_id in
      IsSettled big env proposal peer_id r
      × ((late : List ℕ) × (s.reported ≡ p.reported ++ late))
      × (s.asked ≡ shutdowns p + places s.shutdown)

  abbrev pub Gives : Async Int → Bool → Type 0
  Gives s false = (s.results ≡ []) × (s.received ≡ [])
  Gives s true =
      (r : RetrievalResult Int) × (env : Env Int) × (((s.results ≡ r ∷ []) × (s.received ≡ []))
        ⊎ ((s.results ≡ []) × (s.received ≡ r ∷ [])))
      × Concerns s r env

  abbrev pub IsSound : Async Int → Type 0
  IsSound s =
      Sublistᴰ s.delivered s.reported
      × (s.is_done ≡ false → s.reported ≡ s.delivered ++ as_list s.waiting)
      × Gives s s.has_returned
