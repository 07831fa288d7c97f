-- ===== src/Retrieval/Async/Settled.antt =====
-- What the result of an asynchronous retrieval says of the retrieval.
use filclient.Base.{◌⊎◌, inl, inr, ◌≡◌, refl, subst, true, false, String, none, some, [], ◌∷◌}
use filclient.Base.Big.{Big}
use filclient.Errors.{GoError, ok, err}
use filclient.Retrieval.{ChannelId}
use filclient.Retrieval.Content.{
  Proposal, Env, RetrievalStats, Exit, returned, cancelled, unfinished, panicked,
  retrieve_content_from_peer,
}
use filclient.Retrieval.Content.Outcome.{verdicts, verdict_of, retrieve_content_from_peer-IsJudged}
use filclient.Retrieval.Content.Confirmed.{retrieve_content_from_peer_has}
use filclient.Retrieval.Async.{RetrievalResult, result_of}

module _ {Int : Type 0} where
  -- The exit behind a result.
  abbrev IsExit : Exit Int → RetrievalResult Int → Type 0
  IsExit exit r =
      ((stats : RetrievalStats Int) × (r ≡ record { stats = some stats; error = none })
        × (exit ≡ returned (ok stats)))
      ⊎ ((e : GoError) × (r ≡ record { stats = none; error = some e })
          × ((exit ≡ returned (err e)) ⊎ (exit ≡ cancelled e)))

  result_of-IsExit :
      (exit : Exit Int) (r : RetrievalResult Int) → result_of exit ≡ some r → IsExit exit r
  unfolding result_of
  result_of-IsExit (returned (ok stats)) r h = inl (stats, cc, refl)
  result_of-IsExit (returned (err e)) r h = inr (e, cc, inl refl)
  result_of-IsExit (cancelled e) r h = inr (e, cc, inr refl)
  result_of-IsExit unfinished r h = absurd (cc)
  result_of-IsExit panicked r h = absurd (cc)

module _ {Int : Type 0} (big : Big Int) (env : Env Int) (proposal : Proposal Int)
    (peer_id : String) where
  -- The transfer was opened, and the block of the payload is there.
  abbrev pub IsConfirmed : Type 0
  IsConfirmed =
      (chanid : ChannelId) × (env.open_pull_data_channel peer_id proposal proposal.payload_cid
        ≡ ok chanid)
      × (env.has_block proposal.payload_cid ≡ ok true)

  -- The result has stats and no error, and the retrieval is confirmed and has published one success; or it
  -- has an error and no stats, and the retrieval has published one failure, or no verdict if its context
  -- has ended it.
  abbrev pub IsSettled : RetrievalResult Int → Type 0
  IsSettled r =
      let (exit, p) = retrieve_content_from_peer big env proposal peer_id in
      ((stats : RetrievalStats Int) × (r ≡ record { stats = some stats; error = none })
        × IsConfirmed
        × (verdicts p.published ≡ true ∷ []))
      ⊎ ((e : GoError) × (r ≡ record { stats = none; error = some e })
          × ((verdicts p.published ≡ false ∷ [])
              ⊎ ((exit ≡ cancelled e) × (verdicts p.published ≡ []))))

  published :
      (exit : Exit Int)
      → (retrieve_content_from_peer big env proposal peer_id).0 ≡ exit
      → verdicts (retrieve_content_from_peer big env proposal peer_id).1.published ≡ verdict_of exit
  published exit e =
      subst
        (λ x.
          verdicts (retrieve_content_from_peer big env proposal peer_id).1.published ≡ verdict_of x)
        e (retrieve_content_from_peer-IsJudged big env proposal peer_id)

  IsExit-IsSettled :
      (r : RetrievalResult Int)
      → IsExit (retrieve_content_from_peer big env proposal peer_id).0 r
      → IsSettled r
  IsExit-IsSettled r (inl (stats, q, e)) = inl (
    stats,
    q,
    retrieve_content_from_peer_has big env proposal peer_id stats e,
    published (returned (ok stats)) e,
  )
  IsExit-IsSettled r (inr (x, q, inl e)) = inr (x, q, inl (published (returned (err x)) e))
  IsExit-IsSettled r (inr (x, q, inr e)) = inr (x, q, inr (e, published (cancelled x) e))

  pub result_of-IsSettled :
      (r : RetrievalResult Int)
      → result_of (retrieve_content_from_peer big env proposal peer_id).0 ≡ some r
      → IsSettled r
  result_of-IsSettled r h = IsExit-IsSettled r (result_of-IsExit _ r h)
