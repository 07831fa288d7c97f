-- ===== src/Retrieval/Content/Outcome.antt =====
-- What a retrieval has done when it ends.
use filclient.Base.{
  ℕ, String, ◌≡◌, refl, ◌∙◌, ap, sym, Bool, true, false, Option, none, some, List, [], ◌∷◌, ◌++◌,
  append-nil, append_assoc, arith,
}
use filclient.Base.Big.{Big}
use filclient.Errors.{Result, ok, err}
use filclient.Rep.Event.{RetrievalEvent, proposed, accepted, first_byte, failure, success}
use filclient.Retrieval.{ChannelId, DtEvent, Replies, Deal, Progress}
use filclient.Retrieval.Handler.{Arrival, on_event, run_events, initial, deal_origin}
use filclient.Retrieval.Content.{
  Proposal, FinalState, Wake, arrives, receives, shutdown_requested, context_done, Env, Awaited,
  still_waiting, finished, context_ended, Exit, returned, cancelled, unfinished, panicked, await,
  report, confirm, finish_up, deal_of, deferred, opened, propose, with_lane,
  retrieve_content_from_peer, publish,
}

module _ {Int : Type 0} where
  -- A success counts as true and a failure as false; other events are no verdict.
  abbrev pub verdict : RetrievalEvent Int → List Bool
  verdict (success o r) = true ∷ []
  verdict (failure o e) = false ∷ []
  verdict _ = []

  abbrev pub verdicts : List (RetrievalEvent Int) → List Bool
  verdicts [] = []
  verdicts (e ∷ es) = verdict e ++ verdicts es

  -- The verdict that the exit calls for.
  abbrev pub verdict_of : Exit Int → List Bool
  verdict_of (returned (ok stats)) = true ∷ []
  verdict_of (returned (err e)) = false ∷ []
  verdict_of (cancelled e) = []
  verdict_of unfinished = []
  verdict_of panicked = []

  verdicts-append :
      (es : List (RetrievalEvent Int)) (e : RetrievalEvent Int)
      → verdicts (es ++ e ∷ []) ≡ verdicts es ++ verdict e
  verdicts-append [] e = append-nil (verdict e)
  verdicts-append (x ∷ es) e =
      ap (◌++◌ (verdict x)) (verdicts-append es e) ∙ sym (append_assoc (verdict x) _ _)

module _ {Int : Type 0} (big : Big Int) (d : Deal) where
  verdicts-on_event :
      (ev : DtEvent Int) (r : Replies Int) (p : Progress Int)
      → verdicts (on_event big d r ev p).published ≡ verdicts p.published
  unfolding on_event
  verdicts-on_event ev r p = ground (
    arith,
    verdicts-append p.published (accepted (deal_origin d)),
    verdicts-append p.published (first_byte (deal_origin d)),
    append-nil (verdicts p.published),
  )

  verdicts-run_events :
      (evs : List (Arrival Int)) (p : Progress Int)
      → verdicts (run_events big d evs p).published ≡ verdicts p.published
  unfolding run_events
  verdicts-run_events [] p = refl
  verdicts-run_events ((ev, r) ∷ evs) p =
      verdicts-run_events evs (on_event big d r ev p) ∙ verdicts-on_event ev r p

  verdicts-await :
      (ws : List (Wake Int)) (p : Progress Int)
      → verdicts (await big d ws p).1.published ≡ verdicts p.published
  unfolding await
  verdicts-await [] p = refl
  verdicts-await (arrives (ev, r) ∷ ws) p =
      verdicts-await ws (on_event big d r ev p) ∙ verdicts-on_event ev r p
  verdicts-await (receives ∷ ws) p = ground (arith, verdicts-await ws p)
  verdicts-await (shutdown_requested ∷ ws) p = verdicts-await ws _
  verdicts-await (context_done e ∷ ws) p = refl

module _ {Int : Type 0} where
  -- The events published give the verdict of the exit, once.
  abbrev pub IsJudged : Exit Int × Progress Int → Type 0
  IsJudged (exit, p) = verdicts p.published ≡ verdict_of exit

module _ {Int : Type 0} (big : Big Int) (env : Env Int) (proposal : Proposal Int) (d : Deal) where
  judged :
      (p : Progress Int) (e : RetrievalEvent Int)
      → verdicts p.published ≡ []
      → verdicts (p.published ++ e ∷ []) ≡ verdict e
  judged p e h = verdicts-append p.published e ∙ ap (λ vs. vs ++ verdict e) h

  report-IsJudged :
      (r : Result FinalState) (p : Progress Int)
      → verdicts p.published ≡ []
      → IsJudged (report big env proposal d r p)
  unfolding report
  report-IsJudged (ok st) p h = judged p _ h
  report-IsJudged (err e) p h = judged p _ h

  confirm-IsJudged :
      (r : Result Bool) (p : Progress Int)
      → verdicts p.published ≡ []
      → IsJudged (confirm big env proposal d r p)
  unfolding confirm
  confirm-IsJudged (ok true) p h = report-IsJudged (env.channel_state d.chanid) p h
  confirm-IsJudged (ok false) p h = judged p _ h
  confirm-IsJudged (err e) p h = judged p _ h

  finish_up-IsJudged :
      (a : Awaited) (p : Progress Int)
      → verdicts p.published ≡ []
      → IsJudged (finish_up big env proposal d a p)
  unfolding finish_up
  finish_up-IsJudged (finished none) p h =
      confirm-IsJudged (env.has_block d.root_cid) _ (verdicts-run_events big d env.late p ∙ h)
  finish_up-IsJudged (finished (some e)) p h =
      judged (run_events big d env.late p) _ (verdicts-run_events big d env.late p ∙ h)
  finish_up-IsJudged (context_ended e) p h = verdicts-run_events big d env.late p ∙ h
  finish_up-IsJudged still_waiting p h = h

  deferred-IsJudged :
      (x : Exit Int × Progress Int) → IsJudged x → IsJudged (deferred big env proposal d x)
  unfolding deferred
  deferred-IsJudged (unfinished, p) h = h
  deferred-IsJudged (returned (ok r), p) h = h
  deferred-IsJudged (returned (err e), p) h = h
  deferred-IsJudged (cancelled e, p) h = h
  deferred-IsJudged (panicked, p) h = h

  opened-IsJudged :
      (p : Progress Int) → verdicts p.published ≡ [] → IsJudged (opened big env proposal d p)
  unfolding opened
  opened-IsJudged p h =
      let q : Progress Int = publish (proposed (deal_origin d)) p in
      deferred-IsJudged _ (
        finish_up-IsJudged (await big d env.wakes q).0 _
          (verdicts-await big d env.wakes q ∙ judged p _ h))

module _ {Int : Type 0} (big : Big Int) (env : Env Int) (proposal : Proposal Int) where
  propose-IsJudged :
      (d : Deal) (r : Result ChannelId) (p : Progress Int)
      → verdicts p.published ≡ []
      → IsJudged (propose big env proposal d r p)
  unfolding propose
  propose-IsJudged d (ok chanid) p h =
      opened-IsJudged big env proposal (record d { chanid = chanid }) p h
  propose-IsJudged d (err e) p h = judged big env proposal d p _ h

  with_lane-IsJudged :
      (peer_id : String) (o : Option (Result ℕ)) → IsJudged (with_lane big env proposal peer_id o)
  unfolding with_lane
  with_lane-IsJudged peer_id none = refl
  with_lane-IsJudged peer_id (some (err e)) = refl
  with_lane-IsJudged peer_id (some (ok lane)) =
      propose-IsJudged (deal_of big env proposal peer_id lane)
        (env.open_pull_data_channel peer_id proposal proposal.payload_cid) _
        (verdicts-run_events big _ env.early (initial big))

  -- A retrieval that returns publishes exactly one verdict: one success event if it returns stats,
  -- one failure event if it returns an error. One that its context ends, or that still waits,
  -- publishes neither.
  pub retrieve_content_from_peer-IsJudged :
      (peer_id : String) → IsJudged (retrieve_content_from_peer big env proposal peer_id)
  unfolding retrieve_content_from_peer
  retrieve_content_from_peer-IsJudged peer_id = with_lane-IsJudged peer_id _
