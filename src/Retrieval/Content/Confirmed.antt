-- ===== src/Retrieval/Content/Confirmed.antt =====
-- What has happened before a retrieval returns stats.
use filclient.Base.{
  ℕ, String, ◌≡◌, refl, ◌∙◌, sym, ◌⊎◌, true, false, Option, none, some, List, [], ◌∷◌, All, arith,
}
use filclient.Base.Big.{Big}
use filclient.Errors.{Result, ok, err}
use filclient.Rep.Event.{proposed}
use filclient.Retrieval.{
  same_channel, no_channel, ChannelId, cleanup_complete, finish_transfer, Deal, Progress,
}
use filclient.Retrieval.Handler.{Arrival, on_event, run_events, initial, deal_origin}
use filclient.Retrieval.Handler.Completion.{
  HasCode, IsCompletion, Saw, on_event_success, on_event_bytes, on_event_complete,
}
use filclient.Retrieval.Content.{
  Proposal, Wake, arrives, receives, shutdown_requested, context_done, Env, RetrievalStats, Awaited,
  finished, Exit, returned, cancelled, unfinished, panicked, await, finish_up, deferred, opened,
  propose, with_lane, deal_of, retrieve_content_from_peer, publish,
}

module _ {Int : Type 0} where
  -- The events that are handled before the wait ends.
  abbrev pub arrivals : List (Wake Int) → List (Arrival Int)
  arrivals [] = []
  arrivals (arrives a ∷ ws) = a ∷ arrivals ws
  arrivals (_ ∷ ws) = arrivals ws

  -- The transfer was cleaned up, or it finished and the miner said that the deal is complete.
  abbrev pub IsComplete : ChannelId → List (Arrival Int) → Type 0
  IsComplete chanid evs =
      Saw (HasCode chanid cleanup_complete) evs
      ⊎ (Saw (HasCode chanid finish_transfer) evs × Saw (IsCompletion chanid) evs)

module _ {Int : Type 0} (big : Big Int) (d : Deal) where
  await_success :
      (ws : List (Wake Int)) (p : Progress Int)
      → (await big d ws p).0 ≡ finished none
      → (p.dt_res ≡ some none)
        ⊎ Saw (HasCode d.chanid cleanup_complete) (arrivals ws)
        ⊎ (((p.all_bytes_received ≡ true) ⊎ Saw (HasCode d.chanid finish_transfer) (arrivals ws))
            × ((p.deal_complete ≡ true) ⊎ Saw (IsCompletion d.chanid) (arrivals ws)))
  unfolding await
  await_success [] p h = cc
  await_success (arrives (ev, r) ∷ ws) p h = ground (
    arith,
    await_success ws (on_event big d r ev p) h,
    on_event_success big d r ev p,
    on_event_bytes big d r ev p,
    on_event_complete big d r ev p,
  )
  await_success (receives ∷ ws) p h = ground (arith, await_success ws p)
  await_success (shutdown_requested ∷ ws) p h = await_success ws _ h
  await_success (context_done e ∷ ws) p h = cc

-- Before the transfer is open no event belongs to its channel.
abbrev pub IsQuiet : {Int : Type 0} → List (Arrival Int) → Type 0
IsQuiet = All (λ a. same_channel a.0.channel_id no_channel ≡ false)

module _ {Int : Type 0} (big : Big Int) (env : Env Int) (proposal : Proposal Int) (d : Deal) where
  run_quiet :
      (evs : List (Arrival Int)) (p : Progress Int)
      → d.chanid ≡ no_channel
      → IsQuiet evs
      → run_events big d evs p ≡ p
  unfolding run_events on_event
  run_quiet [] p e q = refl
  run_quiet ((ev, r) ∷ evs) p e q = rw (e, q.0) (run_quiet evs p e q.1)

  finish_up_ok :
      (a : Awaited) (p : Progress Int) (stats : RetrievalStats Int)
      → (finish_up big env proposal d a p).0 ≡ returned (ok stats)
      → (a ≡ finished none) × (env.has_block d.root_cid ≡ ok true)
  unfolding finish_up
  finish_up_ok a p stats h = ground arith

  deferred_exit : (x : Exit Int × Progress Int) → (deferred big env proposal d x).0 ≡ x.0
  unfolding deferred
  deferred_exit (unfinished, p) = refl
  deferred_exit (returned r, p) = refl
  deferred_exit (cancelled e, p) = refl
  deferred_exit (panicked, p) = refl

  opened_ok :
      (p : Progress Int) (stats : RetrievalStats Int)
      → (p.dt_res ≡ none) × (p.all_bytes_received ≡ false) × (p.deal_complete ≡ false)
      → (opened big env proposal d p).0 ≡ returned (ok stats)
      → (env.has_block d.root_cid ≡ ok true) × IsComplete d.chanid (arrivals env.wakes)
  unfolding opened
  opened_ok p stats fresh h =
      let q : Progress Int = publish (proposed (deal_origin d)) p in
      let (end, has) =
        finish_up_ok (await big d env.wakes q).0 (await big d env.wakes q).1 stats
          (sym (deferred_exit _) ∙ h) in
      (has, ground (arith, await_success big d env.wakes q end))

module _ {Int : Type 0} (big : Big Int) (env : Env Int) (proposal : Proposal Int) where
  propose_ok :
      (d : Deal) (r : Result ChannelId) (p : Progress Int) (stats : RetrievalStats Int)
      → (p.dt_res ≡ none) × (p.all_bytes_received ≡ false) × (p.deal_complete ≡ false)
      → (propose big env proposal d r p).0 ≡ returned (ok stats)
      → (chanid : ChannelId) × (r ≡ ok chanid)
        × (env.has_block d.root_cid ≡ ok true)
        × IsComplete chanid (arrivals env.wakes)
  unfolding propose
  propose_ok d (err e) p stats fresh h = absurd (cc)
  propose_ok d (ok chanid) p stats fresh h =
      let (has, done) = opened_ok big env proposal (record d { chanid = chanid }) p stats fresh h in
      (chanid, refl, has, done)

  with_lane_ok :
      (peer_id : String) (o : Option (Result ℕ)) (stats : RetrievalStats Int)
      → IsQuiet env.early
      → (with_lane big env proposal peer_id o).0 ≡ returned (ok stats)
      → (chanid : ChannelId) × (env.open_pull_data_channel peer_id proposal proposal.payload_cid
          ≡ ok chanid)
        × (env.has_block proposal.payload_cid ≡ ok true)
        × IsComplete chanid (arrivals env.wakes)
  unfolding with_lane
  with_lane_ok peer_id none stats q h = absurd (cc)
  with_lane_ok peer_id (some (err e)) stats q h = absurd (cc)
  with_lane_ok peer_id (some (ok lane)) stats q h =
      let d = deal_of big env proposal peer_id lane in
      let e = run_quiet big env proposal d env.early (initial big) refl q in
      propose_ok d (env.open_pull_data_channel peer_id proposal proposal.payload_cid) _ stats
        (rw e (refl, refl, refl)) h

  -- Stats are returned only if the transfer for this proposal was opened at the peer, its clean-up was complete, or it had
  -- finished and the miner had said that the deal is complete, and the blockstore has the block of
  -- the payload; provided that no event came for the undefined channel before the transfer was open.
  pub retrieve_content_from_peer_confirmed :
      (peer_id : String) (stats : RetrievalStats Int)
      → IsQuiet env.early
      → (retrieve_content_from_peer big env proposal peer_id).0 ≡ returned (ok stats)
      → (chanid : ChannelId) × (env.open_pull_data_channel peer_id proposal proposal.payload_cid
          ≡ ok chanid)
        × (env.has_block proposal.payload_cid ≡ ok true)
        × IsComplete chanid (arrivals env.wakes)
  unfolding retrieve_content_from_peer
  retrieve_content_from_peer_confirmed peer_id stats q h = with_lane_ok peer_id _ stats q h

-- The same without what the events say, whatever came before the transfer was open.
module _ {Int : Type 0} (big : Big Int) (env : Env Int) (proposal : Proposal Int) where
  propose_has :
      (d : Deal) (r : Result ChannelId) (p : Progress Int) (stats : RetrievalStats Int)
      → (propose big env proposal d r p).0 ≡ returned (ok stats)
      → (chanid : ChannelId) × (r ≡ ok chanid) × (env.has_block d.root_cid ≡ ok true)
  unfolding propose opened
  propose_has d (err e) p stats h = absurd (cc)
  propose_has d (ok chanid) p stats h =
      let d' : Deal = record d { chanid = chanid } in
      let (res, q) = await big d' env.wakes (publish (proposed (deal_origin d')) p) in
      (
        chanid,
        refl,
        (finish_up_ok big env proposal d' res q stats
            (sym (deferred_exit big env proposal d' _) ∙ h)).1,
      )

  with_lane_has :
      (peer_id : String) (o : Option (Result ℕ)) (stats : RetrievalStats Int)
      → (with_lane big env proposal peer_id o).0 ≡ returned (ok stats)
      → (chanid : ChannelId) × (env.open_pull_data_channel peer_id proposal proposal.payload_cid
          ≡ ok chanid)
        × (env.has_block proposal.payload_cid ≡ ok true)
  unfolding with_lane
  with_lane_has peer_id none stats h = absurd (cc)
  with_lane_has peer_id (some (err e)) stats h = absurd (cc)
  with_lane_has peer_id (some (ok lane)) stats h =
      propose_has (deal_of big env proposal peer_id lane)
        (env.open_pull_data_channel peer_id proposal proposal.payload_cid) _ stats h

  pub retrieve_content_from_peer_has :
      (peer_id : String) (stats : RetrievalStats Int)
      → (retrieve_content_from_peer big env proposal peer_id).0 ≡ returned (ok stats)
      → (chanid : ChannelId) × (env.open_pull_data_channel peer_id proposal proposal.payload_cid
          ≡ ok chanid)
        × (env.has_block proposal.payload_cid ≡ ok true)
  unfolding retrieve_content_from_peer
  retrieve_content_from_peer_has peer_id stats h = with_lane_has peer_id _ stats h
