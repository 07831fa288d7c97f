-- ===== src/Retrieval/Content/Vouchers.antt =====
-- Which payment channel the vouchers of a retrieval name.
use filclient.Base.{
  ℕ, Bool, String, ◌≡◌, refl, sym, subst, Option, none, some, List, [], ◌∷◌, All, arith,
}
use filclient.Base.Big.{Big}
use filclient.Errors.{GoError, Result, ok, err}
use filclient.Retrieval.{address_undef, ChannelId, Voucher, Deal, Progress}
use filclient.Retrieval.Handler.{Arrival, run_events, initial, deal_origin}
use filclient.Retrieval.Handler.Payments.{NamesChannel, on_event-NamesChannel}
use filclient.Rep.Event.{proposed}
use filclient.Retrieval.Content.{
  Proposal, Wake, arrives, receives, shutdown_requested, context_done, Env, Awaited, finished,
  still_waiting, context_ended, Exit, returned, cancelled, unfinished, panicked, await, confirm,
  finish_up, deferred, opened, propose, with_lane, deal_of, retrieve_content_from_peer, publish,
  receive,
}

module _ {Int : Type 0} (big : Big Int) (d : Deal) where
  run_events-NamesChannel :
      (evs : List (Arrival Int)) (p : Progress Int)
      → NamesChannel d p
      → NamesChannel d (run_events big d evs p)
  unfolding run_events
  run_events-NamesChannel [] p h = h
  run_events-NamesChannel ((ev, r) ∷ evs) p h =
      run_events-NamesChannel evs _ (on_event-NamesChannel big d r ev p h)

  receive-NamesChannel :
      (o : Option (Option GoError)) (later : Awaited × Progress Int) (p : Progress Int)
      → NamesChannel d p
      → NamesChannel d later.1
      → NamesChannel d (receive o later p).1
  receive-NamesChannel none later p h k = k
  receive-NamesChannel (some res) later p h k = h

  await-NamesChannel :
      (ws : List (Wake Int)) (p : Progress Int)
      → NamesChannel d p
      → NamesChannel d (await big d ws p).1
  unfolding await
  await-NamesChannel [] p h = h
  await-NamesChannel (arrives (ev, r) ∷ ws) p h =
      await-NamesChannel ws _ (on_event-NamesChannel big d r ev p h)
  await-NamesChannel (receives ∷ ws) p h =
      receive-NamesChannel p.dt_res _ p h (await-NamesChannel ws p h)
  await-NamesChannel (shutdown_requested ∷ ws) p h = await-NamesChannel ws _ h
  await-NamesChannel (context_done e ∷ ws) p h = h

module _ {Int : Type 0} (big : Big Int) (env : Env Int) (proposal : Proposal Int) (d : Deal) where
  confirm_requested :
      (has : Result Bool) (p : Progress Int)
      → (confirm big env proposal d has p).1.requested ≡ p.requested
  unfolding confirm
  confirm_requested has p = ground arith

  finish_up-NamesChannel :
      (a : Awaited) (p : Progress Int)
      → NamesChannel d p
      → NamesChannel d (finish_up big env proposal d a p).1
  unfolding finish_up
  finish_up-NamesChannel (finished none) p h =
      subst (All (λ v. v.channel_addr ≡ d.pch_addr)) (sym (confirm_requested _ _))
        (run_events-NamesChannel big d env.late p h)
  finish_up-NamesChannel (finished (some e)) p h = run_events-NamesChannel big d env.late p h
  finish_up-NamesChannel (context_ended e) p h = run_events-NamesChannel big d env.late p h
  finish_up-NamesChannel still_waiting p h = h

  deferred_requested :
      (x : Exit Int × Progress Int) → (deferred big env proposal d x).1.requested ≡ x.1.requested
  unfolding deferred
  deferred_requested (unfinished, p) = refl
  deferred_requested (returned r, p) = refl
  deferred_requested (cancelled e, p) = refl
  deferred_requested (panicked, p) = refl

  opened-NamesChannel :
      (p : Progress Int) → NamesChannel d p → NamesChannel d (opened big env proposal d p).1
  unfolding opened
  opened-NamesChannel p h =
      let (a, q) = await big d env.wakes (publish (proposed (deal_origin d)) p) in
      subst (All (λ v. v.channel_addr ≡ d.pch_addr))
        (sym (deferred_requested (finish_up big env proposal d a q)))
        (finish_up-NamesChannel a q (await-NamesChannel big d env.wakes _ h))

-- Every voucher asked for names the undefined address.
abbrev pub AllUndefined : {Int : Type 0} → Progress Int → Type 0
AllUndefined p = All (λ v. v.channel_addr ≡ address_undef) p.requested

module _ {Int : Type 0} (big : Big Int) (env : Env Int) (proposal : Proposal Int) where
  propose_undefined :
      (d : Deal) (r : Result ChannelId) (p : Progress Int)
      → d.pch_addr ≡ address_undef
      → NamesChannel d p
      → AllUndefined (propose big env proposal d r p).1
  unfolding propose
  propose_undefined d (ok chanid) p e h =
      let d' : Deal = record d { chanid = chanid } in
      subst
        (λ a.
          All {A = Voucher Int} (λ v. v.channel_addr ≡ a)
            (opened big env proposal d' p).1.requested)
        e (opened-NamesChannel big env proposal d' p h)
  propose_undefined d (err x) p e h =
      subst (λ a. All {A = Voucher Int} (λ v. v.channel_addr ≡ a) p.requested) e h

  with_lane_undefined :
      (peer_id : String) (o : Option (Result ℕ))
      → AllUndefined (with_lane big env proposal peer_id o).1
  unfolding with_lane
  with_lane_undefined peer_id none = tt
  with_lane_undefined peer_id (some (err e)) = tt
  with_lane_undefined peer_id (some (ok lane)) =
      propose_undefined (deal_of big env proposal peer_id lane)
        (env.open_pull_data_channel peer_id proposal proposal.payload_cid) _ refl
        (run_events-NamesChannel big (deal_of big env proposal peer_id lane) env.early (initial big)
          tt)

  -- Every voucher that a retrieval asks for names the undefined address as its payment channel,
  -- whatever channel was found or made for it.
  pub retrieve_content_from_peer_undefined :
      (peer_id : String) → AllUndefined (retrieve_content_from_peer big env proposal peer_id).1
  unfolding retrieve_content_from_peer
  retrieve_content_from_peer_undefined peer_id = with_lane_undefined peer_id _
