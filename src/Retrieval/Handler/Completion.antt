-- ===== src/Retrieval/Handler/Completion.antt =====
-- When the callback ends the wait for the retrieval.
use filclient.Base.{
  ◌≡◌, refl, ◌∙◌, ◌⊎◌, inl, inr, ◌≢◌, true, Option, none, some, List, [], ◌∷◌, Any, arith,
}
use filclient.Base.Big.{Big}
use filclient.Retrieval.{
  ChannelId, same_channel, EventCode, cleanup_complete, new_voucher_result, finish_transfer,
  DealStatus, completed, DealResponse, DtEvent, Replies, Deal, Progress,
}
use filclient.Retrieval.Handler.{on_event, Arrival, run_events, initial}

abbrev response_status : {Int : Type 0} → Option (DealResponse Int) → Option DealStatus
response_status none = none
response_status (some res) = some res.status

module _ {Int : Type 0} where
  -- An event of the deal's channel with the code.
  abbrev pub HasCode : ChannelId → EventCode → DtEvent Int → Type 0
  HasCode chanid code ev = (same_channel ev.channel_id chanid ≡ true) × (ev.code ≡ code)

  -- The miner's word that the deal is complete.
  abbrev pub IsCompletion : ChannelId → DtEvent Int → Type 0
  IsCompletion chanid ev =
      HasCode chanid new_voucher_result ev
      × (response_status ev.last_voucher_result ≡ some completed)

-- One of the events satisfies `P`.
abbrev pub Saw : {Int : Type 0} → (DtEvent Int → Type 0) → List (Arrival Int) → Type 0
Saw P = Any (λ a. P a.0)

module _ {Int : Type 0} (big : Big Int) (d : Deal) (r : Replies Int) where
  pub on_event_bytes :
      (ev : DtEvent Int) (p : Progress Int)
      → (on_event big d r ev p).all_bytes_received ≡ true
      → HasCode d.chanid finish_transfer ev ⊎ (p.all_bytes_received ≡ true)
  unfolding on_event
  on_event_bytes ev p h = ground arith

  pub on_event_complete :
      (ev : DtEvent Int) (p : Progress Int)
      → (on_event big d r ev p).deal_complete ≡ true
      → IsCompletion d.chanid ev ⊎ (p.deal_complete ≡ true)
  unfolding on_event
  on_event_complete ev p h = ground arith

  pub on_event_success :
      (ev : DtEvent Int) (p : Progress Int)
      → (on_event big d r ev p).dt_res ≡ some none
      → (p.dt_res ≡ some none)
        ⊎ HasCode d.chanid cleanup_complete ev
        ⊎ (HasCode d.chanid finish_transfer ev × (p.deal_complete ≡ true))
        ⊎ (IsCompletion d.chanid ev × (p.all_bytes_received ≡ true))
  unfolding on_event
  on_event_success ev p h = ground arith

  -- What is in `dtRes` stays there until it is received.
  -- What is in `dtRes` stays there until it is received.
  on_event_settled :
      (ev : DtEvent Int) (p : Progress Int)
      → p.dt_res ≢ none
      → (on_event big d r ev p).dt_res ≡ p.dt_res
  unfolding on_event
  on_event_settled ev p h = ground arith

  on_event_bytes_kept :
      (ev : DtEvent Int) (p : Progress Int)
      → p.all_bytes_received ≡ true
      → (on_event big d r ev p).all_bytes_received ≡ true
  unfolding on_event
  on_event_bytes_kept ev p h = ground arith

  on_event_complete_kept :
      (ev : DtEvent Int) (p : Progress Int)
      → p.deal_complete ≡ true
      → (on_event big d r ev p).deal_complete ≡ true
  unfolding on_event
  on_event_complete_kept ev p h = ground arith

  on_event-finish_transfer :
      (ev : DtEvent Int) (p : Progress Int)
      → HasCode d.chanid finish_transfer ev
      → ((on_event big d r ev p).dt_res ≢ none)
        ⊎ ((on_event big d r ev p).all_bytes_received ≡ true)
  unfolding on_event
  on_event-finish_transfer ev p h = ground arith

  on_event-completion :
      (ev : DtEvent Int) (p : Progress Int)
      → IsCompletion d.chanid ev
      → ((on_event big d r ev p).dt_res ≢ none) ⊎ ((on_event big d r ev p).deal_complete ≡ true)
  unfolding on_event
  on_event-completion ev p h = ground arith

  on_event_both :
      (ev : DtEvent Int) (p : Progress Int)
      → (p.all_bytes_received ≡ true → p.deal_complete ≡ true → p.dt_res ≢ none)
      → (on_event big d r ev p).all_bytes_received ≡ true
      → (on_event big d r ev p).deal_complete ≡ true
      → (on_event big d r ev p).dt_res ≢ none
  unfolding on_event
  on_event_both ev p both b c = ground arith

module _ {Int : Type 0} (big : Big Int) (d : Deal) where
  -- The first result stays in `dtRes` until it is received, whatever events follow.
  pub run_settled :
      (evs : List (Arrival Int)) (p : Progress Int)
      → p.dt_res ≢ none
      → (run_events big d evs p).dt_res ≡ p.dt_res
  unfolding run_events
  run_settled [] p h = refl
  run_settled ((ev, r) ∷ evs) p h =
      let e = on_event_settled big d r ev p h in
      run_settled evs (on_event big d r ev p) (rw e h) ∙ e

  run_bytes_kept :
      (evs : List (Arrival Int)) (p : Progress Int)
      → p.all_bytes_received ≡ true
      → (run_events big d evs p).all_bytes_received ≡ true
  unfolding run_events
  run_bytes_kept [] p h = h
  run_bytes_kept ((ev, r) ∷ evs) p h = run_bytes_kept evs _ (on_event_bytes_kept big d r ev p h)

  run_success :
      (evs : List (Arrival Int)) (p : Progress Int)
      → (run_events big d evs p).dt_res ≡ some none
      → (p.dt_res ≡ some none)
        ⊎ Saw (HasCode d.chanid cleanup_complete) evs
        ⊎ (((p.all_bytes_received ≡ true) ⊎ Saw (HasCode d.chanid finish_transfer) evs)
            × ((p.deal_complete ≡ true) ⊎ Saw (IsCompletion d.chanid) evs))
  unfolding run_events
  run_success [] p h = inl h
  run_success ((ev, r) ∷ evs) p h = ground (
    arith,
    run_success evs (on_event big d r ev p) h,
    on_event_success big d r ev p,
    on_event_bytes big d r ev p,
    on_event_complete big d r ev p,
  )

  run_ends :
      (evs : List (Arrival Int)) (p : Progress Int)
      → (p.dt_res ≢ none)
        ⊎ (p.all_bytes_received ≡ true)
        ⊎ Saw (HasCode d.chanid finish_transfer) evs
      → ((run_events big d evs p).dt_res ≢ none)
        ⊎ ((run_events big d evs p).all_bytes_received ≡ true)
  unfolding run_events
  run_ends [] p (inl h) = inl h
  run_ends [] p (inr (inl h)) = inr h
  run_ends [] p (inr (inr h)) = absurd h
  run_ends ((ev, r) ∷ evs) p h = run_ends evs (on_event big d r ev p) (
      ground (
        arith,
        on_event_settled big d r ev p,
        on_event_bytes_kept big d r ev p,
        on_event-finish_transfer big d r ev p,
      ))

  run_completes :
      (evs : List (Arrival Int)) (p : Progress Int)
      → (p.dt_res ≢ none) ⊎ (p.deal_complete ≡ true) ⊎ Saw (IsCompletion d.chanid) evs
      → ((run_events big d evs p).dt_res ≢ none) ⊎ ((run_events big d evs p).deal_complete ≡ true)
  unfolding run_events
  run_completes [] p (inl h) = inl h
  run_completes [] p (inr (inl h)) = inr h
  run_completes [] p (inr (inr h)) = absurd h
  run_completes ((ev, r) ∷ evs) p h = run_completes evs (on_event big d r ev p) (
      ground (
        arith,
        on_event_settled big d r ev p,
        on_event_complete_kept big d r ev p,
        on_event-completion big d r ev p,
      ))

  run_both :
      (evs : List (Arrival Int)) (p : Progress Int)
      → (p.all_bytes_received ≡ true → p.deal_complete ≡ true → p.dt_res ≢ none)
      → (run_events big d evs p).all_bytes_received ≡ true
      → (run_events big d evs p).deal_complete ≡ true
      → (run_events big d evs p).dt_res ≢ none
  unfolding run_events
  run_both [] p h = h
  run_both ((ev, r) ∷ evs) p h = run_both evs (on_event big d r ev p) (on_event_both big d r ev p h)

  -- The wait ends without an error only if the clean-up was complete, or if the transfer finished
  -- and the miner said that the deal is complete, both on this deal's channel.
  pub run_events_success :
      (evs : List (Arrival Int))
      → (run_events big d evs (initial big)).dt_res ≡ some none
      → Saw (HasCode d.chanid cleanup_complete) evs
        ⊎ (Saw (HasCode d.chanid finish_transfer) evs × Saw (IsCompletion d.chanid) evs)
  run_events_success evs h = ground (arith, run_success evs (initial big) h)

  -- Once the transfer has finished and the miner has said that the deal is complete, in either
  -- order and with any events between, the wait ends.
  pub run_events_ends :
      (evs : List (Arrival Int))
      → Saw (HasCode d.chanid finish_transfer) evs
      → Saw (IsCompletion d.chanid) evs
      → (run_events big d evs (initial big)).dt_res ≢ none
  run_events_ends evs f c = ground (
    arith,
    run_ends evs (initial big),
    run_completes evs (initial big),
    run_both evs (initial big),
  )
