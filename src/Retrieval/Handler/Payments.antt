-- ===== src/Retrieval/Handler/Payments.antt =====
-- The vouchers that the callback makes out.
use filclient.Base.{
  ℕ, ◌+◌, ◌≡◌, refl, ◌∙◌, ap, sym, inl, inr, Bool, true, false, Option, none, some, List, [], ◌∷◌,
  ◌++◌, All, All-append, arith, u64, append_assoc, append-nil, Bool-cases, if◌then◌else◌,
}
use filclient.Base.Big.{Big}
use filclient.Retrieval.{
  same_channel, EventCode, new_voucher_result, DealStatus, funds_needed, funds_needed_last_payment,
  completed, finish_transfer, data_received_progress, DealResponse, DtEvent, Replies, Deal,
  Progress, Voucher,
}
use filclient.Retrieval.Handler.{
  on_event, dispatch, on_response, on_status, pay, Arrival, run_events, initial,
}
use filclient.Retrieval.Handler.Completion.{run_settled}
use filclient.Retrieval.Handler.Sending.{all_asked, Answers, run_events-Answers}

module _ {Int : Type 0} where
  -- What the miner asks for in a response.
  abbrev owed_by_status : DealStatus → Int → List Int
  owed_by_status funds_needed owed = owed ∷ []
  owed_by_status funds_needed_last_payment owed = owed ∷ []
  owed_by_status _ owed = []

  abbrev owed_by_response : EventCode → Option (DealResponse Int) → List Int
  owed_by_response new_voucher_result (some res) = owed_by_status res.status res.payment_owed
  owed_by_response _ _ = []

  abbrev pub owed_by : Bool → DtEvent Int → List Int
  owed_by true ev = owed_by_response ev.code ev.last_voucher_result
  owed_by false ev = []

  -- The payments asked for on the deal's channel, in order.
  abbrev pub all_owed : Deal → List (Arrival Int) → List Int
  all_owed d [] = []
  all_owed d ((ev, r) ∷ evs) = owed_by (same_channel ev.channel_id d.chanid) ev ++ all_owed d evs

  -- The vouchers for a list of payments: one each, with the next nonce and the running total.
  abbrev pub vouchers_for : Big Int → Deal → ℕ → Int → List Int → List (Voucher Int)
  vouchers_for big d nonce total [] = []
  vouchers_for big d nonce total (owed ∷ rest) =
      record {
        channel_addr = d.pch_addr;
        lane = d.pch_lane;
        nonce = nonce;
        amount = big.add total owed;
      }
      ∷ vouchers_for big d (u64 (nonce + 1)) (big.add total owed) rest

  -- What a step does to the vouchers asked for, if it answers the payments `owed`.
  abbrev Pays : Big Int → Deal → Progress Int → Progress Int → List Int → Type 0
  Pays big d p q owed =
      (rest : List Int)
      → q.requested ++ vouchers_for big d q.nonce q.total_payment rest
        ≡ p.requested ++ vouchers_for big d p.nonce p.total_payment (owed ++ rest)

module _ {Int : Type 0} (big : Big Int) (d : Deal) (r : Replies Int) where
  pay-Pays :
      (owed : Int) (p : Progress Int)
      → (pay big d r owed p).dt_res ≡ none
      → Pays big d p (pay big d r owed p) (owed ∷ [])
  unfolding pay
  pay-Pays owed p h rest = ground (
    arith,
    append_assoc p.requested
        (record {
          channel_addr = d.pch_addr;
          lane = d.pch_lane;
          nonce = p.nonce;
          amount = big.add p.total_payment owed;
        }
          ∷ [])
        (vouchers_for big d (u64 (p.nonce + 1)) (big.add p.total_payment owed) rest),
  )

  on_status-Pays :
      (st : DealStatus) (res : DealResponse Int) (p : Progress Int)
      → (on_status big d r st res p).dt_res ≡ none
      → Pays big d p (on_status big d r st res p) (owed_by_status st res.payment_owed)
  unfolding on_status
  on_status-Pays funds_needed res p h rest = pay-Pays res.payment_owed p h rest
  on_status-Pays funds_needed_last_payment res p h rest = pay-Pays res.payment_owed p h rest
  on_status-Pays _ res p h rest = ground arith

  dispatch-Pays :
      (code : EventCode) (ev : DtEvent Int) (p : Progress Int) (o : Option (DealResponse Int))
      → ev.last_voucher_result ≡ o
      → (dispatch big d r code ev p).dt_res ≡ none
      → Pays big d p (dispatch big d r code ev p) (owed_by_response code o)
  unfolding dispatch
  dispatch-Pays new_voucher_result ev p none e h rest = rw (e, on_response) refl
  dispatch-Pays new_voucher_result ev p (some res) e h rest =
      rw (e, on_response) (on_status-Pays res.status res p (rw (e, on_response) at h) rest)
  dispatch-Pays _ ev p o e h rest = ground arith

  on_event-Pays :
      (ev : DtEvent Int) (p : Progress Int)
      → (on_event big d r ev p).dt_res ≡ none
      → Pays big d p (on_event big d r ev p) (owed_by (same_channel ev.channel_id d.chanid) ev)
  unfolding on_event
  on_event-Pays ev p h rest = elim (Bool-cases (same_channel ev.channel_id d.chanid)) [
    | inl e ↦ rw e (dispatch-Pays ev.code ev p ev.last_voucher_result refl (rw e at h) rest)
    | inr e ↦ rw e refl
  ]

module _ {Int : Type 0} (big : Big Int) (d : Deal) where
  still_waiting :
      (evs : List (Arrival Int)) (p : Progress Int)
      → (run_events big d evs p).dt_res ≡ none
      → p.dt_res ≡ none
  still_waiting evs p h = ground (arith, run_settled big d evs p)

  run_events-Pays :
      (evs : List (Arrival Int)) (p : Progress Int)
      → (run_events big d evs p).dt_res ≡ none
      → Pays big d p (run_events big d evs p) (all_owed d evs)
  unfolding run_events
  run_events-Pays [] p h rest = refl
  run_events-Pays ((ev, r) ∷ evs) p h rest =
      let q : Progress Int = on_event big d r ev p in
      let owed : List Int = owed_by (same_channel ev.channel_id d.chanid) ev in
      run_events-Pays evs q h rest
      ∙ on_event-Pays big d r ev p (still_waiting evs q h) (all_owed d evs ++ rest)
      ∙ ap (λ os. p.requested ++ vouchers_for big d p.nonce p.total_payment os)
          (sym (append_assoc owed (all_owed d evs) rest))

  -- While the wait has not ended, each payment that the miner has asked for on this channel has been
  -- answered, in order, with one voucher that was made and one payment that was sent and taken, which
  -- carries it: the nonces count from 0 and the amounts add up, and no voucher fell short.
  pub requested_vouchers :
      (evs : List (Arrival Int))
      → (run_events big d evs (initial big)).dt_res ≡ none
      → ((run_events big d evs (initial big)).requested
          ≡ vouchers_for big d 0 (big.new 0) (all_owed d evs))
        × Answers big d 0 (big.new 0) (all_asked d evs) (run_events big d evs (initial big)).sent
  requested_vouchers evs h = (
    sym (append-nil _)
        ∙ run_events-Pays evs (initial big) h []
        ∙ ap (vouchers_for big d 0 (big.new 0)) (append-nil (all_owed d evs)),
    run_events-Answers big d evs h,
  )

-- Every voucher asked for names the deal's payment channel.
abbrev pub NamesChannel : {Int : Type 0} → Deal → Progress Int → Type 0
NamesChannel d p = All (λ v. v.channel_addr ≡ d.pch_addr) p.requested

module _ {Int : Type 0} (big : Big Int) (d : Deal) (r : Replies Int) where
  pay_requested :
      (owed : Int) (p : Progress Int)
      → (pay big d r owed p).requested ≡ (
          if d.pch_required
          then p.requested
            ++ record {
              channel_addr = d.pch_addr;
              lane = d.pch_lane;
              nonce = p.nonce;
              amount = big.add p.total_payment owed;
            }
              ∷ []
          else p.requested)
  unfolding pay
  pay_requested owed p = ground arith

  pay-NamesChannel :
      (owed : Int) (p : Progress Int) → NamesChannel d p → NamesChannel d (pay big d r owed p)
  pay-NamesChannel owed p h = rw (pay_requested owed p) (elim (Bool-cases d.pch_required) [
    | inl e ↦ rw e (All-append (λ v. v.channel_addr ≡ d.pch_addr) p.requested _ h (refl, tt))
    | inr e ↦ rw e h
  ])

  on_status-NamesChannel :
      (st : DealStatus) (res : DealResponse Int) (p : Progress Int)
      → NamesChannel d p
      → NamesChannel d (on_status big d r st res p)
  unfolding on_status
  on_status-NamesChannel funds_needed res p h = pay-NamesChannel res.payment_owed p h
  on_status-NamesChannel funds_needed_last_payment res p h = pay-NamesChannel res.payment_owed p h
  on_status-NamesChannel completed res p h = elim (Bool-cases p.all_bytes_received) [
    | inl e ↦ rw e h
    | inr e ↦ rw e h
  ]
  on_status-NamesChannel _ res p h = h

  dispatch-NamesChannel :
      (code : EventCode) (ev : DtEvent Int) (p : Progress Int) (o : Option (DealResponse Int))
      → ev.last_voucher_result ≡ o
      → NamesChannel d p
      → NamesChannel d (dispatch big d r code ev p)
  unfolding dispatch
  dispatch-NamesChannel new_voucher_result ev p none e h = rw (e, on_response) h
  dispatch-NamesChannel new_voucher_result ev p (some res) e h =
      rw (e, on_response) (on_status-NamesChannel res.status res p h)
  dispatch-NamesChannel finish_transfer ev p o e h = elim (Bool-cases p.deal_complete) [
    | inl q ↦ rw q h
    | inr q ↦ rw q h
  ]
  dispatch-NamesChannel data_received_progress ev p o e h =
      elim (Bool-cases p.received_first_byte) [ inl q ↦ rw q h | inr q ↦ rw q h ]
  dispatch-NamesChannel _ ev p o e h = h

  pub on_event-NamesChannel :
      (ev : DtEvent Int) (p : Progress Int)
      → NamesChannel d p
      → NamesChannel d (on_event big d r ev p)
  unfolding on_event
  on_event-NamesChannel ev p h = elim (Bool-cases (same_channel ev.channel_id d.chanid)) [
    | inl e ↦ rw e (dispatch-NamesChannel ev.code ev p ev.last_voucher_result refl h)
    | inr e ↦ rw e h
  ]
