-- ===== src/Retrieval/Handler/Sending.antt =====
-- The vouchers that the callback sends to the miner.
use filclient.Base.{
  ℕ, ◌+◌, ◌≡◌, ◌≢◌, refl, arith, sym, subst, ◌∙◌, inl, inr, Bool, true, false, Option, none, some,
  List, [], ◌∷◌, ◌++◌, u64, append_assoc, append-nil, Bool-cases, if◌then◌else◌,
}
use filclient.Base.Big.{Big}
use filclient.Errors.{GoError, Result, ok, err}
use filclient.Retrieval.{
  same_channel, EventCode, new_voucher_result, finish_transfer, data_received_progress, DealStatus,
  funds_needed, funds_needed_last_payment, completed, DealResponse, DtEvent, Voucher, VoucherResult,
  DealPayment, Replies, Deal, Progress,
}
use filclient.Retrieval.Handler.{
  first_result, finish, voucher_sent, voucher_created, pay, on_status, on_response, on_progress,
  dispatch, on_event, Arrival, run_events, initial,
}
use filclient.Retrieval.Handler.Completion.{run_settled}

module _ {Int : Type 0} where
  -- The payments that the miner asks for, with the replies at that time.
  abbrev asked_by_status : DealStatus → Int → Replies Int → List (Int × Replies Int)
  asked_by_status funds_needed owed r = (owed, r) ∷ []
  asked_by_status funds_needed_last_payment owed r = (owed, r) ∷ []
  asked_by_status _ owed r = []

  abbrev asked_by_response :
      EventCode → Option (DealResponse Int) → Replies Int → List (Int × Replies Int)
  asked_by_response new_voucher_result (some res) r = asked_by_status res.status res.payment_owed r
  asked_by_response _ _ r = []

  abbrev asked_by : Bool → DtEvent Int → Replies Int → List (Int × Replies Int)
  asked_by true ev r = asked_by_response ev.code ev.last_voucher_result r
  asked_by false ev r = []

  -- The payments asked for on the deal's channel, in order.
  abbrev pub all_asked : Deal → List (Arrival Int) → List (Int × Replies Int)
  all_asked d [] = []
  all_asked d ((ev, r) ∷ evs) =
      asked_by (same_channel ev.channel_id d.chanid) ev r ++ all_asked d evs

  module _ (big : Big Int) (d : Deal) where
    -- The payment that was sent is the voucher that was made for this request, and the miner's side took it.
    abbrev pub IsAnswer : ℕ → Int → Replies Int → DealPayment Int → Type 0
    IsAnswer nonce total r payment =
        (vres : VoucherResult Int) × (r.create_voucher
            (record { channel_addr = d.pch_addr; lane = d.pch_lane; nonce = nonce; amount = total })
          ≡ ok vres)
        × (big.less_than (big.new 0) vres.shortfall ≡ false)
        × (payment ≡ record {
          id = d.deal_id;
          payment_channel = d.pch_addr;
          payment_voucher = vres.voucher;
        })
        × (r.send_voucher d.chanid payment ≡ ok tt)

    -- One payment is sent for each request, in order; the nonces count up and the amounts add up.
    abbrev pub Answers : ℕ → Int → List (Int × Replies Int) → List (DealPayment Int) → Type 0
    Answers nonce total [] [] = Unit
    Answers nonce total [] (payment ∷ payments) = ⊥
    Answers nonce total ((owed, r) ∷ asked) [] = ⊥
    Answers nonce total ((owed, r) ∷ asked) (payment ∷ payments) =
        IsAnswer nonce (big.add total owed) r payment
        × Answers (u64 (nonce + 1)) (big.add total owed) asked payments

    -- What a step sends, if it answers `asked`, whatever is answered after it.
    abbrev Sends : Progress Int → Progress Int → List (Int × Replies Int) → Type 0
    Sends p q asked =
        (rest : List (Int × Replies Int)) (later : List (DealPayment Int))
        → Answers q.nonce q.total_payment rest later
        → (all : List (DealPayment Int)) × (q.sent ++ later ≡ p.sent ++ all)
          × Answers p.nonce p.total_payment (asked ++ rest) all

    -- The branches of a step.
    either :
        (p x y : Progress Int) (asked : List (Int × Replies Int)) (b : Bool)
        → (b ≡ true → x.dt_res ≡ none → Sends p x asked)
        → (b ≡ false → y.dt_res ≡ none → Sends p y asked)
        → (if b then x else y).dt_res ≡ none
        → Sends p (if b then x else y) asked
    either p x y asked true f g e = f refl e
    either p x y asked false f g e = g refl e

    -- A result ends the wait.
    first_result-settles :
        (o : Option (Option GoError)) (res : Option GoError) → first_result o res ≢ none
    first_result-settles none res e = ground arith
    first_result-settles (some old) res e = ground arith

    module _ (r : Replies Int) where
      voucher_sent-Sends :
          (owed : Int) (p : Progress Int) (payment : DealPayment Int) (answer : Result (Unit {0}))
          → r.send_voucher d.chanid payment ≡ answer
          → ((answer ≡ ok tt) → IsAnswer p.nonce (big.add p.total_payment owed) r payment)
          → (xs : List (Voucher Int))
          → let p' = record p { total_payment = big.add p.total_payment owed; requested = xs } in
            (voucher_sent big d r payment answer p').dt_res ≡ none
            → Sends p (voucher_sent big d r payment answer p') ((owed, r) ∷ [])
      unfolding voucher_sent finish
      voucher_sent-Sends owed p payment (ok _) a h xs e rest later more =
          (payment ∷ later, append_assoc p.sent (payment ∷ []) later, (h refl, more))
      voucher_sent-Sends owed p payment (err x) a h xs e rest later more =
          absurd (first_result-settles p.dt_res _ e)

      voucher_created-Sends :
          (owed : Int) (p : Progress Int) (answer : Result (VoucherResult Int))
          → let voucher : Voucher Int = record {
            channel_addr = d.pch_addr;
            lane = d.pch_lane;
            nonce = p.nonce;
            amount = big.add p.total_payment owed;
          } in
            let p' = record p {
              total_payment = big.add p.total_payment owed;
              requested = p.requested ++ voucher ∷ [];
            } in
            r.create_voucher voucher ≡ answer
            → (voucher_created big d r answer p').dt_res ≡ none
            → Sends p (voucher_created big d r answer p') ((owed, r) ∷ [])
      unfolding voucher_created
      voucher_created-Sends owed p (err x) a e = absurd (first_result-settles p.dt_res _ e)
      voucher_created-Sends owed p (ok vres) a e =
          either p _ _ ((owed, r) ∷ []) (big.less_than (big.new 0) vres.shortfall)
            (λ q e'. absurd (first_result-settles p.dt_res _ e'))
            (λ q e'.
              voucher_sent-Sends owed p
                (record {
                  id = d.deal_id;
                  payment_channel = d.pch_addr;
                  payment_voucher = vres.voucher;
                })
                _ refl (λ taken. (vres, a, q, refl, taken)) _ e')
            e

      pay-Sends :
          (owed : Int) (p : Progress Int)
          → (pay big d r owed p).dt_res ≡ none
          → Sends p (pay big d r owed p) ((owed, r) ∷ [])
      unfolding pay
      pay-Sends owed p e =
          either p _ _ ((owed, r) ∷ []) d.pch_required
            (λ q e'. voucher_created-Sends owed p _ refl e')
            (λ q e'. absurd (first_result-settles p.dt_res _ e')) e

      on_status-Sends :
          (st : DealStatus) (res : DealResponse Int) (p : Progress Int)
          → (on_status big d r st res p).dt_res ≡ none
          → Sends p (on_status big d r st res p) (asked_by_status st res.payment_owed r)
      unfolding on_status finish
      on_status-Sends funds_needed res p e = pay-Sends res.payment_owed p e
      on_status-Sends funds_needed_last_payment res p e = pay-Sends res.payment_owed p e
      on_status-Sends completed res p e =
          either p _ _ [] p.all_bytes_received (λ q e'. λ rest later h. (later, refl, h))
            (λ q e'. λ rest later h. (later, refl, h)) e
      on_status-Sends _ res p e = λ rest later h. (later, refl, h)

      dispatch-Sends :
          (code : EventCode) (ev : DtEvent Int) (p : Progress Int) (o : Option (DealResponse Int))
          → ev.last_voucher_result ≡ o
          → (dispatch big d r code ev p).dt_res ≡ none
          → Sends p (dispatch big d r code ev p) (asked_by_response code o r)
      unfolding dispatch finish on_progress
      dispatch-Sends new_voucher_result ev p none q e =
          rw (q, on_response) (λ rest later h. (later, refl, h))
      dispatch-Sends new_voucher_result ev p (some res) q e =
          rw (q, on_response) (on_status-Sends res.status res p (rw (q, on_response) at e))
      dispatch-Sends finish_transfer ev p o q e =
          either p _ _ [] p.deal_complete (λ q e'. λ rest later h. (later, refl, h))
            (λ q e'. λ rest later h. (later, refl, h)) e
      dispatch-Sends data_received_progress ev p o q e = elim (Bool-cases p.received_first_byte) [
        | inl b ↦ rw b (λ rest later h. (later, refl, h))
        | inr b ↦ rw b (λ rest later h. (later, refl, h))
      ]
      dispatch-Sends _ ev p o q e = λ rest later h. (later, refl, h)

      on_event-Sends :
          (ev : DtEvent Int) (p : Progress Int)
          → (on_event big d r ev p).dt_res ≡ none
          → Sends p (on_event big d r ev p) (asked_by (same_channel ev.channel_id d.chanid) ev r)
      unfolding on_event
      on_event-Sends ev p e = elim (Bool-cases (same_channel ev.channel_id d.chanid)) [
        | inl q ↦ rw q (dispatch-Sends ev.code ev p ev.last_voucher_result refl (rw q at e))
        | inr q ↦ rw q (λ rest later h. (later, refl, h))
      ]

    run_events-Sends :
        (evs : List (Arrival Int)) (p : Progress Int)
        → (run_events big d evs p).dt_res ≡ none
        → (all : List (DealPayment Int)) × ((run_events big d evs p).sent ≡ p.sent ++ all)
          × Answers p.nonce p.total_payment (all_asked d evs) all
    unfolding run_events
    run_events-Sends [] p e = ([], sym (append-nil _), tt)
    run_events-Sends ((ev, r) ∷ evs) p e =
        let q = on_event big d r ev p in
        let (later, split, more) = run_events-Sends evs q e in
        let (all, joined, answers) =
          on_event-Sends r ev p (ground (arith, run_settled big d evs q)) (all_asked d evs) later
            more in
        (all, split ∙ joined, answers)

    -- While the wait has not ended, the payments sent answer the requests one by one.
    pub run_events-Answers :
        (evs : List (Arrival Int))
        → (run_events big d evs (initial big)).dt_res ≡ none
        → Answers 0 (big.new 0) (all_asked d evs) (run_events big d evs (initial big)).sent
    run_events-Answers evs e =
        let (all, sent, answers) = run_events-Sends evs (initial big) e in
        subst (Answers 0 (big.new 0) (all_asked d evs)) (sym sent) answers
