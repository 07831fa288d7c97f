-- ===== src/Retrieval/Handler.antt =====
-- The callback that the retrieval subscribes to the events of the data transfer.
pub mod Completion
pub mod Payments
pub mod Sending
use filclient.Base.{
  ℕ, ◌+◌, ◌%◌, ◌^◌, String, str_append, Bool, true, false, Option, none, some, List, [], ◌∷◌, ◌++◌,
  u64, if◌then◌else◌,
}
use filclient.Base.Big.{Big}
use filclient.Errors.{GoError, message, wrap, Result, ok, err}
use filclient.Rep.Event.{Origin, RetrievalEvent, retrieval_phase, accepted, first_byte}
use filclient.Retrieval.{
  ChannelId, same_channel, address_undef, EventCode, error, cleanup_complete, new_voucher_result,
  finish_transfer, data_received_progress, DealStatus, deal_accepted, funds_needed,
  funds_needed_last_payment, rejected, funds_needed_unseal, unsealing, cancelled, errored,
  completed, DealResponse, DtEvent, Voucher, VoucherResult, DealPayment, Replies, Deal, Progress,
}

-- The origin of the events of this retrieval.
abbrev pub deal_origin : Deal → Origin
deal_origin d = record {
  phase = retrieval_phase;
  payload_cid = d.root_cid;
  storage_provider_id = d.peer_id;
  storage_provider_addr = address_undef;
}

-- `finish`: only the first result fits into `dtRes`.
abbrev pub first_result : Option (Option GoError) → Option GoError → Option (Option GoError)
first_result none res = some res
first_result (some old) res = some old

module _ {Int : Type 0} where
  unfoldable pub finish : Option GoError → Progress Int → Progress Int
  finish res p = record p { dt_res = first_result p.dt_res res }

  abbrev publish : RetrievalEvent Int → Progress Int → Progress Int
  publish e p = record p { published = p.published ++ e ∷ [] }

-- The variables as they are before the subscription.
abbrev pub initial : {Int : Type 0} → Big Int → Progress Int
initial big = record {
  total_payment = big.new 0;
  nonce = 0;
  dt_res = none;
  all_bytes_received = false;
  deal_complete = false;
  received_first_byte = false;
  published = [];
  requested = [];
  sent = [];
  reported = [];
  closed = [];
}

module _ {Int : Type 0} (big : Big Int) (d : Deal) (r : Replies Int) where
  voucher_sent : DealPayment Int → Result (Unit {0}) → Progress Int → Progress Int
  unfolding finish
  voucher_sent payment (ok _) p = record p {
    nonce = u64 (p.nonce + 1);
    sent = p.sent ++ payment ∷ [];
  }
  voucher_sent payment (err e) p = finish (some (wrap "failed to send payment voucher" e)) p

  voucher_created : Result (VoucherResult Int) → Progress Int → Progress Int
  unfolding finish voucher_sent
  voucher_created (ok vres) p =
      let payment : DealPayment Int = record {
        id = d.deal_id;
        payment_channel = d.pch_addr;
        payment_voucher = vres.voucher;
      } in
      if big.less_than (big.new 0) vres.shortfall
      then finish
          (some (
            message (
              str_append "not enough funds remaining in payment channel (shortfall = "
                (str_append (big.to_string vres.shortfall) ")"))))
          p
      else voucher_sent payment (r.send_voucher d.chanid payment) p
  voucher_created (err e) p = finish (some e) p

  -- The miner wants a payment.
  pay : Int → Progress Int → Progress Int
  unfolding finish voucher_created
  pay owed p =
      let total = big.add p.total_payment owed in
      let voucher : Voucher Int = record {
        channel_addr = d.pch_addr;
        lane = d.pch_lane;
        nonce = p.nonce;
        amount = total;
      } in
      if d.pch_required
      then voucher_created (r.create_voucher voucher)
          (record p { total_payment = total; requested = p.requested ++ voucher ∷ [] })
      else finish
          (some (
            message
              "the miner requested payment even though this transaction was determined to be zero cost"))
          p

  on_status : DealStatus → DealResponse Int → Progress Int → Progress Int
  unfolding pay finish
  on_status deal_accepted res p = publish (accepted (deal_origin d)) p
  on_status funds_needed res p = pay res.payment_owed p
  on_status funds_needed_last_payment res p = pay res.payment_owed p
  on_status rejected res p = finish (some (message (str_append "deal rejected: " res.message))) p
  on_status funds_needed_unseal res p = finish (some (message "data is sealed")) p
  on_status unsealing res p = finish (some (message "data is sealed")) p
  on_status cancelled res p = finish (some (message (str_append "deal cancelled: " res.message))) p
  on_status errored res p = finish (some (message (str_append "deal errored: " res.message))) p
  on_status completed res p =
      if p.all_bytes_received then finish none p else record p { deal_complete = true }
  on_status _ res p = p

  on_response : Option (DealResponse Int) → Progress Int → Progress Int
  unfolding on_status
  on_response (some res) p = on_status res.status res p
  on_response none p = p

  on_progress : ℕ → Progress Int → Progress Int
  on_progress received p =
      let q : Progress Int =
        if p.received_first_byte
        then p
        else publish (first_byte (deal_origin d)) (record p { received_first_byte = true }) in
      record q { reported = q.reported ++ received ∷ [] }

  -- The switch over the event's code; the codes left out only log.
  dispatch : EventCode → DtEvent Int → Progress Int → Progress Int
  unfolding finish on_response on_progress
  dispatch error ev p = finish (some (message (str_append "datatransfer error: " ev.message))) p
  dispatch cleanup_complete ev p = finish none p
  dispatch new_voucher_result ev p = on_response ev.last_voucher_result p
  dispatch finish_transfer ev p =
      if p.deal_complete then finish none p else record p { all_bytes_received = true }
  dispatch data_received_progress ev p = on_progress ev.received p
  dispatch _ ev p = p

  -- Events of other channels are skipped.
  unfoldable pub on_event : DtEvent Int → Progress Int → Progress Int
  unfolding dispatch
  on_event ev p = if same_channel ev.channel_id d.chanid then dispatch ev.code ev p else p

-- What happens between the subscription and its end.
abbrev pub Arrival : Type 0 → Type 0
Arrival Int = DtEvent Int × Replies Int

unfoldable pub run_events :
    {Int : Type 0} → Big Int → Deal → List (Arrival Int) → Progress Int → Progress Int
unfolding on_event
run_events big d [] p = p
run_events big d ((ev, r) ∷ evs) p = run_events big d evs (on_event big d r ev p)
