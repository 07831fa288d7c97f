-- ===== src/Retrieval/Tests.antt =====
-- Runs of a retrieval at concrete inputs.
use filclient.Base.{ℕ, ◌≡◌, refl, ◌≢◌, ◌⊎◌, inl, inr, true, none, some, List, [], ◌∷◌}
use filclient.Base.Big.{nat_big}
use filclient.Errors.{message, ok, err}
use filclient.Retrieval.{
  ChannelId, EventCode, cleanup_complete, new_voucher_result, finish_transfer, DealStatus,
  funds_needed, completed, DtEvent, Replies, Deal,
}
use filclient.Retrieval.Handler.{Arrival, run_events, on_event, initial}
use filclient.Retrieval.Handler.Completion.{
  HasCode, IsCompletion, Saw, run_events_success, run_events_ends,
}
use filclient.Retrieval.Handler.Sending.{Answers}
use filclient.Retrieval.Handler.Payments.{vouchers_for, requested_vouchers}
use filclient.Retrieval.Content.{
  Proposal, arrives, receives, Env, RetrievalStats, returned, retrieve_content_from_peer,
}
use filclient.Retrieval.Content.Outcome.{IsJudged, retrieve_content_from_peer-IsJudged}
use filclient.Retrieval.Content.Confirmed.{
  IsComplete, arrivals, retrieve_content_from_peer_confirmed,
}
use filclient.Retrieval.Content.Vouchers.{AllUndefined, retrieve_content_from_peer_undefined}

abbrev chan : ChannelId
chan = record { initiator = "me"; responder = "sp"; id = 4 }

abbrev pub on_chan : EventCode → DtEvent ℕ
on_chan code = record {
  code = code;
  message = "";
  channel_id = chan;
  received = 0;
  last_voucher_result = none;
}

abbrev response : DealStatus → DtEvent ℕ
response status = record (on_chan new_voucher_result) {
  last_voucher_result = some (record { status = status; message = ""; payment_owed = 30 });
}

abbrev pub willing : Replies ℕ
willing = record {
  create_voucher = λ v. ok (record { voucher = v; shortfall = 0 });
  send_voucher = λ c p. ok tt;
}

abbrev paid_deal : Deal
paid_deal = record {
  deal_id = 1;
  root_cid = "c";
  peer_id = "sp";
  pch_required = true;
  pch_addr = "f2";
  pch_lane = 6;
  chanid = chan;
}

abbrev happy : List (Arrival ℕ)
happy =
    (response funds_needed, willing)
    ∷ (response completed, willing)
    ∷ (on_chan finish_transfer, willing)
    ∷ []

happy_ends : (run_events nat_big paid_deal happy (initial nat_big)).dt_res ≡ some none
unfolding run_events
happy_ends = refl

run_events_success_example :
    Saw (HasCode chan cleanup_complete) happy
    ⊎ (Saw (HasCode chan finish_transfer) happy × Saw (IsCompletion chan) happy)
run_events_success_example = run_events_success nat_big paid_deal happy happy_ends

run_events_ends_example : (run_events nat_big paid_deal happy (initial nat_big)).dt_res ≢ none
run_events_ends_example =
    run_events_ends nat_big paid_deal happy (inr (inr (inl (refl, refl))))
      (inr (inl ((refl, refl), refl)))

abbrev paying : List (Arrival ℕ)
paying = (response funds_needed, willing) ∷ (response funds_needed, willing) ∷ []

requested_vouchers_example :
    ((run_events nat_big paid_deal paying (initial nat_big)).requested
      ≡ vouchers_for nat_big paid_deal 0 0 (30 ∷ 30 ∷ []))
    × Answers nat_big paid_deal 0 0
        ((30, willing) ∷ (30, willing) ∷ [])
        (run_events nat_big paid_deal paying (initial nat_big)).sent
unfolding run_events
requested_vouchers_example = requested_vouchers nat_big paid_deal paying refl

abbrev pub proposal : Proposal ℕ
proposal = record { payload_cid = "c"; id = 1; price_per_byte = 2; unseal_price = 0 }

-- The payment channel "f2" has enough funds.
abbrev pub good : Env ℕ
good = record {
  manager = record {
    available_funds = ok (record { confirmed_amt = 9; channel = some "f2" });
    parse_fil = λ s. ok 1;
    get_paych = λ a. err (message "not asked");
    get_paych_wait_ready = λ m. err (message "not asked");
  };
  allocate_lane = λ a. ok 6;
  early = [];
  open_pull_data_channel = λ peer voucher cid. ok chan;
  wakes =
      arrives (response funds_needed, willing)
      ∷ receives
      ∷ arrives (response completed, willing)
      ∷ arrives (on_chan finish_transfer, willing)
      ∷ receives
      ∷ [];
  late = [];
  has_block = λ cid. ok true;
  channel_state = λ c. ok (record { other_peer = "sp"; received = 15; received_cids_total = 1 });
  duration = 3;
  speed = λ b t. 5;
}

abbrev pub good_stats : RetrievalStats ℕ
good_stats = record {
  peer = "sp";
  size = 15;
  duration = 3;
  average_speed = 5;
  total_payment = 30;
  num_payments = 1;
  ask_price = 2;
}

good_returns : (retrieve_content_from_peer nat_big good proposal "sp").0 ≡ returned (ok good_stats)
unfolding retrieve_content_from_peer on_event run_events
good_returns = refl

retrieve_content_from_peer-IsJudged_example :
    IsJudged (retrieve_content_from_peer nat_big good proposal "sp")
retrieve_content_from_peer-IsJudged_example =
    retrieve_content_from_peer-IsJudged nat_big good proposal "sp"

retrieve_content_from_peer_confirmed_example :
    (chanid : ChannelId) × (good.open_pull_data_channel "sp" proposal "c" ≡ ok chanid)
    × (good.has_block "c" ≡ ok true)
    × IsComplete chanid (arrivals good.wakes)
retrieve_content_from_peer_confirmed_example =
    retrieve_content_from_peer_confirmed nat_big good proposal "sp" good_stats tt good_returns

retrieve_content_from_peer_undefined_example :
    AllUndefined (retrieve_content_from_peer nat_big good proposal "sp").1
retrieve_content_from_peer_undefined_example =
    retrieve_content_from_peer_undefined nat_big good proposal "sp"
