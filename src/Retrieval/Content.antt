-- ===== src/Retrieval/Content.antt =====
-- The body of `retrieveContentFromPeerWithProgressCallback`, from the payment channel to the stats.
pub mod Confirmed
pub mod Outcome
pub mod Vouchers
use filclient.Base.{
  ℕ, String, str_append, Bool, true, false, not, ◌||◌, Option, none, some, List, [], ◌∷◌, ◌++◌,
  if◌then◌else◌,
}
use filclient.Base.Big.{Big}
use filclient.Errors.{GoError, message, wrap, error_text, Result, ok, err, or_wrap}
use filclient.Rep.Event.{RetrievalEvent, proposed, failure, success, Received}
use filclient.Retrieval.{ChannelId, no_channel, address_undef, Deal, Progress}
use filclient.Retrieval.Handler.{Arrival, on_event, run_events, initial, deal_origin}
use filclient.Retrieval.PaymentChannel.{Manager, get_paych_with_min_funds}

-- `retrievalmarket.DealProposal`, as far as it is read.
pub record Proposal (Int : Type 0) : Type 0 where
  pub payload_cid : String
  pub id : ℕ
  pub price_per_byte : Int
  pub unseal_price : Int

-- The channel's state at the end.
pub record FinalState : Type 0 where
  pub other_peer : String
  pub received : ℕ
  pub received_cids_total : ℕ

-- What the waiting goroutine sees: an event has been handled, it receives from `dtRes`, a graceful
-- shutdown is asked for, or the context is done.
pub data Wake (Int : Type 0) : Type 0 where
  arrives : Arrival Int → Wake Int
  receives : Wake Int
  shutdown_requested : Wake Int
  context_done : GoError → Wake Int

-- The answers of the outside during one retrieval. `early` are the events before the transfer is
-- open, `late` those between the end of the wait and the return.
pub record Env (Int : Type 0) : Type 0 where
  pub manager : Manager Int
  pub allocate_lane : String → Result ℕ
  pub early : List (Arrival Int)
  pub open_pull_data_channel : String → Proposal Int → String → Result ChannelId
  pub wakes : List (Wake Int)
  pub late : List (Arrival Int)
  pub has_block : String → Result Bool
  pub channel_state : ChannelId → Result FinalState
  pub duration : ℕ
  pub speed : ℕ → ℕ → ℕ

-- `RetrievalStats`.
pub record RetrievalStats (Int : Type 0) : Type 0 where
  pub peer : String
  pub size : ℕ
  pub duration : ℕ
  pub average_speed : ℕ
  pub total_payment : Int
  pub num_payments : ℕ
  pub ask_price : Int

-- How the wait ends, if it does.
pub data Awaited : Type 0 where
  still_waiting : Awaited
  finished : Option GoError → Awaited
  context_ended : GoError → Awaited

-- How the function ends: it returns, it returns the error of its context, it still waits, or it
-- panics.
pub data Exit (Int : Type 0) : Type 0 where
  returned : Result (RetrievalStats Int) → Exit Int
  cancelled : GoError → Exit Int
  unfinished : Exit Int
  panicked : Exit Int

module _ {Int : Type 0} where
  abbrev pub publish : RetrievalEvent Int → Progress Int → Progress Int
  publish e p = record p { published = p.published ++ e ∷ [] }

  abbrev pub close : ChannelId → Progress Int → Progress Int
  close chanid p = record p { closed = p.closed ++ chanid ∷ [] }

  -- The failure event, and the error.
  abbrev pub failed : Deal → String → GoError → Progress Int → Exit Int × Progress Int
  failed d text e p = (returned (err e), publish (failure (deal_origin d) text) p)

  -- Receiving from `dtRes` waits while it is empty.
  abbrev receive :
      Option (Option GoError) → Awaited × Progress Int → Progress Int → Awaited × Progress Int
  receive none later p = later
  receive (some res) later p = (finished res, record p { dt_res = none })

module _ {Int : Type 0} (big : Big Int) (d : Deal) where
  -- The loop `awaitfinished`.
  await : List (Wake Int) → Progress Int → Awaited × Progress Int
  await [] p = (still_waiting, p)
  await (arrives (ev, r) ∷ rest) p = await rest (on_event big d r ev p)
  await (receives ∷ rest) p = receive p.dt_res (await rest p) p
  await (shutdown_requested ∷ rest) p = await rest (close d.chanid p)
  await (context_done e ∷ rest) p = (context_ended e, p)

module _ {Int : Type 0} (big : Big Int) (env : Env Int) (proposal : Proposal Int) (d : Deal) where
  report : Result FinalState → Progress Int → Exit Int × Progress Int
  report (ok st) p = (
    returned (
        ok (record {
          peer = st.other_peer;
          size = st.received;
          duration = env.duration;
          average_speed = env.speed st.received env.duration;
          total_payment = p.total_payment;
          num_payments = p.nonce;
          ask_price = proposal.price_per_byte;
        })),
    publish
        (success (deal_origin d) (record {
          received_size = st.received;
          received_cids = st.received_cids_total;
          duration = env.duration;
          total_payment = p.total_payment;
        }))
        p,
  )
  report (err e) p = let e' = wrap "could not get channel state" e in failed d (error_text e') e' p

  confirm : Result Bool → Progress Int → Exit Int × Progress Int
  unfolding report
  confirm (ok true) p = report (env.channel_state d.chanid) p
  confirm (ok false) p =
      let msg : String = "data transfer failed: unconfirmed block transfer" in
      failed d msg (message msg) p
  confirm (err e) p =
      let e' = wrap "could not get query blockstore" e in failed d (error_text e') e' p

  finish_up : Awaited → Progress Int → Exit Int × Progress Int
  unfolding confirm
  finish_up (finished none) p = confirm (env.has_block d.root_cid) (run_events big d env.late p)
  finish_up (finished (some e)) p =
      let e' = wrap "data transfer failed" e in
      failed d (error_text e') e' (run_events big d env.late p)
  finish_up (context_ended e) p = (cancelled e, run_events big d env.late p)
  finish_up still_waiting p = (unfinished, p)

  -- The deferred `CloseDataTransferChannel`.
  deferred : Exit Int × Progress Int → Exit Int × Progress Int
  deferred (unfinished, p) = (unfinished, p)
  deferred (exit, p) = (exit, close d.chanid p)

  -- From the successful proposal on.
  opened : Progress Int → Exit Int × Progress Int
  unfolding await finish_up deferred
  opened p =
      let (res, q) = await big d env.wakes (publish (proposed (deal_origin d)) p) in
      deferred (finish_up res q)

module _ {Int : Type 0} (big : Big Int) (env : Env Int) (proposal : Proposal Int) (d : Deal) where
  propose : Result ChannelId → Progress Int → Exit Int × Progress Int
  unfolding opened
  propose (ok chanid) p = opened big env proposal (record d { chanid = chanid }) p
  propose (err e) p = failed d (str_append "deal proposal failed: " (error_text e)) e p

module _ {Int : Type 0} (big : Big Int) (env : Env Int) (proposal : Proposal Int) where
  abbrev pch_required : Bool
  pch_required =
      not (big.is_zero proposal.price_per_byte) || not (big.is_zero proposal.unseal_price)

  lane_of : Option (Result String) → Option (Result ℕ)
  lane_of none = none
  lane_of (some (err e)) = some (err (wrap "failed to get payment channel" e))
  lane_of (some (ok pch_addr)) =
      some (or_wrap "failed to allocate lane" (env.allocate_lane pch_addr))

  -- `pchAddr, err := …` inside the `if` declares a new variable: the `pchAddr` outside, which the
  -- callback reads, keeps its zero value. `pchLane, err = …` assigns the one outside.
  abbrev pub deal_of : String → ℕ → Deal
  deal_of peer_id lane = record {
    deal_id = proposal.id;
    root_cid = proposal.payload_cid;
    peer_id = peer_id;
    pch_required = pch_required;
    pch_addr = address_undef;
    pch_lane = lane;
    chanid = no_channel;
  }

  with_lane : String → Option (Result ℕ) → Exit Int × Progress Int
  unfolding propose
  with_lane peer_id none = (panicked, initial big)
  with_lane peer_id (some (err e)) = failed (deal_of peer_id 0) (error_text e) e (initial big)
  with_lane peer_id (some (ok lane)) =
      propose big env proposal (deal_of peer_id lane)
        (env.open_pull_data_channel peer_id proposal proposal.payload_cid)
        (run_events big (deal_of peer_id lane) env.early (initial big))

  unfoldable pub retrieve_content_from_peer : String → Exit Int × Progress Int
  unfolding lane_of with_lane get_paych_with_min_funds
  retrieve_content_from_peer peer_id =
      with_lane peer_id
        (if pch_required then lane_of (get_paych_with_min_funds big env.manager) else some (ok 0))
