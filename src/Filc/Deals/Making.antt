-- ===== src/Filc/Deals/Making.antt =====
-- filc/cmds.go: `makev110Deal`, `makev120Deal` and the action of `makeDealCmd`.
pub mod Polled
pub mod Pulled
mod Tests
use filclient.Base.{
  ℕ, String, str_append, str_eq, Option, none, some, List, [], ◌∷◌, ◌==◌, if◌then◌else◌,
}
use filclient.Errors.{GoError, message, Result, ok, err, or_wrap}
use filclient.Errors.Action.{Action, return, ◌>>=◌, wrapping}
use filclient.Connection.{Network, deal_protocol_v120}
use filclient.Deal.{NetProposal}
use filclient.Deal.Sending.{
  Streams, Codec, ProviderResponse, StorageDealStatus, Sent, send_proposal_v110,
}
use filclient.Deal.Boost.{DealParams, BoostResponse, ProposalV120Config, send_proposal_v120}
use filclient.Transfer.{DtStatus, ChannelState, Outside}
use filclient.Transfer.Manager.{
  Notice, subscribe, unsubscribe, prepare_for_data_request, cleanup_prepared_request,
}
use filclient.Reports.{DtManager, start_data_transfer}
use filclient.Filc.Deals.{changed_from, is_completed, log_status, poll}

-- The end of a deal, if its wait ends.
abbrev pub Ended : Type 0
Ended = Option (Result (Unit {0}))

-- The function that `makev120Deal` subscribes: what it sends to `pullComplete`, and `lastStatus`.
pulled : DtStatus → ChannelState → Result String → Option (Result (Unit {0})) × DtStatus
pulled last st (err e) = (some (err e), last)
pulled last st (ok line) =
    if is_completed st.status then (some (ok tt), st.status) else (none, st.status)

unfoldable pub on_pull : ℕ → DtStatus → Notice → Option (Result (Unit {0})) × DtStatus
unfolding pulled log_status
on_pull dbid last (evtdbid, st) =
    if dbid == evtdbid
    then pulled last st (log_status st (changed_from last st.status))
    else (none, last)

-- What happens while the command waits: the listener is called, or the context is done.
pub data PullEvent : Type 0 where
  notified : Notice → PullEvent
  context_done : GoError → PullEvent

-- The first element that is sent to `pullComplete` ends the wait.
unfoldable pub await_pull : ℕ → DtStatus → List PullEvent → Ended
unfolding on_pull
await_pull dbid last [] = none
await_pull dbid last (context_done e ∷ rest) = some (err e)
await_pull dbid last (notified notice ∷ rest) =
    let (sent, last') = on_pull dbid last notice in
    elim sent [ some res ↦ some res | none ↦ await_pull dbid last' rest ]

-- What the commands use beside the client; `zero_status` is the zero value of a status.
pub record DealCalls (W Int Label Listener : Type 0) : Type 0 where
  pub codec_v110 : Codec W (NetProposal Int Label) ProviderResponse
  pub codec_v120 : Codec W (DealParams Int Label) BoostResponse
  pub status_number : StorageDealStatus → String
  pub zero_status : DtStatus
  pub default_v120 : W → ProposalV120Config × W
  pub marshal_request : String → String → Result String
  pub host_id : String
  pub new_multiaddr : String → Result String
  pub random_dbid : W → ℕ × W
  pub new_uuid : W → String × W
  pub generate_auth_token : Action W String
  pub listener : ℕ → Listener

module _ {W Int Label Listener : Type 0} (streams : Streams W) (net : Network W) (dt : DtManager W)
    (out : Outside W) (calls : DealCalls W Int Label Listener) where
  after_sent_v110 : ℕ → String → String → String → Sent → W → Ended × W
  unfolding start_data_transfer poll
  after_sent_v110 rounds miner propcid datacid (b, some e) w = (some (err e), w)
  after_sent_v110 rounds miner propcid datacid (b, none) w =
      elim (start_data_transfer dt net miner propcid datacid w).0 [
        | err e ↦ (some (err e), (start_data_transfer dt net miner propcid datacid w).1)
        | ok chanid ↦
            let (waited, w') =
              poll dt chanid miner propcid rounds calls.zero_status
                (start_data_transfer dt net miner propcid datacid w).1 in
            (waited.0, w')
      ]

  -- `rounds` bounds the polls of the transfer's status.
  unfoldable pub make_v110_deal :
      ℕ → String → NetProposal Int Label → String → String → W → Ended × W
  unfolding after_sent_v110 send_proposal_v110
  make_v110_deal rounds miner proposal propcid datacid w =
      let (sent, w') =
        send_proposal_v110 streams net calls.codec_v110 calls.status_number proposal propcid w in
      after_sent_v110 rounds miner propcid datacid sent w'

  -- From the answer to the proposal on: if it failed, the prepared request is cleaned up.
  after_sent_v120 : ℕ → String → List PullEvent → Sent → W → Ended × W
  unfolding cleanup_prepared_request await_pull
  after_sent_v120 dbid token events (b, some e) w =
      (some (err e), (cleanup_prepared_request out dbid token w).1)
  after_sent_v120 dbid token events (b, none) w = (await_pull dbid calls.zero_status events, w)

  -- The token and the request, then the proposal.
  prepared : ℕ → String → String → NetProposal Int Label → String → Action W String
  unfolding prepare_for_data_request
  prepared dbid uuid announce netprop propcid = do
    token ← wrapping "generating auth token for deal" calls.generate_auth_token
    done ←
        wrapping "preparing for data request"
          (prepare_for_data_request out dbid token propcid netprop.root netprop.raw_block_size)
    return token

  propose_v120 :
      ℕ → String → String → NetProposal Int Label → List PullEvent → Result String → W → Ended × W
  unfolding after_sent_v120 send_proposal_v120
  propose_v120 dbid uuid announce netprop events (err e) w = (some (err e), w)
  propose_v120 dbid uuid announce netprop events (ok token) w =
      let (default, w') = calls.default_v120 w in
      let (sent, w'') =
        send_proposal_v120 streams net calls.codec_v120 default calls.marshal_request dbid netprop
          uuid announce token w' in
      after_sent_v120 dbid token events sent w''

  -- The deferred call, when the command returns.
  released : Ended → Option Listener → Option Listener
  released none l = l
  released (some res) l = unsubscribe l

  -- With the listener of the manager: it is taken back at the end, if it was accepted.
  with_listener :
      ℕ
      → String
      → String
      → NetProposal Int Label
      → String
      → List PullEvent
      → Result (Unit {0}) × Option Listener
      → W
      → (Ended × Option Listener) × W
  unfolding prepared propose_v120 released
  with_listener dbid uuid announce netprop propcid events (err e, l) w = ((some (err e), l), w)
  with_listener dbid uuid announce netprop propcid events (ok _, l) w =
      let (token, w') = prepared dbid uuid announce netprop propcid w in
      let (ended, w'') = propose_v120 dbid uuid announce netprop events token w' in
      ((ended, released ended l), w'')

  announced :
      Result String
      → NetProposal Int Label
      → String
      → List PullEvent
      → Option Listener
      → W
      → (Ended × Option Listener) × W
  unfolding with_listener subscribe
  announced (err e) netprop propcid events l w = ((some (err e), l), w)
  announced (ok announce) netprop propcid events l w =
      let (dbid, w') = calls.random_dbid w in
      let (uuid, w'') = calls.new_uuid w' in
      with_listener dbid uuid announce netprop propcid events (subscribe l (calls.listener dbid))
        w''

  parsed_announce : String → Result String
  parsed_announce announce =
      let text = str_append announce (str_append "/p2p/" calls.host_id) in
      or_wrap (str_append "parsing announce address '" (str_append text "'"))
        (calls.new_multiaddr text)

  unfoldable pub make_v120_deal :
      String
      → NetProposal Int Label
      → String
      → List PullEvent
      → Option Listener
      → W
      → (Ended × Option Listener) × W
  unfolding announced parsed_announce
  make_v120_deal announce netprop propcid events l w =
      if str_eq announce ""
      then (
        (
          some (
              err (
                message (
                  str_append
                    "must specify announce address to make deals over deal v1.2.0 protocol "
                    deal_protocol_v120))),
          l,
        ),
        w,
      )
      else announced (parsed_announce announce) netprop propcid events l w
