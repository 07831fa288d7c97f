-- ===== src/Deal/Status.antt =====
-- filclient.go: `DealStatus`, which asks a provider about a deal, and `toLegacyDealStatus`.
pub mod Total
mod Tests
use filclient.Base.{
  String, str_append, str_eq, Bool, true, false, Option, none, some, List, [], ◌∷◌, if◌then◌else◌,
}
use filclient.Errors.{GoError, message, Result, ok, err, or_wrap}
use filclient.Errors.Action.{Action, wrapping}
use filclient.Connection.{Network, stream_to_miner}
use filclient.Deal.Sending.{
  StorageDealStatus, deal_unknown, staged, sealing, deal_error, publishing, verify_data,
  awaiting_pre_commit, waiting_for_data, Streams, Codec, do_rpc,
}

abbrev pub deal_status_protocol_v110 : String
deal_status_protocol_v110 = "/fil/storage/status/1.1.0"

abbrev pub deal_status_protocol_v120 : String
deal_status_protocol_v120 = "/fil/storage/status/1.2.0"

-- The checkpoints of boost that are named.
pub data Checkpoint : Type 0 where
  accepted transferred published publish_confirmed added_piece indexed_and_announced complete :
      Checkpoint

-- `smtypes.DealStatus` and `smtypes.DealStatusResponse`.
pub record BoostDealStatus (Deal : Type 0) : Type 0 where
  pub error : String
  pub status : String
  pub proposal : Deal
  pub signed_proposal_cid : String
  pub publish_cid : Option String
  pub chain_deal_id : String

pub record BoostStatusResponse (Deal : Type 0) : Type 0 where
  pub error : String
  pub deal_status : Option (BoostDealStatus Deal)

-- `storagemarket.ProviderDealState`.
pub record ProviderDealState (Deal : Type 0) : Type 0 where
  pub state : StorageDealStatus
  pub message : String
  pub proposal : Deal
  pub proposal_cid : String
  pub add_funds_cid : Option String
  pub publish_cid : Option String
  pub deal_id : String
  pub fast_retrieval : Bool

-- What the request uses of other packages. A request is what is asked for, with a signature.
pub record StatusCalls (W Deal : Type 0) : Type 0 where
  pub checkpoint_name : Checkpoint → String
  pub protocol_of : String → String
  pub dump_cid : String → Result String
  pub uuid_bytes : String → Result String
  pub wallet_sign : String → Action W String
  pub codec_v110 : Codec W (String × String) (ProviderDealState Deal)
  pub codec_v120 : Codec W (String × String) (BoostStatusResponse Deal)

module _ {W Deal : Type 0} (streams : Streams W) (calls : StatusCalls W Deal) where
  -- The switch over the checkpoint's name.
  legacy_checkpoint : String → StorageDealStatus
  legacy_checkpoint status =
      if str_eq status (calls.checkpoint_name accepted)
      then waiting_for_data
      else if str_eq status (calls.checkpoint_name transferred)
      then verify_data
      else if str_eq status (calls.checkpoint_name published)
      then publishing
      else if str_eq status (calls.checkpoint_name publish_confirmed)
      then staged
      else if str_eq status (calls.checkpoint_name added_piece)
      then awaiting_pre_commit
      else if str_eq status (calls.checkpoint_name indexed_and_announced)
      then awaiting_pre_commit
      else if str_eq status (calls.checkpoint_name complete)
      then sealing
      else deal_unknown

  to_legacy_deal_status : BoostDealStatus Deal → StorageDealStatus
  unfolding legacy_checkpoint
  to_legacy_deal_status ds = if str_eq ds.error "" then legacy_checkpoint ds.status else deal_error

  provider_state : Option (BoostDealStatus Deal) → Result (ProviderDealState Deal)
  unfolding to_legacy_deal_status
  provider_state none = err (message "deal status is nil")
  provider_state (some st) = ok (record {
    state = to_legacy_deal_status st;
    message = st.error;
    proposal = st.proposal;
    proposal_cid = st.signed_proposal_cid;
    add_funds_cid = none;
    publish_cid = st.publish_cid;
    deal_id = st.chain_deal_id;
    fast_retrieval = true;
  })

  answered : Result (BoostStatusResponse Deal) → Result (ProviderDealState Deal)
  unfolding provider_state
  answered (err e) = err e
  answered (ok resp) =
      if str_eq resp.error ""
      then provider_state resp.deal_status
      else err (message (str_append "deal status error: " resp.error))

  -- The bytes are signed, and then the request is sent.
  exchange_signed :
      {Resp : Type 0}
      → Codec W (String × String) Resp
      → String
      → String
      → Result String × W
      → Result Resp × W
  unfolding do_rpc
  exchange_signed codec s asked (err e, w) = (err e, w)
  exchange_signed codec s asked (ok sig, w) =
      wrapping "deal status rpc" (do_rpc streams codec s (asked, sig)) w

  signed_request :
      {Resp : Type 0}
      → Codec W (String × String) Resp
      → String
      → String
      → Result String
      → W
      → Result Resp × W
  unfolding exchange_signed
  signed_request codec s asked (err e) w = (err e, w)
  signed_request codec s asked (ok bytes) w =
      exchange_signed codec s asked
        (wrapping "signing status request failed" (calls.wallet_sign bytes) w)

  -- Asking for the UUID of a deal that has none panics.
  ask_v120 : String → Option String → W → Option (Result (ProviderDealState Deal) × W)
  unfolding signed_request answered
  ask_v120 s none w = none
  ask_v120 s (some deal_uuid) w =
      let (r, w') =
        signed_request calls.codec_v120 s deal_uuid
          (or_wrap "getting uuid bytes" (calls.uuid_bytes deal_uuid)) w in
      some (answered r, w')

  ask : String → String → Option String → W → Option (Result (ProviderDealState Deal) × W)
  unfolding signed_request ask_v120
  ask s prop_cid deal_uuid w =
      if str_eq (calls.protocol_of s) deal_status_protocol_v110
      then some (signed_request calls.codec_v110 s prop_cid (calls.dump_cid prop_cid) w)
      else ask_v120 s deal_uuid w

  -- The deferred calls, after a request that did not panic.
  released :
      String
      → Option (Result (ProviderDealState Deal) × W)
      → Option (Result (ProviderDealState Deal) × W)
  released s none = none
  released s (some (r, w)) =
      some (r, streams.close s (streams.unprotect (streams.remote_peer s) "DealStatus" w))

  ask_on : String → Option String → Result String × W → Option (Result (ProviderDealState Deal) × W)
  unfolding ask released
  ask_on prop_cid deal_uuid (err e, w) = some (err e, w)
  ask_on prop_cid deal_uuid (ok s, w) =
      released s (ask s prop_cid deal_uuid (streams.protect (streams.remote_peer s) "DealStatus" w))

  -- The protocol with UUIDs is offered if there is one.
  abbrev pub protocols : Option String → List String
  protocols none = deal_status_protocol_v110 ∷ []
  protocols (some deal_uuid) = deal_status_protocol_v120 ∷ deal_status_protocol_v110 ∷ []

  unfoldable pub deal_status :
      Network W → String → String → Option String → W → Option (Result (ProviderDealState Deal) × W)
  unfolding ask_on stream_to_miner
  deal_status net miner prop_cid deal_uuid w =
      ask_on prop_cid deal_uuid (stream_to_miner net miner (protocols deal_uuid) w)
