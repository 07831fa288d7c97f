-- ===== src/Reports.antt =====
-- filclient.go: what the client reports on its transfers (`TransfersInProgress`, `TransferStatus` and
-- its kin). This file has the data transfer channels and the queries about single transfers.
pub mod Progress
pub mod Diagnostics
mod Tests
use filclient.Base.{
  ℕ, String, str_eq, Bool, true, false, not, ◌&&◌, Option, none, some, List, [], ◌∷◌, Dict,
  if◌then◌else◌,
}
use filclient.Errors.{GoError, message, wrap, Result, ok, err}
use filclient.Errors.Action.{Action, return, ◌>>=◌, wrapping}
use filclient.Connection.{Network, AddrInfo, connect_to_miner, miner_peer}
use filclient.ChannelId.{ChannelId, channel_id_from_string}
use filclient.Transfer.{DtStatus, ChannelState, graphsync_transfer, Outside}
use filclient.Transfer.Lookup.{by_id, by_remote_addr_and_payload_cid}

-- What is read of a `datatransfer.ChannelState`.
pub record DtChannel : Type 0 where
  pub self_peer : String
  pub other_peer : String
  pub status : DtStatus
  pub sent : ℕ
  pub received : ℕ
  pub message : String
  pub base_cid : String
  pub channel_id : ChannelId
  pub stages : Option String
  pub is_pull : Bool

-- The data transfer manager. The map of the channels in progress comes in the order of its
-- iteration.
pub record DtManager (W : Type 0) : Type 0 where
  pub status_name : DtStatus → String
  pub channel_text : ChannelId → String
  pub in_progress_channels : Action W (List (ChannelId × DtChannel))
  pub channel_state : ChannelId → Action W DtChannel
  pub restart_channel : ChannelId → Action W (Unit {0})
  pub open_push_channel : String → String → String → Action W ChannelId
  pub protect : String → String → W → W

abbrev pub no_transfer_found : String
no_transfer_found = "no transfer found"

module _ {W : Type 0} (dt : DtManager W) where
  unfoldable pub channel_state_conv : DtChannel → ChannelState
  channel_state_conv st = record {
    self_peer = st.self_peer;
    remote_peer = st.other_peer;
    status = st.status;
    status_str = dt.status_name st.status;
    sent = st.sent;
    received = st.received;
    message = st.message;
    base_cid = st.base_cid;
    channel_id = st.channel_id;
    transfer_id = dt.channel_text st.channel_id;
    stages = st.stages;
    transfer_type = graphsync_transfer;
  }

  unfoldable pub v110_transfers_in_progress : Action W (List (ChannelId × DtChannel))
  v110_transfers_in_progress = dt.in_progress_channels

  unfoldable pub transfer_status : ChannelId → Action W ChannelState
  unfolding channel_state_conv
  transfer_status chanid = do st ← dt.channel_state chanid; return (channel_state_conv st)

  unfoldable pub restart_transfer : ChannelId → Action W (Unit {0})
  restart_transfer chanid = dt.restart_channel chanid

  unfoldable pub start_data_transfer : Network W → String → String → String → Action W ChannelId
  unfolding connect_to_miner
  start_data_transfer net miner prop_cid data_cid = do
    mpid ← connect_to_miner net miner
    λ w.
        wrapping "opening push data channel" (dt.open_push_channel mpid prop_cid data_cid)
          (dt.protect mpid "transferring" w)

  module _ (out : Outside W) where
    -- The id of a data transfer channel, or else of a libp2p transfer.
    status_of_id : String → Result ChannelId → W → Option (Result ChannelState × W)
    unfolding transfer_status by_id
    status_of_id id (ok chid) w = some (transfer_status chid w)
    status_of_id id (err e) w = by_id out id w

    unfoldable pub transfer_status_by_id : String → W → Option (Result ChannelState × W)
    unfolding status_of_id
    transfer_status_by_id id w = status_of_id id (channel_id_from_string out.decode_peer id) w

    -- The loop over the channels in progress: the first push channel to the peer with the content.
    unfoldable pub push_channel :
        String → String → List (ChannelId × DtChannel) → Result ChannelState
    unfolding channel_state_conv
    push_channel mpid content [] = err (message no_transfer_found)
    push_channel mpid content ((chanid, state) ∷ rest) =
        if str_eq chanid.responder mpid && not state.is_pull && str_eq state.base_cid content
        then ok (channel_state_conv state)
        else push_channel mpid content rest

    search_in_progress : String → String → Action W ChannelState
    unfolding push_channel
    search_in_progress mpid content = do
      inprog ← dt.in_progress_channels
      λ w. (push_channel mpid content inprog, w)

    -- The libp2p transfer that was found, if there is one.
    unless_found : String → String → Result (Unit {0}) × Option ChannelState → Action W ChannelState
    unfolding search_in_progress
    unless_found mpid content (err e, xfer) w = (err e, w)
    unless_found mpid content (ok _, some xfer) w = (ok xfer, w)
    unless_found mpid content (ok _, none) w = search_in_progress mpid content w

    -- `pretty` is `peer.ID.Pretty`.
    unfoldable pub transfer_status_for_content :
        Network W → (String → String) → String → String → Action W ChannelState
    unfolding unless_found by_remote_addr_and_payload_cid miner_peer
    transfer_status_for_content net pretty content miner = do
      peer ← miner_peer net miner
      λ w.
          let (found, w') = by_remote_addr_and_payload_cid out (pretty peer.id) content w in
          unless_found peer.id content found w'
