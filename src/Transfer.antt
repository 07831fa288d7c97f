-- ===== src/Transfer.antt =====
-- libp2ptransfermgr.go: the manager of libp2p data transfers. This file has its data and the
-- conversion to channel states.
pub mod Manager
pub mod Lookup
pub mod Expiry
pub mod Running
pub mod Tests
use filclient.Base.{ℕ, String, str_eq, Bool, Option, none, some, List, if◌then◌else◌}
use filclient.Errors.{GoError, Result, ok, err}
use filclient.Errors.Action.{Action}
use filclient.ChannelId.{ChannelId}
use filclient.Strconv.{parse_uint, parsed_number}

-- `boosttypes.TransferStatus`.
pub data TransferStatus : Type 0 where
  started ongoing completed failed unknown_status : TransferStatus

-- `boosttypes.TransferState`.
pub record TransferState : Type 0 where
  pub id : String
  pub local_addr : String
  pub remote_addr : String
  pub status : TransferStatus
  pub sent : ℕ
  pub received : ℕ
  pub message : String
  pub payload_cid : String

-- The values of `datatransfer.Status` that are named, and the others by their number.
pub data DtStatus : Type 0 where
  dt_requested dt_ongoing dt_transfer_finished dt_completing dt_finalizing dt_completed dt_failing
        dt_failed dt_cancelled :
      DtStatus
  dt_other : ℕ → DtStatus

pub data TransferType : Type 0 where
  boost_transfer graphsync_transfer : TransferType

-- filclient.go: `ChannelState`. `stages` is `none` for a nil pointer.
pub record ChannelState : Type 0 where
  pub self_peer : String
  pub remote_peer : String
  pub status : DtStatus
  pub status_str : String
  pub sent : ℕ
  pub received : ℕ
  pub message : String
  pub base_cid : String
  pub channel_id : ChannelId
  pub transfer_id : String
  pub stages : Option String
  pub transfer_type : TransferType

-- `httptransport.AuthValue`.
pub record AuthValue : Type 0 where
  pub id : String
  pub proposal_cid : String
  pub payload_cid : String
  pub size : ℕ

-- What the manager uses of other packages: `peer.Decode`, `datatransfer.Statuses`, the encoding of
-- transfer states, the data store, the auth token store and the car server. The stores and the
-- server are parts of the world `W`; a transfer is a handle whose state is read from it.
pub record Outside (W : Type 0) : Type 1 where
  pub Transfer : Type 0
  pub decode_peer : String → Result String
  pub status_name : DtStatus → String
  pub marshal : TransferState → Result String
  pub unmarshal : String → Result TransferState
  pub new_key : String → String
  pub ds_get : String → Action W String
  pub ds_put : String → String → Action W (Unit {0})
  pub ds_query : Action W (List (String × String))
  pub auth_put : String → AuthValue → Action W (Unit {0})
  pub auth_delete : String → Action W (Unit {0})
  pub auth_delete_expired : Action W (List String)
  pub server_id : String
  pub server_get : String → Action W (Option Transfer)
  pub server_cancel : String → Action W (Unit {0})
  pub server_matching : Action W (List Transfer)
  pub transfer_id : Transfer → String
  pub transfer_remote_addr : Transfer → String
  pub transfer_payload_cid : Transfer → String
  pub transfer_state : Transfer → W → TransferState

-- The texts of `httptransport.ErrTransferNotFound` and `datastore.ErrNotFound`.
abbrev pub transfer_not_found : String
transfer_not_found = "transfer not found"

abbrev pub datastore_not_found : String
datastore_not_found = "datastore: key not found"

module _ {W : Type 0} (out : Outside W) where
  peer_or_empty : Result String → String
  peer_or_empty (ok pid) = pid
  peer_or_empty (err e) = ""

  unfoldable pub parse_peer_id : String → String
  unfolding peer_or_empty
  parse_peer_id pidstr = peer_or_empty (out.decode_peer pidstr)

  abbrev pub dt_status : TransferStatus → DtStatus
  dt_status started = dt_requested
  dt_status ongoing = dt_ongoing
  dt_status completed = dt_completed
  dt_status failed = dt_failed
  dt_status unknown_status = dt_ongoing

  unfoldable pub to_dt_state : TransferState → ChannelState
  unfolding parse_peer_id
  to_dt_state st =
      let remote_addr = if str_eq st.remote_addr "" then st.local_addr else st.remote_addr in
      record {
        self_peer = parse_peer_id st.local_addr;
        remote_peer = parse_peer_id remote_addr;
        status = dt_status st.status;
        status_str = out.status_name (dt_status st.status);
        sent = st.sent;
        received = st.received;
        message = st.message;
        base_cid = st.payload_cid;
        channel_id = record {
          initiator = parse_peer_id st.local_addr;
          responder = parse_peer_id remote_addr;
          id = parsed_number (parse_uint st.id);
        };
        transfer_id = st.id;
        stages = none;
        transfer_type = boost_transfer;
      }
