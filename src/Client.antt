-- ===== src/Client.antt =====
-- filclient.go: the client, its configuration and what it is built from; apiprov.go: the API of the
-- payment channel manager. This file has the data.
pub mod Construction
pub mod Sharing
pub mod Tests
use filclient.Base.{ℕ, ◌+◌, ◌*◌, String, Bool, Option, List, ◌==◌, if◌then◌else◌}
use filclient.Errors.Action.{Action}
use filclient.Rep.Event.{RetrievalEvent}
use filclient.Rep.Publisher.{Publisher}
use filclient.MsgPusher.{MsgPusher, new_msg_pusher}
use filclient.Transfer.Running.{Running}
use filclient.Deal.Pieces.{GetPieceCommFunc, Cars}

-- The types of the packages that the client is built from.
pub record Kinds : Type 1 where
  pub Api : Type 0
  pub Wallet : Type 0
  pub Blockstore : Type 0
  pub PreparedCar : Type 0
  pub Datastore : Type 0
  pub Host : Type 0
  pub GraphsyncOption : Type 0
  pub BlockInfoCache : Type 0
  pub Configurer : Type 0
  pub PaychManager : Type 0
  pub GraphSync : Type 0
  pub Transport : Type 0
  pub DataTransfer : Type 0
  pub AuthDb : Type 0
  pub Server : Type 0
  pub Int : Type 0

-- Durations are in nanoseconds.
abbrev pub second : ℕ
second = 1_000_000_000

abbrev pub minute : ℕ
minute = 60 * second

abbrev pub hour : ℕ
hour = 60 * minute

-- `channelmonitor.Config`, the fields that are set.
pub record ChannelMonitorConfig : Type 0 where
  pub accept_timeout : ℕ
  pub restart_debounce : ℕ
  pub restart_backoff : ℕ
  pub max_consecutive_restarts : ℕ
  pub complete_timeout : ℕ

-- `httptransport.ServerConfig`, the fields that are set.
pub record ServerConfig (k : Kinds) : Type 0 where
  pub block_info_cache_manager : k.BlockInfoCache
  pub throttle_limit : ℕ

pub record Lp2pDtConfig (k : Kinds) : Type 0 where
  pub server : ServerConfig k
  pub transfer_timeout : ℕ

pub record Config (k : Kinds) : Type 0 where
  pub data_dir : String
  pub graphsync_opts : List (k.GraphsyncOption)
  pub api : k.Api
  pub wallet : k.Wallet
  pub addr : String
  pub blockstore : k.Blockstore
  pub datastore : k.Datastore
  pub host : k.Host
  pub channel_monitor_config : ChannelMonitorConfig
  pub retrieval_configurer : Option (k.Configurer)
  pub log_retrieval_progress_events : Bool
  pub lp2p_dt_config : Lp2pDtConfig k

-- A pointer to a message pusher, and the pushers that have been allocated.
abbrev pub Ref : Type 0
Ref = ℕ

pub record Heap : Type 0 where
  pub next : Ref
  pub pusher : Ref → MsgPusher

-- `NewMsgPusher`, which returns a pointer.
unfoldable pub allocate : Heap → Ref × Heap
unfolding new_msg_pusher
allocate heap = (
  heap.next,
  record {
    next = heap.next + 1;
    pusher = λ r. if r == heap.next then new_msg_pusher else heap.pusher r;
  },
)

-- What a Go function sees: the world outside, and the heap.
pub record Memory (W : Type 0) : Type 0 where
  pub world : W
  pub heap : Heap

-- apiprov.go: `paychApiProvider`.
pub record PaychApiProvider (k : Kinds) : Type 0 where
  pub gateway : k.Api
  pub wallet : k.Wallet
  pub mp : Ref

-- libp2ptransfermgr.go: `libp2pTransferManagerOpts` and the struct `libp2pTransferManager`. `running` has
-- its listener, its subscription to the server and its ticker.
pub record Libp2pTransferManagerOpts : Type 0 where
  pub xfer_timeout : ℕ
  pub auth_check_period : ℕ

pub record Libp2pTransferManager (k : Kinds) : Type 0 where
  pub dt_server : k.Server
  pub auth_db : k.AuthDb
  pub dtds : k.Datastore
  pub opts : Libp2pTransferManagerOpts
  pub running : Running (Unit {0}) String

-- A subscriber of the client's publisher: the client itself, or another.
pub data Subscriber : Type 0 where
  this_client : Subscriber
  other_subscriber : String → Subscriber

pub record FilClient (W : Type 0) (k : Kinds) : Type 0 where
  pub mpusher : Ref
  pub pchmgr : k.PaychManager
  pub host : k.Host
  pub api : k.Api
  pub wallet : k.Wallet
  pub client_addr : String
  pub blockstore : k.Blockstore
  pub data_transfer : k.DataTransfer
  pub compute_piece_comm : GetPieceCommFunc W (k.Blockstore)
  pub graph_sync : k.GraphSync
  pub transport : k.Transport
  pub log_retrieval_progress_events : Bool
  pub libp2p_transfer_mgr : Libp2pTransferManager k
  pub retrieval_event_publisher : Publisher Subscriber (RetrievalEvent (k.Int))

module _ {W : Type 0} {k : Kinds} where
  unfoldable pub get_dt_mgr : FilClient W k → k.DataTransfer
  get_dt_mgr fc = fc.data_transfer

  unfoldable pub set_piece_comm_func :
      GetPieceCommFunc W (k.Blockstore) → FilClient W k → FilClient W k
  set_piece_comm_func pcf fc = record fc { compute_piece_comm = pcf }

-- The names of the voucher types that the client registers.
pub data Voucher : Type 0 where
  storage_data_transfer_voucher retrieval_deal_proposal retrieval_deal_payment
        retrieval_deal_response :
      Voucher

-- The calls of other packages that construct the client. `new_manager` is `paychmgr.NewManager` with the
-- RPC state manager and the store around it, `new_server` is `httptransport.NewLibp2pCarServer`; each
-- `start_…` is the method `Start`.
pub record Packages (W : Type 0) (k : Kinds) : Type 0 where
  pub join : String → String → String
  pub namespace_wrap : k.Datastore → String → k.Datastore
  pub new_manager : k.Api → k.Datastore → PaychApiProvider k → k.PaychManager
  pub start_paych : k.PaychManager → Action W (Unit {0})
  pub new_graph_sync : k.Host → k.Blockstore → List (k.GraphsyncOption) → W → k.GraphSync × W
  pub new_transport : k.Host → k.GraphSync → k.Transport
  pub mkdir_all : String → ℕ → Action W (Unit {0})
  pub new_data_transfer :
      k.Datastore → k.Host → k.Transport → ChannelMonitorConfig → Action W (k.DataTransfer)
  pub register_voucher_type : k.DataTransfer → Voucher → Action W (Unit {0})
  pub register_voucher_result_type : k.DataTransfer → Voucher → Action W (Unit {0})
  pub register_transport_configurer : k.DataTransfer → Voucher → k.Configurer → Action W (Unit {0})
  pub start_data_transfer : k.DataTransfer → Action W (Unit {0})
  pub new_auth_token_db : k.Datastore → k.AuthDb
  pub new_server : k.Host → k.AuthDb → k.Blockstore → ServerConfig k → k.Server
  pub start_server : k.Server → Action W (Unit {0})
  pub cars : Cars W (k.Blockstore) (k.PreparedCar)
  pub new_delayed_unref_bicm : ℕ → k.BlockInfoCache
  pub max_in_progress_incoming_requests : ℕ → k.GraphsyncOption
  pub max_in_progress_outgoing_requests : ℕ → k.GraphsyncOption
  pub max_memory_responder : ℕ → k.GraphsyncOption
  pub max_memory_per_peer_responder : ℕ → k.GraphsyncOption
  pub max_in_progress_incoming_requests_per_peer : ℕ → k.GraphsyncOption
  pub message_send_retries : ℕ → k.GraphsyncOption
  pub send_message_timeout : ℕ → k.GraphsyncOption
  pub max_links_per_incoming_requests : ℕ → k.GraphsyncOption
  pub max_links_per_outgoing_requests : ℕ → k.GraphsyncOption
