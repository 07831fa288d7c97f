-- ===== src/Client/Construction.antt =====
-- filclient.go: `NewClient` and `NewClientWithConfig`.
pub mod Plan
pub mod Order
pub mod Wiring
use filclient.Base.{ℕ, ◌*◌, ◌^◌, String, false, Option, none, some, List, [], ◌∷◌}
use filclient.Errors.{Result, ok}
use filclient.Errors.Action.{Action, return, ◌>>=◌, wrapping}
use filclient.Rep.Publisher.{new_publisher, subscribe}
use filclient.Transfer.Running.{new_libp2p_transfer_manager, start}
use filclient.Deal.Pieces.{generate_piece_commitment, max_traversal_links}
use filclient.Client.{
  Kinds, second, minute, hour, Config, Ref, allocate, Memory, PaychApiProvider,
  Libp2pTransferManagerOpts, Libp2pTransferManager, this_client, FilClient,
  storage_data_transfer_voucher, retrieval_deal_proposal, retrieval_deal_payment,
  retrieval_deal_response, Packages,
}

-- A call of the outside leaves the heap.
abbrev pub outside : {W A : Type 0} → Action W A → Action (Memory W) A
outside m mem = let (r, w) = m mem.world in (r, record mem { world = w })

-- `NewMsgPusher`.
abbrev pub allocated : {W : Type 0} → Action (Memory W) Ref
allocated mem = let (r, heap) = allocate mem.heap in (ok r, record mem { heap = heap })

module _ {W : Type 0} {k : Kinds} (pk : Packages W k) where
  -- `NewClient`: the configuration, and the options on it in their order.
  unfoldable pub default_config :
      k.Host → k.Api → k.Wallet → String → k.Blockstore → k.Datastore → String → Config k
  default_config h api w addr bs ds ddir = record {
    data_dir = ddir;
    graphsync_opts =
        pk.max_in_progress_incoming_requests 200
        ∷ pk.max_in_progress_outgoing_requests 200
        ∷ pk.max_memory_responder (8 * 2 ^ 30)
        ∷ pk.max_memory_per_peer_responder (32 * 2 ^ 20)
        ∷ pk.max_in_progress_incoming_requests_per_peer 20
        ∷ pk.message_send_retries 2
        ∷ pk.send_message_timeout (2 * minute)
        ∷ pk.max_links_per_incoming_requests max_traversal_links
        ∷ pk.max_links_per_outgoing_requests max_traversal_links
        ∷ [];
    api = api;
    wallet = w;
    addr = addr;
    blockstore = bs;
    datastore = ds;
    host = h;
    channel_monitor_config = record {
      accept_timeout = hour * 24;
      restart_debounce = second * 10;
      restart_backoff = second * 20;
      max_consecutive_restarts = 15;
      complete_timeout = minute * 40;
    };
    retrieval_configurer = none;
    log_retrieval_progress_events = false;
    lp2p_dt_config = record {
      server = record {
        block_info_cache_manager = pk.new_delayed_unref_bicm minute;
        throttle_limit = 100;
      };
      transfer_timeout = 24 * hour;
    };
  }

  unfoldable pub apply_client_options : List (Config k → Config k) → Config k → Config k
  apply_client_options [] cfg = cfg
  apply_client_options (opt ∷ opts) cfg = apply_client_options opts (opt cfg)

  -- `papi`.
  abbrev pub provider_of : Config k → Ref → PaychApiProvider k
  provider_of cfg mpusher = record { gateway = cfg.api; wallet = cfg.wallet; mp = mpusher }

  -- The payment channel manager sends messages through the client's own message pusher.
  abbrev pub paych_manager : Config k → Ref → k.PaychManager
  paych_manager cfg mpusher =
      pk.new_manager cfg.api (pk.namespace_wrap cfg.datastore "paych") (provider_of cfg mpusher)

  start_payments : Config k → Ref → Action W (k.PaychManager)
  start_payments cfg mpusher = do
    started ← pk.start_paych (paych_manager cfg mpusher)
    return (paych_manager cfg mpusher)

  register_configurer : k.DataTransfer → Option (k.Configurer) → Action W (Unit {0})
  register_configurer mgr none = return tt
  register_configurer mgr (some configurer) =
      pk.register_transport_configurer mgr retrieval_deal_proposal configurer

  -- The data transfer manager, registered and started.
  start_data_transfers : Config k → k.Transport → Action W (k.DataTransfer)
  unfolding register_configurer
  start_data_transfers cfg tpt = do
    made ←
        wrapping "failed to initialize cidlistsdir"
          (pk.mkdir_all (pk.join cfg.data_dir "cidlistsdir") 493)
    mgr ← pk.new_data_transfer cfg.datastore cfg.host tpt cfg.channel_monitor_config
    storage ← pk.register_voucher_type mgr storage_data_transfer_voucher
    proposal ← pk.register_voucher_type mgr retrieval_deal_proposal
    payment ← pk.register_voucher_type mgr retrieval_deal_payment
    response ← pk.register_voucher_result_type mgr retrieval_deal_response
    configured ← register_configurer mgr cfg.retrieval_configurer
    started ← pk.start_data_transfer mgr
    return mgr

  -- `newLibp2pTransferManager`, and its `Start`.
  unfoldable pub new_manager :
      k.Server → k.Datastore → k.AuthDb → Libp2pTransferManagerOpts → Libp2pTransferManager k
  unfolding new_libp2p_transfer_manager
  new_manager dt_server ds auth_db opts = record {
    dt_server = dt_server;
    auth_db = auth_db;
    dtds = pk.namespace_wrap ds "/data-transfers";
    opts = opts;
    running = new_libp2p_transfer_manager tt;
  }

  start_manager : Libp2pTransferManager k → Action W (Libp2pTransferManager k)
  unfolding start
  start_manager m = do
    running ← return (start m.running)
    started ← pk.start_server m.dt_server
    return (record m { running = running })

  abbrev pub libp2p_manager : Config k → Libp2pTransferManager k
  libp2p_manager cfg =
      let lp2pds = pk.namespace_wrap cfg.datastore "/libp2p-dt" in
      let auth_db = pk.new_auth_token_db lp2pds in
      let dt_server = pk.new_server cfg.host auth_db cfg.blockstore cfg.lp2p_dt_config.server in
      new_manager dt_server lp2pds auth_db
        (record { xfer_timeout = cfg.lp2p_dt_config.transfer_timeout; auth_check_period = minute })

  start_libp2p_transfers : Config k → Action W (Libp2pTransferManager k)
  unfolding start_manager
  start_libp2p_transfers cfg = start_manager (libp2p_manager cfg)

  -- The client, which subscribes to its own publisher.
  client_of :
      Config k
      → Ref
      → k.PaychManager
      → k.GraphSync
      → k.DataTransfer
      → Libp2pTransferManager k
      → FilClient W k
  unfolding new_publisher subscribe
  client_of cfg mpusher pchmgr gse mgr libp2p = record {
    mpusher = mpusher;
    pchmgr = pchmgr;
    host = cfg.host;
    api = cfg.api;
    wallet = cfg.wallet;
    client_addr = cfg.addr;
    blockstore = cfg.blockstore;
    data_transfer = mgr;
    compute_piece_comm = generate_piece_commitment pk.cars;
    graph_sync = gse;
    transport = pk.new_transport cfg.host gse;
    log_retrieval_progress_events = cfg.log_retrieval_progress_events;
    libp2p_transfer_mgr = libp2p;
    retrieval_event_publisher = (subscribe new_publisher this_client).0;
  }

  unfoldable pub new_client_with_config : Config k → Action (Memory W) (FilClient W k)
  unfolding start_payments start_data_transfers start_libp2p_transfers client_of
  new_client_with_config cfg = do
    mpusher ← allocated
    pchmgr ← outside (start_payments cfg mpusher)
    gse ← outside (λ w.
        let (g, w') = pk.new_graph_sync cfg.host cfg.blockstore cfg.graphsync_opts w in (ok g, w'))
    mgr ← outside (start_data_transfers cfg (pk.new_transport cfg.host gse))
    libp2p ← outside (start_libp2p_transfers cfg)
    return (client_of cfg mpusher pchmgr gse mgr libp2p)

  unfoldable pub new_client :
      k.Host
      → k.Api
      → k.Wallet
      → String
      → k.Blockstore
      → k.Datastore
      → String
      → List (Config k → Config k)
      → Action (Memory W) (FilClient W k)
  unfolding default_config apply_client_options new_client_with_config
  new_client h api w addr bs ds ddir opts =
      new_client_with_config (apply_client_options opts (default_config h api w addr bs ds ddir))
