-- ===== src/Client/Tests.antt =====
-- Runs of the construction of a client at concrete packages.
use filclient.Base.{false, ◌*◌, ℕ, String, str_append, ◌≡◌, refl, none, some, List, [], ◌∷◌, ◌++◌}
use filclient.Base.Big.{nat_big}
use filclient.Errors.{message, ok, err}
use filclient.Errors.Action.{Action}
use filclient.Errors.Trace.{Ends}
use filclient.MsgPusher.{Message, Replies, new_msg_pusher}
use filclient.MsgPusher.Nonces.{Consecutive}
use filclient.Transfer.Running.{new_libp2p_transfer_manager, start}
use filclient.Rep.Publisher.{new_publisher, subscribe, remove}
use filclient.Deal.Pieces.{Cars, generate_piece_commitment}
use filclient.Client.{
  storage_data_transfer_voucher, retrieval_deal_proposal, retrieval_deal_payment,
  retrieval_deal_response, this_client, hour, minute, Kinds, Config, allocate, Memory, Packages,
  FilClient,
}
use filclient.Client.Construction.{
  new_manager, default_config, paych_manager, provider_of, new_client_with_config, new_client,
}
use filclient.Client.Construction.Plan.{
  Call, starts_payments, makes_graph_sync, makes_directory, makes_data_transfer, registers,
  registers_result, registers_configurer, starts_data_transfer, starts_server, planned, IsRecorded,
  world_trace,
}
use filclient.Client.Construction.Order.{new_client_with_config-Ends}
use filclient.Client.Construction.Wiring.{Gives, IsWired, new_client_with_config-Gives}
use filclient.Client.Sharing.{by_client, by_payments, all_sent}
use filclient.Client.Sharing.Nonces.{Sent, new_client_with_config-Consecutive}

abbrev pub kinds : Kinds
kinds = record {
  Api = String;
  Wallet = String;
  Blockstore = String;
  PreparedCar = String;
  Datastore = String;
  Host = String;
  GraphsyncOption = ℕ;
  BlockInfoCache = ℕ;
  Configurer = String;
  PaychManager = String;
  GraphSync = String;
  Transport = String;
  DataTransfer = String;
  AuthDb = String;
  Server = String;
  Int = ℕ;
}

-- The world is the list of the calls that have been made.
abbrev pub World : Type 0
World = List Call

abbrev pub call : {A : Type 0} → Call → A → Action World A
call c a w = (ok a, w ++ c ∷ [])

abbrev cars : Cars World String String
cars = record {
  prepare = λ bs c n w. (ok c, w);
  dump = λ sink p w. (ok p, w);
  size = λ p. 100;
  digest = λ s. ok (s, 128);
  sum = λ s. ok (s, 128);
  data_commitment_to_cid = λ s. ok s;
  unpadded = λ n. n;
}

abbrev pub packages : Packages World kinds
packages = record {
  join = str_append;
  namespace_wrap = str_append;
  new_manager = λ api ds papi. "payments";
  start_paych = λ m. call starts_payments tt;
  new_graph_sync = λ h bs opts w. ("graphsync", w ++ makes_graph_sync ∷ []);
  new_transport = λ h gse. "transport";
  mkdir_all = λ path mode. call makes_directory tt;
  new_data_transfer = λ ds h tpt c. call makes_data_transfer "manager";
  register_voucher_type = λ m v. call (registers v) tt;
  register_voucher_result_type = λ m v. call (registers_result v) tt;
  register_transport_configurer = λ m v c. call (registers_configurer v) tt;
  start_data_transfer = λ m. call starts_data_transfer tt;
  new_auth_token_db = λ ds. ds;
  new_server = λ h db bs c. "server";
  start_server = λ s. call starts_server tt;
  cars = cars;
  new_delayed_unref_bicm = λ n. n;
  max_in_progress_incoming_requests = λ n. n;
  max_in_progress_outgoing_requests = λ n. n;
  max_memory_responder = λ n. n;
  max_memory_per_peer_responder = λ n. n;
  max_in_progress_incoming_requests_per_peer = λ n. n;
  message_send_retries = λ n. n;
  send_message_timeout = λ n. n;
  max_links_per_incoming_requests = λ n. n;
  max_links_per_outgoing_requests = λ n. n;
}

-- The data transfer manager does not start.
abbrev pub failing : Packages World kinds
failing = record packages {
  start_data_transfer = λ m w. (err (message "closed"), w ++ starts_data_transfer ∷ []);
}

abbrev pub start_memory : Memory World
start_memory = record { world = []; heap = record { next = 3; pusher = λ r. new_msg_pusher } }

abbrev config : Config kinds
config = default_config packages "host" "api" "wallet" "t01" "blocks" "data" "/tmp"

abbrev with_configurer : Config kinds → Config kinds
with_configurer c = record c { retrieval_configurer = some "configurer" }

IsRecorded-packages : IsRecorded packages (λ w. w)
IsRecorded-packages = record {
  start_paych_lem = λ m w. refl;
  new_graph_sync_lem = λ h bs opts w. refl;
  mkdir_all_lem = λ path mode w. refl;
  new_data_transfer_lem = λ ds h tpt c w. refl;
  register_voucher_type_lem = λ m v w. refl;
  register_voucher_result_type_lem = λ m v w. refl;
  register_transport_configurer_lem = λ m v c w. refl;
  start_data_transfer_lem = λ m w. refl;
  start_server_lem = λ s w. refl;
}

new_client_with_config-Ends_example :
    Ends
      (world_trace {W = World} (λ w. w))
      (planned {C = String} none)
      start_memory
      (new_client_with_config packages config start_memory)
unfolding default_config
new_client_with_config-Ends_example =
    new_client_with_config-Ends packages (λ w. w) IsRecorded-packages config start_memory

new_client_with_config-Gives_example :
    Gives packages config
      (IsWired packages config start_memory.heap)
      (allocate start_memory.heap).1
      (new_client_with_config packages config start_memory)
new_client_with_config-Gives_example = new_client_with_config-Gives packages config start_memory

abbrev pub built : FilClient World kinds
unfolding new_publisher subscribe remove new_libp2p_transfer_manager start
built = record {
  mpusher = 3;
  pchmgr = "payments";
  host = "host";
  api = "api";
  wallet = "wallet";
  client_addr = "t01";
  blockstore = "blocks";
  data_transfer = "manager";
  compute_piece_comm = generate_piece_commitment cars;
  graph_sync = "graphsync";
  transport = "transport";
  log_retrieval_progress_events = false;
  libp2p_transfer_mgr = record {
    dt_server = "server";
    auth_db = "data/libp2p-dt";
    dtds = "data/libp2p-dt/data-transfers";
    opts = record { xfer_timeout = 24 * hour; auth_check_period = minute };
    running = start (new_libp2p_transfer_manager tt);
  };
  retrieval_event_publisher = (subscribe new_publisher this_client).0;
}

abbrev pub built_memory : Memory World
built_memory = record { world = planned {C = String} none; heap = (allocate start_memory.heap).1 }

built_lem : new_client_with_config packages config start_memory ≡ (ok built, built_memory)
unfolding new_client_with_config default_config built allocate new_manager
built_lem = refl

-- The manager is the last thing that is done.
failing_lem :
    (new_client_with_config failing (with_configurer config) start_memory).1.world
    ≡ starts_payments
      ∷ makes_graph_sync
      ∷ makes_directory
      ∷ makes_data_transfer
      ∷ registers storage_data_transfer_voucher
      ∷ registers retrieval_deal_proposal
      ∷ registers retrieval_deal_payment
      ∷ registers_result retrieval_deal_response
      ∷ registers_configurer retrieval_deal_proposal
      ∷ starts_data_transfer
      ∷ []
unfolding new_client_with_config default_config
failing_lem = refl

-- The options are applied in their order.
options_lem :
    new_client failing "host" "api" "wallet" "t01" "blocks" "data" "/tmp"
      ((λ c. record c { addr = "t02" }) ∷ (λ c. record c { addr = "t03" }) ∷ [])
      start_memory
    ≡ new_client_with_config failing (record config { addr = "t03" }) start_memory
unfolding new_client new_client_with_config default_config
options_lem = refl

abbrev transfer : Message ℕ
transfer = record {
  sender = "t01";
  to = "t02";
  value = 5;
  method = 2;
  params = "";
  nonce = 0;
  gas_limit = 0;
  gas_fee_cap = 0;
  gas_premium = 0;
}

-- The gateway says that the actor is at nonce 7, each time that it is asked.
abbrev online : Replies ℕ
online = record {
  state_account_key = λ a. ok "key";
  actor_nonce = λ a. ok 7;
  gas_estimate = λ m. ok m;
  cid_bytes = λ m. "cid";
  wallet_sign = λ a s. ok "sig";
  mpool_push = λ m. ok tt;
}

abbrev sent : List (Sent ℕ)
sent =
    (by_payments, (online, transfer))
    ∷ (by_client, (online, transfer))
    ∷ (by_payments, (online, transfer))
    ∷ []

new_client_with_config-Consecutive_example :
    (built.pchmgr ≡ paych_manager packages config built.mpusher)
    × Consecutive none (
        all_sent nat_big built
          (provider_of packages config built.mpusher)
          "key"
          built_memory.heap
          sent)
new_client_with_config-Consecutive_example =
    new_client_with_config-Consecutive nat_big packages config start_memory built built_memory "key"
      sent built_lem ((λ m m' h. cc), ((λ m m' h. cc), ((λ m m' h. cc), tt)))
