-- ===== src/Client/Construction/Plan.antt =====
-- The calls that construct a client, and the outside that records them.
use filclient.Base.{ℕ, String, ◌≡◌, Option, none, some, List, [], ◌∷◌, ◌++◌}
use filclient.Client.{
  Kinds, ChannelMonitorConfig, Voucher, storage_data_transfer_voucher, retrieval_deal_proposal,
  retrieval_deal_payment, retrieval_deal_response, Packages, Memory,
}

-- The calls that change the outside.
pub data Call : Type 0 where
  starts_payments makes_graph_sync makes_directory makes_data_transfer : Call
  registers registers_result registers_configurer : Voucher → Call
  starts_data_transfer starts_server : Call

abbrev pub configurer_calls : {C : Type 0} → Option C → List Call
configurer_calls none = []
configurer_calls (some configurer) = registers_configurer retrieval_deal_proposal ∷ []

-- What is done for the data transfer manager, and all that is done for a client, in order.
abbrev pub data_transfer_calls : {C : Type 0} → Option C → List Call
data_transfer_calls configurer =
    makes_directory
    ∷ makes_data_transfer
    ∷ registers storage_data_transfer_voucher
    ∷ registers retrieval_deal_proposal
    ∷ registers retrieval_deal_payment
    ∷ registers_result retrieval_deal_response
    ∷ (configurer_calls configurer ++ starts_data_transfer ∷ [])

abbrev pub planned : {C : Type 0} → Option C → List Call
planned configurer =
    starts_payments ∷ makes_graph_sync ∷ (data_transfer_calls configurer ++ starts_server ∷ [])

module _ {W : Type 0} {k : Kinds} where
  -- The world records each call.
  pub record IsRecorded (pk : Packages W k) (trace : W → List Call) : Type 0 where
    pub start_paych_lem :
        (m : k.PaychManager) (w : W)
        → trace (pk.start_paych m w).1 ≡ trace w ++ starts_payments ∷ []
    pub new_graph_sync_lem :
        (h : k.Host) (bs : k.Blockstore) (opts : List (k.GraphsyncOption)) (w : W)
        → trace (pk.new_graph_sync h bs opts w).1 ≡ trace w ++ makes_graph_sync ∷ []
    pub mkdir_all_lem :
        (path : String) (mode : ℕ) (w : W)
        → trace (pk.mkdir_all path mode w).1 ≡ trace w ++ makes_directory ∷ []
    pub new_data_transfer_lem :
        (ds : k.Datastore) (h : k.Host) (tpt : k.Transport) (c : ChannelMonitorConfig) (w : W)
        → trace (pk.new_data_transfer ds h tpt c w).1 ≡ trace w ++ makes_data_transfer ∷ []
    pub register_voucher_type_lem :
        (m : k.DataTransfer) (v : Voucher) (w : W)
        → trace (pk.register_voucher_type m v w).1 ≡ trace w ++ registers v ∷ []
    pub register_voucher_result_type_lem :
        (m : k.DataTransfer) (v : Voucher) (w : W)
        → trace (pk.register_voucher_result_type m v w).1 ≡ trace w ++ registers_result v ∷ []
    pub register_transport_configurer_lem :
        (m : k.DataTransfer) (v : Voucher) (c : k.Configurer) (w : W)
        → trace (pk.register_transport_configurer m v c w).1
          ≡ trace w ++ registers_configurer v ∷ []
    pub start_data_transfer_lem :
        (m : k.DataTransfer) (w : W)
        → trace (pk.start_data_transfer m w).1 ≡ trace w ++ starts_data_transfer ∷ []
    pub start_server_lem :
        (s : k.Server) (w : W) → trace (pk.start_server s w).1 ≡ trace w ++ starts_server ∷ []

-- The calls that the world outside has recorded.
abbrev pub world_trace : {W : Type 0} → (W → List Call) → Memory W → List Call
world_trace trace mem = trace mem.world
