-- ===== src/Client/Construction/Order.antt =====
-- The order in which `NewClientWithConfig` sets its parts up.
use filclient.Base.{◌≡◌, Option, none, some, List, [], ◌∷◌, ◌++◌}
use filclient.Errors.{Result, ok, err}
use filclient.Errors.Action.{Action, return, ◌>>=◌, wrapping}
use filclient.Errors.Trace.{Ends, call-Ends, return-Ends, after-Ends, bind-Ends}
use filclient.Client.{
  allocate, Kinds, Config, Ref, Memory, Libp2pTransferManager, storage_data_transfer_voucher,
  retrieval_deal_proposal, retrieval_deal_payment, retrieval_deal_response, Packages,
}
use filclient.Transfer.Running.{start}
use filclient.Client.Construction.Plan.{
  Call, starts_payments, makes_graph_sync, makes_directory, makes_data_transfer, registers,
  registers_result, registers_configurer, starts_data_transfer, starts_server, configurer_calls,
  data_transfer_calls, planned, IsRecorded, world_trace,
}
use filclient.Client.Construction.{
  client_of, outside, paych_manager, libp2p_manager, start_payments, register_configurer,
  start_data_transfers, start_manager, start_libp2p_transfers, new_client_with_config,
}

module _ {W : Type 0} (trace : W → List Call) where
  -- One call, and what follows it.
  then-Ends :
      {A B : Type 0} (call : Call) (ds : List Call) (w : W) (m : Action W B) (f : B → Action W A)
      → trace (m w).1 ≡ trace w ++ call ∷ []
      → ((b : B) → Ends trace ds (m w).1 (f b (m w).1))
      → Ends trace (call ∷ ds) w ((m >>= f) w)
  then-Ends call ds w m f h rest =
      after-Ends trace (call ∷ []) ds w (m w).1 (m w).0 f (call-Ends trace call w (m w).1 (m w).0 h)
        rest

  recorded_outside :
      {A : Type 0} (calls : List Call) (mem : Memory W) (r : Result A) (w : W)
      → Ends trace calls mem.world (r, w)
      → Ends (world_trace trace) calls mem (r, record mem { world = w })
  recorded_outside calls mem (ok a) w h = h
  recorded_outside calls mem (err e) w h = h

  outside-Ends :
      {A : Type 0} (calls : List Call) (mem : Memory W) (m : Action W A)
      → Ends trace calls mem.world (m mem.world)
      → Ends (world_trace trace) calls mem (outside m mem)
  outside-Ends calls mem m h = recorded_outside calls mem (m mem.world).0 (m mem.world).1 h

module _ {W : Type 0} {k : Kinds} (pk : Packages W k) (trace : W → List Call)
    (recorded : IsRecorded pk trace) (cfg : Config k) where
  start_payments-Ends :
      (r : Ref) (w : W) → Ends trace (starts_payments ∷ []) w (start_payments pk cfg r w)
  unfolding start_payments
  start_payments-Ends r w =
      then-Ends trace starts_payments [] w (pk.start_paych (paych_manager pk cfg r)) _
        (recorded.start_paych_lem (paych_manager pk cfg r) w)
        (λ b.
          return-Ends trace (pk.start_paych (paych_manager pk cfg r) w).1 (paych_manager pk cfg r))

  register_configurer-Ends :
      (mgr : k.DataTransfer) (c : Option (k.Configurer)) (w : W)
      → Ends trace (configurer_calls c) w (register_configurer pk mgr c w)
  unfolding register_configurer
  register_configurer-Ends mgr none w = return-Ends trace w tt
  register_configurer-Ends mgr (some c) w =
      call-Ends trace (registers_configurer retrieval_deal_proposal) w
        (pk.register_transport_configurer mgr retrieval_deal_proposal c w).1
        (pk.register_transport_configurer mgr retrieval_deal_proposal c w).0
        (recorded.register_transport_configurer_lem mgr retrieval_deal_proposal c w)

  start_data_transfers-Ends :
      (tpt : k.Transport) (w : W)
      → Ends trace
          (data_transfer_calls cfg.retrieval_configurer)
          w
          (start_data_transfers pk cfg tpt w)
  unfolding start_data_transfers
  start_data_transfers-Ends tpt w =
      then-Ends trace makes_directory _ w
        (wrapping "failed to initialize cidlistsdir" (pk.mkdir_all _ 493)) _
        (recorded.mkdir_all_lem _ 493 w)
        λ b1.
          then-Ends trace makes_data_transfer _ _ (pk.new_data_transfer _ _ tpt _) _
            (recorded.new_data_transfer_lem _ _ tpt _ _)
            λ mgr.
              then-Ends trace (registers storage_data_transfer_voucher) _ _
                (pk.register_voucher_type mgr storage_data_transfer_voucher) _
                (recorded.register_voucher_type_lem mgr storage_data_transfer_voucher _)
                λ b2.
                  then-Ends trace (registers retrieval_deal_proposal) _ _
                    (pk.register_voucher_type mgr retrieval_deal_proposal) _
                    (recorded.register_voucher_type_lem mgr retrieval_deal_proposal _)
                    λ b3.
                      then-Ends trace (registers retrieval_deal_payment) _ _
                        (pk.register_voucher_type mgr retrieval_deal_payment) _
                        (recorded.register_voucher_type_lem mgr retrieval_deal_payment _)
                        λ b4.
                          then-Ends trace (registers_result retrieval_deal_response) _ _
                            (pk.register_voucher_result_type mgr retrieval_deal_response) _
                            (recorded.register_voucher_result_type_lem mgr retrieval_deal_response
                              _)
                            λ b5.
                              after-Ends trace (configurer_calls cfg.retrieval_configurer)
                                (starts_data_transfer ∷ []) _ _ _ _
                                (register_configurer-Ends mgr cfg.retrieval_configurer _)
                                λ b6.
                                  then-Ends trace starts_data_transfer [] _
                                    (pk.start_data_transfer mgr) _
                                    (recorded.start_data_transfer_lem mgr _)
                                    λ b7. return-Ends trace _ mgr

  start_manager-Ends :
      (m : Libp2pTransferManager k) (w : W)
      → Ends trace (starts_server ∷ []) w (start_manager pk m w)
  unfolding start_manager
  start_manager-Ends m w =
      let started : Libp2pTransferManager k = record m { running = start m.running } in
      then-Ends trace starts_server [] w (pk.start_server m.dt_server) _
        (recorded.start_server_lem m.dt_server w)
        (λ b. return-Ends trace (pk.start_server m.dt_server w).1 started)

  start_libp2p_transfers-Ends :
      (w : W) → Ends trace (starts_server ∷ []) w (start_libp2p_transfers pk cfg w)
  unfolding start_libp2p_transfers
  start_libp2p_transfers-Ends w = start_manager-Ends (libp2p_manager pk cfg) w

  abbrev graph_sync : Action W (k.GraphSync)
  graph_sync w =
      let (g, w') = pk.new_graph_sync cfg.host cfg.blockstore cfg.graphsync_opts w in (ok g, w')

  outside_each :
      {A : Type 0} (calls : List Call) (m : Action W A)
      → ((w : W) → Ends trace calls w (m w))
      → (mem : Memory W) → Ends (world_trace trace) calls mem (outside m mem)
  outside_each calls m h mem = outside-Ends trace calls mem m (h mem.world)

  -- Once the payment channel manager runs.
  with_payments-Ends :
      (ref : Ref) (pchmgr : k.PaychManager) (mem : Memory W)
      → Ends
          (world_trace trace)
          (makes_graph_sync ∷ (data_transfer_calls cfg.retrieval_configurer ++ starts_server ∷ []))
          mem
          ((do
            gse ← outside graph_sync
            mgr ← outside (start_data_transfers pk cfg (pk.new_transport cfg.host gse))
            libp2p ← outside (start_libp2p_transfers pk cfg)
            return (client_of pk cfg ref pchmgr gse mgr libp2p))
            mem)
  with_payments-Ends ref pchmgr mem =
      bind-Ends (world_trace trace) (makes_graph_sync ∷ [])
        (data_transfer_calls cfg.retrieval_configurer ++ starts_server ∷ []) mem
        (outside graph_sync) _
        (outside_each (makes_graph_sync ∷ []) graph_sync
          (recorded.new_graph_sync_lem cfg.host cfg.blockstore cfg.graphsync_opts) mem)
        λ gse at.
          bind-Ends (world_trace trace) (data_transfer_calls cfg.retrieval_configurer)
            (starts_server ∷ []) at
            (outside (start_data_transfers pk cfg (pk.new_transport cfg.host gse))) _
            (outside_each (data_transfer_calls cfg.retrieval_configurer)
              (start_data_transfers pk cfg (pk.new_transport cfg.host gse))
              (start_data_transfers-Ends (pk.new_transport cfg.host gse)) at)
            λ mgr at'.
              bind-Ends (world_trace trace) (starts_server ∷ []) [] at'
                (outside (start_libp2p_transfers pk cfg))
                (λ libp2p. return (client_of pk cfg ref pchmgr gse mgr libp2p))
                (outside_each (starts_server ∷ []) (start_libp2p_transfers pk cfg)
                  start_libp2p_transfers-Ends at')
                λ libp2p done.
                  return-Ends (world_trace trace) done (client_of pk cfg ref pchmgr gse mgr libp2p)

  -- If the outside records its calls, then a client is constructed by all the planned calls in their
  -- order: the payment channel manager starts, the directory of cid lists is made before the data
  -- transfer manager, which starts after every voucher type, the result type and the configurer, if
  -- there is one, are registered, and the libp2p server starts last. If a call fails, it is the last
  -- one that is made, and those before it are the first of the plan.
  pub new_client_with_config-Ends :
      (mem : Memory W)
      → Ends
          (world_trace trace)
          (planned cfg.retrieval_configurer)
          mem
          (new_client_with_config pk cfg mem)
  unfolding new_client_with_config
  new_client_with_config-Ends mem =
      let (ref, heap) = allocate mem.heap in
      bind-Ends (world_trace trace) (starts_payments ∷ []) _ (record mem { heap = heap })
        (outside (start_payments pk cfg ref)) _
        (outside-Ends trace (starts_payments ∷ []) (record mem { heap = heap })
          (start_payments pk cfg ref) (start_payments-Ends ref mem.world))
        (with_payments-Ends ref)
