-- ===== src/Client/Construction/Wiring.antt =====
-- What a constructed client is made of.
use filclient.Base.{◌≡◌, refl, ap, true, none, [], ◌∷◌}
use filclient.Errors.{Result, ok, err}
use filclient.Errors.Action.{Action, return, ◌>>=◌, after, Succeeds, Succeeds-after}
use filclient.Client.{
  Kinds, Config, Heap, Ref, allocate, Memory, Libp2pTransferManager, this_client, FilClient,
  Packages,
}
use filclient.Transfer.Running.{new_libp2p_transfer_manager, start}
use filclient.Rep.Publisher.{new_publisher, subscribe, remove}
use filclient.Client.Construction.{
  outside, paych_manager, libp2p_manager, start_payments, start_data_transfers, start_manager,
  start_libp2p_transfers, client_of, new_manager, new_client_with_config,
}

module _ {W : Type 0} {k : Kinds} (pk : Packages W k) (cfg : Config k) where
  -- A client on the pusher `ref` of a heap.
  pub record IsWired (heap : Heap) (fc : FilClient W k) : Type 0 where
    pub pusher_lem : fc.mpusher ≡ heap.next
    pub pchmgr_lem : fc.pchmgr ≡ paych_manager pk cfg fc.mpusher
    pub transport_lem : fc.transport ≡ pk.new_transport cfg.host fc.graph_sync
    pub subscribers_lem : fc.retrieval_event_publisher.subscribers ≡ (0, this_client) ∷ []
    pub subscribed_lem : fc.libp2p_transfer_mgr.running.subscribed ≡ true
    pub ticking_lem : fc.libp2p_transfer_mgr.running.ticking ≡ true
    pub listener_lem : fc.libp2p_transfer_mgr.running.listener ≡ none

  -- What a chain says of its value and of the heap.
  abbrev pub Gives : {A : Type 0} → (A → Type 0) → Heap → Result A × Memory W → Type 0
  Gives P heap (ok a, mem) = P a × (mem.heap ≡ heap)
  Gives P heap (err e, mem) = mem.heap ≡ heap

  after-Gives :
      {A B : Type 0} (P : A → Type 0) (Q : B → Type 0) (heap : Heap) (r : Result B)
      (f : B → Action (Memory W) A) (mem : Memory W)
      → Succeeds Q r
      → ((b : B) (v : Memory W) → Q b → v.heap ≡ heap → Gives P heap (f b v))
      → mem.heap ≡ heap
      → Gives P heap (after r mem f)
  after-Gives P Q heap (ok b) f mem h k q = k b mem h q
  after-Gives P Q heap (err e) f mem h k q = q

  -- A call of the outside leaves the heap as it is.
  outside-Gives :
      {A B : Type 0} (P : A → Type 0) (Q : B → Type 0) (heap : Heap) (m : Action W B)
      (f : B → Action (Memory W) A) (mem : Memory W)
      → ((w : W) → Succeeds Q (m w).0)
      → mem.heap ≡ heap
      → ((b : B) (v : Memory W) → Q b → v.heap ≡ heap → Gives P heap (f b v))
      → Gives P heap ((outside m >>= f) mem)
  outside-Gives P Q heap m f mem h q k =
      after-Gives P Q heap (m mem.world).0 f (record mem { world = (m mem.world).1 }) (h mem.world)
        k q

  start_payments-Succeeds :
      (ref : Ref) (w : W)
      → Succeeds (λ m. m ≡ paych_manager pk cfg ref) (start_payments pk cfg ref w).0
  unfolding start_payments
  start_payments-Succeeds ref w =
      Succeeds-after (λ m. m ≡ paych_manager pk cfg ref)
        (pk.start_paych (paych_manager pk cfg ref) w).0
        (pk.start_paych (paych_manager pk cfg ref) w).1 _ (λ b q v. refl)

  start_libp2p_transfers-Succeeds :
      (w : W)
      → Succeeds
          (λ (m : Libp2pTransferManager k).
            m ≡ record (libp2p_manager pk cfg) { running = start (libp2p_manager pk cfg).running })
          (start_libp2p_transfers pk cfg w).0
  unfolding start_libp2p_transfers start_manager
  start_libp2p_transfers-Succeeds w =
      Succeeds-after
        (λ (m : Libp2pTransferManager k).
          m ≡ record (libp2p_manager pk cfg) { running = start (libp2p_manager pk cfg).running })
        (pk.start_server (libp2p_manager pk cfg).dt_server w).0
        (pk.start_server (libp2p_manager pk cfg).dt_server w).1 _ (λ b q v. refl)

  abbrev graph_sync : Action W (k.GraphSync)
  graph_sync w =
      let (g, w') = pk.new_graph_sync cfg.host cfg.blockstore cfg.graphsync_opts w in (ok g, w')

  any_result : {A : Type 0} (r : Result A) → Succeeds (λ _. Unit {0}) r
  any_result (ok a) = tt
  any_result (err e) = tt

  client_of-IsWired :
      (heap : Heap) (pchmgr : k.PaychManager) (gse : k.GraphSync) (mgr : k.DataTransfer)
      (libp2p : Libp2pTransferManager k)
      → pchmgr ≡ paych_manager pk cfg heap.next
      → libp2p ≡ record (libp2p_manager pk cfg) { running = start (libp2p_manager pk cfg).running }
      → IsWired heap (client_of pk cfg heap.next pchmgr gse mgr libp2p)
  unfolding client_of new_publisher subscribe new_libp2p_transfer_manager start new_manager remove
  client_of-IsWired heap pchmgr gse mgr libp2p h q = record {
    pusher_lem = refl;
    pchmgr_lem = h;
    transport_lem = refl;
    subscribers_lem = refl;
    subscribed_lem = ap (λ m. m.running.subscribed) q;
    ticking_lem = ap (λ m. m.running.ticking) q;
    listener_lem = ap (λ m. m.running.listener) q;
  }

  -- Constructing a client allocates one message pusher, and changes nothing else of the heap, whether
  -- it succeeds or not. The client that it gives has this pusher, and a payment channel manager that
  -- sends its messages through the same one; its transport is on its own graphsync; it is the one
  -- subscriber of its publisher, with the key 0; and its libp2p manager is subscribed to the server, with
  -- the ticker running and without a listener.
  pub new_client_with_config-Gives :
      (mem : Memory W)
      → Gives (IsWired mem.heap) (allocate mem.heap).1 (new_client_with_config pk cfg mem)
  unfolding new_client_with_config allocate
  new_client_with_config-Gives mem =
      let ref = mem.heap.next in
      let heap = (allocate mem.heap).1 in
      let P = IsWired mem.heap in
      outside-Gives P (λ m. m ≡ paych_manager pk cfg ref) heap (start_payments pk cfg ref) _
        (record mem { heap = heap }) (start_payments-Succeeds ref) refl
        λ pchmgr at made q1.
          outside-Gives P (λ _. Unit {0}) heap graph_sync _ at (λ w. tt) q1
            λ gse at2 _ q2.
              outside-Gives P (λ _. Unit {0}) heap
                (start_data_transfers pk cfg (pk.new_transport cfg.host gse)) _ at2
                (λ w. any_result _) q2
                λ mgr at3 _ q3.
                  outside-Gives P
                    (λ (m : Libp2pTransferManager k). m ≡ record (libp2p_manager pk cfg) {
                      running = start (libp2p_manager pk cfg).running;
                    })
                    heap (start_libp2p_transfers pk cfg)
                    (λ libp2p. return (client_of pk cfg ref pchmgr gse mgr libp2p)) at3
                    start_libp2p_transfers-Succeeds q3
                    λ libp2p done started q4.
                      (client_of-IsWired mem.heap pchmgr gse mgr libp2p made started, q4)
