-- ===== src/Transfer/Running.antt =====
-- libp2ptransfermgr.go: `Start`, `Stop`, `Subscribe` and the goroutine of the ticker, which interleave
-- with the server's events.
pub mod Heard
use filclient.Base.{ℕ, String, Bool, true, false, ◌≡◌, List, [], ◌∷◌, ◌++◌, map, Option, none, some}
use filclient.Transfer.{TransferState, Outside}
use filclient.Transfer.Manager.{
  Notice, subscribe, unsubscribe, on_server_event, prepare_for_data_request,
  cleanup_prepared_request,
}
use filclient.Transfer.Expiry.{check_transfer_expiry}

-- The manager: its listener, whether it is subscribed to the server, whether its ticker runs, whether a
-- tick waits in the ticker's channel, and the world.
pub record Running (W L : Type 0) : Type 0 where
  pub listener : Option L
  pub subscribed : Bool
  pub ticking : Bool
  pub tick : Bool
  pub world : W

-- What a listener hears, and from where.
pub data Source : Type 0 where
  from_server from_ticker : Source

abbrev pub is_some : {L : Type 0} → Option L → Bool
is_some none = false
is_some (some l) = true

abbrev pub from : Source → List Notice → List (Source × Notice)
from source notices = map (λ n. (source, n)) notices

unfoldable pub new_libp2p_transfer_manager : {W L : Type 0} → W → Running W L
new_libp2p_transfer_manager w = record {
  listener = none;
  subscribed = false;
  ticking = false;
  tick = false;
  world = w;
}

-- `Start`, up to the start of the server, which is a change of the world.
unfoldable pub start : {W L : Type 0} → Running W L → Running W L
start m = record m { subscribed = true; ticking = true }

-- `Stop`: a tick that waits stays, and so does the goroutine.
unfoldable pub stop : {W L : Type 0} → Running W L → Running W L
stop m = record m { subscribed = false; ticking = false }

module _ {W L : Type 0} (out : Outside W) (timeout_text : String) where
  -- The server's event, as the manager handles it while it is subscribed.
  unfoldable pub serve : String → TransferState → Running W L → List Notice × Running W L
  unfolding on_server_event
  serve id st m =
      let (notices, w) = on_server_event out (is_some m.listener) id st m.world in
      (notices, record m { world = w })

  -- The goroutine takes the tick.
  unfoldable pub check : Running W L → List Notice × Running W L
  unfolding check_transfer_expiry
  check m =
      let (notices, w) = check_transfer_expiry out timeout_text (is_some m.listener) m.world in
      (notices, record m { tick = false; world = w })

  -- The runs, with what has been heard; each handler is one step. Everything else, such as the requests of clients, may change
  -- the world at any time.
  pub data Runs : Running W L → List (Source × Notice) → Type 0 where
    begins : (w : W) → Runs (new_libp2p_transfer_manager w) []
    starts :
        (m : Running W L) (heard : List (Source × Notice)) → Runs m heard → Runs (start m) heard
    stops : (m : Running W L) (heard : List (Source × Notice)) → Runs m heard → Runs (stop m) heard
    subscribes :
        (l : L) (m : Running W L) (heard : List (Source × Notice))
        → Runs m heard
        → Runs (record m { listener = (subscribe m.listener l).1 }) heard
    unsubscribes :
        (m : Running W L) (heard : List (Source × Notice))
        → Runs m heard
        → Runs (record m { listener = unsubscribe m.listener }) heard
    changes :
        (w : W) (m : Running W L) (heard : List (Source × Notice))
        → Runs m heard
        → Runs (record m { world = w }) heard
    ticks :
        (m : Running W L) (heard : List (Source × Notice))
        → Runs m heard
        → m.ticking ≡ true
        → Runs (record m { tick = true }) heard
    serves :
        (id : String) (st : TransferState) (m : Running W L) (heard : List (Source × Notice))
        → Runs m heard
        → m.subscribed ≡ true
        → Runs (serve id st m).1 (heard ++ from from_server (serve id st m).0)
    checks :
        (m : Running W L) (heard : List (Source × Notice))
        → Runs m heard
        → m.tick ≡ true
        → Runs (check m).1 (heard ++ from from_ticker (check m).0)
