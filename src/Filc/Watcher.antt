-- ===== src/Filc/Watcher.antt =====
-- filc/cmds.go: `connWatcher`, which reconnects to a storage provider, and `keepConnection`, which starts
-- it.
pub mod Attended
use filclient.Base.{ℕ, suc, ◌+◌, String, str_eq, Bool, true, false, ◌≡◌, if◌then◌else◌}
use filclient.Errors.{Result, ok, err}
use filclient.Connection.{Network, connect_to_miner}

-- The channel `disconnected` holds at most one element. The goroutines that run `processDisconnect`
-- sleep, or reconnect.
pub record ConnWatcher : Type 0 where
  pub pid : String
  pub disconnected : Bool
  pub sleeping : ℕ
  pub reconnecting : ℕ

unfoldable pub new_conn_watcher : String → ConnWatcher
new_conn_watcher pid = record { pid = pid; disconnected = false; sleeping = 0; reconnecting = 0 }

-- `Disconnected`, for a connection to the given peer, and whether it has sent to the channel.
unfoldable pub on_disconnected : String → ConnWatcher → ConnWatcher × Bool
on_disconnected remote_peer c =
    if str_eq remote_peer c.pid
    then (if c.disconnected
        then (c, false)
        else (record c { disconnected = true; sleeping = suc c.sleeping }, true))
    else (c, false)

-- `processDisconnect` when it wakes up: it takes the element and reconnects, or it ends. `others` are
-- the goroutines that still sleep.
unfoldable pub on_wake : ℕ → ConnWatcher → ConnWatcher
on_wake others c =
    if c.disconnected
    then record c { disconnected = false; sleeping = others; reconnecting = suc c.reconnecting }
    else record c { sleeping = others }

-- What happens: a connection breaks, a goroutine wakes up, or it has reconnected and starts another.
-- The counts are those of the elements that were sent, and of the reconnections that have ended.
pub data Reach (pid : String) : ConnWatcher → ℕ → ℕ → Type 0 where
  begin : Reach pid (new_conn_watcher pid) 0 0
  disconnect :
      (remote_peer : String) (c : ConnWatcher) (sent finished : ℕ)
      → Reach pid c sent finished
      → Reach pid
          (on_disconnected remote_peer c).0
          (if (on_disconnected remote_peer c).1 then suc sent else sent)
          finished
  wake :
      (others : ℕ) (c : ConnWatcher) (sent finished : ℕ)
      → Reach pid c sent finished
      → c.sleeping ≡ suc others
      → Reach pid (on_wake others c) sent finished
  reconnected :
      (others : ℕ) (c : ConnWatcher) (sent finished : ℕ)
      → Reach pid c sent finished
      → c.reconnecting ≡ suc others
      → Reach pid
          (record c { reconnecting = others; sleeping = suc c.sleeping })
          sent
          (suc finished)

-- `keepConnection`: the watcher that is registered, if the first connection succeeds.
module _ {W : Type 0} (net : Network W) where
  watcher_of : Result String → Result ConnWatcher
  unfolding new_conn_watcher
  watcher_of (ok pid) = ok (new_conn_watcher pid)
  watcher_of (err e) = err e

  unfoldable pub keep_connection : String → W → Result ConnWatcher × W
  unfolding watcher_of connect_to_miner
  keep_connection maddr w = let (pid, w') = connect_to_miner net maddr w in (watcher_of pid, w')
