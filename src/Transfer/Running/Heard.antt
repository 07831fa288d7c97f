-- ===== src/Transfer/Running/Heard.antt =====
-- libp2ptransfermgr.go: who tells the listener that a transfer failed.
use filclient.Base.{String, List, [], ◌∷◌, All, All-append}
use filclient.Transfer.{Outside}
use filclient.Transfer.Manager.{Notice}
use filclient.Transfer.Manager.Told.{NotFailed, on_server_event-NotFailed}
use filclient.Transfer.Expiry.Notices.{IsFailure, check_transfer_expiry-IsFailure}
use filclient.Transfer.Running.{
  Running, Source, from_server, from_ticker, from, is_some, serve, check, Runs, begins, starts,
  stops, subscribes, unsubscribes, changes, ticks, serves, checks,
}

-- What may be heard from where.
abbrev pub Fits : Source × Notice → Type 0
Fits (from_server, notice) = NotFailed notice
Fits (from_ticker, notice) = IsFailure notice

from_server-Fits : (ns : List Notice) → All NotFailed ns → All Fits (from from_server ns)
from_server-Fits [] h = tt
from_server-Fits (n ∷ ns) h = (h.0, from_server-Fits ns h.1)

from_ticker-Fits : (ns : List Notice) → All IsFailure ns → All Fits (from from_ticker ns)
from_ticker-Fits [] h = tt
from_ticker-Fits (n ∷ ns) h = (h.0, from_ticker-Fits ns h.1)

-- In every run of the manager, in whatever order it is started and stopped, events and ticks come, and
-- listeners come and go: an event of the server never tells that a transfer failed, and each notice of
-- the expiry check tells that a transfer with a numeric id failed.
pub Runs-Fits :
    {W L : Type 0} (out : Outside W) (timeout_text : String) (m : Running W L)
    (heard : List (Source × Notice))
    → Runs out timeout_text m heard
    → All Fits heard
unfolding serve check
Runs-Fits out text _ _ (begins w) = tt
Runs-Fits out text _ _ (starts m heard r) = Runs-Fits out text m heard r
Runs-Fits out text _ _ (stops m heard r) = Runs-Fits out text m heard r
Runs-Fits out text _ _ (subscribes l m heard r) = Runs-Fits out text m heard r
Runs-Fits out text _ _ (unsubscribes m heard r) = Runs-Fits out text m heard r
Runs-Fits out text _ _ (changes w m heard r) = Runs-Fits out text m heard r
Runs-Fits out text _ _ (ticks m heard r e) = Runs-Fits out text m heard r
Runs-Fits out text _ _ (serves id st m heard r e) =
    All-append Fits heard _ (Runs-Fits out text m heard r)
      (from_server-Fits _ (on_server_event-NotFailed out (is_some m.listener) id st m.world))
Runs-Fits out text _ _ (checks m heard r e) =
    All-append Fits heard _ (Runs-Fits out text m heard r)
      (from_ticker-Fits _ (check_transfer_expiry-IsFailure out text (is_some m.listener) m.world))
