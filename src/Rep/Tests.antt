-- ===== src/Rep/Tests.antt =====
-- Runs of the publisher and of the logging subscriber at concrete inputs.
use mathlib.Core.List.Perm
use filclient.Base.{String, ◌≡◌, refl, false, some, none, List, [], ◌∷◌, arith, if◌then◌else◌, ◌==◌}
use filclient.Rep.Event.{query_phase, Origin}
use filclient.Rep.Publisher.{
  Publisher, new_publisher, subscribe, unsubscribe, subscriber_count, remove, System, start, Reach,
  here, next, subscribes, publishes, takes, calls, finishes,
}
use filclient.Rep.Publisher.Delivery.{IsOrdered, Reach-IsOrdered}
use filclient.Rep.Publisher.Keys.{subscriber, Op, sub, unsub, run, subscribe-unsubscribe}

abbrev from_provider : Origin
from_provider = record {
  phase = query_phase;
  payload_cid = "c";
  storage_provider_id = "p";
  storage_provider_addr = "";
}

abbrev empty : Publisher String String
empty = record { subscribers = []; idx = 0; events = []; is_done = false }

abbrev others : List (Op String)
others = sub "b" ∷ unsub 7 ∷ []

subscribe-unsubscribe_example :
    let ep'' = run (subscribe empty "a").0 others in
    (subscriber 0 ep''.subscribers ≡ some "a")
    × (subscriber 1 (unsubscribe ep'' 0).subscribers
        ≡ (if 0 == 1 then none else subscriber 1 ep''.subscribers))
unfolding subscribe
subscribe-unsubscribe_example =
    subscribe-unsubscribe empty "a" others 1 tt (omega arith) ((omega arith), tt)

counts : subscriber_count (unsubscribe (run empty (sub "a" ∷ sub "b" ∷ [])) 0) ≡ 1
unfolding subscriber_count unsubscribe run subscribe remove
counts = refl

-- One event reaches one subscriber.
abbrev subscribed : System String String
subscribed = record (start {Sub = String} {Event = String}) { ep = (subscribe empty "a").0 }

one_round : (s : System String String) × Reach start s × (s.delivered ≡ ((0, "a"), "e") ∷ [])
unfolding new_publisher subscribe remove
one_round = (
  _,
  next
      (next
        (next (next (next here (subscribes "a")) (publishes "e" (omega arith)))
          (takes "e" [] ((0, "a") ∷ []) refl refl (Perm.refl _)))
        (calls "e" (0, "a") [] refl))
      (finishes "e" refl),
  refl,
)

Reach-IsOrdered_example : IsOrdered one_round.0
Reach-IsOrdered_example = Reach-IsOrdered one_round.1
