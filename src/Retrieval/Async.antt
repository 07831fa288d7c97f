-- ===== src/Retrieval/Async.antt =====
-- filclient.go: `RetrieveContentFromPeerAsync`. Its goroutine, the callback for the progress and the caller
-- interleave over three channels, so a run is a sequence of steps.
pub mod Settled
pub mod Soundness
mod Tests
use filclient.Base.{
  ℕ, zero, suc, ◌+◌, ◌≡◌, Bool, true, false, String, Option, none, some, List, [], ◌∷◌, ◌++◌,
  length, ◌-◌,
}
use filclient.Base.Big.{Big}
use filclient.Errors.{GoError, Result, ok, err}
use filclient.Retrieval.{Progress}
use filclient.Retrieval.Content.{
  Proposal, Env, RetrievalStats, Exit, returned, cancelled, unfinished, panicked,
  retrieve_content_from_peer,
}

-- `type RetrievalResult struct`.
pub record RetrievalResult (Int : Type 0) : Type 0 where
  pub stats : Option (RetrievalStats Int)
  pub error : Option GoError

-- What is sent when the retrieval ends, if it does.
unfoldable pub result_of : {Int : Type 0} → Exit Int → Option (RetrievalResult Int)
result_of (returned (ok stats)) = some (record { stats = some stats; error = none })
result_of (returned (err e)) = some (record { stats = none; error = some e })
result_of (cancelled e) = some (record { stats = none; error = some e })
result_of unfinished = none
result_of panicked = none

-- The shutdown requests that a retrieval has received: each one closes the channel, and so does the
-- return, if the transfer was opened.
abbrev pub shutdowns : {Int : Type 0} → Progress Int → ℕ
shutdowns p = length p.closed - 1

-- The channels with what has gone through them. `shutdown` says whether the one place of
-- `gracefulShutdownChan` is taken, `results` is what `resultChan` holds, and `waiting` is the value with
-- which the callback stands at its select, since `progressChan` has no place.
pub record Async (Int : Type 0) : Type 0 where
  pub shutdown : Bool
  pub results : List (RetrievalResult Int)
  pub waiting : Option ℕ
  pub is_done : Bool
  pub has_returned : Bool
  -- What has happened: the calls of the callback, the progress that the caller has received, the
  -- completed calls of the shutdown function, those that the retrieval has seen, and the results that
  -- the caller has received.
  pub reported : List ℕ
  pub delivered : List ℕ
  pub asked : ℕ
  pub seen : ℕ
  pub received : List (RetrievalResult Int)

module _ {Int : Type 0} where
  unfoldable pub new_async : Async Int
  new_async = record {
    shutdown = false;
    results = [];
    waiting = none;
    is_done = false;
    has_returned = false;
    reported = [];
    delivered = [];
    asked = 0;
    seen = 0;
    received = [];
  }

module _ {Int : Type 0} (big : Big Int) (proposal : Proposal Int) (peer_id : String) where
  pub data Step (s : Async Int) : Async Int → Type 0 where
    -- The retrieval calls the callback, for an event; the event before has been handled.
    calls_back :
        (bytes : ℕ)
        → s.waiting ≡ none
        → Step s (record s { waiting = some bytes; reported = s.reported ++ bytes ∷ [] })
    -- The callback's select: the caller receives the progress, or the context is done.
    delivers :
        (bytes : ℕ)
        → s.waiting ≡ some bytes
        → Step s (record s { waiting = none; delivered = s.delivered ++ bytes ∷ [] })
    drops :
        (bytes : ℕ)
        → s.waiting ≡ some bytes
        → s.is_done ≡ true
        → Step s (record s { waiting = none })
    -- The function that is returned: it sends if there is room, and blocks otherwise.
    asks_shutdown : s.shutdown ≡ false → Step s (record s { shutdown = true; asked = s.asked + 1 })
    sees_shutdown :
        s.shutdown ≡ true
        → s.has_returned ≡ false
        → Step s (record s { shutdown = false; seen = s.seen + 1 })
    -- The caller's context is done.
    cancels : Step s (record s { is_done = true })
    -- The retrieval returns; what it has reported until then, after its wait too, and the requests that it
    -- has seen are what has gone through the channels. Its result is sent, and then the context is
    -- cancelled.
    returns :
        (env : Env Int) (r : RetrievalResult Int)
        → s.has_returned ≡ false
        → result_of (retrieve_content_from_peer big env proposal peer_id).0 ≡ some r
        → s.reported ≡ (retrieve_content_from_peer big env proposal peer_id).1.reported
        → s.seen ≡ shutdowns (retrieve_content_from_peer big env proposal peer_id).1
        → Step s (record s { results = s.results ++ r ∷ []; has_returned = true; is_done = true })
    receives_result :
        (r : RetrievalResult Int) (rest : List (RetrievalResult Int))
        → s.results ≡ r ∷ rest
        → Step s (record s { results = rest; received = s.received ++ r ∷ [] })

  pub data Reach (s : Async Int) : Async Int → Type 0 where
    here : Reach s s
    next : {t u : Async Int} → Reach s t → Step t u → Reach s u
