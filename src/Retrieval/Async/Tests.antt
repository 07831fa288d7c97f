-- ===== src/Retrieval/Async/Tests.antt =====
-- A run of an asynchronous retrieval.
use filclient.Base.{ℕ, true, false, some, none, [], ◌∷◌}
use filclient.Retrieval.{cleanup_complete, data_received_progress}
use filclient.Retrieval.Content.{arrives, receives, shutdown_requested, Env, RetrievalStats}
use filclient.Retrieval.Tests.{on_chan, willing, good, good_stats}
use filclient.Retrieval.Async.{RetrievalResult, Async}

abbrev closing : Env ℕ
closing = record good {
  wakes =
      arrives (record (on_chan data_received_progress) { received = 15 }, willing)
      ∷ shutdown_requested
      ∷ arrives (on_chan cleanup_complete, willing)
      ∷ receives
      ∷ [];
}

abbrev stats : RetrievalStats ℕ
stats = record good_stats { total_payment = 0; num_payments = 0 }

abbrev result : RetrievalResult ℕ
result = record { stats = some stats; error = none }

abbrev reported : Async ℕ
reported = record {
  shutdown = false;
  results = [];
  waiting = some 15;
  is_done = false;
  has_returned = false;
  reported = 15 ∷ [];
  delivered = [];
  asked = 0;
  seen = 0;
  received = [];
}

abbrev seen : Async ℕ
seen = record reported { waiting = none; delivered = 15 ∷ []; asked = 1; seen = 1 }

abbrev ended : Async ℕ
ended = record seen { results = []; received = result ∷ []; has_returned = true; is_done = true }
