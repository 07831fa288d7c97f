-- ===== src/Filc/Candidates.antt =====
-- filc/retrieval.go and retrievehelper/params.go: the attempt to retrieve a file over Filecoin, from a
-- list of candidates.
pub mod Endpoint
pub mod Offered
pub mod Comparison
use filclient.Base.{
  ℕ, zero, suc, ◌+◌, ◌%◌, ◌^◌, String, str_append, Bool, true, false, not, ◌&&◌, Option, none, some,
  List, [], ◌∷◌, length, u64, ltb, ◌==◌, if◌then◌else◌,
}
use filclient.Base.Big.{Big}
use filclient.Errors.{GoError, message, Result, ok, err}
use filclient.Errors.Action.{Action, return, fail, ◌>>=◌}
use filclient.Rep.Event.{QueryResponse}
use filclient.Connection.{Network}
use filclient.Deal.Sending.{Streams, Codec}
use filclient.Retrieval.Query.{retrieval_query, retrieve_content_with_progress_callback}

-- `FILRetrievalCandidate` and `CandidateQuery`.
pub record Candidate : Type 0 where
  pub miner : String
  pub root_cid : String
  pub deal_id : ℕ

pub record CandidateQuery (Int : Type 0) : Type 0 where
  pub candidate : Candidate
  pub response : QueryResponse Int

-- `retrievalmarket.DealProposal`.
pub record DealProposal (Params : Type 0) : Type 0 where
  pub payload_cid : String
  pub id : ℕ
  pub params : Params

abbrev pub get_elem? {ℓ} : {A : Type ℓ} → List A → ℕ → Option A
get_elem? [] i = none
get_elem? (x ∷ xs) zero = some x
get_elem? (x ∷ xs) (suc i) = get_elem? xs i

module _ {Int : Type 0} (big : Big Int) where
  -- `big.NewIntUnsigned` of the size.
  unfoldable pub total_cost : QueryResponse Int → Int
  total_cost qres = big.add (big.mul qres.min_price_per_byte (big.new qres.size)) qres.unseal_price

  -- The comparison of two responses, from `a` and `b` on.
  unfoldable pub prefer : QueryResponse Int → QueryResponse Int → Bool
  unfolding total_cost
  prefer a b =
      if big.is_zero a.unseal_price && not (big.is_zero b.unseal_price)
      then true
      else if not (big.equals (total_cost a) (total_cost b))
      then big.less_than (total_cost a) (total_cost b)
      else if not (a.size == b.size)
      then ltb a.size b.size
      else false

  -- Both responses are the one at `i`.
  compared : Option (CandidateQuery Int) → Option (CandidateQuery Int) → Option Bool
  unfolding prefer
  compared (some a) (some b) = some (prefer a.response b.response)
  compared _ _ = none

  -- The function that `sort.Slice` is given; an index out of range panics.
  unfoldable pub less : List (CandidateQuery Int) → ℕ → ℕ → Option Bool
  unfolding compared
  less queries i j = compared (get_elem? queries i) (get_elem? queries i)

-- What is used of other packages. `sort_slice` is `sort.Slice`.
pub record Market (W Int Node Params : Type 0) : Type 0 where
  pub sort_slice :
      (List (CandidateQuery Int) → ℕ → ℕ → Option Bool)
      → List (CandidateQuery Int)
      → List (CandidateQuery Int)
  pub new_params_v1 : Int → ℕ → ℕ → Node → Option String → Int → Result Params
  pub explore_all_recursively : Node
  pub next_deal_id : W → ℕ × W

-- The answers of the goroutines, in the order in which they take the lock.
unfoldable pub collect_queries :
    {Int : Type 0} → List (Candidate × Result (QueryResponse Int)) → List (CandidateQuery Int)
collect_queries [] = []
collect_queries ((c, ok resp) ∷ rest) =
    (record { candidate = c; response = resp }) ∷ collect_queries rest
collect_queries ((c, err e) ∷ rest) = collect_queries rest

module _ {W Int Node Params : Type 0} (market : Market W Int Node Params) where
  abbrev pub or_all : Option Node → Node
  or_all none = market.explore_all_recursively
  or_all (some sel) = sel

  proposal_with : String → Result Params → Action W (DealProposal Params)
  proposal_with c (ok params) w =
      let (id, w') = market.next_deal_id w in
      (ok (record { payload_cid = c; id = id; params = params }), w')
  proposal_with c (err e) w = (err e, w)

  unfoldable pub retrieval_proposal_for_ask :
      QueryResponse Int → String → Option Node → Action W (DealProposal Params)
  unfolding proposal_with
  retrieval_proposal_for_ask ask c selector = proposal_with c (
      market.new_params_v1 ask.min_price_per_byte ask.max_payment_interval
        ask.max_payment_interval_increase (or_all selector) none ask.unseal_price)

  module _ {Stats : Type 0} (retrieve : String → DealProposal Params → Action W Stats)
      (selector : Option Node) where
    -- One attempt: the proposal and the retrieval.
    unfoldable pub attempt_query : CandidateQuery Int → Action W Stats
    unfolding retrieval_proposal_for_ask
    attempt_query query = do
      proposal ← retrieval_proposal_for_ask query.response query.candidate.root_cid selector
      retrieve query.candidate.miner proposal

    -- After an attempt: the first that succeeds ends the loop.
    or_next : Result Stats → Action W Stats → Action W Stats
    or_next (ok stats) next w = (ok stats, w)
    or_next (err e) next w = next w

    unfoldable pub attempt_queries : List (CandidateQuery Int) → Action W Stats
    unfolding attempt_query or_next
    attempt_queries [] w = (err (message "retrieval failed for all miners"), w)
    attempt_queries (query ∷ rest) w =
        let (stats, w') = attempt_query query w in or_next stats (attempt_queries rest) w'

    module _ (big : Big Int) where
      with_queries : Bool → List (CandidateQuery Int) → Action W Stats
      unfolding attempt_queries less
      with_queries no_sort [] w =
          (err (message "retrieval failed: queries failed for all miners"), w)
      with_queries no_sort (query ∷ queries) w =
          attempt_queries
            (if no_sort then query ∷ queries else market.sort_slice (less big) (query ∷ queries)) w

      -- `FILRetrievalAttempt.Retrieve`. `answers` has one entry for each candidate.
      unfoldable pub retrieve_fil :
          List Candidate
          → Bool
          → (W → List (Candidate × Result (QueryResponse Int)) × W)
          → Action W Stats
      unfolding with_queries collect_queries
      retrieve_fil [] no_sort answers w =
          (err (message "retrieval failed: no miners were provided"), w)
      retrieve_fil (c ∷ cs) no_sort answers w =
          let (replies, w') = answers w in with_queries no_sort (collect_queries replies) w'

-- The attempt on the client: its queries, in the order in which their goroutines finish, and its
-- retrievals. `from_peer` is as in Retrieval/Query.antt, and `progress` prints the progress.
module _ {W Int : Type 0} (net : Network W) (streams : Streams W)
    (codec : Codec W String (QueryResponse Int)) where
  unfoldable pub run_queries :
      List Candidate → W → List (Candidate × Result (QueryResponse Int)) × W
  unfolding retrieval_query
  run_queries [] w = ([], w)
  run_queries (c ∷ cs) w =
      let (published, w') = retrieval_query net streams codec c.miner c.root_cid w in
      let (rest, w'') = run_queries cs w' in ((c, published.0) ∷ rest, w'')

  module _ {Node Params Callback Stats : Type 0} (market : Market W Int Node Params) (big : Big Int)
      (progress : Callback)
      (from_peer : String → String → DealProposal Params → Callback → Action W Stats) where
    abbrev pub retrieve_content_from : String → DealProposal Params → Action W Stats
    retrieve_content_from miner proposal w =
        retrieve_content_with_progress_callback net progress from_peer miner proposal progress w

    unfoldable pub retrieve_from_candidates :
        (List Candidate → List Candidate) → List Candidate → Option Node → Bool → Action W Stats
    unfolding retrieve_fil run_queries
    retrieve_from_candidates finishing candidates selector no_sort w =
        retrieve_fil market retrieve_content_from selector big candidates no_sort
          (run_queries (finishing candidates)) w

-- `RetrieveFromBestCandidate`, over the attempts as their `Retrieve` methods.
module _ {W Stats : Type 0} where
  or_attempt : Result Stats → Action W Stats → Action W Stats
  or_attempt (ok stats) next w = (ok stats, w)
  or_attempt (err e) next w = next w

  unfoldable pub retrieve_from_best_candidate : List (Action W Stats) → Action W Stats
  unfolding or_attempt
  retrieve_from_best_candidate [] w = (err (message "all retrieval attempts failed"), w)
  retrieve_from_best_candidate (attempt ∷ rest) w =
      let (stats, w') = attempt w in or_attempt stats (retrieve_from_best_candidate rest) w'
