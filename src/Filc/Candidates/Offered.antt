-- ===== src/Filc/Candidates/Offered.antt =====
-- filc/retrieval.go: whose offer a successful retrieval over Filecoin accepts.
use filclient.Base.{
  String, Bool, true, false, ◌≡◌, refl, inl, inr, Option, none, List, [], ◌∷◌, Any, ℕ,
}
use filclient.Base.Big.{Big}
use filclient.Errors.{Result, ok, err}
use filclient.Errors.Action.{Action, Succeeds, Succeeds-mono, after}
use filclient.Rep.Event.{QueryResponse}
use filclient.Connection.{Network}
use filclient.Deal.Sending.{Streams, Codec}
use filclient.Retrieval.Query.{retrieval_query}
use filclient.Filc.Candidates.{
  run_queries, retrieve_content_from, retrieve_from_candidates, Candidate, CandidateQuery,
  DealProposal, Market, less, or_all, proposal_with, retrieval_proposal_for_ask, collect_queries,
  attempt_query, or_next, attempt_queries, with_queries, retrieve_fil,
}

Succeeds-of :
    {A : Type 0} (P : A → Type 0) (r : Result A) → ((a : A) → r ≡ ok a → P a) → Succeeds P r
Succeeds-of P (ok a) h = h a refl
Succeeds-of P (err e) h = tt

-- A sort keeps what the list has.
abbrev pub Sorts : {W Int Node Params : Type 0} → Market W Int Node Params → Type 1
Sorts {W} {Int} market =
    (lt : List (CandidateQuery Int) → ℕ → ℕ → Option Bool) (qs : List (CandidateQuery Int))
    (P : CandidateQuery Int → Type 0)
    → Any P (market.sort_slice lt qs)
    → Any P qs

module _ {W Int Node Params Stats : Type 0} (market : Market W Int Node Params)
    (retrieve : String → DealProposal Params → Action W Stats) (selector : Option Node) where
  -- The stats come from a retrieval from the candidate, of its root, on the terms of its response.
  abbrev pub Buys : Stats → CandidateQuery Int → Type 0
  Buys stats q =
      (params : Params) × (id : ℕ) × (u : W) × (market.new_params_v1 q.response.min_price_per_byte
          q.response.max_payment_interval q.response.max_payment_interval_increase
          (or_all market selector) none q.response.unseal_price
        ≡ ok params)
      × ((retrieve q.candidate.miner
            (record { payload_cid = q.candidate.root_cid; id = id; params = params }) u).0
          ≡ ok stats)

  -- It is the response that the candidate gave.
  abbrev pub BuysFrom : Stats → Candidate × Result (QueryResponse Int) → Type 0
  BuysFrom stats (c, ok resp) = Buys stats (record { candidate = c; response = resp })
  BuysFrom stats (c, err e) = ⊥

  with_params-Buys :
      (q : CandidateQuery Int) (made : Result Params) (w : W)
      → market.new_params_v1 q.response.min_price_per_byte q.response.max_payment_interval
          q.response.max_payment_interval_increase
          (or_all market selector)
          none
          q.response.unseal_price
        ≡ made
      → let (proposal, w') = proposal_with market q.candidate.root_cid made w in
        Succeeds (λ stats. Buys stats q) (after proposal w' (retrieve q.candidate.miner)).0
  unfolding proposal_with
  with_params-Buys q (ok params) w e =
      Succeeds-of (λ stats. Buys stats q) _ (λ stats h. (params, _, _, e, h))
  with_params-Buys q (err e') w e = tt

  attempt_query-Buys :
      (q : CandidateQuery Int) (w : W)
      → Succeeds (λ stats. Buys stats q) (attempt_query market retrieve selector q w).0
  unfolding attempt_query retrieval_proposal_for_ask
  attempt_query-Buys q w = with_params-Buys q _ w refl

  or_next-Buys :
      (q : CandidateQuery Int) (qs : List (CandidateQuery Int)) (r : Result Stats)
      (next : Action W Stats) (w : W)
      → Succeeds (λ stats. Buys stats q) r
      → Succeeds (λ stats. Any (Buys stats) qs) (next w).0
      → Succeeds (λ stats. Any (Buys stats) (q ∷ qs)) (or_next market retrieve selector r next w).0
  unfolding or_next
  or_next-Buys q qs (ok stats) next w h k = inl h
  or_next-Buys q qs (err e) next w h k =
      Succeeds-mono (λ stats. Any (Buys stats) qs) (λ stats. Any (Buys stats) (q ∷ qs)) (next w).0
        (λ stats b. inr b) k

  attempt_queries-Buys :
      (qs : List (CandidateQuery Int)) (w : W)
      → Succeeds (λ stats. Any (Buys stats) qs) (attempt_queries market retrieve selector qs w).0
  unfolding attempt_queries
  attempt_queries-Buys [] w = tt
  attempt_queries-Buys (q ∷ qs) w =
      or_next-Buys q qs _ _ _ (attempt_query-Buys q w) (attempt_queries-Buys qs _)

  collect_queries-BuysFrom :
      (replies : List (Candidate × Result (QueryResponse Int))) (stats : Stats)
      → Any (Buys stats) (collect_queries replies)
      → Any (BuysFrom stats) replies
  unfolding collect_queries
  collect_queries-BuysFrom [] stats h = absurd h
  collect_queries-BuysFrom ((c, ok resp) ∷ rest) stats (inl h) = inl h
  collect_queries-BuysFrom ((c, ok resp) ∷ rest) stats (inr h) =
      inr (collect_queries-BuysFrom rest stats h)
  collect_queries-BuysFrom ((c, err e) ∷ rest) stats h = inr (collect_queries-BuysFrom rest stats h)

  module _ (big : Big Int) (sorts : Sorts market) where
    with_queries-Buys :
        (no_sort : Bool) (qs : List (CandidateQuery Int)) (w : W)
        → Succeeds
            (λ stats. Any (Buys stats) qs)
            (with_queries market retrieve selector big no_sort qs w).0
    unfolding with_queries
    with_queries-Buys no_sort [] w = tt
    with_queries-Buys true (q ∷ qs) w = attempt_queries-Buys (q ∷ qs) w
    with_queries-Buys false (q ∷ qs) w =
        Succeeds-mono _ (λ stats. Any (Buys stats) (q ∷ qs)) _
          (λ stats b. sorts (less big) (q ∷ qs) (Buys stats) b)
          (attempt_queries-Buys (market.sort_slice (less big) (q ∷ qs)) w)

    retrieve_fil-BuysFrom :
        (candidates : List Candidate) (no_sort : Bool)
        (answers : W → List (Candidate × Result (QueryResponse Int)) × W) (w : W)
        → Succeeds
            (λ stats. Any (BuysFrom stats) (answers w).0)
            (retrieve_fil market retrieve selector big candidates no_sort answers w).0
    unfolding retrieve_fil
    retrieve_fil-BuysFrom [] no_sort answers w = tt
    retrieve_fil-BuysFrom (c ∷ cs) no_sort answers w =
        Succeeds-mono _ (λ stats. Any (BuysFrom stats) (answers w).0) _
          (λ stats b. collect_queries-BuysFrom (answers w).0 stats b)
          (with_queries-Buys no_sort _ (answers w).1)

module _ {W Int Node Params Callback Stats : Type 0} (net : Network W) (streams : Streams W)
    (codec : Codec W String (QueryResponse Int)) (market : Market W Int Node Params) (big : Big Int)
    (progress : Callback)
    (from_peer : String → String → DealProposal Params → Callback → Action W Stats)
    (selector : Option Node) where
  -- The stats come from a retrieval from the candidate on the terms that it answered to a query.
  abbrev pub Accepts : Stats → Candidate → Type 0
  Accepts stats c =
      (resp : QueryResponse Int) × (u : W) × ((retrieval_query net streams codec c.miner c.root_cid
          u).0.0
        ≡ ok resp)
      × Buys market (retrieve_content_from net streams codec market big progress from_peer) selector
          stats (record { candidate = c; response = resp })

  BuysFrom-Accepts :
      (stats : Stats) (c : Candidate) (r : Result (QueryResponse Int)) (u : W)
      → (retrieval_query net streams codec c.miner c.root_cid u).0.0 ≡ r
      → BuysFrom market
          (retrieve_content_from net streams codec market big progress from_peer)
          selector
          stats
          (c, r)
      → Accepts stats c
  BuysFrom-Accepts stats c (ok resp) u q b = (resp, u, q, b)
  BuysFrom-Accepts stats c (err e) u q b = absurd b

  run_queries-Accepts :
      (cs : List Candidate) (w : W) (stats : Stats)
      → Any
          (BuysFrom market
            (retrieve_content_from net streams codec market big progress from_peer)
            selector
            stats)
          (run_queries net streams codec cs w).0
      → Any (Accepts stats) cs
  unfolding run_queries
  run_queries-Accepts [] w stats h = absurd h
  run_queries-Accepts (c ∷ cs) w stats (inl b) = inl (BuysFrom-Accepts stats c _ w refl b)
  run_queries-Accepts (c ∷ cs) w stats (inr h) = inr (run_queries-Accepts cs _ stats h)

-- If `sort.Slice` keeps what a list has, and each goroutine that finishes is that of a candidate: stats
-- that a retrieval over Filecoin returns come from a retrieval of the root that a candidate names, from
-- its miner, on the terms that this miner has answered to the query for this root.
pub retrieve_from_candidates-Accepts :
    {W Int Node Params Callback Stats : Type 0} (net : Network W) (streams : Streams W)
    (codec : Codec W String (QueryResponse Int)) (market : Market W Int Node Params) (big : Big Int)
    (progress : Callback)
    (from_peer : String → String → DealProposal Params → Callback → Action W Stats)
    (selector : Option Node) (finishing : List Candidate → List Candidate)
    (candidates : List Candidate) (no_sort : Bool) (w : W)
    → Sorts market
    → ((P : Candidate → Type 0) → Any P (finishing candidates) → Any P candidates)
    → Succeeds
        (λ stats.
          Any (Accepts net streams codec market big progress from_peer selector stats) candidates)
        (retrieve_from_candidates net streams codec market big progress from_peer finishing
          candidates selector no_sort w).0
unfolding retrieve_from_candidates
retrieve_from_candidates-Accepts net streams codec market big progress from_peer selector finishing
      candidates no_sort w sorts finish =
    Succeeds-mono _
      (λ stats.
        Any (Accepts net streams codec market big progress from_peer selector stats) candidates)
      _
      (λ stats b. finish _ (
        run_queries-Accepts net streams codec market big progress from_peer selector
          (finishing candidates) w stats b))
      (retrieve_fil-BuysFrom market _ selector big sorts candidates no_sort
        (run_queries net streams codec (finishing candidates)) w)
