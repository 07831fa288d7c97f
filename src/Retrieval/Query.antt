-- ===== src/Retrieval/Query.antt =====
-- filclient.go: `RetrievalQuery` and `RetrievalQueryToPeer`, with the events they publish, and the
-- calls around a retrieval.
pub mod Verdict
pub mod Tests
use filclient.Base.{String, str_append, List, [], ◌∷◌}
use filclient.Errors.{GoError, wrap, error_text, Result, ok, err}
use filclient.Errors.Action.{Action, ◌>>=◌}
use filclient.Rep.Event.{
  RetrievalEvent, connect, query_ask, failure, QueryResponse, Origin, query_phase,
}
use filclient.Connection.{
  Network, AddrInfo, stream_to_miner, open_stream_to_peer, miner_peer, miner_owner,
}
use filclient.Deal.Sending.{Streams, Codec, protected_rpc}

abbrev pub retrieval_query_protocol : String
retrieval_query_protocol = "/fil/retrieval/qry/1.0.0"

-- The result of a query with the events that it has published, in order.
abbrev pub Published : Type 0 → Type 0
Published Int = Result (QueryResponse Int) × List (RetrievalEvent Int)

module _ {W Int : Type 0} (net : Network W) (streams : Streams W)
    (codec : Codec W String (QueryResponse Int)) where
  abbrev pub query_origin : String → String → String → Origin
  query_origin pcid peer_id maddr = record {
    phase = query_phase;
    payload_cid = pcid;
    storage_provider_id = peer_id;
    storage_provider_addr = maddr;
  }

  -- From the answer of the RPC on.
  answered : Origin → Result (QueryResponse Int) → Published Int
  answered o (ok resp) = (ok resp, connect o ∷ query_ask o resp ∷ [])
  answered o (err e) = (
    err (wrap "retrieval query rpc" e),
    connect o ∷ failure o (str_append "failed retrieval query ask: " (error_text e)) ∷ [],
  )

  -- From the opened stream on. The query is the payload's cid.
  with_stream : String → Origin → Result String → W → Published Int × W
  unfolding answered protected_rpc
  with_stream tag o (ok s) w =
      let (resp, w') = protected_rpc streams codec tag s o.payload_cid w in (answered o resp, w')
  with_stream tag o (err e) w =
      ((err e, failure o (str_append "failed connecting to miner: " (error_text e)) ∷ []), w)

  unfoldable pub retrieval_query : String → String → W → Published Int × W
  unfolding with_stream stream_to_miner
  retrieval_query maddr pcid w =
      let (s, w') = stream_to_miner net maddr (retrieval_query_protocol ∷ []) w in
      with_stream "RetrievalQuery" (query_origin pcid "" maddr) s w'

  -- The address is undefined.
  unfoldable pub retrieval_query_to_peer : AddrInfo → String → W → Published Int × W
  unfolding with_stream open_stream_to_peer
  retrieval_query_to_peer miner_peer pcid w =
      let (s, w') = open_stream_to_peer net miner_peer retrieval_query_protocol w in
      with_stream "RetrievalQueryToPeer" (query_origin pcid miner_peer.id "") s w'

-- `from_peer` is `retrieveContentFromPeerWithProgressCallback` without graceful shutdown, and `quiet`
-- the progress callback that is nil.
module _ {W Proposal Callback Stats : Type 0} (net : Network W) (quiet : Callback)
    (from_peer : String → String → Proposal → Callback → Action W Stats) where
  unfoldable pub retrieve_content_from_peer_with_progress_callback :
      String → String → Proposal → Callback → Action W Stats
  retrieve_content_from_peer_with_progress_callback peer_id miner_wallet proposal progress =
      from_peer peer_id miner_wallet proposal progress

  unfoldable pub retrieve_content_with_progress_callback :
      String → Proposal → Callback → Action W Stats
  unfolding miner_peer miner_owner retrieve_content_from_peer_with_progress_callback
  retrieve_content_with_progress_callback miner proposal progress = do
    peer ← miner_peer net miner
    owner ← miner_owner net miner
    retrieve_content_from_peer_with_progress_callback peer.id owner proposal progress

  unfoldable pub retrieve_content : String → Proposal → Action W Stats
  unfolding retrieve_content_with_progress_callback
  retrieve_content miner proposal = retrieve_content_with_progress_callback miner proposal quiet
