-- ===== src/Retrieval/Query/Verdict.antt =====
-- filclient.go: which events a retrieval query publishes.
use filclient.Base.{String, [], ◌∷◌, ◌≡◌, refl, ◌⊎◌, inl, inr}
use filclient.Errors.{Result, ok, err}
use filclient.Rep.Event.{connect, query_ask, failure, QueryResponse, Origin}
use filclient.Connection.{Network, AddrInfo, stream_to_miner, open_stream_to_peer}
use filclient.Deal.Sending.{Streams, Codec}
use filclient.Retrieval.Query.{
  Published, query_origin, answered, with_stream, retrieval_query, retrieval_query_to_peer,
}

-- What is published of a query, for its result.
abbrev pub Tells : {Int : Type 0} → Origin → Published Int → Type 0
Tells o (ok resp, events) = events ≡ connect o ∷ query_ask o resp ∷ []
Tells o (err e, events) =
    (text : String) × ((events ≡ failure o text ∷ []) ⊎ (events ≡ connect o ∷ failure o text ∷ []))

module _ {W Int : Type 0} (net : Network W) (streams : Streams W)
    (codec : Codec W String (QueryResponse Int)) where
  answered-Tells :
      (o : Origin) (resp : Result (QueryResponse Int)) → Tells o (answered net streams codec o resp)
  unfolding answered
  answered-Tells o (ok resp) = refl
  answered-Tells o (err e) = (_, inr refl)

  with_stream-Tells :
      (tag : String) (o : Origin) (s : Result String) (w : W)
      → Tells o (with_stream net streams codec tag o s w).0
  unfolding with_stream
  with_stream-Tells tag o (ok s) w = answered-Tells o _
  with_stream-Tells tag o (err e) w = (_, inl refl)

  -- A retrieval query, of a miner or of a peer, that succeeds publishes that it is connected and then
  -- the answer that it returns; one that fails publishes one failure, and before it at most that it is
  -- connected. All name the payload and the one of the two ids that the call is given.
  pub queries-Tell :
      (maddr pcid : String) (peer : AddrInfo) (w : W)
      → Tells
          (query_origin net streams codec pcid "" maddr)
          (retrieval_query net streams codec maddr pcid w).0
        × Tells
            (query_origin net streams codec pcid peer.id "")
            (retrieval_query_to_peer net streams codec peer pcid w).0
  unfolding retrieval_query retrieval_query_to_peer
  queries-Tell maddr pcid peer w = (
    with_stream-Tells _ _ (stream_to_miner net maddr _ w).0 _,
    with_stream-Tells _ _ (open_stream_to_peer net peer _ w).0 _,
  )
