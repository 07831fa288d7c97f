-- ===== src/Retrieval/Query/Tests.antt =====
-- A peer that answers, and the theorem of Query at it.
use filclient.Base.{ℕ, String, false, some, [], ◌∷◌}
use filclient.Errors.{message, ok, err}
use filclient.Rep.Event.{QueryResponse}
use filclient.Connection.{Network}
use filclient.Deal.Sending.{Streams, Codec}
use filclient.Retrieval.Query.{query_origin, retrieval_query, retrieval_query_to_peer}
use filclient.Retrieval.Query.Verdict.{Tells, queries-Tell}

abbrev pub network : Network (Unit {0})
network = record {
  state_miner_info =
      λ a w. (ok (record { peer_id = some "peer"; multiaddrs = "addr" ∷ []; owner = "owner" }), w);
  new_multiaddr_bytes = λ s. ok s;
  connect = λ a w. (ok tt, w);
  new_stream = λ p ps w. (ok "stream", w);
  first_supported_protocol = λ p ps w. (err (message "none"), w);
  peerstore_get = λ p w. (err (message "none"), w);
}

abbrev pub streams : Streams (Unit {0})
streams = record {
  remote_peer = λ s. "peer";
  protect = λ p t w. w;
  unprotect = λ p t w. w;
  close = λ s w. w;
  set_deadline = λ s w. w;
  reset_deadline = λ s w. w;
  has_deadline = false;
}

abbrev pub answer : QueryResponse ℕ
answer = record {
  status = 0;
  piece_cid_found = 0;
  size = 100;
  payment_address = "t01";
  min_price_per_byte = 2;
  max_payment_interval = 10;
  max_payment_interval_increase = 5;
  message = "";
  unseal_price = 1;
}

abbrev pub codec : Codec (Unit {0}) String (QueryResponse ℕ)
codec = record { write = λ s q w. (ok tt, w); read = λ s w. (ok answer, w) }

queries-Tell_sample :
    Tells
      (query_origin network streams codec "root" "" "t02")
      (retrieval_query network streams codec "t02" "root" tt).0
    × Tells
        (query_origin network streams codec "root" "peer" "")
        (retrieval_query_to_peer network streams codec
          (record { id = "peer"; addrs = [] })
          "root"
          tt).0
queries-Tell_sample =
    queries-Tell network streams codec "t02" "root" (record { id = "peer"; addrs = [] }) tt
