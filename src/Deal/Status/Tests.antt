-- ===== src/Deal/Status/Tests.antt =====
-- A provider that only speaks the older protocol is asked about a deal with a UUID.
use filclient.Base.{String, ◌≡◌, refl, subst, true, false, inl, inr, none, some, [], ◌∷◌, Any, List}
use filclient.Errors.{message, Result, ok, err}
use filclient.Errors.Action.{Succeeds}
use filclient.Connection.{Network}
use filclient.Deal.Sending.{Streams, staged}
use filclient.Deal.Status.{ProviderDealState, StatusCalls, deal_status}
use filclient.Deal.Status.Total.{deal_status-total}

-- The stream is named by the last protocol that was offered.
abbrev last_of : List String → String
last_of [] = ""
last_of (p ∷ []) = p
last_of (p ∷ q ∷ ps) = last_of (q ∷ ps)

last_of-Any : (p : String) (ps : List String) → Any (λ q. last_of (p ∷ ps) ≡ q) (p ∷ ps)
last_of-Any p [] = inl refl
last_of-Any p (q ∷ ps) = inr (last_of-Any q ps)

abbrev stream_of : List String → Result String
stream_of [] = err (message "no protocol")
stream_of (p ∷ ps) = ok (last_of (p ∷ ps))

abbrev last_network : Network (Unit {0})
last_network = record {
  state_miner_info =
      λ maddr w. (ok (record { peer_id = some "p"; multiaddrs = "a" ∷ []; owner = "o" }), w);
  new_multiaddr_bytes = λ s. ok s;
  connect = λ info w. (ok tt, w);
  new_stream = λ p protos w. (stream_of protos, w);
  first_supported_protocol = λ p protos w. (ok "", w);
  peerstore_get = λ p w. (err (message "none"), w);
}

abbrev quiet_streams : Streams (Unit {0})
quiet_streams = record {
  remote_peer = λ s. "p";
  protect = λ p tag w. w;
  unprotect = λ p tag w. w;
  close = λ s w. w;
  set_deadline = λ s w. w;
  reset_deadline = λ s w. w;
  has_deadline = false;
}

abbrev staged_state : ProviderDealState String
staged_state = record {
  state = staged;
  message = "";
  proposal = "deal";
  proposal_cid = "cid";
  add_funds_cid = none;
  publish_cid = none;
  deal_id = "1";
  fast_retrieval = true;
}

abbrev sample_calls : StatusCalls (Unit {0}) String
sample_calls = record {
  checkpoint_name = λ c. "checkpoint";
  protocol_of = λ s. s;
  dump_cid = λ c. ok c;
  uuid_bytes = λ u. ok u;
  wallet_sign = λ raw w. (ok raw, w);
  codec_v110 = record { write = λ s req w. (ok tt, w); read = λ s w. (ok staged_state, w) };
  codec_v120 = record {
    write = λ s req w. (ok tt, w);
    read = λ s w. (ok (record { error = "unknown deal"; deal_status = none }), w);
  };
}

older_protocol_answers :
    deal_status quiet_streams sample_calls last_network "f01" "cid" (some "uuid") tt
    ≡ some (ok staged_state, tt)
unfolding deal_status
older_protocol_answers = refl

negotiates :
    (offered : List String) (s : String) → stream_of offered ≡ ok s → Any (λ p. s ≡ p) offered
negotiates [] s h = absurd (cc)
negotiates (p ∷ ps) s h = subst (Succeeds (λ t. Any (λ q. t ≡ q) (p ∷ ps))) h (last_of-Any p ps)

deal_status-total_example :
    (answer : Result (ProviderDealState String) × Unit {0}) × (deal_status quiet_streams
        sample_calls last_network "f01" "cid"
        (some "uuid")
        tt
      ≡ some answer)
deal_status-total_example =
    deal_status-total quiet_streams sample_calls last_network "f01" "cid" (some "uuid") tt
      (λ peer offered w s h. negotiates offered s h)
