-- ===== src/Reports/Tests.antt =====
-- Two channels, an active and two stored libp2p transfers, and the theorems of Reports at them.
use filclient.Base.{ℕ, String, false, ◌≡◌, refl, List, [], ◌∷◌, none, some, arith}
use filclient.Errors.{ok}
use filclient.Strconv.{format_uint}
use filclient.ChannelId.{ChannelId, channel_text}
use filclient.Transfer.{dt_ongoing, completed, to_dt_state}
use filclient.Transfer.Lookup.{remove_leading_slash, by_id}
use filclient.Transfer.Tests.{Store, sample, sample_outside, two_entries}
use filclient.Reports.{DtChannel, DtManager, transfer_status, transfer_status_by_id}
use filclient.Reports.Progress.{
  transfers_in_progress, transfers_in_progress-lookup, transfer_status_by_id-routes, Gives,
}
use filclient.Reports.Diagnostics.{ChannelRequests, PeerState, generate_transfers}
use filclient.Reports.Diagnostics.Coverage.{count, generate_transfers-count}
use filclient.Reports.Diagnostics.Aliasing.{labels, labelled, generate_transfers-labels}

abbrev push_id : ChannelId
push_id = record { initiator = "c"; responder = "m"; id = 3 }

abbrev pull_id : ChannelId
pull_id = record { initiator = "client"; responder = "other"; id = 4 }

abbrev push : DtChannel
push = record {
  self_peer = "client";
  other_peer = "miner";
  status = dt_ongoing;
  sent = 10;
  received = 0;
  message = "";
  base_cid = "root";
  channel_id = push_id;
  stages = none;
  is_pull = false;
}

abbrev manager : DtManager Store
manager = record {
  status_name = λ s. "Ongoing";
  channel_text = λ c. channel_text c.initiator c.responder c.id;
  in_progress_channels = λ w. (ok ((push_id, push) ∷ []), w);
  channel_state = λ c w. (ok push, w);
  restart_channel = λ c w. (ok tt, w);
  open_push_channel = λ peer prop content w. (ok push_id, w);
  protect = λ peer tag w. w;
}

abbrev channels : List (ChannelId × ChannelRequests)
channels =
    (push_id, record { current = "r1"; previous = "r0" ∷ [] })
    ∷ (pull_id, record { current = "r2"; previous = [] })
    ∷ []

abbrev peer_state : PeerState
peer_state = record {
  diagnostics = ("r9", "lost" ∷ []) ∷ [];
  request_states = ("r1", "active") ∷ ("r2", "active") ∷ ("r8", "queued") ∷ [];
}

generate_transfers-count_example :
    count "r9" (generate_transfers manager channels peer_state []).0 ≡ 1
generate_transfers-count_example = generate_transfers-count manager peer_state "r9" channels []

-- Both requests of the first channel are said to belong to the second one.
generate_transfers-labels_example :
    (others : List String) × (labels (generate_transfers manager channels peer_state []).0
      ≡ ("r1", some pull_id) ∷ ("r0", some pull_id) ∷ ("r2", some pull_id) ∷ labelled none others)
generate_transfers-labels_example =
    generate_transfers-labels manager peer_state push_id
      (record { current = "r1"; previous = "r0" ∷ [] })
      ((pull_id, record { current = "r2"; previous = [] }) ∷ []) []

transfers_in_progress-lookup_example :
    Gives
      (transfers_in_progress manager sample_outside two_entries).0
      "8"
      (some (to_dt_state sample_outside (sample "wanted" completed)))
unfolding remove_leading_slash
transfers_in_progress-lookup_example =
    transfers_in_progress-lookup manager sample_outside ((push_id, push) ∷ []) (tt ∷ []) two_entries
      (("7", sample "first" completed) ∷ ("8", sample "wanted" completed) ∷ []) two_entries
      two_entries two_entries two_entries "8" refl refl refl (refl, (refl, (refl, (refl, tt))))

transfer_status_by_id-routes_sample :
    (transfer_status_by_id manager sample_outside "c-m-3" []
      ≡ some (transfer_status manager push_id []))
    × ((n : ℕ)
        → transfer_status_by_id manager sample_outside (format_uint n) []
          ≡ by_id sample_outside (format_uint n) [])
unfolding format_uint
transfer_status_by_id-routes_sample =
    transfer_status_by_id-routes manager sample_outside "c" "m" push_id []
      ((λ e. omega (arith, e)), tt) ((λ e. omega (arith, e)), tt) refl refl (omega arith)
