-- ===== src/Filc/Deals/Making/Tests.antt =====
-- A deal of each protocol, at concrete answers.
use filclient.Base.{
  ℕ, ◌≡◌, refl, String, true, false, none, some, List, [], ◌∷◌, length, map, arith,
}
use filclient.Errors.{message, ok, err}
use filclient.Connection.{Network}
use filclient.Strconv.{parse_uint}
use filclient.Transfer.{TransferStatus, ongoing, completed, dt_requested}
use filclient.Transfer.Tests.{Store, sample, sample_outside}
use filclient.Deal.Sending.{Streams, ProviderResponse, waiting_for_data, send_proposal_v110}
use filclient.Deal.Tests.{sample_proposal, sample_config}
use filclient.Reports.{DtManager, start_data_transfer, transfer_status, channel_state_conv}
use filclient.Filc.Commands.Tests.{chanid, channel, status_at}
use filclient.Filc.Deals.Making.{DealCalls, notified, await_pull, make_v110_deal}
use filclient.Filc.Deals.Making.Polled.{make_v110_deal-ends}
use filclient.Filc.Deals.Making.Pulled.{ServerEvent, told_of, completed_in, await_pull-told_of}

-- Another deal's transfer is completed, this one's goes on, has failed and is then completed.
abbrev server_events : List ServerEvent
server_events =
    ("8", sample "other" completed)
    ∷ ("7", sample "own" ongoing)
    ∷ ("7", sample "own" TransferStatus.failed)
    ∷ ("7", sample "own" completed)
    ∷ []

server_events_end : completed_in sample_outside 7 server_events ≡ some (ok tt)
unfolding parse_uint
server_events_end = refl

await_pull-told_of_example :
    await_pull 7 dt_requested (map notified (told_of sample_outside server_events []))
    ≡ completed_in sample_outside 7 server_events
await_pull-told_of_example = await_pull-told_of sample_outside 7 dt_requested server_events []

abbrev network : Network Store
network = record {
  state_miner_info =
      λ maddr w. (ok (record { peer_id = some "p"; multiaddrs = "a" ∷ []; owner = "o" }), w);
  new_multiaddr_bytes = λ s. ok s;
  connect = λ info w. (ok tt, w);
  new_stream = λ p protos w. (ok "s", w);
  first_supported_protocol = λ p protos w. (ok "", w);
  peerstore_get = λ p w. (err (message "none"), w);
}

abbrev streams : Streams Store
streams = record {
  remote_peer = λ s. "p";
  protect = λ p tag w. w;
  unprotect = λ p tag w. w;
  close = λ s w. w;
  set_deadline = λ s w. w;
  reset_deadline = λ s w. w;
  has_deadline = true;
}

-- The number of entries of the world counts the polls: the third one sees the transfer completed.
abbrev manager : DtManager Store
manager = record {
  status_name = λ s. "status";
  channel_text = λ c. "c-m-3";
  in_progress_channels = λ w. (ok [], w);
  channel_state = λ c w. (ok (channel (status_at (length w))), ("poll", "") ∷ w);
  restart_channel = λ c w. (ok tt, w);
  open_push_channel = λ peer prop content w. (ok chanid, w);
  protect = λ peer tag w. w;
}

abbrev accepting : ProviderResponse
accepting = record { state = waiting_for_data; message = ""; proposal = "proposal" }

abbrev calls : DealCalls Store ℕ String String
calls = record {
  codec_v110 = record { write = λ s req w. (ok tt, w); read = λ s w. (ok accepting, w) };
  codec_v120 = record {
    write = λ s req w. (ok tt, w);
    read = λ s w. (ok (record { accepted = true; message = "" }), w);
  };
  status_number = λ s. "";
  zero_status = dt_requested;
  default_v120 = λ w. (sample_config, w);
  marshal_request = λ a b. ok a;
  host_id = "me";
  new_multiaddr = λ s. ok s;
  random_dbid = λ w. (7, w);
  new_uuid = λ w. ("uuid", w);
  generate_auth_token = λ w. (ok "token", w);
  listener = λ n. "listener";
}

make_v110_deal-ends_example :
    ((make_v110_deal streams network manager sample_outside calls 2 "t01" sample_proposal "proposal"
        "root" []).0
      ≡ none)
    × ((make_v110_deal streams network manager sample_outside calls 9 "t01" sample_proposal
          "proposal" "root" []).0
        ≡ some (ok tt))
unfolding send_proposal_v110 start_data_transfer transfer_status channel_state_conv
make_v110_deal-ends_example =
    make_v110_deal-ends streams network manager sample_outside calls "t01" sample_proposal
      "proposal" "root" [] [] [] false chanid 2 9 (ok tt) refl refl (omega arith) (refl, (refl, tt))
      refl
