-- ===== src/Filc/Commands/Tests.antt =====
-- A connection that breaks, a transfer and an unverified client, and the theorems of Filc at them.
use filclient.Base.{ℕ, zero, suc, true, false, ◌≡◌, refl, none, some, [], arith}
use filclient.Base.Big.{nat_big}
use filclient.Errors.{message, ok, err}
use filclient.ChannelId.{ChannelId}
use filclient.Transfer.{DtStatus, dt_requested, dt_ongoing, dt_completed}
use filclient.Reports.{DtChannel, DtManager, transfer_status, channel_state_conv}
use filclient.Balance.{ChainApi, balance_of}
use filclient.Filc.Candidates.{}
use filclient.Filc.Tests.{parsers}
use filclient.Filc.Watcher.{
  ConnWatcher, new_conn_watcher, on_disconnected, on_wake, Reach, begin, disconnect, wake,
}
use filclient.Filc.Watcher.Attended.{Attended, Reach-Attended}
use filclient.Filc.Deals.{poll}
use filclient.Filc.Deals.Polling.{poll-ends}
use filclient.Filc.Commands.{Cli, info_cmd}
use filclient.Filc.Commands.Info.{info_cmd-unverified}

-- The connection breaks, breaks again, and the goroutine wakes up.
abbrev broken : ConnWatcher
broken = record { pid = "peer"; disconnected = true; sleeping = 1; reconnecting = 0 }

broken_reached : Reach "peer" broken 1 0
unfolding on_disconnected new_conn_watcher
broken_reached = disconnect "peer" (new_conn_watcher "peer") 0 0 begin

still_broken_reached : Reach "peer" broken 1 0
unfolding on_disconnected
still_broken_reached = disconnect "peer" broken 1 0 broken_reached

awake_reached :
    Reach "peer" (record { pid = "peer"; disconnected = false; sleeping = 0; reconnecting = 1 }) 1 0
unfolding on_wake
awake_reached = wake 0 broken 1 0 still_broken_reached refl

Reach-Attended_example :
    Attended (record { pid = "peer"; disconnected = false; sleeping = 0; reconnecting = 1 }) 1 0
Reach-Attended_example =
    Reach-Attended "peer"
      (record { pid = "peer"; disconnected = false; sleeping = 0; reconnecting = 1 }) 1 0
      awake_reached

abbrev pub chanid : ChannelId
chanid = record { initiator = "c"; responder = "m"; id = 3 }

abbrev pub channel : DtStatus → DtChannel
channel status = record {
  self_peer = "c";
  other_peer = "m";
  status = status;
  sent = 10;
  received = 0;
  message = "";
  base_cid = "root";
  channel_id = chanid;
  stages = none;
  is_pull = false;
}

-- The world counts the polls: the third one sees the transfer completed.
abbrev pub status_at : ℕ → DtStatus
status_at zero = dt_requested
status_at (suc zero) = dt_ongoing
status_at _ = dt_completed

abbrev manager : DtManager ℕ
manager = record {
  status_name = λ s. "status";
  channel_text = λ c. "c-m-3";
  in_progress_channels = λ w. (ok [], w);
  channel_state = λ c w. (ok (channel (status_at w)), suc w);
  restart_channel = λ c w. (ok tt, w);
  open_push_channel = λ peer prop content w. (ok chanid, w);
  protect = λ peer tag w. w;
}

poll-ends_sample :
    ((poll manager chanid "t01" "prop" 2 dt_requested 0).0.0 ≡ none)
    × ((poll manager chanid "t01" "prop" 10 dt_requested 0).0.0 ≡ some (ok tt))
unfolding transfer_status channel_state_conv
poll-ends_sample =
    poll-ends manager chanid "t01" "prop" 2 10 dt_requested 0 (ok tt) (omega arith)
      (refl, (refl, tt)) refl

abbrev cli : Cli (Unit {0})
cli = record {
  first_arg = none;
  flag = λ n. "";
  bool_flag = λ n. false;
  decode_cid = λ s. ok s;
  set_up = λ d w. (ok tt, w);
  client = λ w. (ok tt, w);
  remove_all = λ p w. (ok tt, w);
  find_providers = λ c w. (ok [], w);
  default_address = λ w. (ok "t01", w);
}

abbrev chain : ChainApi (Unit {0}) ℕ ℕ
chain = record {
  state_get_actor = λ a w. (ok (record { balance = 10; nonce = 3 }), w);
  state_market_balance = λ a w. (ok (record { escrow = 5; locked = 2 }), w);
  state_verified_client_status = λ a w. (ok none, w);
  state_market_storage_deal = λ n w. (err (message "lost"), w);
}

info_cmd-unverified_sample :
    (info_cmd cli parsers nat_big chain (λ w. (ok tt, w)) ".filc" tt ≡ none)
    × (balance_of nat_big chain "t01" tt ≡ (
      ok (record {
        account = "t01";
        balance = 10;
        market_escrow = 5;
        market_locked = 2;
        market_available = 3;
        verified_client_balance = none;
      }),
      tt,
    ))
info_cmd-unverified_sample =
    info_cmd-unverified cli parsers nat_big chain (λ w. (ok tt, w)) ".filc" "t01"
      (record { balance = 10; nonce = 3 }) (record { escrow = 5; locked = 2 }) tt tt tt refl refl
      refl refl refl refl
