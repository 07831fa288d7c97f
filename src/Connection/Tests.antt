-- ===== src/Connection/Tests.antt =====
-- Runs of the connection code at concrete inputs.
use filclient.Base.{ℕ, zero, suc, ◌≡◌, refl, some, [], ◌∷◌}
use filclient.Errors.{message, ok, err, new_err_miner_connection_failed}
use filclient.Connection.{Network, connect_to_miner}
use filclient.Connection.Codes.{IsCoded, connect_to_miner_code}

-- A world that counts the calls of `Connect`, of which the second is refused.
abbrev flaky : Network ℕ
flaky = record {
  state_miner_info =
      λ maddr w. (ok (record { peer_id = some "p"; multiaddrs = "a" ∷ []; owner = "o" }), w);
  new_multiaddr_bytes = λ s. ok s;
  connect = λ info w. elim w [ zero ↦ (ok tt, 1) | suc n ↦ (err (message "refused"), suc n) ];
  new_stream = λ p protos w. (ok "s", w);
  first_supported_protocol = λ p protos w. (ok "", w);
  peerstore_get = λ p w. (err (message "none"), w);
}

second_connect_fails :
    (connect_to_miner flaky "f01" 0).0 ≡ err (new_err_miner_connection_failed (message "refused"))
unfolding connect_to_miner
second_connect_fails = refl

connect_to_miner_code_example :
    IsCoded
      (ok (record { peer_id = some "p"; multiaddrs = "a" ∷ []; owner = "o" }))
      (new_err_miner_connection_failed (message "refused"))
connect_to_miner_code_example =
    connect_to_miner_code flaky "f01" 0 (new_err_miner_connection_failed (message "refused"))
      second_connect_fails
