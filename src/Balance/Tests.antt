-- ===== src/Balance/Tests.antt =====
-- An actor with 10 coins, and the theorems of Balance at it.
use filclient.Base.{ℕ, false, none, ◌≡◌, refl}
use filclient.Base.Big.{nat_big}
use filclient.Errors.{GoError, message, wrap, ok, err}
use filclient.MsgPusher.{Replies, new_msg_pusher}
use filclient.Balance.{Actor, ChainApi, FundsEnv, lock_market_funds, check_chain_deal}
use filclient.Balance.Funds.{Locks, lock_market_funds-Locks}
use filclient.Balance.Found.{check_chain_deal-not_found}
use filclient.Strconv.{format_uint}

abbrev funds_env : FundsEnv ℕ
funds_env = record {
  client_addr = "t01";
  storage_market_actor_addr = "market";
  add_balance_method = 2;
  dump = λ a. ok a;
  fil = λ n. "some";
  unset = 0;
  message_cid = λ m. "cid";
}

abbrev replies : Replies ℕ
replies = record {
  state_account_key = λ a. ok "key";
  actor_nonce = λ a. ok 7;
  gas_estimate = λ m. ok m;
  cid_bytes = λ m. "bytes";
  wallet_sign = λ a s. ok "sig";
  mpool_push = λ m. ok tt;
}

abbrev actor : Actor ℕ
actor = record { balance = 10; nonce = 3 }

lock_market_funds-Locks_example :
    Locks nat_big funds_env replies new_msg_pusher "key" 10 4
      (lock_market_funds nat_big funds_env replies new_msg_pusher (ok actor) 4)
    × ((n : ℕ)
        → lock_market_funds nat_big funds_env replies new_msg_pusher
            (ok (record actor { nonce = n }))
            4
          ≡ lock_market_funds nat_big funds_env replies new_msg_pusher (ok actor) 4)
lock_market_funds-Locks_example =
    lock_market_funds-Locks nat_big funds_env replies new_msg_pusher actor 4 "key" (λ m m' h. cc)
      refl

abbrev lost : GoError
lost = wrap "getting deal" (message "actor: deal 12 not found in state")

abbrev chain : ChainApi (Unit {0}) ℕ ℕ
chain = record {
  state_get_actor = λ a w. (ok actor, w);
  state_market_balance = λ a w. (ok (record { escrow = 5; locked = 2 }), w);
  state_verified_client_status = λ a w. (ok none, w);
  state_market_storage_deal = λ n w. (err lost, w);
}

check_chain_deal-not_found_sample : check_chain_deal nat_big chain 12 tt ≡ (ok (false, none), tt)
unfolding format_uint
check_chain_deal-not_found_sample =
    check_chain_deal-not_found nat_big chain 12 tt tt lost "actor: " " in state" refl refl
