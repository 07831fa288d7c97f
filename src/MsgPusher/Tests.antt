-- ===== src/MsgPusher/Tests.antt =====
-- Runs of the message pusher at concrete inputs.
use filclient.Base.{ℕ, ◌≡◌, refl, List, [], ◌∷◌}
use filclient.Base.Big.{nat_big}
use filclient.Errors.{message, ok, err}
use filclient.MsgPusher.{Message, Replies, new_msg_pusher, mpool_push_message}
use filclient.MsgPusher.Nonces.{
  Use, used, Call, all_used, Consecutive, all_used-Consecutive, mpool_push_message-Use,
}

abbrev transfer : Message ℕ
transfer = record {
  sender = "t01";
  to = "t02";
  value = 5;
  method = 2;
  params = "";
  nonce = 0;
  gas_limit = 0;
  gas_fee_cap = 0;
  gas_premium = 0;
}

-- The gateway knows the actor at nonce 7.
abbrev online : Replies ℕ
online = record {
  state_account_key = λ a. ok "key";
  actor_nonce = λ a. ok 7;
  gas_estimate = λ m. ok (record m { gas_limit = 100; gas_premium = 3 });
  cid_bytes = λ m. "cid";
  wallet_sign = λ a s. ok "sig";
  mpool_push = λ m. ok tt;
}

abbrev refusing : Replies ℕ
refusing = record online { mpool_push = λ m. err (message "full") }

abbrev calls : List (Call ℕ)
calls = (online, transfer) ∷ (refusing, transfer) ∷ (online, transfer) ∷ []

calls_nonces : all_used nat_big "key" new_msg_pusher calls ≡ 7 ∷ 8 ∷ []
unfolding all_used mpool_push_message new_msg_pusher
calls_nonces = refl

all_used-Consecutive_example :
    Consecutive (new_msg_pusher.nonces "key") (all_used nat_big "key" new_msg_pusher calls)
all_used-Consecutive_example =
    all_used-Consecutive nat_big "key" new_msg_pusher calls
      ((λ m m' h. cc), ((λ m m' h. cc), ((λ m m' h. cc), tt)))

mpool_push_message-Use_sample :
    let (res, mp) = mpool_push_message nat_big online new_msg_pusher transfer in
    Use (new_msg_pusher.nonces "key") (used "key" (ok "key") res) (mp.nonces "key")
mpool_push_message-Use_sample =
    mpool_push_message-Use nat_big online (λ m m' h. cc) "key" new_msg_pusher transfer
