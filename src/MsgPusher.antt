-- ===== src/MsgPusher.antt =====
-- msgpusher.go: the message pusher, which keeps the next nonce of each account key.
pub mod Nonces
pub mod Pushed
mod Tests
use filclient.Base.{ℕ, ◌+◌, ◌%◌, ◌^◌, String, Option, none, some, Dict, update, u64}
use filclient.Base.Big.{Big}
use filclient.Errors.{GoError, message, wrap, Result, ok, err}

-- The fields of `types.Message` that the program writes or reads, and those that it passes on.
pub record Message (Int : Type 0) : Type 0 where
  pub sender : String
  pub to : String
  pub value : Int
  pub method : ℕ
  pub params : String
  pub nonce : ℕ
  pub gas_limit : ℕ
  pub gas_fee_cap : Int
  pub gas_premium : Int

pub record SignedMessage (Int : Type 0) : Type 0 where
  pub message : Message Int
  pub signature : String

-- The answers of the gateway and the wallet during one call; each is asked at most once.
pub record Replies (Int : Type 0) : Type 0 where
  pub state_account_key : String → Result String
  pub actor_nonce : String → Result ℕ
  pub gas_estimate : Message Int → Result (Message Int)
  pub cid_bytes : Message Int → String
  pub wallet_sign : String → String → Result String
  pub mpool_push : SignedMessage Int → Result (Unit {0})

-- `nonces map[address.Address]uint64`.
pub record MsgPusher : Type 0 where
  pub nonces : Dict ℕ

unfoldable pub new_msg_pusher : MsgPusher
new_msg_pusher = record { nonces = λ a. none }

-- A missing key reads as 0.
abbrev or_zero : Option ℕ → ℕ
or_zero none = 0
or_zero (some n) = n

-- `mp.nonces[kaddr] = n`.
abbrev set_nonce : MsgPusher → String → ℕ → MsgPusher
set_nonce mp kaddr n = record mp { nonces = update mp.nonces kaddr n }

module _ {Int : Type 0} (big : Big Int) (r : Replies Int) (mp : MsgPusher) where
  -- After `MpoolPush`: `mp.nonces[kaddr]++`.
  pushed : String → SignedMessage Int → Result (Unit {0}) → Result (SignedMessage Int) × MsgPusher
  pushed kaddr smsg (ok _) = (ok smsg, set_nonce mp kaddr (u64 (or_zero (mp.nonces kaddr) + 1)))
  pushed kaddr smsg (err e) = (err e, mp)

  signed : String → Message Int → Result String → Result (SignedMessage Int) × MsgPusher
  unfolding pushed
  signed kaddr estim (ok sig) =
      let smsg : SignedMessage Int = record { message = estim; signature = sig } in
      pushed kaddr smsg (r.mpool_push smsg)
  signed kaddr estim (err e) = (err e, mp)

  abbrev price : Message Int → Message Int
  price estim = record estim {
    gas_fee_cap = big.new 4000000000;
    gas_premium = big.mul estim.gas_premium (big.new 2);
  }

  estimated : String → Result (Message Int) → Result (SignedMessage Int) × MsgPusher
  unfolding signed
  estimated kaddr (ok estim) =
      signed kaddr (price estim) (r.wallet_sign kaddr (r.cid_bytes (price estim)))
  estimated kaddr (err e) = (err (wrap "failed to estimate gas" e), mp)

  -- From `msg.Nonce = n` on.
  send : String → Message Int → ℕ → Result (SignedMessage Int) × MsgPusher
  unfolding estimated
  send kaddr msg n = estimated kaddr (r.gas_estimate (record msg { nonce = n }))

module _ {Int : Type 0} (big : Big Int) (r : Replies Int) (mp : MsgPusher) (msg : Message Int) where
  -- The nonce is not tracked yet: it is the actor's on chain, and is tracked from here on.
  first_use : String → Result ℕ → Result (SignedMessage Int) × MsgPusher
  unfolding send
  first_use kaddr (ok n) = send big r (set_nonce mp kaddr n) kaddr msg n
  first_use kaddr (err e) = (err e, mp)

  tracked : String → Option ℕ → Result (SignedMessage Int) × MsgPusher
  unfolding send first_use
  tracked kaddr (some n) = send big r mp kaddr msg n
  tracked kaddr none = first_use kaddr (r.actor_nonce kaddr)

  keyed : Result String → Result (SignedMessage Int) × MsgPusher
  unfolding tracked
  keyed (ok kaddr) = tracked kaddr (mp.nonces kaddr)
  keyed (err e) = (err e, mp)

  pub mpool_push_message : Result (SignedMessage Int) × MsgPusher
  unfolding keyed
  mpool_push_message = keyed (r.state_account_key msg.sender)
