-- ===== src/Balance.antt =====
-- filclient.go: the client's balances and the funds it locks in the market (`Balance`,
-- `LockMarketFunds`), deals on chain (`CheckChainDeal`) and transfers that are started again
-- (`CheckOngoingTransfer`).
pub mod Funds
pub mod Found
mod Tests
use filclient.Base.{
  ℕ, String, str_append, str_eq, Bool, true, false, not, Option, none, some, if◌then◌else◌,
}
use filclient.Base.Big.{Big}
use filclient.Errors.{GoError, message, error_text, Result, ok, err}
use filclient.Errors.Action.{Action, return, ◌>>=◌}
use filclient.Strconv.{format_uint}
use filclient.Strconv.Contains.{contains}
use filclient.Connection.{Network, connect_to_miner}
use filclient.ChannelId.{ChannelId}
use filclient.Transfer.{ChannelState}
use filclient.MsgPusher.{Message, SignedMessage, Replies, MsgPusher, mpool_push_message}

-- `types.Actor` and `api.MarketBalance`, as far as they are read.
pub record Actor (Int : Type 0) : Type 0 where
  pub balance : Int
  pub nonce : ℕ

pub record MarketBalance (Int : Type 0) : Type 0 where
  pub escrow : Int
  pub locked : Int

pub record Balance (Int : Type 0) : Type 0 where
  pub account : String
  pub balance : Int
  pub market_escrow : Int
  pub market_locked : Int
  pub market_available : Int
  pub verified_client_balance : Option Int

-- The gateway's queries.
pub record ChainApi (W Int Deal : Type 0) : Type 0 where
  pub state_get_actor : String → Action W (Actor Int)
  pub state_market_balance : String → Action W (MarketBalance Int)
  pub state_verified_client_status : String → Action W (Option Int)
  pub state_market_storage_deal : ℕ → Action W Deal

module _ {W Int Deal : Type 0} (big : Big Int) (chain : ChainApi W Int Deal) where
  unfoldable pub balance_of : String → Action W (Balance Int)
  balance_of client_addr = do
    act ← chain.state_get_actor client_addr
    market ← chain.state_market_balance client_addr
    vcstatus ← chain.state_verified_client_status client_addr
    return (record {
      account = client_addr;
      balance = act.balance;
      market_escrow = market.escrow;
      market_locked = market.locked;
      market_available = big.sub market.escrow market.locked;
      verified_client_balance = vcstatus;
    })

  abbrev pub deal_not_found : ℕ → String
  deal_not_found dealid = str_append "deal " (str_append (format_uint dealid) " not found")

  -- Whether the deal is on chain, and the deal.
  judge_chain_deal : ℕ → Result Deal → Result (Bool × Option Deal)
  judge_chain_deal dealid (ok deal) = ok (true, some deal)
  judge_chain_deal dealid (err e) =
      if contains (deal_not_found dealid) (error_text e) then ok (false, none) else err e

  unfoldable pub check_chain_deal : ℕ → Action W (Bool × Option Deal)
  unfolding judge_chain_deal
  check_chain_deal dealid w =
      let (deal, w') = chain.state_market_storage_deal dealid w in
      (judge_chain_deal dealid deal, w')

-- What `LockMarketFunds` is given beside the message pusher: `dump` is `cborutil.Dump` of the
-- client's address, `fil` prints an amount, `unset` is the zero value of `big.Int`; the address and
-- the number are those of the market actor and of its method `AddBalance`.
pub record FundsEnv (Int : Type 0) : Type 0 where
  pub client_addr : String
  pub storage_market_actor_addr : String
  pub add_balance_method : ℕ
  pub dump : String → Result String
  pub fil : Int → String
  pub unset : Int
  pub message_cid : SignedMessage Int → String

module _ {Int : Type 0} (big : Big Int) (env : FundsEnv Int) (r : Replies Int)
    (mp : MsgPusher) where
  not_enough_funds : Int → Int → GoError
  not_enough_funds balance amt = message (
      str_append "not enough funds to add: "
        (str_append (env.fil balance) (str_append " < " (env.fil amt))))

  -- The message before it is pushed.
  abbrev pub add_balance : Int → ℕ → String → Message Int
  add_balance amt nonce enc_addr = record {
    sender = env.client_addr;
    to = env.storage_market_actor_addr;
    value = amt;
    method = env.add_balance_method;
    params = enc_addr;
    nonce = nonce;
    gas_limit = 0;
    gas_fee_cap = env.unset;
    gas_premium = env.unset;
  }

  locked_by : Result (SignedMessage Int) × MsgPusher → Result String × MsgPusher
  locked_by (ok smsg, mp') = (ok (env.message_cid smsg), mp')
  locked_by (err e, mp') = (err e, mp')

  push_funds : Int → ℕ → Result String → Result String × MsgPusher
  unfolding locked_by
  push_funds amt nonce (ok enc_addr) =
      locked_by (mpool_push_message big r mp (add_balance amt nonce enc_addr))
  push_funds amt nonce (err e) = (err e, mp)

  with_actor : Int → Result (Actor Int) → Result String × MsgPusher
  unfolding push_funds not_enough_funds
  with_actor amt (ok act) =
      if big.less_than act.balance amt
      then (err (not_enough_funds act.balance amt), mp)
      else push_funds amt act.nonce (env.dump env.client_addr)
  with_actor amt (err e) = (err e, mp)

  -- The first argument is the answer of `StateGetActor`.
  unfoldable pub lock_market_funds : Result (Actor Int) → Int → Result String × MsgPusher
  unfolding with_actor
  lock_market_funds act amt = with_actor amt act

-- A call that returns, or panics with a text.
pub data Call : Type 0 where
  returned : Result (Unit {0}) → Call
  panicked : String → Call

-- The deferred function recovers.
abbrev pub recovered : Call → Result (Unit {0})
recovered (returned res) = res
recovered (panicked text) = err (message (str_append "panic while checking transfer: " text))

module _ {W : Type 0} (net : Network W) (is_connected : String → W → Bool)
    (restart : ChannelId → W → Call × W) where
  require_same_peer : ChannelState → Result String × W → Call × W
  require_same_peer st (err e, w) = (returned (err e), w)
  require_same_peer st (ok mpid, w) =
      if str_eq mpid st.remote_peer then restart st.channel_id w else (
        returned
            (err (message "miner peer ID is different than RemotePeer in data transfer channel")),
        w,
      )

  unfoldable pub check_ongoing_transfer : String → ChannelState → Action W (Unit {0})
  unfolding require_same_peer connect_to_miner
  check_ongoing_transfer miner st w =
      let (call, w') =
        if is_connected st.remote_peer w
        then restart st.channel_id w
        else require_same_peer st (connect_to_miner net miner w) in
      (recovered call, w')
