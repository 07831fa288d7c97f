-- ===== src/Retrieval/PaymentChannel.antt =====
-- filclient.go: `getPaychWithMinFunds`.
use filclient.Base.{String, str_eq, not, Option, none, some, if◌then◌else◌}
use filclient.Base.Big.{Big}
use filclient.Errors.{message, wrap, Result, ok, err}
use filclient.Retrieval.{address_undef}

-- `paychmgr.ChannelAvailableFunds`, as far as it is read.
pub record Funds (Int : Type 0) : Type 0 where
  pub confirmed_amt : Int
  pub channel : Option String

-- The answers of the payment channel manager and of `types.ParseFIL`. The message of `GetPaych` is
-- `none` if its cid is not defined.
pub record Manager (Int : Type 0) : Type 0 where
  pub available_funds : Result (Funds Int)
  pub parse_fil : String → Result Int
  pub get_paych : Int → Result (String × Option String)
  pub get_paych_wait_ready : String → Result String

module _ {Int : Type 0} (big : Big Int) (m : Manager Int) where
  got_paych : Result (String × Option String) → Result String
  got_paych (ok (pchaddr, some mcid)) = m.get_paych_wait_ready mcid
  got_paych (ok (pchaddr, none)) =
      if str_eq pchaddr address_undef then err (message "GetPaych returned nothing") else ok pchaddr
  got_paych (err e) = err (wrap "failed to get payment channel" e)

  -- Reading through a nil `avail.Channel` panics.
  open_channel : Option String → Option (Result String)
  open_channel (some channel) = some (ok channel)
  open_channel none = none

  enough_funds : Funds Int → Result Int → Option (Result String)
  unfolding got_paych open_channel
  enough_funds avail (ok req_balance) =
      if not (big.less_than avail.confirmed_amt req_balance)
      then open_channel avail.channel
      else some (got_paych (m.get_paych (big.mul req_balance (big.new 2))))
  enough_funds avail (err e) = some (err e)

  with_funds : Result (Funds Int) → Option (Result String)
  unfolding enough_funds
  with_funds (ok avail) = enough_funds avail (m.parse_fil "0.01")
  with_funds (err e) = some (err e)

  -- `none` is a panic.
  unfoldable pub get_paych_with_min_funds : Option (Result String)
  unfolding with_funds
  get_paych_with_min_funds = with_funds m.available_funds
