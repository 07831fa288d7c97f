-- ===== src/Filc/Commands/Info.antt =====
-- filc/cmds.go: `infoCmd` for a client that is not verified.
use filclient.Base.{String, ◌≡◌, refl, none}
use filclient.Base.Big.{Big}
use filclient.Errors.{ok}
use filclient.Errors.Action.{Action}
use filclient.Balance.{Actor, MarketBalance, ChainApi, balance_of}
use filclient.Filc.Parsing.{Parsers}
use filclient.Filc.Commands.{Cli, with_address, with_actor_info, with_status, info_cmd}

-- For an actor on chain whose verified status is nil, because it is not verified, `info` panics; the
-- client's `Balance`, which asks the same, succeeds when the market answers, without a verified balance.
pub info_cmd-unverified :
    {W Int Deal : Type 0} (cli : Cli W) (parsers : Parsers) (big : Big Int)
    (chain : ChainApi W Int Deal) (get_gateway : Action W (Unit {0})) (ddir addr : String)
    (act : Actor Int) (market : MarketBalance Int) (w u v : W)
    → cli.set_up ddir w ≡ (ok tt, u)
    → get_gateway u ≡ (ok tt, u)
    → cli.default_address u ≡ (ok addr, u)
    → chain.state_get_actor addr u ≡ (ok act, v)
    → chain.state_market_balance addr v ≡ (ok market, v)
    → chain.state_verified_client_status addr v ≡ (ok none, v)
    → (info_cmd cli parsers big chain get_gateway ddir w ≡ none)
      × (balance_of big chain addr u ≡ (
        ok (record {
          account = addr;
          balance = act.balance;
          market_escrow = market.escrow;
          market_locked = market.locked;
          market_available = big.sub market.escrow market.locked;
          verified_client_balance = none;
        }),
        v,
      ))
unfolding info_cmd with_address with_actor_info with_status balance_of
info_cmd-unverified cli parsers big chain get_gateway ddir addr act market w u v s g a c m n =
    (rw (s, g, a, c, n) refl, rw (c, m, n) refl)
