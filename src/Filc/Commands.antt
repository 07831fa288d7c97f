-- ===== src/Filc/Commands.antt =====
-- filc/cmds.go: the actions of the commands other than `deal` and `retrieve`.
pub mod Deal
pub mod Retrieve
pub mod Info
pub mod Tests
use filclient.Base.{
  ℕ, String, str_append, str_eq, Bool, true, false, not, Option, none, some, List, [], ◌∷◌,
  if◌then◌else◌,
}
use filclient.Base.Big.{Big}
use filclient.Errors.{GoError, message, wrap, error_text, Result, ok, err, or_wrap, or_convert}
use filclient.Errors.Action.{Action, return, fail, ◌>>=◌, wrapping, converting}
use filclient.Rep.Event.{QueryResponse}
use filclient.Connection.{Network}
use filclient.Deal.Sending.{Streams, Codec, get_ask}
use filclient.Deal.Status.{ProviderDealState, StatusCalls, deal_status}
use filclient.Retrieval.Query.{retrieval_query}
use filclient.Balance.{Actor, ChainApi}
use filclient.Filc.Parsing.{Parsers, parse_miner, parse_deal_uuid}
use filclient.Filc.Disk.{Disk, list_deals, blockstore_path}
use filclient.Filc.Printing.{QueryNumbers, QueryReport, query_report, DealReport, deal_report}

-- What the commands use: the arguments, and `client`, which sets up the node and the client on it
-- (`setup`, then `clientFromNode`).
pub record Cli (W : Type 0) : Type 0 where
  pub first_arg : Option String
  pub flag : String → String
  pub bool_flag : String → Bool
  pub decode_cid : String → Result String
  pub set_up : String → Action W (Unit {0})
  pub client : Action W (Unit {0})
  pub remove_all : String → Action W (Unit {0})
  pub find_providers : String → Action W (List String)
  pub default_address : Action W String

-- `cctx.Args().Present()`.
abbrev pub require : String → Option String → Result String
require text none = err (message text)
require text (some arg) = ok arg

module _ {W : Type 0} (cli : Cli W) (parsers : Parsers) where
  -- What comes before the request: the miner, the proposal's cid and the UUID, "" if there is none.
  unfoldable pub deal_status_request : String → Action W (String × (String × Option String))
  unfolding parse_miner parse_deal_uuid
  deal_status_request ddir = do
    arg ← λ w. (require "proposal CID must be specified" cli.first_arg, w)
    miner ← λ w. (or_wrap "invalid miner address" (parse_miner parsers (cli.flag "miner")), w)
    uuid ← λ w. (or_wrap "invalid deal UUID" (parse_deal_uuid parsers (cli.flag "deal-uuid")), w)
    cid ← λ w. (or_wrap "invalid proposal CID" (cli.decode_cid arg), w)
    done ← wrapping "could not set up node" (cli.set_up ddir)
    ready ← wrapping "could not initialize filclient" cli.client
    return (miner, (cid, if str_eq uuid "" then none else some uuid))

  -- What is printed of the answer. A panic is `none`.
  printed : Option DealReport → W → Option (Result DealReport × W)
  printed none w = none
  printed (some report) w = some (ok report, w)

  with_state :
      {Proposal : Type 0}
      → (Proposal → Result String)
      → Option (Result (ProviderDealState (Option Proposal)) × W)
      → Option (Result DealReport × W)
  unfolding printed deal_report
  with_state to_string none = none
  with_state to_string (some (err e, w)) =
      some (err (wrap "could not get deal state from provider" e), w)
  with_state to_string (some (ok state, w)) = printed (deal_report to_string state) w

  module _ {Proposal : Type 0} (streams : Streams W) (net : Network W)
      (calls : StatusCalls W (Option Proposal)) where
    asked :
        (Proposal → Result String)
        → Result (String × (String × Option String)) × W
        → Option (Result DealReport × W)
    unfolding with_state deal_status
    asked to_string (err e, w) = some (err e, w)
    asked to_string (ok (miner, (cid, uuid)), w) =
        with_state to_string (deal_status streams calls net miner cid uuid w)

    unfoldable pub deal_status_cmd :
        (Proposal → Result String) → String → W → Option (Result DealReport × W)
    unfolding asked deal_status_request
    deal_status_cmd to_string ddir w = asked to_string (deal_status_request ddir w)

  ask_failed : GoError → GoError
  ask_failed e = message (str_append "failed to get ask: " (error_text e))

  unfoldable pub get_ask_cmd :
      {Ask : Type 0} → Streams W → Network W → Codec W String Ask → String → Action W Ask
  unfolding ask_failed get_ask
  get_ask_cmd streams net codec ddir = do
    arg ← λ w. (require "please specify miner to query ask of" cli.first_arg, w)
    miner ← λ w. (parsers.new_from_string arg, w)
    done ← cli.set_up ddir
    ready ← cli.client
    converting ask_failed (get_ask streams net codec miner)

  -- What is printed: the miner's answer, if a miner is given, and whether the content is on IPFS.
  with_miner :
      {Int : Type 0}
      → Big Int
      → QueryNumbers
      → Streams W
      → Network W
      → Codec W String (QueryResponse Int)
      → String
      → String
      → Bool
      → Action W (Option (QueryReport Int) × Bool)
  unfolding query_report retrieval_query
  with_miner big numbers streams net codec miner cid on_ipfs =
      if str_eq miner "" then return (none, on_ipfs) else do
        ready ← cli.client
        resp ← λ w.
            let (published, w') = retrieval_query net streams codec miner cid w in (published.0, w')
        return (some (query_report numbers big resp on_ipfs), on_ipfs)

  abbrev pub is_any : List String → Bool
  is_any [] = false
  is_any (p ∷ ps) = true

  abbrev pub non_empty_arg : Option String → Result String
  non_empty_arg none = err (message "please specify a CID to query retrieval of")
  non_empty_arg (some arg) =
      if str_eq arg "" then err (message "please specify a CID to query retrieval of") else ok arg

  unfoldable pub query_retrieval_cmd :
      {Int : Type 0}
      → Big Int
      → QueryNumbers
      → Streams W
      → Network W
      → Codec W String (QueryResponse Int)
      → String
      → Action W (Option (QueryReport Int) × Bool)
  unfolding parse_miner with_miner
  query_retrieval_cmd big numbers streams net codec ddir = do
    cid_str ← λ w. (non_empty_arg cli.first_arg, w)
    miner ← λ w. (parse_miner parsers (cli.flag "miner"), w)
    cid ← λ w. (cli.decode_cid cid_str, w)
    done ← cli.set_up ddir
    providers ← cli.find_providers cid
    with_miner big numbers streams net codec miner cid (is_any providers)

  module _ {Key Proposal : Type 0} (disk : Disk W Key Proposal) where
    unfoldable pub list_deals_cmd : String → Action W (List String)
    unfolding list_deals
    list_deals_cmd ddir w = (list_deals disk ddir w, w)

    unfoldable pub clear_blockstore_cmd : String → Action W (Unit {0})
    clear_blockstore_cmd ddir = cli.remove_all (blockstore_path disk ddir)

  -- `infoCmd`: the address, its balance and its verified balance. The verified client's status is a
  -- pointer that is read without a test: a panic is `none`.
  module _ {Int Deal : Type 0} (big : Big Int) (chain : ChainApi W Int Deal) where
    abbrev pub Info : Type 0
    Info = String × (Int × Int)

    with_status : String → Int → Result (Option Int) × W → Option (Result Info × W)
    with_status addr balance (ok (some v), w) = some (ok (addr, (balance, v)), w)
    with_status addr balance (ok none, w) = none
    with_status addr balance (err e, w) = some (err e, w)

    -- An actor that is not found has no balance.
    with_actor_info : String → Result (Actor Int) × W → Option (Result Info × W)
    unfolding with_status
    with_actor_info addr (err e, w) = some (ok (addr, (big.new 0, big.new 0)), w)
    with_actor_info addr (ok act, w) =
        with_status addr act.balance (chain.state_verified_client_status addr w)

    with_address : Result String × W → Option (Result Info × W)
    unfolding with_actor_info
    with_address (err e, w) = some (err e, w)
    with_address (ok addr, w) = with_actor_info addr (chain.state_get_actor addr w)

    -- `get_gateway` is `lcli.GetGatewayAPI`.
    unfoldable pub info_cmd : Action W (Unit {0}) → String → W → Option (Result Info × W)
    unfolding with_address
    info_cmd get_gateway ddir w =
        with_address ((do done ← cli.set_up ddir; api ← get_gateway; cli.default_address) w)
