-- ===== src/Filc/Commands/Deal.antt =====
-- filc/cmds.go: the action of `makeDealCmd`.
use filclient.Base.{ℕ, String, str_append, str_eq, Option, some, List, if◌then◌else◌}
use filclient.Base.Big.{Big}
use filclient.Errors.{message, Result, ok, err, or_wrap}
use filclient.Errors.Action.{Action, return, ◌>>=◌, wrapping}
use filclient.Connection.{Network, deal_protocol_v110, deal_protocol_v120, deal_protocol_for_miner}
use filclient.Deal.{NetProposal, Market}
use filclient.Deal.Making.{make_deal}
use filclient.Deal.Sending.{Streams, Codec, get_ask}
use filclient.Transfer.{Outside}
use filclient.Reports.{DtManager}
use filclient.Filc.Parsing.{Parsers, parse_miner}
use filclient.Filc.Disk.{Disk, save_deal_proposal}
use filclient.Filc.Deals.Making.{Ended, PullEvent, DealCalls, make_v110_deal, make_v120_deal}
use filclient.Filc.Commands.{Cli, require}

-- The part of a provider's ask that is read.
pub record Ask (Int : Type 0) : Type 0 where
  pub price : Int
  pub verified_price : Int
  pub min_piece_size : ℕ

-- A deal that is made and saved, with the protocol to propose it by.
pub record Made (Int Label : Type 0) : Type 0 where
  pub miner : String
  pub proposal : NetProposal Int Label
  pub propcid : String
  pub datacid : String
  pub proto : String

-- 2880 * 365
abbrev pub duration : ℕ
duration = 1051200

-- `import_file` opens the file and builds its DAG; `as_ipld` gives the cid of a proposal's node.
module _ {W Int Label Key : Type 0} (cli : Cli W) (parsers : Parsers) (big : Big Int)
    (market : Market W Int Label) (client_addr : String) (streams : Streams W) (net : Network W)
    (disk : Disk W Key (NetProposal Int Label)) (ask_codec : Codec W String (Ask Int))
    (import_file : String → Action W String) (as_ipld : NetProposal Int Label → Result String) where
  unfoldable pub make_and_save : String → Action W (Made Int Label)
  unfolding parse_miner get_ask make_deal save_deal_proposal deal_protocol_for_miner
  make_and_save ddir = do
    path ← λ w. (require "please specify file to make deal for" cli.first_arg, w)
    miner ← λ w. (parse_miner parsers (cli.flag "miner"), w)
    done ← cli.set_up ddir
    ready ← cli.client
    obj ← import_file path
    ask ←
        wrapping (str_append "getting ask from storage provider " miner)
          (get_ask streams net ask_codec miner)
    proposal ←
        make_deal big market client_addr miner obj
          (if cli.bool_flag "verified" then ask.verified_price else ask.price) ask.min_piece_size
          duration (cli.bool_flag "verified") (cli.bool_flag "remove-unsealed")
    propcid ← λ w. (or_wrap "failed to compute deal proposal ipld node" (as_ipld proposal), w)
    saved ← save_deal_proposal disk ddir propcid proposal
    proto ← deal_protocol_for_miner net miner
    return (record {
      miner = miner;
      proposal = proposal;
      propcid = propcid;
      datacid = obj;
      proto = proto;
    })

  module _ {Listener : Type 0} (dt : DtManager W) (out : Outside W)
      (calls : DealCalls W Int Label Listener) where
    propose :
        ℕ
        → List PullEvent
        → Option Listener
        → Result (Made Int Label) × W
        → (Ended × Option Listener) × W
    unfolding make_v110_deal make_v120_deal
    propose rounds events l (err e, w) = ((some (err e), l), w)
    propose rounds events l (ok made, w) =
        if str_eq made.proto deal_protocol_v110
        then (let (ended, w') =
              make_v110_deal streams net dt out calls rounds made.miner made.proposal made.propcid
                made.datacid w in
            ((ended, l), w'))
        else if str_eq made.proto deal_protocol_v120
        then make_v120_deal streams net dt out calls (cli.flag "announce") made.proposal
            made.propcid events l w
        else ((some (err (message (str_append "unrecognized deal protocol " made.proto))), l), w)

    unfoldable pub make_deal_cmd :
        ℕ → List PullEvent → Option Listener → String → W → (Ended × Option Listener) × W
    unfolding make_and_save propose
    make_deal_cmd rounds events l ddir w = propose rounds events l (make_and_save ddir w)
