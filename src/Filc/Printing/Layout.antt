-- ===== src/Filc/Printing/Layout.antt =====
-- filc/printing.go: the layout of what is printed, as lines with their values; `printLoggersCmd` and `tpr`
-- of filc/cmds.go.
mod Tests
use filclient.Base.{
  ℕ, String, str_append, Bool, true, false, Option, none, some, List, [], ◌∷◌, ◌++◌,
}
use filclient.Base.{str_eq, if◌then◌else◌}
use filclient.Base.Big.{Big}
use filclient.Errors.{Result, ok, err}
use filclient.Rep.Event.{QueryResponse}
use filclient.Deal.{DealProposal}
use filclient.Deal.Sending.{StorageDealStatus}
use filclient.Deal.Status.{ProviderDealState}
use filclient.Retrieval.Content.{RetrievalStats}
use filclient.Filc.Ipfs.{IpfsStats}
use filclient.Filc.Printing.{
  QueryNumbers, query_report, AnyStats, fil_stats, ipfs_stats, get_average_bytes_per_second,
}

-- A value as it is printed: `types.FIL` and `humanize.IBytes` are the two that convert a number.
pub data Shown (Int : Type 0) : Type 0 where
  text : String → Shown Int
  cid : Option String → Shown Int
  num : ℕ → Shown Int
  int : Int → Shown Int
  fil : Int → Shown Int
  ibytes : ℕ → Shown Int
  ibytes_per_second : ℕ → Shown Int
  truth : Bool → Shown Int

-- A heading, a rule, or a label with its values.
pub data Line (Int : Type 0) : Type 0 where
  heading : String → Line Int
  rule : Line Int
  field : String → List (Shown Int) → Line Int

-- `storagemarket.StorageAsk`, as far as it is printed.
pub record StorageAsk (Int : Type 0) : Type 0 where
  pub miner : String
  pub price : Int
  pub verified_price : Int
  pub min_piece_size : ℕ
  pub max_piece_size : ℕ

module _ {Int : Type 0} where
  abbrev one : String → Shown Int → Line Int
  one label v = field label (v ∷ [])

  abbrev amount : String → Int → Line Int
  amount label n = field label (int n ∷ fil n ∷ [])

  abbrev bytes : String → ℕ → Line Int
  bytes label n = field label (num n ∷ ibytes n ∷ [])

  abbrev message_line : String → Line Int
  message_line message = one "Message" (text message)

  unfoldable pub print_ask_response : StorageAsk Int → List (Line Int)
  print_ask_response ask =
      heading "ASK RESPONSE"
      ∷ rule
      ∷ one "Miner" (text ask.miner)
      ∷ amount "Price (Unverified)" ask.price
      ∷ amount "Price (Verified)" ask.verified_price
      ∷ one "Min Piece Size" (num ask.min_piece_size)
      ∷ one "Max Piece Size" (num ask.max_piece_size)
      ∷ []

  -- The lines of `printDealStatus` on the proposal. The client collateral's second value has the format
  -- `%d`, which shows the number.
  proposal_lines : {Label : Type 0} → String → DealProposal Int Label → List (Line Int)
  proposal_lines label proposal =
      heading "Proposal:"
      ∷ one "Piece CID" (text proposal.piece_cid)
      ∷ bytes "Piece Size" proposal.piece_size
      ∷ one "Verified Deal" (truth proposal.verified_deal)
      ∷ one "Client" (text proposal.client)
      ∷ one "Provider" (text proposal.provider)
      ∷ one "Label" (text label)
      ∷ one "Start Epoch" (num proposal.start_epoch)
      ∷ one "End Epoch" (num proposal.end_epoch)
      ∷ amount "Storage Price Per Epoch" proposal.storage_price_per_epoch
      ∷ amount "Provider Collateral" proposal.provider_collateral
      ∷ field "Client Collateral"
          (int proposal.client_collateral ∷ int proposal.client_collateral ∷ [])
      ∷ []

  status_lines :
      {Deal : Type 0} → (StorageDealStatus → String) → ProviderDealState Deal → List (Line Int)
  status_lines state_name state =
      heading "DEAL STATUS"
      ∷ rule
      ∷ one "Deal State" (text (state_name state.state))
      ∷ one "Proposal CID" (text state.proposal_cid)
      ∷ one "Add Funds CID" (cid state.add_funds_cid)
      ∷ one "Publish CID" (cid state.publish_cid)
      ∷ one "Deal ID" (text state.deal_id)
      ∷ one "Fast Retrieval" (truth state.fast_retrieval)
      ∷ []

  -- The message that is printed at the end, and the one that stands for a label that cannot be told.
  final_message : String → List (Line Int)
  final_message message = if str_eq message "" then [] else message_line message ∷ []

  labelled : {Label : Type 0} → String → DealProposal Int Label → Result String → List (Line Int)
  unfolding proposal_lines
  labelled message proposal (ok label) = proposal_lines label proposal
  labelled message proposal (err e) = message_line message ∷ proposal_lines "" proposal

  -- What has been printed, and whether `printDealStatus` panics then: it reads the label before it
  -- compares the proposal with nil. `to_string` is `DealLabel.ToString`.
  unfoldable pub print_deal_status :
      {Label : Type 0}
      → (StorageDealStatus → String)
      → (Label → Result String)
      → ProviderDealState (Option (DealProposal Int Label))
      → List (Line Int) × Bool
  unfolding status_lines labelled final_message
  print_deal_status state_name to_string state = elim state.proposal [
    | none ↦ (status_lines state_name state, true)
    | some proposal ↦ (
      status_lines state_name state
          ++ (labelled state.message proposal (to_string proposal.label)
              ++ final_message state.message),
      false,
    )
  ]

  -- `per_second` is the division in floating point.
  unfoldable pub print_retrieval_stats : (ℕ → ℕ → ℕ) → AnyStats Int → List (Line Int)
  unfolding get_average_bytes_per_second
  print_retrieval_stats per_second (fil_stats s) =
      heading "RETRIEVAL STATS (FIL)"
      ∷ rule
      ∷ bytes "Size" s.size
      ∷ one "Duration" (num s.duration)
      ∷ field "Average Speed" (num s.average_speed ∷ ibytes_per_second s.average_speed ∷ [])
      ∷ amount "Ask Price" s.ask_price
      ∷ amount "Total Payment" s.total_payment
      ∷ one "Num Payments" (num s.num_payments)
      ∷ one "Peer" (text s.peer)
      ∷ []
  print_retrieval_stats per_second (ipfs_stats s) =
      let stats : AnyStats Int = ipfs_stats s in
      heading "RETRIEVAL STATS (IPFS)"
      ∷ rule
      ∷ bytes "Size" s.byte_size
      ∷ one "Duration" (num s.duration)
      ∷ one "Average Speed" (num (get_average_bytes_per_second per_second stats))
      ∷ []

  last_lines : Option String → Bool → List (Line Int)
  last_lines none false = []
  last_lines (some message) false = message_line message ∷ []
  last_lines none true = rule ∷ heading "Avaiable on IPFS" ∷ []
  last_lines (some message) true = message_line message ∷ rule ∷ heading "Avaiable on IPFS" ∷ []

  unfoldable pub print_query_response :
      QueryNumbers → Big Int → QueryResponse Int → Bool → List (Line Int)
  unfolding query_report last_lines
  print_query_response numbers big query available_on_ipfs =
      let report = query_report numbers big query available_on_ipfs in
      (heading "QUERY RESPONSE"
        ∷ rule
        ∷ one "Status" (text report.status)
        ∷ one "Piece CID Found" (text report.piece_cid_found)
        ∷ bytes "Size" query.size
        ∷ amount "Unseal Price" query.unseal_price
        ∷ amount "Min Price Per Byte" query.min_price_per_byte
        ∷ amount "Total Retrieval Price" report.total
        ∷ one "Payment Address" (text query.payment_address)
        ∷ bytes "Max Payment Interval" query.max_payment_interval
        ∷ bytes "Max Payment Interval Increase" query.max_payment_interval_increase
        ∷ [])
      ++ last_lines report.message report.available_on_ipfs

-- `printLoggersCmd`: a line for each subsystem. `tpr` puts the time before a line.
unfoldable pub print_loggers : List String → List String
print_loggers [] = []
print_loggers (logger ∷ loggers) = str_append logger "\n" ∷ print_loggers loggers

unfoldable pub tpr : (String → String) → String → String → String
tpr format now s = str_append "[" (str_append now (str_append "] " (str_append (format s) "\n")))
