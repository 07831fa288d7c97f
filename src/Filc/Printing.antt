-- ===== src/Filc/Printing.antt =====
-- filc/printing.go and `printProgress` of filc/retrieval.go: what the command line tool prints.
pub mod Line
pub mod Layout
use filclient.Base.{
  ℕ, zero, suc, ◌+◌, ◌-◌, String, str_append, str_eq, Bool, true, false, not, Option, none, some,
  List, [], ◌∷◌, ◌++◌, length, ltb, ◌==◌, if◌then◌else◌,
}
use filclient.Base.Big.{Big}
use filclient.Errors.{GoError, Result, ok, err}
use filclient.Strconv.{format_uint}
use filclient.Rep.Event.{QueryResponse}
use filclient.Deal.Status.{ProviderDealState}
use filclient.Filc.Ipfs.{IpfsStats}
use filclient.Retrieval.Content.{RetrievalStats}

-- A line is its bytes.
abbrev pub Bytes : Type 0
Bytes = List ℕ

abbrev pub space : ℕ
space = 32

abbrev pub repeat : ℕ → ℕ → Bytes
repeat c zero = []
repeat c (suc n) = c ∷ repeat c n

abbrev pub take {ℓ} : {A : Type ℓ} → ℕ → List A → List A
take zero xs = []
take (suc n) [] = []
take (suc n) (x ∷ xs) = x ∷ take n xs

-- `printProgress`, from the text of the progress on; the width is that of the terminal, if it has one.
unfoldable pub progress_line : Option ℕ → Bytes → Bytes
progress_line none str = str
progress_line (some term_width) str =
    if ltb (length str) term_width
    then str ++ repeat space (term_width - length str)
    else if ltb term_width (length str)
    then take term_width str
    else str

-- The numbers of the answers that the retrieval market names.
pub record QueryNumbers : Type 0 where
  pub available : ℕ
  pub unavailable : ℕ
  pub error : ℕ
  pub item_available : ℕ
  pub item_unavailable : ℕ
  pub item_unknown : ℕ

-- What `printQueryResponse` prints, beside the fields of the response itself.
pub record QueryReport (Int : Type 0) : Type 0 where
  pub status : String
  pub piece_cid_found : String
  pub total : Int
  pub message : Option String
  pub available_on_ipfs : Bool

abbrev pub non_empty : String → Option String
non_empty message = if str_eq message "" then none else some message

module _ (numbers : QueryNumbers) where
  status_text : ℕ → String
  status_text n =
      if n == numbers.available
      then "Available"
      else if n == numbers.unavailable
      then "Unavailable"
      else if n == numbers.error
      then "Error"
      else str_append "Unrecognized Status (" (str_append (format_uint n) ")")

  piece_text : ℕ → String
  piece_text n =
      if n == numbers.item_available
      then "Available"
      else if n == numbers.item_unavailable
      then "Unavailable"
      else if n == numbers.item_unknown
      then "Unknown"
      else str_append "Unrecognized (" (str_append (format_uint n) ")")

  unfoldable pub query_report :
      {Int : Type 0} → Big Int → QueryResponse Int → Bool → QueryReport Int
  unfolding status_text piece_text
  query_report big query available_on_ipfs = record {
    status = status_text query.status;
    piece_cid_found = piece_text query.piece_cid_found;
    total = big.add query.unseal_price (big.mul (big.new query.size) query.min_price_per_byte);
    message = non_empty query.message;
    available_on_ipfs = available_on_ipfs;
  }

-- What `printDealStatus` prints of a deal: the label of its proposal, and the messages, in order. The
-- proposal is a pointer; `to_string` is `DealLabel.ToString`.
pub record DealReport : Type 0 where
  pub label : String
  pub messages : List String

label_report : String → Result String → DealReport
label_report message (ok label) = record {
  label = label;
  messages = if str_eq message "" then [] else message ∷ [];
}
label_report message (err e) = record {
  label = "";
  messages = message ∷ (if str_eq message "" then [] else message ∷ []);
}

-- A panic is `none`: the label is read before the proposal is compared with nil.
unfoldable pub deal_report :
    {Proposal : Type 0}
    → (Proposal → Result String)
    → ProviderDealState (Option Proposal)
    → Option DealReport
unfolding label_report
deal_report to_string state = elim state.proposal [
  | none ↦ none
  | some proposal ↦ some (label_report state.message (to_string proposal))
]

-- `RetrievalStats` as an interface with two implementations, and what `printRetrievalStats` prints of it
-- beside its fields.
pub data AnyStats (Int : Type 0) : Type 0 where
  fil_stats : RetrievalStats Int → AnyStats Int
  ipfs_stats : IpfsStats → AnyStats Int

-- `per_second` is the division in floating point.
module _ {Int : Type 0} (per_second : ℕ → ℕ → ℕ) where
  unfoldable pub get_byte_size : AnyStats Int → ℕ
  get_byte_size (fil_stats s) = s.size
  get_byte_size (ipfs_stats s) = s.byte_size

  unfoldable pub get_duration : AnyStats Int → ℕ
  get_duration (fil_stats s) = s.duration
  get_duration (ipfs_stats s) = s.duration

  unfoldable pub get_average_bytes_per_second : AnyStats Int → ℕ
  get_average_bytes_per_second (fil_stats s) = s.average_speed
  get_average_bytes_per_second (ipfs_stats s) = per_second s.byte_size s.duration
