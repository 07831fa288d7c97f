-- ===== src/Filc/Printing/Layout/Tests.antt =====
-- Layouts at concrete inputs.
use filclient.Base.{ℕ, String, true, ◌≡◌, refl, Option, none, some, List, [], ◌∷◌}
use filclient.Base.Big.{nat_big}
use filclient.Errors.{ok}
use filclient.Deal.{DealProposal}
use filclient.Deal.Sending.{staged}
use filclient.Deal.Status.{ProviderDealState}
use filclient.Retrieval.Query.Tests.{answer}
use filclient.Filc.Printing.{QueryNumbers, ipfs_stats}
use filclient.Filc.Printing.Layout.{
  text, cid, num, int, fil, ibytes, truth, Line, heading, rule, field, print_ask_response,
  print_deal_status, print_retrieval_stats, print_query_response, print_loggers, tpr,
}

abbrev sealed_deal :
    Option (DealProposal ℕ String) → ProviderDealState (Option (DealProposal ℕ String))
sealed_deal proposal = record {
  state = staged;
  message = "soon";
  proposal = proposal;
  proposal_cid = "prop";
  add_funds_cid = none;
  publish_cid = some "pub";
  deal_id = "7";
  fast_retrieval = true;
}

abbrev head : List (Line ℕ)
head =
    heading "DEAL STATUS"
    ∷ rule
    ∷ field "Deal State" (text "staged" ∷ [])
    ∷ field "Proposal CID" (text "prop" ∷ [])
    ∷ field "Add Funds CID" (cid none ∷ [])
    ∷ field "Publish CID" (cid (some "pub") ∷ [])
    ∷ field "Deal ID" (text "7" ∷ [])
    ∷ field "Fast Retrieval" (truth true ∷ [])
    ∷ []

-- A state without a proposal panics after its first lines.
no_proposal_lem :
    print_deal_status {Int = ℕ} (λ s. "staged") (λ l. ok l) (sealed_deal none) ≡ (head, true)
unfolding print_deal_status
no_proposal_lem = refl

print_ask_response_lem :
    print_ask_response {Int = ℕ} (record {
      miner = "t01";
      price = 4;
      verified_price = 2;
      min_piece_size = 256;
      max_piece_size = 1024;
    })
    ≡ heading "ASK RESPONSE"
      ∷ rule
      ∷ field "Miner" (text "t01" ∷ [])
      ∷ field "Price (Unverified)" (int 4 ∷ fil 4 ∷ [])
      ∷ field "Price (Verified)" (int 2 ∷ fil 2 ∷ [])
      ∷ field "Min Piece Size" (num 256 ∷ [])
      ∷ field "Max Piece Size" (num 1024 ∷ [])
      ∷ []
unfolding print_ask_response
print_ask_response_lem = refl

print_retrieval_stats_lem :
    print_retrieval_stats {Int = ℕ}
      (λ b t. 5)
      (ipfs_stats (record { byte_size = 10; duration = 2 }))
    ≡ heading "RETRIEVAL STATS (IPFS)"
      ∷ rule
      ∷ field "Size" (num 10 ∷ ibytes 10 ∷ [])
      ∷ field "Duration" (num 2 ∷ [])
      ∷ field "Average Speed" (num 5 ∷ [])
      ∷ []
unfolding print_retrieval_stats
print_retrieval_stats_lem = refl

abbrev numbers : QueryNumbers
numbers = record {
  available = 0;
  unavailable = 1;
  error = 2;
  item_available = 0;
  item_unavailable = 1;
  item_unknown = 2;
}

print_query_response_lem :
    print_query_response numbers nat_big answer true
    ≡ heading "QUERY RESPONSE"
      ∷ rule
      ∷ field "Status" (text "Available" ∷ [])
      ∷ field "Piece CID Found" (text "Available" ∷ [])
      ∷ field "Size" (num 100 ∷ ibytes 100 ∷ [])
      ∷ field "Unseal Price" (int 1 ∷ fil 1 ∷ [])
      ∷ field "Min Price Per Byte" (int 2 ∷ fil 2 ∷ [])
      ∷ field "Total Retrieval Price" (int 201 ∷ fil 201 ∷ [])
      ∷ field "Payment Address" (text "t01" ∷ [])
      ∷ field "Max Payment Interval" (num 10 ∷ ibytes 10 ∷ [])
      ∷ field "Max Payment Interval Increase" (num 5 ∷ ibytes 5 ∷ [])
      ∷ rule
      ∷ heading "Avaiable on IPFS"
      ∷ []
unfolding print_query_response
print_query_response_lem = refl

lines_lem :
    (print_loggers ("filc" ∷ "rpc" ∷ []) ≡ "filc\n" ∷ "rpc\n" ∷ [])
    × (tpr (λ s. s) "12:00:00" "importing file..." ≡ "[12:00:00] importing file...\n")
unfolding print_loggers tpr
lines_lem = (refl, refl)
