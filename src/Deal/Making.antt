-- ===== src/Deal/Making.antt =====
-- filclient.go: `MakeDealWithOptions` and `MakeDeal`.
pub mod Agreed
use filclient.Base.{ℕ, String, Bool, not, Option, none, some, List, [], ◌∷◌}
use filclient.Base.Big.{Big}
use filclient.Errors.Action.{Action, return, ◌>>=◌}
use filclient.Deal.{
  DealProposal, NetProposal, Market, DealConfig, DealOption, default_deal_config, deal_with_config,
  deal_with_min_size, deal_with_verified, deal_with_fast_retrieval, apply_options,
}
use filclient.Deal.Proposal.{make_deal_unsigned}

module _ {W Int Label : Type 0} (big : Big Int) (market : Market W Int Label)
    (client_addr : String) where
  -- The custom signer, or the wallet.
  unfoldable pub sign : Option (String → Action W String) → String → Action W String
  sign (some signer) raw = signer raw
  sign none raw = market.wallet_sign client_addr raw

  net_proposal :
      String → DealConfig W Int Label → DealProposal Int Label → String → NetProposal Int Label
  net_proposal payload cfg proposal sig = record {
    proposal = proposal;
    client_signature = sig;
    transfer_type = cfg.transfer_type;
    root = payload;
    raw_block_size = cfg.piece_info.payload_size;
    fast_retrieval = cfg.fast_retrieval;
  }

  with_signature :
      String
      → DealConfig W Int Label
      → DealProposal Int Label × String
      → Action W (NetProposal Int Label)
  unfolding sign net_proposal
  with_signature payload cfg made = do
    sig ← sign cfg.signer made.1
    return (net_proposal payload cfg made.0 sig)

  make_deal_with :
      String → String → Int → ℕ → DealConfig W Int Label → Action W (NetProposal Int Label)
  unfolding make_deal_unsigned with_signature
  make_deal_with sp payload price duration cfg = do
    made ←
        make_deal_unsigned big market client_addr sp payload price duration
          (deal_with_config cfg ∷ [])
    with_signature payload cfg made

  unfoldable pub make_deal_with_options :
      String → String → Int → ℕ → List (DealOption W Int Label) → Action W (NetProposal Int Label)
  unfolding make_deal_with apply_options
  make_deal_with_options sp payload price duration options =
      make_deal_with sp payload price duration (apply_options options (default_deal_config market))

  unfoldable pub make_deal :
      String → String → Int → ℕ → ℕ → Bool → Bool → Action W (NetProposal Int Label)
  unfolding make_deal_with_options
  make_deal miner data' price min_size duration verified remove_unsealed =
      make_deal_with_options miner data' price duration (
        deal_with_min_size min_size
        ∷ deal_with_verified verified
        ∷ deal_with_fast_retrieval (not remove_unsealed)
        ∷ [])
