-- ===== src/Deal/Making/Agreed.antt =====
-- filclient.go: what a proposal that `MakeDealWithOptions` or `MakeDeal` returns contains.
use filclient.Base.{ℕ, String, Bool, false, not, ◌≡◌, refl, List, [], ◌∷◌, ltb}
use filclient.Base.Big.{Big}
use filclient.Errors.{ok}
use filclient.Errors.Action.{
  return, Succeeds, Succeeds-after, Succeeds-after-Succeeds, Succeeds-mono,
}
use filclient.Deal.{
  DealProposal, NetProposal, Market, DealConfig, DealOption, default_deal_config, apply_options,
  deal_with_config, deal_with_min_size, deal_with_verified, deal_with_fast_retrieval,
}
use filclient.Deal.Proposal.{make_deal_unsigned}
use filclient.Deal.Proposal.Offer.{IsOffer, make_deal_unsigned-IsOffer}
use filclient.Deal.Making.{
  sign, net_proposal, with_signature, make_deal_with, make_deal_with_options, make_deal,
}

module _ {W Int Label : Type 0} (big : Big Int) (market : Market W Int Label)
    (client_addr : String) where
  -- A proposal with its offer, signed, and the rest from the configuration: the size of the data is
  -- the one that the caller gave with the piece, and not one that was computed.
  pub record IsAgreed (sp payload : String) (price : Int) (duration : ℕ)
      (cfg : DealConfig W Int Label) (net : NetProposal Int Label) : Type 0 where
    pub raw : String
    pub offer : IsOffer big market client_addr sp price duration cfg (net.proposal, raw)
    pub signed_in : W
    pub is_signed :
        (sign big market client_addr cfg.signer raw signed_in).0 ≡ ok net.client_signature
    pub of_payload : net.root ≡ payload
    pub given_size : net.raw_block_size ≡ cfg.piece_info.payload_size
    pub given_retrieval : net.fast_retrieval ≡ cfg.fast_retrieval

  net_proposal-IsAgreed :
      (sp payload : String) (price : Int) (duration : ℕ) (cfg : DealConfig W Int Label)
      (made : DealProposal Int Label × String) (sig : String) (v : W)
      → IsOffer big market client_addr sp price duration cfg made
      → (sign big market client_addr cfg.signer made.1 v).0 ≡ ok sig
      → IsAgreed sp payload price duration cfg
          (net_proposal big market client_addr payload cfg made.0 sig)
  unfolding net_proposal
  net_proposal-IsAgreed sp payload price duration cfg made sig v offer q = record {
    raw = made.1;
    offer = offer;
    signed_in = v;
    is_signed = q;
    of_payload = refl;
    given_size = refl;
    given_retrieval = refl;
  }

  with_signature-IsAgreed :
      (sp payload : String) (price : Int) (duration : ℕ) (cfg : DealConfig W Int Label)
      (made : DealProposal Int Label × String) (v : W)
      → IsOffer big market client_addr sp price duration cfg made
      → Succeeds
          (IsAgreed sp payload price duration cfg)
          (with_signature big market client_addr payload cfg made v).0
  unfolding with_signature
  with_signature-IsAgreed sp payload price duration cfg made v offer =
      Succeeds-after (IsAgreed sp payload price duration cfg)
        (sign big market client_addr cfg.signer made.1 v).0 _
        (λ sig. return (net_proposal big market client_addr payload cfg made.0 sig))
        (λ sig q u. net_proposal-IsAgreed sp payload price duration cfg made sig v offer q)

  make_deal_with-IsAgreed :
      (sp payload : String) (price : Int) (duration : ℕ) (cfg : DealConfig W Int Label) (w : W)
      → Succeeds
          (IsAgreed sp payload price duration cfg)
          (make_deal_with big market client_addr sp payload price duration cfg w).0
  unfolding make_deal_with apply_options
  make_deal_with-IsAgreed sp payload price duration cfg w =
      Succeeds-after-Succeeds (IsAgreed sp payload price duration cfg)
        (IsOffer big market client_addr sp price duration cfg)
        (make_deal_unsigned big market client_addr sp payload price duration
          (deal_with_config cfg ∷ []) w).0
        _ (with_signature big market client_addr payload cfg)
        (make_deal_unsigned-IsOffer big market client_addr sp payload price duration
          (deal_with_config cfg ∷ []) w)
        (λ made offer v. with_signature-IsAgreed sp payload price duration cfg made v offer)

-- When `MakeDealWithOptions` succeeds, the proposal is an offer of the client to the provider under
-- the options, signed by the given signer or else by the wallet over the proposal's encoding, for
-- the payload, with the retrieval setting and the payload size of the options.
pub make_deal_with_options-IsAgreed :
    {W Int Label : Type 0} (big : Big Int) (market : Market W Int Label)
    (client_addr sp payload : String) (price : Int) (duration : ℕ)
    (options : List (DealOption W Int Label)) (w : W)
    → Succeeds
        (IsAgreed big market client_addr sp payload price duration
          (apply_options options (default_deal_config market)))
        (make_deal_with_options big market client_addr sp payload price duration options w).0
unfolding make_deal_with_options
make_deal_with_options-IsAgreed big market client_addr sp payload price duration options w =
    make_deal_with-IsAgreed big market client_addr sp payload price duration
      (apply_options options (default_deal_config market)) w

-- The options of `MakeDeal`.
abbrev options_of : {W Int Label : Type 0} → ℕ → Bool → Bool → List (DealOption W Int Label)
options_of min_size verified remove_unsealed =
    deal_with_min_size min_size
    ∷ deal_with_verified verified
    ∷ deal_with_fast_retrieval (not remove_unsealed)
    ∷ []

-- A proposal that `MakeDeal` returns is to the miner, is for a piece not smaller than the least
-- size, asks for fast retrieval unless the unsealed copy is to be removed, and says that the data
-- has no bytes, whatever the size of the payload is.
pub make_deal-raw_block_size :
    {W Int Label : Type 0} (big : Big Int) (market : Market W Int Label)
    (client_addr miner payload : String) (price : Int) (min_size duration : ℕ)
    (verified remove_unsealed : Bool) (w : W)
    → Succeeds
        (λ net.
          (net.proposal.provider ≡ miner)
          × ((ltb net.proposal.piece_size min_size ≡ false)
              × ((net.fast_retrieval ≡ not remove_unsealed) × (net.raw_block_size ≡ 0))))
        (make_deal big market client_addr miner payload price min_size duration verified
          remove_unsealed w).0
unfolding make_deal apply_options
make_deal-raw_block_size big market client_addr miner payload price min_size duration verified
      remove_unsealed w =
    Succeeds-mono
      (IsAgreed big market client_addr miner payload price duration
        (apply_options (options_of min_size verified remove_unsealed) (default_deal_config market)))
      (λ net.
        (net.proposal.provider ≡ miner)
        × ((ltb net.proposal.piece_size min_size ≡ false)
            × ((net.fast_retrieval ≡ not remove_unsealed) × (net.raw_block_size ≡ 0))))
      (make_deal_with_options big market client_addr miner payload price duration
        (options_of min_size verified remove_unsealed) w).0
      (λ net agreed. (
        agreed.offer.to_provider,
        (agreed.offer.large_enough, (agreed.given_retrieval, agreed.given_size)),
      ))
      (make_deal_with_options-IsAgreed big market client_addr miner payload price duration
        (options_of min_size verified remove_unsealed) w)
