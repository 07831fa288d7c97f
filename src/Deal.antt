-- ===== src/Deal.antt =====
-- filclient.go: making and sending storage deal proposals. This file has the data, the configuration
-- of a deal and its options.
pub mod Proposal
pub mod Pieces
pub mod Making
pub mod Sending
pub mod Boost
pub mod Status
pub mod Tests
use filclient.Base.{ℕ, String, Bool, true, false, not, Option, none, some, List, [], ◌∷◌}
use filclient.Errors.{Result}
use filclient.Errors.Action.{Action}

pub record DealPieceInfo : Type 0 where
  pub cid : String
  pub size : ℕ
  pub payload_size : ℕ

-- `market.DealProposal`.
pub record DealProposal (Int Label : Type 0) : Type 0 where
  pub piece_cid : String
  pub piece_size : ℕ
  pub verified_deal : Bool
  pub client : String
  pub provider : String
  pub label : Label
  pub start_epoch : ℕ
  pub end_epoch : ℕ
  pub storage_price_per_epoch : Int
  pub provider_collateral : Int
  pub client_collateral : Int

-- `network.Proposal`, with the signed proposal and the data reference in it.
pub record NetProposal (Int Label : Type 0) : Type 0 where
  pub proposal : DealProposal Int Label
  pub client_signature : String
  pub transfer_type : String
  pub root : String
  pub raw_block_size : ℕ
  pub fast_retrieval : Bool

-- What the client calls to make a deal: the computation of piece commitments, the chain, the
-- wallet, the encoding of proposals and the labels. The sizes of pieces are below 2 ^ 63.
pub record Market (W Int Label : Type 0) : Type 0 where
  pub compute_piece_comm : String → Action W (String × (ℕ × ℕ))
  pub padded : ℕ → ℕ
  pub unpadded : ℕ → ℕ
  pub hash_tail : String → String
  pub pad_commp : String → ℕ → ℕ → Result String
  pub data_commitment_to_cid : String → Result String
  pub chain_height : Action W ℕ
  pub collateral_min : ℕ → Bool → Action W Int
  pub empty_label : Label
  pub is_empty_label : Label → Bool
  pub label_field : String → Result Label
  pub dump : DealProposal Int Label → Result String
  pub wallet_sign : String → String → Action W String

module _ (W Int Label : Type 0) where
  pub record DealConfig : Type 0 where
    pub verified : Bool
    pub fast_retrieval : Bool
    pub min_size : ℕ
    pub piece_info : DealPieceInfo
    pub start_epoch : ℕ
    pub end_epoch : ℕ
    pub price_per_epoch : Option Int
    pub signer : Option (String → Action W String)
    pub label : Label
    pub transfer_type : String

  abbrev pub DealOption : Type 0
  DealOption = DealConfig → DealConfig

module _ {W Int Label : Type 0} where
  abbrev pub default_deal_config : Market W Int Label → DealConfig W Int Label
  default_deal_config market = record {
    verified = false;
    fast_retrieval = false;
    min_size = 0;
    piece_info = record { cid = ""; size = 0; payload_size = 0 };
    start_epoch = 0;
    end_epoch = 0;
    price_per_epoch = none;
    signer = none;
    label = market.empty_label;
    transfer_type = "graphsync";
  }

  abbrev pub deal_with_verified : Bool → DealOption W Int Label
  deal_with_verified verified cfg = record cfg { verified = verified }

  abbrev pub deal_with_fast_retrieval : Bool → DealOption W Int Label
  deal_with_fast_retrieval fast_retrieval cfg = record cfg { fast_retrieval = fast_retrieval }

  abbrev pub deal_with_min_size : ℕ → DealOption W Int Label
  deal_with_min_size min_size cfg = record cfg { min_size = min_size }

  abbrev pub deal_with_piece_info : DealPieceInfo → DealOption W Int Label
  deal_with_piece_info piece_info cfg = record cfg { piece_info = piece_info }

  abbrev pub deal_with_start_epoch : ℕ → DealOption W Int Label
  deal_with_start_epoch start_epoch cfg = record cfg { start_epoch = start_epoch }

  abbrev pub deal_with_end_epoch : ℕ → DealOption W Int Label
  deal_with_end_epoch end_epoch cfg = record cfg { end_epoch = end_epoch }

  abbrev pub deal_with_price_per_epoch : Option Int → DealOption W Int Label
  deal_with_price_per_epoch price cfg = record cfg { price_per_epoch = price }

  abbrev pub deal_with_signer : Option (String → Action W String) → DealOption W Int Label
  deal_with_signer signer cfg = record cfg { signer = signer }

  abbrev pub deal_with_label : Label → DealOption W Int Label
  deal_with_label label cfg = record cfg { label = label }

  abbrev pub deal_with_transfer_type : String → DealOption W Int Label
  deal_with_transfer_type transfer_type cfg = record cfg { transfer_type = transfer_type }

  abbrev pub deal_with_config : DealConfig W Int Label → DealOption W Int Label
  deal_with_config new_cfg cfg = new_cfg

  -- The loop that applies the options.
  unfoldable pub apply_options :
      List (DealOption W Int Label) → DealConfig W Int Label → DealConfig W Int Label
  apply_options [] cfg = cfg
  apply_options (option ∷ options) cfg = apply_options options (option cfg)
