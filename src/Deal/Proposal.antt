-- ===== src/Deal/Proposal.antt =====
-- filclient.go: `ComputePrice`, `ZeroPadPieceCommitment` and `MakeDealUnsigned`.
pub mod Offer
use filclient.Base.{
  ℕ, ◌+◌, ◌*◌, ◌^◌, String, str_append, str_eq, Bool, Option, none, some, List, ltb, ◌==◌, u64,
  if◌then◌else◌,
}
use filclient.Base.Big.{Big}
use filclient.Errors.{GoError, message, error_text, Result, ok, err, or_convert}
use filclient.Errors.Action.{Action, return, ◌>>=◌}
use filclient.Deal.{
  DealPieceInfo, DealProposal, Market, DealConfig, DealOption, default_deal_config, apply_options,
}

abbrev pub epochs_per_hour : ℕ
epochs_per_hour = 60 * 2

module _ {Int : Type 0} (big : Big Int) where
  -- The price of one epoch: a price per GiB for the piece's size.
  abbrev pub price_per_epoch_of : Int → ℕ → Int
  price_per_epoch_of price size = big.div (big.mul (big.new size) price) (big.new (2 ^ 30))

  unfoldable pub compute_price : Int → ℕ → ℕ → Int
  compute_price ask_price size duration =
      big.mul (big.div (big.mul (big.new size) ask_price) (big.new (2 ^ 30))) (big.new duration)

module _ {W Int Label : Type 0} (big : Big Int) (market : Market W Int Label)
    (client_addr : String) where
  unfoldable pub zero_pad_piece_commitment : String → ℕ → ℕ → Action W String
  zero_pad_piece_commitment c cur_size to_size = do
    raw ← λ w.
        (market.pad_commp (market.hash_tail c) (market.padded cur_size) (market.padded to_size), w)
    λ w. (market.data_commitment_to_cid raw, w)

  -- The piece commitment is computed if none was given.
  computed_piece : String × (ℕ × ℕ) → DealPieceInfo
  computed_piece (piece_cid, (payload_size, unpadded_piece_size)) = record {
    cid = piece_cid;
    size = market.padded unpadded_piece_size;
    payload_size = payload_size;
  }

  with_piece_info : String → DealConfig W Int Label → Action W (DealConfig W Int Label)
  unfolding computed_piece
  with_piece_info payload cfg =
      if str_eq cfg.piece_info.cid ""
      then (do
        computed ← market.compute_piece_comm payload
        return (record cfg { piece_info = computed_piece computed }))
      else return cfg

  -- A piece that is too small is padded.
  with_min_size : DealConfig W Int Label → Action W (DealConfig W Int Label)
  unfolding zero_pad_piece_commitment
  with_min_size cfg =
      if ltb cfg.piece_info.size cfg.min_size
      then (do
        padded_piece_cid ←
            zero_pad_piece_commitment cfg.piece_info.cid (market.unpadded cfg.piece_info.size)
              (market.unpadded cfg.min_size)
        return (record cfg {
          piece_info = record cfg.piece_info { cid = padded_piece_cid; size = cfg.min_size };
        }))
      else return cfg

  start_of : ℕ → DealConfig W Int Label → ℕ
  start_of height cfg =
      if cfg.start_epoch == 0 then u64 (height + epochs_per_hour * 24 * 7) else cfg.start_epoch

  end_of : ℕ → ℕ → DealConfig W Int Label → ℕ
  end_of start duration cfg = if cfg.end_epoch == 0 then u64 (start + duration) else cfg.end_epoch

  price_of : Int → ℕ → Option Int → Int
  price_of price size none = price_per_epoch_of big price size
  price_of price size (some per_epoch) = per_epoch

  label_error : GoError → GoError
  label_error e = message (str_append "failed to construct label field: " (error_text e))

  label_of : String → Label → Result Label
  unfolding label_error
  label_of payload label =
      if market.is_empty_label label
      then or_convert label_error (market.label_field payload)
      else ok label

  -- The provider's collateral is ten percent above the least.
  proposal_of : String → Int → ℕ → ℕ → Int → DealConfig W Int Label → Label → DealProposal Int Label
  unfolding start_of end_of price_of
  proposal_of sp price duration height least cfg label = record {
    piece_cid = cfg.piece_info.cid;
    piece_size = cfg.piece_info.size;
    verified_deal = cfg.verified;
    client = client_addr;
    provider = sp;
    label = label;
    start_epoch = start_of height cfg;
    end_epoch = end_of (start_of height cfg) duration cfg;
    storage_price_per_epoch = price_of price cfg.piece_info.size cfg.price_per_epoch;
    provider_collateral = big.div (big.mul least (big.new 11)) (big.new 10);
    client_collateral = big.new 0;
  }

  -- What follows the piece: the height of the chain, the collateral, the label, the encoding.
  module _ (sp payload : String) (price : Int) (duration : ℕ) (cfg : DealConfig W Int Label) where
    encode : ℕ → Int → Label → Action W (DealProposal Int Label × String)
    unfolding proposal_of
    encode height least label = do
      raw ← λ w. (market.dump (proposal_of sp price duration height least cfg label), w)
      return (proposal_of sp price duration height least cfg label, raw)

    with_label : ℕ → Int → Action W (DealProposal Int Label × String)
    unfolding encode label_of
    with_label height least = do
      label ← λ w. (label_of payload cfg.label, w)
      encode height least label

    with_collateral : ℕ → Action W (DealProposal Int Label × String)
    unfolding with_label
    with_collateral height = do
      least ← market.collateral_min cfg.piece_info.size cfg.verified
      with_label height least

    propose : Action W (DealProposal Int Label × String)
    unfolding with_collateral
    propose = do height ← market.chain_height; with_collateral height

  with_padding :
      String
      → String
      → Int
      → ℕ
      → DealConfig W Int Label
      → Action W (DealProposal Int Label × String)
  unfolding with_min_size propose
  with_padding sp payload price duration found = do
    cfg ← with_min_size found
    propose sp payload price duration cfg

  unfoldable pub make_deal_unsigned :
      String
      → String
      → Int
      → ℕ
      → List (DealOption W Int Label)
      → Action W (DealProposal Int Label × String)
  unfolding with_piece_info with_padding
  make_deal_unsigned sp payload price duration options = do
    found ← with_piece_info payload (apply_options options (default_deal_config market))
    with_padding sp payload price duration found
