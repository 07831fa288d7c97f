-- ===== src/Deal/Proposal/Offer.antt =====
-- filclient.go: what a deal that was made offers.
use filclient.Base.{
  ℕ, String, str_eq, false, ◌≡◌, refl, sym, ap, ◌∙◌, Option, none, List, ltb, Bool-cases, inl, inr,
  arith,
}
use filclient.Base.Big.{Big}
use filclient.Errors.{ok}
use filclient.Errors.Action.{
  return, Succeeds, Succeeds-after, Succeeds-after-Succeeds, Succeeds-mono,
}
use filclient.Deal.{
  DealPieceInfo, DealProposal, Market, DealConfig, DealOption, default_deal_config, apply_options,
}
use filclient.Deal.Proposal.{
  compute_price, with_piece_info, with_min_size, zero_pad_piece_commitment, propose, label_of,
  price_of, proposal_of, computed_piece, encode, with_label, with_collateral, with_padding,
  make_deal_unsigned,
}

ltb-same : (n : ℕ) → ltb n n ≡ false
ltb-same n = ground arith

module _ {W Int Label : Type 0} (big : Big Int) (market : Market W Int Label)
    (client_addr : String) where
  -- A proposal to a provider under a configuration: its encoding, its parties, its size, and its
  -- price over all epochs, which is what `ComputePrice` gives unless the configuration has one.
  pub record IsOffer (sp : String) (price : Int) (duration : ℕ) (cfg : DealConfig W Int Label)
      (made : DealProposal Int Label × String) : Type 0 where
    pub encoded : market.dump made.0 ≡ ok made.1
    pub to_provider : made.0.provider ≡ sp
    pub of_client : made.0.client ≡ client_addr
    pub is_verified : made.0.verified_deal ≡ cfg.verified
    pub large_enough : ltb made.0.piece_size cfg.min_size ≡ false
    pub priced :
        cfg.price_per_epoch ≡ none
        → big.mul made.0.storage_price_per_epoch (big.new duration)
          ≡ compute_price big price made.0.piece_size duration

  -- The later steps change neither what was asked for nor what the caller set.
  pub record Kept (cfg found : DealConfig W Int Label) : Type 0 where
    pub same_verified : found.verified ≡ cfg.verified
    pub same_min_size : found.min_size ≡ cfg.min_size
    pub same_price : found.price_per_epoch ≡ cfg.price_per_epoch

  Kept-piece_info :
      (cfg : DealConfig W Int Label) (info : DealPieceInfo)
      → Kept cfg (record cfg { piece_info = info })
  Kept-piece_info cfg info = record {
    same_verified = refl;
    same_min_size = refl;
    same_price = refl;
  }

  padded-Kept :
      (cfg : DealConfig W Int Label) (c : String)
      → let found = record cfg {
        piece_info = record cfg.piece_info { cid = c; size = cfg.min_size };
      } in
        Kept cfg found × (ltb found.piece_info.size found.min_size ≡ false)
  padded-Kept cfg c = (
    record { same_verified = refl; same_min_size = refl; same_price = refl },
    ltb-same cfg.min_size,
  )

  with_piece_info-Kept :
      (payload : String) (cfg : DealConfig W Int Label) (w : W)
      → Succeeds (Kept cfg) (with_piece_info big market client_addr payload cfg w).0
  unfolding with_piece_info
  with_piece_info-Kept payload cfg w = elim (Bool-cases (str_eq cfg.piece_info.cid "")) [
    | inl e ↦ rw e (
        Succeeds-after (Kept cfg) (market.compute_piece_comm payload w).0 _
          (λ b. return (record cfg { piece_info = computed_piece big market client_addr b }))
          (λ b q v. Kept-piece_info cfg (computed_piece big market client_addr b)))
    | inr e ↦ rw e (Kept-piece_info cfg cfg.piece_info)
  ]

  with_min_size-Kept :
      (cfg : DealConfig W Int Label) (w : W)
      → Succeeds
          (λ found. Kept cfg found × (ltb found.piece_info.size found.min_size ≡ false))
          (with_min_size big market client_addr cfg w).0
  unfolding with_min_size
  with_min_size-Kept cfg w = elim (Bool-cases (ltb cfg.piece_info.size cfg.min_size)) [
    | inl e ↦ rw e (
        Succeeds-after
          (λ found. Kept cfg found × (ltb found.piece_info.size found.min_size ≡ false))
          (zero_pad_piece_commitment big market client_addr cfg.piece_info.cid
            (market.unpadded cfg.piece_info.size) (market.unpadded cfg.min_size) w).0
          _
          (λ c.
            return
              (record cfg { piece_info = record cfg.piece_info { cid = c; size = cfg.min_size } }))
          (λ c q v. padded-Kept cfg c))
    | inr e ↦ rw e (Kept-piece_info cfg cfg.piece_info, e)
  ]

  price_of-compute_price :
      (price : Int) (size duration : ℕ) (set : Option Int)
      → set ≡ none
      → big.mul (price_of big market client_addr price size set) (big.new duration)
        ≡ compute_price big price size duration
  unfolding price_of compute_price
  price_of-compute_price price size duration set e = rw e refl

  proposal_of-IsOffer :
      (sp : String) (price : Int) (duration height : ℕ) (least : Int) (cfg : DealConfig W Int Label)
      (label : Label) (raw : String)
      → ltb cfg.piece_info.size cfg.min_size ≡ false
      → let proposal =
          proposal_of big market client_addr sp price duration height least cfg label in
        market.dump proposal ≡ ok raw → IsOffer sp price duration cfg (proposal, raw)
  unfolding proposal_of
  proposal_of-IsOffer sp price duration height least cfg label raw large enc = record {
    encoded = enc;
    to_provider = refl;
    of_client = refl;
    is_verified = refl;
    large_enough = large;
    priced = λ e. price_of-compute_price price cfg.piece_info.size duration cfg.price_per_epoch e;
  }

  propose-IsOffer :
      (sp payload : String) (price : Int) (duration : ℕ) (cfg : DealConfig W Int Label) (w : W)
      → ltb cfg.piece_info.size cfg.min_size ≡ false
      → Succeeds
          (IsOffer sp price duration cfg)
          (propose big market client_addr sp payload price duration cfg w).0
  unfolding propose with_collateral with_label encode
  propose-IsOffer sp payload price duration cfg w large =
      Succeeds-after (IsOffer sp price duration cfg) (market.chain_height w).0 _
        (with_collateral big market client_addr sp payload price duration cfg)
        λ height q v.
          Succeeds-after (IsOffer sp price duration cfg)
            (market.collateral_min cfg.piece_info.size cfg.verified v).0 _
            (with_label big market client_addr sp payload price duration cfg height)
            λ least q' v'.
              Succeeds-after (IsOffer sp price duration cfg)
                (label_of big market client_addr payload cfg.label) v'
                (encode big market client_addr sp payload price duration cfg height least)
                λ label q'' v''.
                  Succeeds-after (IsOffer sp price duration cfg)
                    (market.dump
                      (proposal_of big market client_addr sp price duration height least cfg label))
                    v''
                    (λ raw. return (
                      proposal_of big market client_addr sp price duration height least cfg label,
                      raw,
                    ))
                    λ raw enc u.
                      proposal_of-IsOffer sp price duration height least cfg label raw large enc

  IsOffer-Kept :
      (sp : String) (price : Int) (duration : ℕ) (cfg found : DealConfig W Int Label)
      (made : DealProposal Int Label × String)
      → Kept cfg found
      → IsOffer sp price duration found made
      → IsOffer sp price duration cfg made
  IsOffer-Kept sp price duration cfg found made kept offer = record {
    encoded = offer.encoded;
    to_provider = offer.to_provider;
    of_client = offer.of_client;
    is_verified = offer.is_verified ∙ kept.same_verified;
    large_enough = ap (ltb made.0.piece_size) (sym kept.same_min_size) ∙ offer.large_enough;
    priced = λ e. offer.priced (kept.same_price ∙ e);
  }

  with_padding-IsOffer :
      (sp payload : String) (price : Int) (duration : ℕ) (cfg found : DealConfig W Int Label)
      (w : W)
      → Kept cfg found
      → Succeeds
          (IsOffer sp price duration cfg)
          (with_padding big market client_addr sp payload price duration found w).0
  unfolding with_padding
  with_padding-IsOffer sp payload price duration cfg found w kept =
      Succeeds-after-Succeeds (IsOffer sp price duration cfg)
        (λ padded. Kept found padded × (ltb padded.piece_info.size padded.min_size ≡ false))
        (with_min_size big market client_addr found w).0 _
        (propose big market client_addr sp payload price duration) (with_min_size-Kept found w)
        (λ padded facts v.
          Succeeds-mono (IsOffer sp price duration padded) (IsOffer sp price duration cfg) _
            (λ made offer.
              IsOffer-Kept sp price duration cfg found made kept
                (IsOffer-Kept sp price duration found padded made facts.0 offer))
            (propose-IsOffer sp payload price duration padded v facts.1))

-- When `MakeDealUnsigned` succeeds, the bytes it returns encode the proposal it returns, which is
-- from the client to the provider, is verified as asked for, is for a piece not smaller than the
-- least size asked for, and, unless the options set a price per epoch, costs over the whole
-- duration what `ComputePrice` gives.
pub make_deal_unsigned-IsOffer :
    {W Int Label : Type 0} (big : Big Int) (market : Market W Int Label)
    (client_addr sp payload : String) (price : Int) (duration : ℕ)
    (options : List (DealOption W Int Label)) (w : W)
    → Succeeds
        (IsOffer big market client_addr sp price duration
          (apply_options options (default_deal_config market)))
        (make_deal_unsigned big market client_addr sp payload price duration options w).0
unfolding make_deal_unsigned
make_deal_unsigned-IsOffer {W} {Int} {Label} big market client_addr sp payload price duration
      options w =
    Succeeds-after-Succeeds (IsOffer big market client_addr sp price duration cfg)
      (Kept big market client_addr cfg) (with_piece_info big market client_addr payload cfg w).0 _
      (with_padding big market client_addr sp payload price duration)
      (with_piece_info-Kept big market client_addr payload cfg w)
      (λ found kept v.
        with_padding-IsOffer big market client_addr sp payload price duration cfg found v kept)
  where
    cfg : DealConfig W Int Label
    cfg = apply_options options (default_deal_config market)
