-- ===== src/Deal/Tests.antt =====
-- A market and streams without state, and the theorems of Deal at them.
use filclient.Base.{
  ℕ, ◌+◌, ◌^◌, String, str_append, true, false, ◌≡◌, refl, ltb, none, some, List, [], ◌∷◌,
}
use filclient.Base.Big.{nat_big}
use filclient.Errors.{message, ok, err}
use filclient.Errors.Action.{Succeeds}
use filclient.Connection.{Network, stream_to_miner, deal_protocol_v110}
use filclient.Deal.{
  NetProposal, Market, DealOption, default_deal_config, apply_options, deal_with_min_size,
  deal_with_verified,
}
use filclient.Deal.Proposal.{make_deal_unsigned}
use filclient.Deal.Proposal.Offer.{IsOffer, make_deal_unsigned-IsOffer}
use filclient.Deal.Making.{make_deal_with_options, make_deal}
use filclient.Deal.Making.Agreed.{
  IsAgreed, make_deal_with_options-IsAgreed, make_deal-raw_block_size,
}
use filclient.Deal.Sending.{
  Streams, Codec, ProviderResponse, waiting_for_data, protected_rpc, send_proposal_v110,
}
use filclient.Deal.Sending.Phase.{Says, IsAnswer, IsAccepted, send_proposal_v110-Says}
use filclient.Deal.Boost.{ProposalV120Config, BoostResponse, DealParams}

abbrev pub sample_market : Market (Unit {0}) ℕ String
sample_market = record {
  compute_piece_comm = λ payload w. (ok ("piece", (500, 1016)), w);
  padded = λ n. n + 8;
  unpadded = λ n. n;
  hash_tail = λ c. c;
  pad_commp = λ c a b. ok c;
  data_commitment_to_cid = λ c. ok (str_append c "-padded");
  chain_height = λ w. (ok 1000, w);
  collateral_min = λ size verified w. (ok 100, w);
  empty_label = "";
  is_empty_label = λ l. true;
  label_field = λ payload. ok payload;
  dump = λ proposal. ok proposal.piece_cid;
  wallet_sign = λ addr raw w. (ok (str_append addr raw), w);
}

abbrev sample_options : List (DealOption (Unit {0}) ℕ String)
sample_options = deal_with_min_size 2048 ∷ deal_with_verified true ∷ []

-- The piece of 1,024 bytes is padded to 2,048.
deal_is_made :
    (make_deal_with_options nat_big sample_market "client" "f01" "root"
      (2 ^ 21)
      10
      sample_options
      tt).0
    ≡ ok (record {
      proposal = record {
        piece_cid = "piece-padded";
        piece_size = 2048;
        verified_deal = true;
        client = "client";
        provider = "f01";
        label = "root";
        start_epoch = 21160;
        end_epoch = 21170;
        storage_price_per_epoch = 4;
        provider_collateral = 110;
        client_collateral = 0;
      };
      client_signature = "clientpiece-padded";
      transfer_type = "graphsync";
      root = "root";
      raw_block_size = 0;
      fast_retrieval = false;
    })
unfolding make_deal_with_options
deal_is_made = refl

make_deal_unsigned-IsOffer_sample :
    Succeeds
      (IsOffer nat_big sample_market "client" "f01"
        (2 ^ 21)
        10
        (apply_options sample_options (default_deal_config sample_market)))
      (make_deal_unsigned nat_big sample_market "client" "f01" "root"
        (2 ^ 21)
        10
        sample_options
        tt).0
make_deal_unsigned-IsOffer_sample =
    make_deal_unsigned-IsOffer nat_big sample_market "client" "f01" "root" (2 ^ 21) 10
      sample_options tt

make_deal_with_options-IsAgreed_example :
    Succeeds
      (IsAgreed nat_big sample_market "client" "f01" "root"
        (2 ^ 21)
        10
        (apply_options sample_options (default_deal_config sample_market)))
      (make_deal_with_options nat_big sample_market "client" "f01" "root"
        (2 ^ 21)
        10
        sample_options
        tt).0
make_deal_with_options-IsAgreed_example =
    make_deal_with_options-IsAgreed nat_big sample_market "client" "f01" "root" (2 ^ 21) 10
      sample_options tt

make_deal-raw_block_size_example :
    Succeeds
      (λ net.
        (net.proposal.provider ≡ "f01")
        × ((ltb net.proposal.piece_size 2048 ≡ false)
            × ((net.fast_retrieval ≡ true) × (net.raw_block_size ≡ 0))))
      (make_deal nat_big sample_market "client" "f01" "root" (2 ^ 21) 2048 10 true false tt).0
make_deal-raw_block_size_example =
    make_deal-raw_block_size nat_big sample_market "client" "f01" "root" (2 ^ 21) 2048 10 true false
      tt

abbrev sample_network : Network (Unit {0})
sample_network = record {
  state_miner_info =
      λ maddr w. (ok (record { peer_id = some "p"; multiaddrs = "a" ∷ []; owner = "o" }), w);
  new_multiaddr_bytes = λ s. ok s;
  connect = λ info w. (ok tt, w);
  new_stream = λ p protos w. (ok "s", w);
  first_supported_protocol = λ p protos w. (ok "", w);
  peerstore_get = λ p w. (err (message "none"), w);
}

abbrev sample_streams : Streams (Unit {0})
sample_streams = record {
  remote_peer = λ s. "p";
  protect = λ p tag w. w;
  unprotect = λ p tag w. w;
  close = λ s w. w;
  set_deadline = λ s w. w;
  reset_deadline = λ s w. w;
  has_deadline = true;
}

-- A provider that answers every request in the same way.
abbrev answering : {Req Resp : Type 0} → Resp → Codec (Unit {0}) Req Resp
answering resp = record { write = λ s req w. (ok tt, w); read = λ s w. (ok resp, w) }

abbrev pub sample_proposal : NetProposal ℕ String
sample_proposal = record {
  proposal = record {
    piece_cid = "piece";
    piece_size = 2048;
    verified_deal = true;
    client = "client";
    provider = "f01";
    label = "root";
    start_epoch = 21160;
    end_epoch = 21170;
    storage_price_per_epoch = 4;
    provider_collateral = 110;
    client_collateral = 0;
  };
  client_signature = "signature";
  transfer_type = "libp2p";
  root = "root";
  raw_block_size = 500;
  fast_retrieval = true;
}

abbrev accepting : ProviderResponse
accepting = record { state = waiting_for_data; message = ""; proposal = "proposal" }

proposal_is_accepted :
    (send_proposal_v110 sample_streams sample_network
      (answering accepting)
      (λ s. "")
      sample_proposal
      "proposal"
      tt).0
    ≡ (false, none)
unfolding send_proposal_v110
proposal_is_accepted = refl

send_proposal_v110-Says_example :
    let opening = stream_to_miner sample_network "f01" (deal_protocol_v110 ∷ []) tt in
    Says
      (IsAnswer opening.0
        (λ s.
          protected_rpc sample_streams (answering accepting) "SendProposalV110" s sample_proposal)
        opening.1)
      (IsAccepted (λ s. "") "proposal")
      (send_proposal_v110 sample_streams sample_network
        (answering accepting)
        (λ s. "")
        sample_proposal
        "proposal"
        tt).0
send_proposal_v110-Says_example =
    send_proposal_v110-Says sample_streams sample_network (answering accepting) (λ s. "")
      sample_proposal "proposal" tt

abbrev pub sample_config : ProposalV120Config
sample_config = record {
  deal_uuid = "random";
  transfer = record { type_name = ""; client_id = ""; params = ""; size = 0 };
  offline = false;
  skip_ipni_announce = false;
}

abbrev boost_accepts : Codec (Unit {0}) (DealParams ℕ String) BoostResponse
boost_accepts = answering (record { accepted = true; message = "" })
