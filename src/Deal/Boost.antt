-- ===== src/Deal/Boost.antt =====
-- filclient.go: the options of a v1.2.0 proposal, and sending it (`SendProposalV120`).
pub mod Proposed
use filclient.Base.{
  ℕ, String, str_append, Bool, true, false, not, Option, none, some, List, [], ◌∷◌, if◌then◌else◌,
}
use filclient.Errors.{GoError, message, error_text, Result, ok, err, or_convert}
use filclient.Strconv.{format_uint}
use filclient.Connection.{Network, stream_to_miner, deal_protocol_v120}
use filclient.Deal.{NetProposal}
use filclient.Deal.Sending.{Streams, Codec, protected_rpc, Sent, opened}

-- A transfer of boost, `smtypes.Transfer`.
pub record BoostTransfer : Type 0 where
  pub type_name : String
  pub client_id : String
  pub params : String
  pub size : ℕ

pub record ProposalV120Config : Type 0 where
  pub deal_uuid : String
  pub transfer : BoostTransfer
  pub offline : Bool
  pub skip_ipni_announce : Bool

-- `smtypes.DealParams`, and the part of `smtypes.DealResponse` that is read.
pub record DealParams (Int Label : Type 0) : Type 0 where
  pub deal_uuid : String
  pub client_deal_proposal : NetProposal Int Label
  pub deal_data_root : String
  pub transfer : BoostTransfer
  pub remove_unsealed_copy : Bool
  pub is_offline : Bool
  pub skip_ipni_announce : Bool

pub record BoostResponse : Type 0 where
  pub accepted : Bool
  pub message : String

unfoldable pub judge_v120 : BoostResponse → Sent
judge_v120 resp =
    if resp.accepted
    then (false, none)
    else (true, some (message (str_append "deal proposal rejected: " resp.message)))

-- An option of a v1.2.0 proposal may fail.
abbrev pub ProposalV120Option : Type 0 → Type 0 → Type 0
ProposalV120Option Int Label =
    ProposalV120Config → NetProposal Int Label → Result ProposalV120Config

params_error : GoError → GoError
params_error e = message (str_append "failed to marshal libp2p transfer params: " (error_text e))

apply_next :
    (ProposalV120Config → Result ProposalV120Config)
    → Result ProposalV120Config
    → Result ProposalV120Config
apply_next rest (ok cfg) = rest cfg
apply_next rest (err e) =
    err
      (message (str_append "failed to apply option filclient.ProposalV120Option: " (error_text e)))

module _ {Int Label : Type 0} where
  abbrev pub proposal_v120_with_deal_uuid : String → ProposalV120Option Int Label
  proposal_v120_with_deal_uuid deal_uuid cfg netprop = ok (record cfg { deal_uuid = deal_uuid })

  abbrev pub proposal_v120_with_transfer : BoostTransfer → ProposalV120Option Int Label
  proposal_v120_with_transfer transfer cfg netprop = ok (record cfg { transfer = transfer })

  abbrev pub proposal_v120_with_offline : Bool → ProposalV120Option Int Label
  proposal_v120_with_offline offline cfg netprop = ok (record cfg { offline = offline })

  abbrev pub proposal_v120_with_skip_ipni_announce : Bool → ProposalV120Option Int Label
  proposal_v120_with_skip_ipni_announce skip cfg netprop =
      ok (record cfg { skip_ipni_announce = skip })

  abbrev pub proposal_v120_with_config : ProposalV120Config → ProposalV120Option Int Label
  proposal_v120_with_config new_cfg cfg netprop = ok new_cfg

  with_params :
      ℕ → ProposalV120Config → NetProposal Int Label → Result String → Result ProposalV120Config
  with_params client_id cfg netprop (err e) = err e
  with_params client_id cfg netprop (ok params) = ok (record cfg {
    transfer = record {
      type_name = "libp2p";
      client_id = format_uint client_id;
      params = params;
      size = netprop.raw_block_size;
    };
  })

  -- `marshal_request` encodes a URL and the authorization header of a token.
  unfoldable pub proposal_v120_with_libp2p_transfer :
      (String → String → Result String) → String → String → ℕ → ProposalV120Option Int Label
  unfolding params_error with_params
  proposal_v120_with_libp2p_transfer marshal_request announce_addr auth_token client_id cfg
        netprop =
      with_params client_id cfg netprop (
        or_convert params_error (marshal_request (str_append "libp2p://" announce_addr) auth_token))

  unfoldable pub apply_v120_options :
      List (ProposalV120Option Int Label)
      → NetProposal Int Label
      → ProposalV120Config
      → Result ProposalV120Config
  unfolding apply_next
  apply_v120_options [] netprop cfg = ok cfg
  apply_v120_options (option ∷ options) netprop cfg =
      apply_next (apply_v120_options options netprop) (option cfg netprop)

  abbrev pub deal_params : NetProposal Int Label → ProposalV120Config → DealParams Int Label
  deal_params netprop cfg = record {
    deal_uuid = cfg.deal_uuid;
    client_deal_proposal = netprop;
    deal_data_root = netprop.root;
    transfer = cfg.transfer;
    remove_unsealed_copy = not netprop.fast_retrieval;
    is_offline = cfg.offline;
    skip_ipni_announce = cfg.skip_ipni_announce;
  }

  module _ {W : Type 0} (streams : Streams W) (net : Network W) where
    send_v120 :
        Codec W (DealParams Int Label) BoostResponse
        → NetProposal Int Label
        → Result ProposalV120Config
        → W
        → Sent × W
    unfolding judge_v120 protected_rpc stream_to_miner
    send_v120 codec netprop (err e) w = ((false, some e), w)
    send_v120 codec netprop (ok cfg) w =
        let (s, w') = stream_to_miner net netprop.proposal.provider (deal_protocol_v120 ∷ []) w in
        opened judge_v120 s
          (λ s'. protected_rpc streams codec "SendProposalV120" s' (deal_params netprop cfg)) w'

    -- `default` is `DefaultProposalV120Config()`, whose identifier is random.
    unfoldable pub send_proposal_v120_with_options :
        Codec W (DealParams Int Label) BoostResponse
        → ProposalV120Config
        → NetProposal Int Label
        → List (ProposalV120Option Int Label)
        → W
        → Sent × W
    unfolding send_v120 apply_v120_options
    send_proposal_v120_with_options codec default netprop options w =
        send_v120 codec netprop (apply_v120_options options netprop default) w

    unfoldable pub send_proposal_v120 :
        Codec W (DealParams Int Label) BoostResponse
        → ProposalV120Config
        → (String → String → Result String)
        → ℕ
        → NetProposal Int Label
        → String
        → String
        → String
        → W
        → Sent × W
    unfolding send_proposal_v120_with_options proposal_v120_with_libp2p_transfer
    send_proposal_v120 codec default marshal_request dbid netprop deal_uuid announce auth_token w =
        send_proposal_v120_with_options codec default netprop
          (proposal_v120_with_deal_uuid deal_uuid
            ∷ proposal_v120_with_libp2p_transfer marshal_request announce auth_token dbid
            ∷ [])
          w
