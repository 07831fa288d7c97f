-- ===== src/Deal/Sending.antt =====
-- filclient.go: `doRpc`, `GetAsk`, and sending a proposal (`SendProposalV110`, `SendProposalV120`).
pub mod Phase
use filclient.Base.{
  ℕ, String, str_append, str_eq, Bool, true, false, not, Option, none, some, List, [], ◌∷◌,
  if◌then◌else◌,
}
use filclient.Errors.{GoError, message, wrap, error_text, Result, ok, err, or_convert}
use filclient.Errors.Action.{Action, return, ◌>>=◌, wrapping}
use filclient.Strconv.{format_uint}
use filclient.Connection.{Network, stream_to_miner, deal_protocol_v110, deal_protocol_v120}
use filclient.Deal.{NetProposal}

-- The states of a deal that the client names, and the others by their number.
pub data StorageDealStatus : Type 0 where
  deal_unknown proposal_rejected proposal_accepted staged sealing deal_error publishing verify_data
        awaiting_pre_commit waiting_for_data :
      StorageDealStatus
  other_deal_status : ℕ → StorageDealStatus

-- The part of `network.SignedResponse` that is read.
pub record ProviderResponse : Type 0 where
  pub state : StorageDealStatus
  pub message : String
  pub proposal : String

-- A libp2p stream and the connection manager, and the encodings of requests and responses.
pub record Streams (W : Type 0) : Type 0 where
  pub remote_peer : String → String
  pub protect : String → String → W → W
  pub unprotect : String → String → W → W
  pub close : String → W → W
  pub set_deadline : String → W → W
  pub reset_deadline : String → W → W
  pub has_deadline : Bool

-- Writing a request to a stream and reading a response from it.
pub record Codec (W Req Resp : Type 0) : Type 0 where
  pub write : String → Req → Action W (Unit {0})
  pub read : String → Action W Resp

module _ {W : Type 0} (streams : Streams W) where
  module _ {Req Resp : Type 0} (codec : Codec W Req Resp) where
    exchange : String → Req → Action W Resp
    exchange s req = do
      done ← wrapping "failed to send request" (codec.write s req)
      wrapping "failed to read response" (codec.read s)

    -- The deadline is taken back when the exchange is over.
    unfoldable pub do_rpc : String → Req → Action W Resp
    unfolding exchange
    do_rpc s req w =
        if streams.has_deadline
        then (let (r, w') = exchange s req (streams.set_deadline s w) in
            (r, streams.reset_deadline s w'))
        else exchange s req w

    -- The peer is protected while the exchange lasts, and the stream is closed.
    unfoldable pub protected_rpc : String → String → Req → Action W Resp
    unfolding do_rpc
    protected_rpc tag s req w =
        let (r, w') = do_rpc s req (streams.protect (streams.remote_peer s) tag w) in
        (r, streams.close s (streams.unprotect (streams.remote_peer s) tag w'))

  module _ (net : Network W) where
    unfoldable pub get_ask : {Ask : Type 0} → Codec W String Ask → String → Action W Ask
    unfolding protected_rpc stream_to_miner
    get_ask codec maddr = do
      s ← stream_to_miner net maddr ("/fil/storage/ask/1.1.0" ∷ [])
      wrapping "get ask rpc" (protected_rpc codec "GetAsk" s maddr)

-- The two results of a send: whether the provider answered, and the error.
abbrev pub Sent : Type 0
Sent = Bool × Option GoError

module _ (status_number : StorageDealStatus → String) where
  same_proposal : String → String → Sent
  same_proposal prop_cid proposal = if str_eq prop_cid proposal then (false, none) else (
    true,
    some (
        message (
          str_append "proposal in saved deal did not match response ("
            (str_append prop_cid (str_append " != " (str_append proposal ")"))))),
  )

  -- The provider's answer to a proposal.
  judge_state : String → ProviderResponse → StorageDealStatus → Sent
  unfolding same_proposal
  judge_state prop_cid resp deal_error =
      (true, some (message (str_append "error response from miner: " resp.message)))
  judge_state prop_cid resp proposal_rejected =
      (true, some (message (str_append "deal rejected by miner: " resp.message)))
  judge_state prop_cid resp waiting_for_data = same_proposal prop_cid resp.proposal
  judge_state prop_cid resp proposal_accepted = same_proposal prop_cid resp.proposal
  judge_state prop_cid resp _ = (
    true,
    some (
        message (
          str_append "unrecognized response from miner: "
            (str_append (status_number resp.state) (str_append " " resp.message)))),
  )

  unfoldable pub judge_v110 : String → ProviderResponse → Sent
  unfolding judge_state
  judge_v110 prop_cid resp = judge_state prop_cid resp resp.state

-- A send with the judgement of what the exchange gave.
abbrev pub judged : {Resp : Type 0} → (Resp → Sent) → Result Resp → Sent
judged judge (ok resp) = judge resp
judged judge (err e) = (false, some (wrap "send proposal rpc" e))

abbrev pub opened :
    {W Resp : Type 0} → (Resp → Sent) → Result String → (String → Action W Resp) → W → Sent × W
opened judge (ok s) rpc w = (judged judge (rpc s w).0, (rpc s w).1)
opened judge (err e) rpc w = ((false, some (wrap "opening stream to miner" e)), w)

module _ {W : Type 0} (streams : Streams W) (net : Network W) {Int Label : Type 0} where
  unfoldable pub send_proposal_v110 :
      Codec W (NetProposal Int Label) ProviderResponse
      → (StorageDealStatus → String)
      → NetProposal Int Label
      → String
      → W
      → Sent × W
  unfolding judge_v110 protected_rpc stream_to_miner
  send_proposal_v110 codec status_number netprop prop_cid w =
      let (s, w') = stream_to_miner net netprop.proposal.provider (deal_protocol_v110 ∷ []) w in
      opened (judge_v110 status_number prop_cid) s
        (λ s'. protected_rpc streams codec "SendProposalV110" s' netprop) w'
