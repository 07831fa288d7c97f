-- ===== src/Deal/Sending/Phase.antt =====
-- filclient.go: what the two results of `SendProposalV110` say.
use filclient.Base.{
  String, str_eq, eq_iff, true, false, ◌≡◌, refl, ap, ◌⊎◌, inl, inr, none, some, [], ◌∷◌,
  Bool-cases,
}
use filclient.Errors.{GoError, Result, ok, err}
use filclient.Connection.{Network, stream_to_miner, deal_protocol_v110}
use filclient.Deal.{NetProposal}
use filclient.Deal.Sending.{
  StorageDealStatus, deal_unknown, proposal_rejected, proposal_accepted, staged, sealing,
  deal_error, publishing, verify_data, awaiting_pre_commit, waiting_for_data, other_deal_status,
  ProviderResponse, Streams, Codec, protected_rpc, Sent, same_proposal, judge_state, judge_v110,
  judged, opened, send_proposal_v110,
}

-- What a result says, where `Answer` holds of what the provider answered: without an error, there
-- is an answer that `Good` holds of; with `true`, there is an answer and an error.
pub record Says {Resp : Type 0} (Answer Good : Resp → Type 0) (sent : Sent) : Type 0 where
  pub success : sent.1 ≡ none → (resp : Resp) × (Answer resp × Good resp)
  pub phase : sent.0 ≡ true → (resp : Resp) × (Answer resp × ((e : GoError) × (sent.1 ≡ some e)))

-- No error and no answer is not a result.
abbrev pub IsJudged : {Resp : Type 0} → (Resp → Type 0) → Resp → Sent → Type 0
IsJudged Good resp sent =
    ((sent ≡ (false, none)) × Good resp) ⊎ ((e : GoError) × (sent ≡ (true, some e)))

module _ {Resp : Type 0} (Answer Good : Resp → Type 0) where
  IsJudged-Says :
      (resp : Resp) (sent : Sent) → Answer resp → IsJudged Good resp sent → Says Answer Good sent
  IsJudged-Says resp sent a (inl (e, g)) = record {
    success = λ h. (resp, (a, g));
    phase = λ h. absurd (cc (e, h));
  }
  IsJudged-Says resp sent a (inr (er, e)) = record {
    success = λ h. absurd (cc (e, h));
    phase = λ h. (resp, (a, (er, ap (λ s. s.1) e)));
  }

  pub judged-Says :
      (judge : Resp → Sent) (r : Result Resp)
      → ((resp : Resp) → IsJudged Good resp (judge resp))
      → ((resp : Resp) → r ≡ ok resp → Answer resp)
      → Says Answer Good (judged judge r)
  judged-Says judge (ok resp) h a = IsJudged-Says resp (judge resp) (a resp refl) (h resp)
  judged-Says judge (err e) h a = record { success = λ q. absurd (cc); phase = λ q. absurd (cc) }

-- The stream was opened and the exchange on it gave the answer.
abbrev pub IsAnswer :
    {W Resp : Type 0} → Result String → (String → W → Result Resp × W) → W → Resp → Type 0
IsAnswer opening rpc w resp = (s : String) × ((opening ≡ ok s) × ((rpc s w).0 ≡ ok resp))

pub opened-Says :
    {W Resp : Type 0} (Good : Resp → Type 0) (judge : Resp → Sent) (opening : Result String)
    (rpc : String → W → Result Resp × W) (w : W)
    → ((resp : Resp) → IsJudged Good resp (judge resp))
    → Says (IsAnswer opening rpc w) Good (opened judge opening rpc w).0
opened-Says Good judge (ok s) rpc w h =
    judged-Says (IsAnswer (ok s) rpc w) Good judge (rpc s w).0 h (λ resp q. (s, (refl, q)))
opened-Says Good judge (err e) rpc w h = record {
  success = λ q. absurd (cc);
  phase = λ q. absurd (cc);
}

module _ (status_number : StorageDealStatus → String) (prop_cid : String) where
  -- The answers that are accepted.
  abbrev pub IsAccepted : ProviderResponse → Type 0
  IsAccepted resp =
      (prop_cid ≡ resp.proposal)
      × ((resp.state ≡ waiting_for_data) ⊎ (resp.state ≡ proposal_accepted))

  same_proposal-IsJudged :
      (resp : ProviderResponse)
      → (resp.state ≡ waiting_for_data) ⊎ (resp.state ≡ proposal_accepted)
      → IsJudged IsAccepted resp (same_proposal status_number prop_cid resp.proposal)
  unfolding same_proposal
  same_proposal-IsJudged resp h = elim (Bool-cases (str_eq prop_cid resp.proposal)) [
    | inl e ↦ rw e (inl (refl, ((eq_iff _ _).0 e, h)))
    | inr e ↦ rw e (inr (_, refl))
  ]

  judge_state-IsJudged :
      (resp : ProviderResponse) (state : StorageDealStatus)
      → resp.state ≡ state
      → IsJudged IsAccepted resp (judge_state status_number prop_cid resp state)
  unfolding judge_state
  judge_state-IsJudged resp deal_error e = inr (_, refl)
  judge_state-IsJudged resp proposal_rejected e = inr (_, refl)
  judge_state-IsJudged resp waiting_for_data e = same_proposal-IsJudged resp (inl e)
  judge_state-IsJudged resp proposal_accepted e = same_proposal-IsJudged resp (inr e)
  judge_state-IsJudged resp deal_unknown e = inr (_, refl)
  judge_state-IsJudged resp staged e = inr (_, refl)
  judge_state-IsJudged resp sealing e = inr (_, refl)
  judge_state-IsJudged resp publishing e = inr (_, refl)
  judge_state-IsJudged resp verify_data e = inr (_, refl)
  judge_state-IsJudged resp awaiting_pre_commit e = inr (_, refl)
  judge_state-IsJudged resp (other_deal_status n) e = inr (_, refl)

  judge_v110-IsJudged :
      (resp : ProviderResponse) → IsJudged IsAccepted resp (judge_v110 status_number prop_cid resp)
  unfolding judge_v110
  judge_v110-IsJudged resp = judge_state-IsJudged resp resp.state refl

-- `SendProposalV110` returns no error only if the provider answered on an open stream that it waits
-- for the data of, or accepts, this very proposal; and it returns true only beside an error and
-- after an answer of the provider.
pub send_proposal_v110-Says :
    {W Int Label : Type 0} (streams : Streams W) (net : Network W)
    (codec : Codec W (NetProposal Int Label) ProviderResponse)
    (status_number : StorageDealStatus → String) (netprop : NetProposal Int Label)
    (prop_cid : String) (w : W)
    → let opening = stream_to_miner net netprop.proposal.provider (deal_protocol_v110 ∷ []) w in
      Says
        (IsAnswer opening.0
          (λ s. protected_rpc streams codec "SendProposalV110" s netprop)
          opening.1)
        (IsAccepted status_number prop_cid)
        (send_proposal_v110 streams net codec status_number netprop prop_cid w).0
unfolding send_proposal_v110
send_proposal_v110-Says streams net codec status_number netprop prop_cid w =
    let opening = stream_to_miner net netprop.proposal.provider (deal_protocol_v110 ∷ []) w in
    opened-Says (IsAccepted status_number prop_cid) (judge_v110 status_number prop_cid) opening.0
      (λ s. protected_rpc streams codec "SendProposalV110" s netprop) opening.1
      (judge_v110-IsJudged status_number prop_cid)
