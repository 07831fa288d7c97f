-- ===== src/Filc/Deals/Making/Polled.antt =====
-- filc/cmds.go: when `makev110Deal` ends.
use filclient.Base.{ℕ, ◌<◌, String, Bool, ◌≡◌, ◌∙◌, ap, none, some}
use filclient.Errors.{Result, ok}
use filclient.Connection.{Network}
use filclient.ChannelId.{ChannelId}
use filclient.Transfer.{Outside}
use filclient.Deal.{NetProposal}
use filclient.Deal.Sending.{Streams, send_proposal_v110}
use filclient.Reports.{DtManager, start_data_transfer}
use filclient.Filc.Deals.{poll}
use filclient.Filc.Deals.Polling.{verdict, nth, Goes, poll-ends}
use filclient.Filc.Deals.Making.{DealCalls, after_sent_v110, make_v110_deal}

module _ {W Int Label Listener : Type 0} (streams : Streams W) (net : Network W) (dt : DtManager W)
    (out : Outside W) (calls : DealCalls W Int Label Listener) where
  -- An accepted proposal whose transfer is open.
  after_sent_v110-poll :
      (rounds : ℕ) (miner propcid datacid : String) (b : Bool) (w v : W) (chanid : ChannelId)
      → start_data_transfer dt net miner propcid datacid w ≡ (ok chanid, v)
      → (after_sent_v110 streams net dt out calls rounds miner propcid datacid (b, none) w).0
        ≡ (poll dt chanid miner propcid rounds calls.zero_status v).0.0
  unfolding after_sent_v110
  after_sent_v110-poll rounds miner propcid datacid b w v chanid h =
      rw (h, after_sent_v110)
        (ap
          (λ (r : Result ChannelId × W).
            (poll dt chanid miner propcid rounds calls.zero_status r.1).0.0)
          h)

  module _ (miner : String) (proposal : NetProposal Int Label) (propcid datacid : String)
      (w w' v : W) where
    -- A v1.1.0 deal whose proposal is accepted and whose transfer is opened goes on while the transfer is
    -- neither completed, failed nor cancelled and its status is told, and ends in the first round in which
    -- that is not so: without an error if the transfer is completed, and else with the error.
    pub make_v110_deal-ends :
        (b : Bool) (chanid : ChannelId) (n rounds : ℕ) (res : Result (Unit {0}))
        → send_proposal_v110 streams net calls.codec_v110 calls.status_number proposal propcid w
          ≡ ((b, none), w')
        → start_data_transfer dt net miner propcid datacid w' ≡ (ok chanid, v)
        → n < rounds
        → Goes dt chanid miner propcid n v
        → verdict (nth dt chanid miner propcid n v) ≡ some res
        → ((make_v110_deal streams net dt out calls n miner proposal propcid datacid w).0 ≡ none)
          × ((make_v110_deal streams net dt out calls rounds miner proposal propcid datacid w).0
              ≡ some res)
    unfolding make_v110_deal
    make_v110_deal-ends b chanid n rounds res sent opened lt goes judged =
        let (open_still, ended) =
          poll-ends dt chanid miner propcid n rounds calls.zero_status v res lt goes judged in
        rw sent (
          after_sent_v110-poll n miner propcid datacid b w' v chanid opened ∙ open_still,
          after_sent_v110-poll rounds miner propcid datacid b w' v chanid opened ∙ ended,
        )
