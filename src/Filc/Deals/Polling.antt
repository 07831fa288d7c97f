-- ===== src/Filc/Deals/Polling.antt =====
-- filc/cmds.go: when the loop of `makev110Deal` ends.
use filclient.Base.{
  ℕ, zero, suc, ◌<◌, String, str_append, Bool, ◌≡◌, refl, ◌∙◌, ap, Option, none, some, arith,
}
use filclient.Errors.{message, Result, ok, err}
use filclient.ChannelId.{ChannelId}
use filclient.Transfer.{
  DtStatus, dt_requested, dt_ongoing, dt_transfer_finished, dt_completing, dt_finalizing,
  dt_completed, dt_failing, dt_failed, dt_cancelled, dt_other, ChannelState,
}
use filclient.Reports.{DtManager, transfer_status}
use filclient.Filc.Deals.{Waited, log_by, log_status, logged, one_round, poll}

abbrev pub End : Type 0
End = Option (Result (Unit {0}))

-- How a state of the transfer ends the wait for it, if it does.
abbrev pub end_of : DtStatus → String → End
end_of dt_completed text = some (ok tt)
end_of dt_failed text = some (err (message (str_append "data transfer failed: " text)))
end_of dt_cancelled text = some (err (message (str_append "transfer cancelled: " text)))
end_of _ text = none

abbrev pub verdict : Result ChannelState → End
verdict (ok st) = end_of st.status st.message
verdict (err e) = some (err e)

-- The end if there is one, or else how it goes on.
abbrev pub or_end : End → End → End
or_end none next = next
or_end (some res) next = some res

module _ {W : Type 0} (dt : DtManager W) (chanid : ChannelId) (miner propcid : String) where
  logged-end :
      (st : ChannelState) (s : DtStatus) (changed : Bool) (next : W → Waited × W) (w : W)
      → st.status ≡ s
      → (logged dt chanid miner propcid st (log_by s st changed) next w).0.0
        ≡ or_end (end_of s st.message) (next w).0.0
  unfolding logged log_by
  logged-end st dt_requested changed next w e = rw e refl
  logged-end st dt_ongoing changed next w e = rw e refl
  logged-end st dt_transfer_finished changed next w e = rw e refl
  logged-end st dt_completing changed next w e = rw e refl
  logged-end st dt_finalizing changed next w e = rw e refl
  logged-end st dt_completed changed next w e = rw e refl
  logged-end st dt_failing changed next w e = rw e refl
  logged-end st dt_failed changed next w e = refl
  logged-end st dt_cancelled changed next w e = refl
  logged-end st (dt_other n) changed next w e = rw e (ground arith)

  -- The state that the round after `n` others sees.
  abbrev pub nth : ℕ → W → Result ChannelState
  nth zero w = (transfer_status dt chanid w).0
  nth (suc n) w = nth n (transfer_status dt chanid w).1

  -- None of the first `n` rounds sees a state that ends the wait.
  abbrev pub Goes : ℕ → W → Type 0
  Goes zero w = Unit
  Goes (suc n) w =
      (verdict (transfer_status dt chanid w).0 ≡ none) × Goes n (transfer_status dt chanid w).1

  one_round-end :
      (last : DtStatus) (r : Result ChannelState) (next : DtStatus → W → Waited × W) (w : W)
      (e : End)
      → ((s : DtStatus) → (next s w).0.0 ≡ e)
      → (one_round dt chanid miner propcid last r next w).0.0 ≡ or_end (verdict r) e
  unfolding one_round log_status
  one_round-end last (err e') next w e h = refl
  one_round-end last (ok st) next w e h =
      logged-end st st.status _ (next st.status) w refl
      ∙ ap (or_end (end_of st.status st.message)) (h st.status)

  one_round-ended :
      (last : DtStatus) (r : Result ChannelState) (next : DtStatus → W → Waited × W) (w : W)
      (res : Result (Unit {0}))
      → verdict r ≡ some res
      → (one_round dt chanid miner propcid last r next w).0.0 ≡ some res
  unfolding one_round log_status
  one_round-ended last (err e) next w res h = h
  one_round-ended last (ok st) next w res h =
      logged-end st st.status _ (next st.status) w refl ∙ rw h refl

  -- The loop of `makev110Deal` goes on while the transfer is neither completed, failed nor cancelled and
  -- its status is told; it ends in the first round in which that is not so: without an error if the
  -- transfer is completed, and else with the error.
  pub poll-ends :
      (n rounds : ℕ) (last : DtStatus) (w : W) (res : Result (Unit {0}))
      → n < rounds
      → Goes n w
      → verdict (nth n w) ≡ some res
      → ((poll dt chanid miner propcid n last w).0.0 ≡ none)
        × ((poll dt chanid miner propcid rounds last w).0.0 ≡ some res)
  unfolding poll
  poll-ends n zero last w res lt g h = absurd (omega (arith, lt))
  poll-ends zero (suc rounds) last w res lt g h = (refl, one_round-ended last _ _ _ res h)
  poll-ends (suc n) (suc rounds) last w res lt g h = (
    one_round-end last (transfer_status dt chanid w).0 (poll dt chanid miner propcid n) _ none
          (λ s. (poll-ends n rounds s _ res (omega (arith, lt)) g.1 h).0)
        ∙ rw g.0 refl,
    one_round-end last (transfer_status dt chanid w).0 (poll dt chanid miner propcid rounds) _
          (some res) (λ s. (poll-ends n rounds s _ res (omega (arith, lt)) g.1 h).1)
        ∙ rw g.0 refl,
  )
