-- ===== src/Filc/Deals.antt =====
-- filc/cmds.go: making a deal (`makeDealCmd`, `makev110Deal`, `makev120Deal`, `logStatus`).
pub mod Polling
pub mod Making
use filclient.Base.{
  ℕ, zero, suc, ◌+◌, String, str_append, str_eq, Bool, true, false, not, Option, none, some, List,
  [], ◌∷◌, ◌==◌, if◌then◌else◌,
}
use filclient.Errors.{GoError, message, Result, ok, err}
use filclient.Strconv.{format_uint}
use filclient.ChannelId.{ChannelId}
use filclient.Transfer.{
  DtStatus, dt_requested, dt_ongoing, dt_transfer_finished, dt_completing, dt_finalizing,
  dt_completed, dt_failing, dt_failed, dt_cancelled, dt_other, ChannelState,
}
use filclient.Reports.{DtManager, transfer_status}

-- Two statuses are compared by their place in this list.
abbrev pub place : DtStatus → ℕ
place dt_requested = 0
place dt_ongoing = 1
place dt_transfer_finished = 2
place dt_completing = 3
place dt_finalizing = 4
place dt_completed = 5
place dt_failing = 6
place dt_failed = 7
place dt_cancelled = 8
place (dt_other n) = 9 + n

abbrev pub changed_from : DtStatus → DtStatus → Bool
changed_from last now = not (place now == place last)

log_by : DtStatus → ChannelState → Bool → Result String
log_by dt_failed st changed = err (message (str_append "data transfer failed: " st.message))
log_by dt_cancelled st changed = err (message (str_append "transfer cancelled: " st.message))
log_by dt_failing st changed = ok (str_append "data transfer failing... " st.message)
log_by dt_requested st changed = ok (if changed then "data transfer requested" else "")
log_by dt_transfer_finished st changed =
    ok (if changed then str_append "current state: " st.status_str else "")
log_by dt_finalizing st changed =
    ok (if changed then str_append "current state: " st.status_str else "")
log_by dt_completing st changed =
    ok (if changed then str_append "current state: " st.status_str else "")
log_by dt_completed st changed = ok "transfer complete!"
log_by dt_ongoing st changed = ok (str_append "transfer progress: " (format_uint st.sent))
log_by (dt_other n) st changed = ok (
    str_append "Unexpected data transfer state: "
      (str_append (format_uint n) (str_append " (msg = " (str_append st.message ")"))))

unfoldable pub log_status : ChannelState → Bool → Result String
unfolding log_by
log_status st changed = log_by st.status st changed

-- What is printed, and how a wait ends, if it does.
abbrev pub Waited : Type 0
Waited = Option (Result (Unit {0})) × List String

abbrev pub printing : String → Waited → Waited
printing line (res, lines) = (res, if str_eq line "" then lines else line ∷ lines)

abbrev pub is_completed : DtStatus → Bool
is_completed status = place status == place dt_completed

abbrev pub completed_line : String → String → String
completed_line miner propcid =
    str_append "transfer completed, miner: " (str_append miner (str_append ", propcid: " propcid))

module _ {W : Type 0} (dt : DtManager W) (chanid : ChannelId) (miner propcid : String) where
  -- One round of the loop of `makev110Deal`, and the rest of the loop after the pause.
  logged : ChannelState → Result String → (W → Waited × W) → W → Waited × W
  logged st (err e) next w = ((some (err e), []), w)
  logged st (ok line) next w =
      if is_completed st.status
      then (printing line (some (ok tt), completed_line miner propcid ∷ []), w)
      else (let (waited, w') = next w in (printing line waited, w'))

  one_round : DtStatus → Result ChannelState → (DtStatus → W → Waited × W) → W → Waited × W
  unfolding logged log_status
  one_round last (err e) next w = ((some (err e), []), w)
  one_round last (ok st) next w =
      logged st (log_status st (changed_from last st.status)) (next st.status) w

  -- The loop, for a number of rounds.
  unfoldable pub poll : ℕ → DtStatus → W → Waited × W
  unfolding one_round transfer_status
  poll zero last w = ((none, []), w)
  poll (suc rounds) last w =
      let (status, w') = transfer_status dt chanid w in one_round last status (poll rounds) w'
