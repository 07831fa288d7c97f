-- ===== src/Transfer/Expiry.antt =====
-- libp2ptransfermgr.go: `checkTransferExpiry`, which fails the transfers whose time is over.
pub mod Notices
pub mod Completion
pub mod Spared
pub mod Completed
use filclient.Base.{
  ℕ, String, str_eq, Bool, true, false, not, Option, none, some, List, [], ◌∷◌, ◌++◌, if◌then◌else◌,
}
use filclient.Errors.{GoError, is, Result, ok, err}
use filclient.Strconv.{Parsed, value, syntax_error, range_error, parse_uint}
use filclient.Transfer.{
  TransferStatus, started, ongoing, completed, failed, unknown_status, TransferState, Outside,
  transfer_not_found, datastore_not_found, to_dt_state,
}
use filclient.Transfer.Manager.{Notice, get_completed_transfer, save_completed_transfer, fire}

abbrev pub is_completed : TransferStatus → Bool
is_completed completed = true
is_completed _ = false

-- `timeout_text` is the text "timed out waiting … for transfer to complete".
module _ {W : Type 0} (out : Outside W) (timeout_text : String) (listening : Bool)
    (id : String) where
  -- The state that is reported.
  abbrev pub failed_state : TransferState → TransferState
  failed_state st = record st {
    status = failed;
    message = if str_eq st.message "" then timeout_text else st.message;
  }

  abbrev pub expired_state : Option out.Transfer → W → TransferState
  expired_state none w = failed_state (record {
    id = id;
    local_addr = out.server_id;
    remote_addr = "";
    status = unknown_status;
    sent = 0;
    received = 0;
    message = "";
    payload_cid = "";
  })
  expired_state (some xfer) w = failed_state (out.transfer_state xfer w)

  -- The state is saved if nothing was, and the listener is called unless that goes wrong.
  saved : ℕ → TransferState → Result (Unit {0}) × W → List Notice × W
  saved dbid st (ok _, w) = (fire out listening dbid st, w)
  saved dbid st (err e, w) = ([], w)

  record_failure : ℕ → TransferState → Option TransferState → W → List Notice × W
  unfolding saved save_completed_transfer
  record_failure dbid st none w = saved dbid st (save_completed_transfer out id st w)
  record_failure dbid st (some old) w = (fire out listening dbid st, w)

  fail_transfer : Parsed → Option out.Transfer → Option TransferState → W → List Notice × W
  unfolding record_failure
  fail_transfer (value dbid) active old w = record_failure dbid (expired_state active w) old w
  fail_transfer syntax_error active old w = ([], w)
  fail_transfer range_error active old w = ([], w)

  unless_completed : Option out.Transfer → Option TransferState → W → List Notice × W
  unfolding fail_transfer
  unless_completed active none w = fail_transfer (parse_uint id) active none w
  unless_completed active (some old) w =
      if is_completed old.status then ([], w) else fail_transfer (parse_uint id) active (some old) w

  -- An error that is not the expected one ends the handling of this token.
  looked_up : Option out.Transfer → Result TransferState × W → List Notice × W
  unfolding unless_completed is
  looked_up active (ok old, w) = unless_completed active (some old) w
  looked_up active (err e, w) =
      if is datastore_not_found e then unless_completed active none w else ([], w)

  look_up : Option out.Transfer → W → List Notice × W
  unfolding looked_up get_completed_transfer
  look_up active w = looked_up active (get_completed_transfer out id w)

  cancelled : Option out.Transfer → Result (Unit {0}) × W → List Notice × W
  unfolding look_up is
  cancelled active (ok _, w) = look_up active w
  cancelled active (err e, w) = if is transfer_not_found e then look_up active w else ([], w)

  -- The active transfer, if there is one, is cancelled.
  cancel : Option out.Transfer → W → List Notice × W
  unfolding cancelled
  cancel none w = look_up none w
  cancel (some xfer) w = cancelled (some xfer) (out.server_cancel id w)

  found : Result (Option out.Transfer) × W → List Notice × W
  unfolding cancel is
  found (ok active, w) = cancel active w
  found (err e, w) = if is transfer_not_found e then cancel none w else ([], w)

  unfoldable pub expire_token : W → List Notice × W
  unfolding found
  expire_token w = found (out.server_get id w)

module _ {W : Type 0} (out : Outside W) (timeout_text : String) (listening : Bool) where
  unfoldable pub expire_tokens : List String → W → List Notice × W
  unfolding expire_token
  expire_tokens [] w = ([], w)
  expire_tokens (id ∷ ids) w =
      let (notices, w') = expire_token out timeout_text listening id w in
      let (more, w'') = expire_tokens ids w' in (notices ++ more, w'')

  expire : Result (List String) × W → List Notice × W
  unfolding expire_tokens
  expire (ok ids, w) = expire_tokens ids w
  expire (err e, w) = ([], w)

  unfoldable pub check_transfer_expiry : W → List Notice × W
  unfolding expire
  check_transfer_expiry w = expire (out.auth_delete_expired w)
