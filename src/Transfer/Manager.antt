-- ===== src/Transfer/Manager.antt =====
-- libp2ptransfermgr.go: the operations of the manager.
pub mod Told
use filclient.Base.{
  ℕ, String, str_append, Bool, true, false, Option, none, some, List, [], ◌∷◌, if◌then◌else◌,
}
use filclient.Errors.{GoError, message, wrap, is, Result, ok, err, or_wrap}
use filclient.Errors.Action.{Action, ◌>>=◌, wrapping}
use filclient.Strconv.{Parsed, value, syntax_error, range_error, parse_uint, format_uint}
use filclient.Transfer.{
  TransferStatus, completed, failed, TransferState, ChannelState, Outside, transfer_not_found,
  datastore_not_found, to_dt_state,
}

-- A call of the listener: `m.listener(uint(dbid), state)`.
abbrev pub Notice : Type 0
Notice = ℕ × ChannelState

-- `Subscribe`: the manager has at most one listener.
unfoldable pub subscribe : {L : Type 0} → Option L → L → Result (Unit {0}) × Option L
subscribe none l = (ok tt, some l)
subscribe (some old) l = (err (message "only one listener allowed"), some old)

-- The function that `Subscribe` returns.
abbrev pub unsubscribe : {L : Type 0} → Option L → Option L
unsubscribe l = none

module _ {W : Type 0} (out : Outside W) where
  -- `getCompletedTransfer`, in the two ways that a missing key is reported.
  getting : String → GoError → GoError
  unfolding is
  getting id e =
      if is datastore_not_found e
      then wrap (str_append "getting transfer status for id '" (str_append id "'")) e
      else wrap (str_append "getting transfer status for id '" (str_append id "' from datastore")) e

  unfoldable pub got : String → Result String × W → Result TransferState × W
  unfolding getting
  got id (ok text, w) = (or_wrap "unmarshaling transfer status" (out.unmarshal text), w)
  got id (err e, w) = (err (getting id e), w)

  unfoldable pub get_completed_transfer : String → Action W TransferState
  unfolding got
  get_completed_transfer id w = got id (out.ds_get (out.new_key id) w)

  unfoldable pub save_completed_transfer : String → TransferState → Action W (Unit {0})
  save_completed_transfer id st = do
    text ← λ w. (or_wrap "json marshalling transfer status" (out.marshal st), w)
    wrapping "storing transfer status to datastore" (out.ds_put (out.new_key id) text)

  -- `if m.listener != nil`.
  abbrev pub fire : Bool → ℕ → TransferState → List Notice
  fire true dbid st = (dbid, to_dt_state out st) ∷ []
  fire false dbid st = []

  -- The callback of `subscribe`, by the state's status. What goes wrong when a completed transfer
  -- is saved is only logged.
  unfoldable pub on_state : Bool → ℕ → String → TransferStatus → TransferState → W → List Notice × W
  unfolding save_completed_transfer
  on_state listening dbid id failed st w = ([], w)
  on_state listening dbid id completed st w =
      (fire listening dbid st, (save_completed_transfer id st w).1)
  on_state listening dbid id _ st w = (fire listening dbid st, w)

  unfoldable pub on_parsed : Bool → String → TransferState → Parsed → W → List Notice × W
  unfolding on_state
  on_parsed listening id st (value dbid) w = on_state listening dbid id st.status st w
  on_parsed listening id st syntax_error w = ([], w)
  on_parsed listening id st range_error w = ([], w)

  unfoldable pub on_server_event : Bool → String → TransferState → W → List Notice × W
  unfolding on_parsed
  on_server_event listening dbidstr st w = on_parsed listening dbidstr st (parse_uint dbidstr) w

  unfoldable pub prepare_for_data_request : ℕ → String → String → String → ℕ → Action W (Unit {0})
  prepare_for_data_request id auth_token proposal_cid payload_cid size =
      wrapping "adding new auth token" (
        out.auth_put auth_token (record {
          id = format_uint id;
          proposal_cid = proposal_cid;
          payload_cid = payload_cid;
          size = size;
        }))

  -- `cancelerr` is ignored if there is no such transfer, and `delerr` comes first.
  cleanup_result : Result (Unit {0}) → Result (Unit {0}) → Result (Unit {0})
  unfolding is
  cleanup_result (err delerr) cancelled = err delerr
  cleanup_result (ok _) (ok _) = ok tt
  cleanup_result (ok _) (err e) = if is transfer_not_found e then ok tt else err e

  unfoldable pub cleanup_prepared_request : ℕ → String → Action W (Unit {0})
  unfolding cleanup_result
  cleanup_prepared_request dbid auth_token w =
      let (deleted, w') = out.auth_delete auth_token w in
      let (cancelled, w'') = out.server_cancel (format_uint dbid) w' in
      (cleanup_result deleted cancelled, w'')
