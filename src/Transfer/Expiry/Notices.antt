-- ===== src/Transfer/Expiry/Notices.antt =====
-- libp2ptransfermgr.go: what `checkTransferExpiry` and the server's events tell the listener.
use filclient.Base.{
  ℕ, String, Bool, true, false, ◌≡◌, refl, ap, List, [], ◌∷◌, Option, none, some, All, All-append,
  if◌then◌else◌,
}
use filclient.Errors.{is, Result, ok, err}
use filclient.Strconv.{Parsed, value, syntax_error, range_error, parse_uint}
use filclient.Transfer.{
  failed, dt_failed, dt_status, TransferState, Outside, transfer_not_found, datastore_not_found,
  to_dt_state,
}
use filclient.Transfer.Manager.{Notice, fire, get_completed_transfer}
use filclient.Transfer.Expiry.{
  is_completed, expired_state, saved, record_failure, fail_transfer, unless_completed, looked_up,
  look_up, cancelled, cancel, found, expire_token, expire_tokens, expire, check_transfer_expiry,
}

-- A notice that the transfer with one of the ids failed.
abbrev pub IsFailure : Notice → Type 0
IsFailure (dbid, state) =
    (state.status ≡ dt_failed) × ((id : String) × (parse_uint id ≡ value dbid))

-- A conditional whose branches both report only failures.
if-IsFailure :
    {W : Type 0} (b : Bool) (x y : List Notice × W)
    → All IsFailure x.0
    → All IsFailure y.0
    → All IsFailure (if b then x else y).0
if-IsFailure true x y h k = h
if-IsFailure false x y h k = k

module _ {W : Type 0} (out : Outside W) (text : String) (listening : Bool) where
  module _ (id : String) where
    fire-failed :
        (listens : Bool) (dbid : ℕ) (st : TransferState)
        → parse_uint id ≡ value dbid
        → st.status ≡ failed
        → All IsFailure (fire out listens dbid st)
    unfolding to_dt_state
    fire-failed true dbid st e f = ((ap (dt_status out) f, (id, e)), tt)
    fire-failed false dbid st e f = tt

    expired_state-failed :
        (active : Option out.Transfer) (w : W)
        → (expired_state out text listening id active w).status ≡ failed
    expired_state-failed none w = refl
    expired_state-failed (some xfer) w = refl

    saved-IsFailure :
        (dbid : ℕ) (st : TransferState) (r : Result (Unit {0}) × W)
        → parse_uint id ≡ value dbid
        → st.status ≡ failed
        → All IsFailure (saved out text listening id dbid st r).0
    unfolding saved
    saved-IsFailure dbid st (ok _, w) e f = fire-failed listening dbid st e f
    saved-IsFailure dbid st (err _, w) e f = tt

    record_failure-IsFailure :
        (dbid : ℕ) (st : TransferState) (old : Option TransferState) (w : W)
        → parse_uint id ≡ value dbid
        → st.status ≡ failed
        → All IsFailure (record_failure out text listening id dbid st old w).0
    unfolding record_failure
    record_failure-IsFailure dbid st none w e f = saved-IsFailure dbid st _ e f
    record_failure-IsFailure dbid st (some old) w e f = fire-failed listening dbid st e f

    fail_transfer-IsFailure :
        (p : Parsed) (active : Option out.Transfer) (old : Option TransferState) (w : W)
        → parse_uint id ≡ p
        → All IsFailure (fail_transfer out text listening id p active old w).0
    unfolding fail_transfer
    fail_transfer-IsFailure (value dbid) active old w e =
        record_failure-IsFailure dbid _ old w e (expired_state-failed active w)
    fail_transfer-IsFailure syntax_error active old w e = tt
    fail_transfer-IsFailure range_error active old w e = tt

    unless_completed-IsFailure :
        (active : Option out.Transfer) (old : Option TransferState) (w : W)
        → All IsFailure (unless_completed out text listening id active old w).0
    unfolding unless_completed
    unless_completed-IsFailure active none w = fail_transfer-IsFailure _ active none w refl
    unless_completed-IsFailure active (some st) w =
        if-IsFailure (is_completed st.status) _ _ tt
          (fail_transfer-IsFailure _ active (some st) w refl)

    looked_up-IsFailure :
        (active : Option out.Transfer) (r : Result TransferState × W)
        → All IsFailure (looked_up out text listening id active r).0
    unfolding looked_up
    looked_up-IsFailure active (ok old, w) = unless_completed-IsFailure active (some old) w
    looked_up-IsFailure active (err e, w) =
        if-IsFailure (is datastore_not_found e) _ _ (unless_completed-IsFailure active none w) tt

    look_up-IsFailure :
        (active : Option out.Transfer) (w : W)
        → All IsFailure (look_up out text listening id active w).0
    unfolding look_up
    look_up-IsFailure active w = looked_up-IsFailure active (get_completed_transfer out id w)

    cancelled-IsFailure :
        (active : Option out.Transfer) (r : Result (Unit {0}) × W)
        → All IsFailure (cancelled out text listening id active r).0
    unfolding cancelled
    cancelled-IsFailure active (ok _, w) = look_up-IsFailure active w
    cancelled-IsFailure active (err e, w) =
        if-IsFailure (is transfer_not_found e) _ _ (look_up-IsFailure active w) tt

    cancel-IsFailure :
        (active : Option out.Transfer) (w : W)
        → All IsFailure (cancel out text listening id active w).0
    unfolding cancel
    cancel-IsFailure none w = look_up-IsFailure none w
    cancel-IsFailure (some xfer) w = cancelled-IsFailure (some xfer) (out.server_cancel id w)

    found-IsFailure :
        (r : Result (Option out.Transfer) × W) → All IsFailure (found out text listening id r).0
    unfolding found
    found-IsFailure (ok active, w) = cancel-IsFailure active w
    found-IsFailure (err e, w) =
        if-IsFailure (is transfer_not_found e) _ _ (cancel-IsFailure none w) tt

    expire_token-IsFailure : (w : W) → All IsFailure (expire_token out text listening id w).0
    unfolding expire_token
    expire_token-IsFailure w = found-IsFailure (out.server_get id w)

  expire_tokens-IsFailure :
      (ids : List String) (w : W) → All IsFailure (expire_tokens out text listening ids w).0
  unfolding expire_tokens
  expire_tokens-IsFailure [] w = tt
  expire_tokens-IsFailure (id ∷ ids) w =
      All-append IsFailure _ _ (expire_token-IsFailure id w)
        (expire_tokens-IsFailure ids (expire_token out text listening id w).1)

  expire-IsFailure : (r : Result (List String) × W) → All IsFailure (expire out text listening r).0
  unfolding expire
  expire-IsFailure (ok ids, w) = expire_tokens-IsFailure ids w
  expire-IsFailure (err e, w) = tt

-- Whatever the stores and the server do, every notice of an expiry check says of a numeric
-- transfer id that the transfer failed.
pub check_transfer_expiry-IsFailure :
    {W : Type 0} (out : Outside W) (text : String) (listening : Bool) (w : W)
    → All IsFailure (check_transfer_expiry out text listening w).0
unfolding check_transfer_expiry
check_transfer_expiry-IsFailure out text listening w =
    expire-IsFailure out text listening (out.auth_delete_expired w)
