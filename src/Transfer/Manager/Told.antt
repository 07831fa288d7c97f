-- ===== src/Transfer/Manager/Told.antt =====
-- libp2ptransfermgr.go: what the server's events tell the listener.
use filclient.Base.{ℕ, String, Bool, true, false, ◌≡◌, ◌≢◌, refl, All, List, [], ◌∷◌}
use filclient.Strconv.{Parsed, value, syntax_error, range_error, parse_uint}
use filclient.Transfer.{
  TransferStatus, started, ongoing, completed, failed, unknown_status, dt_failed, dt_status,
  TransferState, Outside, to_dt_state,
}
use filclient.Transfer.Manager.{Notice, fire, on_state, on_parsed, on_server_event}

-- A notice of a transfer that has not failed.
abbrev pub NotFailed : Notice → Type 0
NotFailed (dbid, state) = state.status ≢ dt_failed

module _ {W : Type 0} (out : Outside W) (listening : Bool) where
  dt_status-ne-failed : (s : TransferStatus) → s ≢ failed → dt_status out s ≢ dt_failed
  dt_status-ne-failed started h e = cc
  dt_status-ne-failed ongoing h e = cc
  dt_status-ne-failed completed h e = cc
  dt_status-ne-failed failed h e = h refl
  dt_status-ne-failed unknown_status h e = cc

  fire-NotFailed :
      (listens : Bool) (dbid : ℕ) (st : TransferState)
      → st.status ≢ failed
      → All NotFailed (fire out listens dbid st)
  unfolding to_dt_state
  fire-NotFailed true dbid st h = (dt_status-ne-failed st.status h, tt)
  fire-NotFailed false dbid st h = tt

  on_state-NotFailed :
      (dbid : ℕ) (id : String) (s : TransferStatus) (st : TransferState) (w : W)
      → st.status ≡ s
      → All NotFailed (on_state out listening dbid id s st w).0
  unfolding on_state
  on_state-NotFailed dbid id failed st w e = tt
  on_state-NotFailed dbid id completed st w e = fire-NotFailed listening dbid st (rw e (λ q. cc))
  on_state-NotFailed dbid id started st w e = fire-NotFailed listening dbid st (rw e (λ q. cc))
  on_state-NotFailed dbid id ongoing st w e = fire-NotFailed listening dbid st (rw e (λ q. cc))
  on_state-NotFailed dbid id unknown_status st w e =
      fire-NotFailed listening dbid st (rw e (λ q. cc))

  on_parsed-NotFailed :
      (id : String) (st : TransferState) (p : Parsed) (w : W)
      → All NotFailed (on_parsed out listening id st p w).0
  unfolding on_parsed
  on_parsed-NotFailed id st (value dbid) w = on_state-NotFailed dbid id st.status st w refl
  on_parsed-NotFailed id st syntax_error w = tt
  on_parsed-NotFailed id st range_error w = tt

  pub on_server_event-NotFailed :
      (id : String) (st : TransferState) (w : W)
      → All NotFailed (on_server_event out listening id st w).0
  unfolding on_server_event
  on_server_event-NotFailed id st w = on_parsed-NotFailed id st (parse_uint id) w

module _ {W : Type 0} (out : Outside W) where
  -- What a listener is told of an event: of a transfer that has not failed, if its id is a number.
  abbrev pub notices_of : Parsed → TransferStatus → TransferState → List Notice
  notices_of (value dbid) failed st = []
  notices_of (value dbid) _ st = (dbid, to_dt_state out st) ∷ []
  notices_of _ _ st = []

  on_state-notices_of :
      (dbid : ℕ) (id : String) (s : TransferStatus) (st : TransferState) (w : W)
      → (on_state out true dbid id s st w).0 ≡ notices_of (value dbid) s st
  unfolding on_state
  on_state-notices_of dbid id failed st w = refl
  on_state-notices_of dbid id completed st w = refl
  on_state-notices_of dbid id started st w = refl
  on_state-notices_of dbid id ongoing st w = refl
  on_state-notices_of dbid id unknown_status st w = refl

  on_parsed-notices_of :
      (id : String) (st : TransferState) (p : Parsed) (w : W)
      → (on_parsed out true id st p w).0 ≡ notices_of p st.status st
  unfolding on_parsed
  on_parsed-notices_of id st (value dbid) w = on_state-notices_of dbid id st.status st w
  on_parsed-notices_of id st syntax_error w = refl
  on_parsed-notices_of id st range_error w = refl

  pub on_server_event-notices_of :
      (id : String) (st : TransferState) (w : W)
      → (on_server_event out true id st w).0 ≡ notices_of (parse_uint id) st.status st
  unfolding on_server_event
  on_server_event-notices_of id st w = on_parsed-notices_of id st (parse_uint id) w
