-- ===== src/Transfer/Expiry/Completion.antt =====
-- libp2ptransfermgr.go: what the data store says of a completed transfer, and what keeps it.
use filclient.Base.{
  ℕ, String, str_eq, eq_iff, Bool, ◌≡◌, ◌≢◌, refl, sym, subst, ◌∙◌, Bool-cases, inl, inr,
}
use filclient.Errors.{GoError, Result, ok, err}
use filclient.Strconv.{Parsed, value, syntax_error, range_error, parse_uint}
use filclient.Transfer.{TransferStatus, completed, failed, TransferState, Outside}
use filclient.Transfer.Manager.{on_state, on_parsed, on_server_event, save_completed_transfer}

-- The id is a number, as those of deals are.
abbrev pub IsNumeric : String → Type 0
IsNumeric id = (n : ℕ) × (parse_uint id ≡ value n)

module _ {W : Type 0} (out : Outside W) (id : String) where
  abbrev pub entry : W → Result String
  entry w = (out.ds_get (out.new_key id) w).0

  -- The data store says that the transfer is completed.
  pub record IsCompletion (w : W) : Type 0 where
    pub text : String
    pub state : TransferState
    pub stored : entry w ≡ ok text
    pub decoded : out.unmarshal text ≡ ok state
    pub done : state.status ≡ completed

  -- What the other packages do not do: only a write to the transfer's own key changes its entry, a write
  -- that fails does not, and a completed transfer is encoded as one. Numbers have different keys.
  pub record StoreLaws : Type 0 where
    pub get_keeps : (key : String) (w : W) → entry (out.ds_get key w).1 ≡ entry w
    pub server_get_keeps : (i : String) (w : W) → entry (out.server_get i w).1 ≡ entry w
    pub server_cancel_keeps : (i : String) (w : W) → entry (out.server_cancel i w).1 ≡ entry w
    pub delete_expired_keeps : (w : W) → entry (out.auth_delete_expired w).1 ≡ entry w
    pub put_others :
        (i text : String) (w : W)
        → IsNumeric i
        → i ≢ id
        → entry (out.ds_put (out.new_key i) text w).1 ≡ entry w
    pub put_own :
        (text : String) (w : W)
        → (out.ds_put (out.new_key id) text w).0 ≡ ok tt
        → entry (out.ds_put (out.new_key id) text w).1 ≡ ok text
    pub put_fails :
        (text : String) (w : W) (e : GoError)
        → (out.ds_put (out.new_key id) text w).0 ≡ err e
        → entry (out.ds_put (out.new_key id) text w).1 ≡ entry w
    pub encodes :
        (st : TransferState) (text : String)
        → st.status ≡ completed
        → out.marshal st ≡ ok text
        → (st' : TransferState) × (out.unmarshal text ≡ ok st') × (st'.status ≡ completed)

  pub same-IsCompletion : (v w : W) → entry w ≡ entry v → IsCompletion v → IsCompletion w
  same-IsCompletion v w e c = record {
    text = c.text;
    state = c.state;
    stored = e ∙ c.stored;
    decoded = c.decoded;
    done = c.done;
  }

  module _ (laws : StoreLaws) where
    put-IsCompletion :
        (st : TransferState) (text : String) (w : W) (r : Result (Unit {0}))
        → out.marshal st ≡ ok text
        → st.status ≡ completed
        → (out.ds_put (out.new_key id) text w).0 ≡ r
        → IsCompletion w
        → IsCompletion (out.ds_put (out.new_key id) text w).1
    put-IsCompletion st text w (ok _) encoded done q c =
        let (st', decoded, same) = laws.encodes st text done encoded in
        record {
          text = text;
          state = st';
          stored = laws.put_own text w q;
          decoded = decoded;
          done = same;
        }
    put-IsCompletion st text w (err e) encoded done q c =
        same-IsCompletion w _ (laws.put_fails text w e q) c

    pub saving :
        (i : String) (st : TransferState) (w : W) (enc : Result String)
        → out.marshal st ≡ enc
        → IsNumeric i
        → (i ≡ id → st.status ≡ completed)
        → IsCompletion w
        → IsCompletion (save_completed_transfer out i st w).1
    unfolding save_completed_transfer
    saving i st w (err e) q num own c = rw q c
    saving i st w (ok text) q num own c = rw q (elim (Bool-cases (str_eq i id)) [
      | inl e ↦
          let same : i ≡ id = (eq_iff i id).0 e in
          subst (λ j. IsCompletion (out.ds_put (out.new_key j) text w).1) (sym same)
            (put-IsCompletion st text w _ q (own same) refl c)
      | inr e ↦
          same-IsCompletion w _
            (laws.put_others i text w num (λ same. absurd (cc (e, (eq_iff i id).1 same)))) c
    ])

    -- The manager's handler of the server's events.
    on_state-IsCompletion :
        (listening : Bool) (n : ℕ) (i : String) (s : TransferStatus) (st : TransferState) (w : W)
        → IsNumeric i
        → st.status ≡ s
        → IsCompletion w
        → IsCompletion (on_state out listening n i s st w).1
    unfolding on_state
    on_state-IsCompletion listening n i completed st w num q c = saving i st w _ refl num (λ e. q) c
    on_state-IsCompletion listening n i failed st w num q c = c
    on_state-IsCompletion listening n i _ st w num q c = c

    on_parsed-IsCompletion :
        (listening : Bool) (i : String) (st : TransferState) (p : Parsed) (w : W)
        → parse_uint i ≡ p
        → IsCompletion w
        → IsCompletion (on_parsed out listening i st p w).1
    unfolding on_parsed
    on_parsed-IsCompletion listening i st (value n) w q c =
        on_state-IsCompletion listening n i st.status st w (n, q) refl c
    on_parsed-IsCompletion listening i st syntax_error w q c = c
    on_parsed-IsCompletion listening i st range_error w q c = c

    pub on_server_event-IsCompletion :
        (listening : Bool) (i : String) (st : TransferState) (w : W)
        → IsCompletion w
        → IsCompletion (on_server_event out listening i st w).1
    unfolding on_server_event
    on_server_event-IsCompletion listening i st w c =
        on_parsed-IsCompletion listening i st (parse_uint i) w refl c
