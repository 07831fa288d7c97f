-- ===== src/Transfer/Expiry/Completed.antt =====
-- libp2ptransfermgr.go: a transfer that was completed and stored, and the later expiry of its token.
use filclient.Base.{ℕ, String, Bool, ◌≡◌, refl, sym, ap, subst, ◌∙◌, []}
use filclient.Errors.{ok}
use filclient.Strconv.{value, parse_uint}
use filclient.Transfer.{completed, TransferState, Outside}
use filclient.Transfer.Manager.{on_state, on_parsed, on_server_event, save_completed_transfer}
use filclient.Transfer.Expiry.{expire_token, check_transfer_expiry}
use filclient.Transfer.Expiry.Completion.{
  entry, IsCompletion, StoreLaws, same-IsCompletion, on_server_event-IsCompletion,
}
use filclient.Transfer.Expiry.Spared.{check_transfer_expiry-IsCompletion, expire_token-Spares}

module _ {W : Type 0} (out : Outside W) (id : String) where
  -- What may follow: events of the server and checks of the tokens, with a listener or without, for this
  -- transfer and others, and anything else that leaves the entry as it is.
  pub data Later (timeout_text : String) (v : W) : W → Type 0 where
    now : Later timeout_text v v
    serves :
        (listening : Bool) (i : String) (st : TransferState) {w : W}
        → Later timeout_text v w
        → Later timeout_text v (on_server_event out listening i st w).1
    checks :
        (listening : Bool) {w : W}
        → Later timeout_text v w
        → Later timeout_text v (check_transfer_expiry out timeout_text listening w).1
    elsewhere :
        {w u : W}
        → Later timeout_text v w
        → entry out id u ≡ entry out id w
        → Later timeout_text v u

  Later-IsCompletion :
      (laws : StoreLaws out id) (timeout_text : String) (v w : W)
      → IsCompletion out id v
      → Later timeout_text v w
      → IsCompletion out id w
  Later-IsCompletion laws timeout_text v _ c now = c
  Later-IsCompletion laws timeout_text v _ c (serves listening i st {w = w} l) =
      on_server_event-IsCompletion out id laws listening i st w
        (Later-IsCompletion laws timeout_text v w c l)
  Later-IsCompletion laws timeout_text v _ c (checks listening {w = w} l) =
      check_transfer_expiry-IsCompletion out id laws timeout_text listening w
        (Later-IsCompletion laws timeout_text v w c l)
  Later-IsCompletion laws timeout_text v _ c (elsewhere {w = w} {u = u} l e) =
      same-IsCompletion out id w u e (Later-IsCompletion laws timeout_text v w c l)

  on_server_event-stores :
      (laws : StoreLaws out id) (listening : Bool) (n : ℕ) (st : TransferState) (text : String)
      (w : W)
      → parse_uint id ≡ value n
      → st.status ≡ completed
      → out.marshal st ≡ ok text
      → (out.ds_put (out.new_key id) text w).0 ≡ ok tt
      → IsCompletion out id (on_server_event out listening id st w).1
  unfolding on_server_event save_completed_transfer on_parsed
  on_server_event-stores laws listening n st text w parsed done encoded written =
      let (st', decoded, same) = laws.encodes st text done encoded in
      rw parsed (
        subst (IsCompletion out id)
          (sym (ap (λ s. (on_state out listening n id s st w).1) done ∙ rw encoded refl))
          (record {
            text = text;
            state = st';
            stored = laws.put_own text w written;
            decoded = decoded;
            done = same;
          }))

  -- A server event that says a transfer with a numeric id is completed stores that it is, when the state
  -- can be encoded and the write succeeds. Whatever events and checks of the tokens follow, as long as
  -- nothing else writes to its entry, the store goes on to say so, and the expiry of the transfer's token
  -- tells the listener nothing, even if the transfer is still on the server.
  pub on_server_event-expire_token :
      (laws : StoreLaws out id) (timeout_text : String) (listening : Bool) (n : ℕ)
      (st : TransferState) (text : String) (w v : W)
      → parse_uint id ≡ value n
      → st.status ≡ completed
      → out.marshal st ≡ ok text
      → (out.ds_put (out.new_key id) text w).0 ≡ ok tt
      → Later timeout_text (on_server_event out listening id st w).1 v
      → IsCompletion out id v × ((heard : Bool) → (expire_token out timeout_text heard id v).0 ≡ [])
  on_server_event-expire_token laws timeout_text listening n st text w v parsed done encoded written
        l =
      let c =
        Later-IsCompletion laws timeout_text _ v
          (on_server_event-stores laws listening n st text w parsed done encoded written) l in
      (c, λ heard. (expire_token-Spares out id laws timeout_text heard id v c).1 refl)
