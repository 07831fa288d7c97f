-- ===== src/Transfer/Expiry/Spared.antt =====
-- libp2ptransfermgr.go: `checkTransferExpiry` and the transfers that are stored as completed.
use filclient.Base.{
  ℕ, String, str_eq, eq_iff, Bool, ◌≡◌, ◌≢◌, refl, sym, ap, subst, ◌∙◌, List, [], ◌∷◌, Option, none,
  some, Bool-cases, inl, inr,
}
use filclient.Errors.{is, Result, ok, err}
use filclient.Strconv.{Parsed, value, syntax_error, range_error, parse_uint}
use filclient.Transfer.{completed, TransferState, Outside, transfer_not_found, datastore_not_found}
use filclient.Transfer.Manager.{Notice, got, get_completed_transfer}
use filclient.Transfer.Expiry.{
  is_completed, saved, record_failure, fail_transfer, unless_completed, looked_up, look_up,
  cancelled, cancel, found, expire_token, expire_tokens, expire, check_transfer_expiry,
}
use filclient.Transfer.Expiry.Completion.{
  IsNumeric, IsCompletion, StoreLaws, same-IsCompletion, saving,
}

module _ {W : Type 0} (out : Outside W) (id : String) where
  module _ (laws : StoreLaws out id) where
    -- The expiry of tokens.
    module _ (timeout_text : String) (listening : Bool) (i : String) where
      -- The entry is still there, and for this transfer nothing has been told.
      abbrev pub Spares : List Notice × W → Type 0
      Spares (notices, w) = IsCompletion out id w × (i ≡ id → notices ≡ [])

      saved-IsCompletion :
          (n : ℕ) (st : TransferState) (r : Result (Unit {0}) × W)
          → IsCompletion out id r.1
          → IsCompletion out id (saved out timeout_text listening i n st r).1
      unfolding saved
      saved-IsCompletion n st (ok _, w) c = c
      saved-IsCompletion n st (err e, w) c = c

      record_failure-IsCompletion :
          (n : ℕ) (st : TransferState) (old : Option TransferState) (w : W)
          → IsNumeric i
          → i ≢ id
          → IsCompletion out id w
          → IsCompletion out id (record_failure out timeout_text listening i n st old w).1
      unfolding record_failure
      record_failure-IsCompletion n st none w num ne c =
          saved-IsCompletion n st _ (saving out id laws i st w _ refl num (λ e. absurd (ne e)) c)
      record_failure-IsCompletion n st (some old) w num ne c = c

      fail_transfer-IsCompletion :
          (p : Parsed) (active : Option out.Transfer) (old : Option TransferState) (w : W)
          → parse_uint i ≡ p
          → i ≢ id
          → IsCompletion out id w
          → IsCompletion out id (fail_transfer out timeout_text listening i p active old w).1
      unfolding fail_transfer
      fail_transfer-IsCompletion (value n) active old w q ne c =
          record_failure-IsCompletion n _ old w (n, q) ne c
      fail_transfer-IsCompletion syntax_error active old w q ne c = c
      fail_transfer-IsCompletion range_error active old w q ne c = c

      unless_completed-IsCompletion :
          (active : Option out.Transfer) (old : Option TransferState) (w : W)
          → i ≢ id
          → IsCompletion out id w
          → IsCompletion out id (unless_completed out timeout_text listening i active old w).1
      unfolding unless_completed
      unless_completed-IsCompletion active none w ne c =
          fail_transfer-IsCompletion (parse_uint i) active none w refl ne c
      unless_completed-IsCompletion active (some old) w ne c =
          elim (Bool-cases (is_completed old.status)) [
            | inl e ↦ rw e c
            | inr e ↦ rw e (fail_transfer-IsCompletion (parse_uint i) active (some old) w refl ne c)
          ]

      looked_up-IsCompletion :
          (active : Option out.Transfer) (r : Result TransferState × W)
          → i ≢ id
          → IsCompletion out id r.1
          → IsCompletion out id (looked_up out timeout_text listening i active r).1
      unfolding looked_up
      looked_up-IsCompletion active (ok old, w) ne c =
          unless_completed-IsCompletion active (some old) w ne c
      looked_up-IsCompletion active (err e, w) ne c = elim (Bool-cases (is datastore_not_found e)) [
        | inl q ↦ rw q (unless_completed-IsCompletion active none w ne c)
        | inr q ↦ rw q c
      ]

      got-world : (j : String) (r : Result String × W) → (got out j r).1 ≡ r.1
      unfolding got
      got-world j (ok text, w) = refl
      got-world j (err e, w) = refl

      get_completed_transfer-IsCompletion :
          (j : String) (w : W)
          → IsCompletion out id w
          → IsCompletion out id (get_completed_transfer out j w).1
      unfolding get_completed_transfer
      get_completed_transfer-IsCompletion j w c =
          subst (IsCompletion out id) (sym (got-world j (out.ds_get (out.new_key j) w)))
            (same-IsCompletion out id w _ (laws.get_keeps (out.new_key j) w) c)

      get_completed_transfer-ok :
          (w : W) (c : IsCompletion out id w) → (get_completed_transfer out id w).0 ≡ ok c.state
      unfolding get_completed_transfer got
      get_completed_transfer-ok w c = rw (c.stored, c.decoded) refl

      -- For this transfer, the stored state ends the handling.
      looked_up-completed :
          (active : Option out.Transfer) (st : TransferState) (r : Result TransferState × W)
          → r.0 ≡ ok st
          → st.status ≡ completed
          → looked_up out timeout_text listening i active r ≡ ([], r.1)
      unfolding looked_up unless_completed
      looked_up-completed active st (r, w) e done = rw (e, done) refl

      look_up-Spares :
          (active : Option out.Transfer) (w : W)
          → IsCompletion out id w
          → Spares (look_up out timeout_text listening i active w)
      unfolding look_up
      look_up-Spares active w c = elim (Bool-cases (str_eq i id)) [
        | inl e ↦
            let same : i ≡ id = (eq_iff i id).0 e in
            let found : (get_completed_transfer out i w).0 ≡ ok c.state =
              ap (λ j. (get_completed_transfer out j w).0) same ∙ get_completed_transfer-ok w c in
            subst Spares (sym (looked_up-completed active c.state _ found c.done))
              (get_completed_transfer-IsCompletion i w c, λ e'. refl)
        | inr e ↦
            let ne : i ≢ id = λ same. absurd (cc (e, (eq_iff i id).1 same)) in
            (
              looked_up-IsCompletion active (get_completed_transfer out i w) ne
                  (get_completed_transfer-IsCompletion i w c),
              λ same. absurd (ne same),
            )
      ]

      cancelled-Spares :
          (active : Option out.Transfer) (r : Result (Unit {0}) × W)
          → IsCompletion out id r.1
          → Spares (cancelled out timeout_text listening i active r)
      unfolding cancelled
      cancelled-Spares active (ok _, w) c = look_up-Spares active w c
      cancelled-Spares active (err e, w) c = elim (Bool-cases (is transfer_not_found e)) [
        | inl q ↦ rw q (look_up-Spares active w c)
        | inr q ↦ rw q (c, λ same. refl)
      ]

      cancel-Spares :
          (active : Option out.Transfer) (w : W)
          → IsCompletion out id w
          → Spares (cancel out timeout_text listening i active w)
      unfolding cancel
      cancel-Spares none w c = look_up-Spares none w c
      cancel-Spares (some xfer) w c =
          cancelled-Spares (some xfer) (out.server_cancel i w)
            (same-IsCompletion out id w _ (laws.server_cancel_keeps i w) c)

      found-Spares :
          (r : Result (Option out.Transfer) × W)
          → IsCompletion out id r.1
          → Spares (found out timeout_text listening i r)
      unfolding found
      found-Spares (ok active, w) c = cancel-Spares active w c
      found-Spares (err e, w) c = elim (Bool-cases (is transfer_not_found e)) [
        | inl q ↦ rw q (cancel-Spares none w c)
        | inr q ↦ rw q (c, λ same. refl)
      ]

      pub expire_token-Spares :
          (w : W) → IsCompletion out id w → Spares (expire_token out timeout_text listening i w)
      unfolding expire_token
      expire_token-Spares w c =
          found-Spares (out.server_get i w)
            (same-IsCompletion out id w _ (laws.server_get_keeps i w) c)

    module _ (timeout_text : String) (listening : Bool) where
      expire_tokens-IsCompletion :
          (ids : List String) (w : W)
          → IsCompletion out id w
          → IsCompletion out id (expire_tokens out timeout_text listening ids w).1
      unfolding expire_tokens
      expire_tokens-IsCompletion [] w c = c
      expire_tokens-IsCompletion (i ∷ ids) w c =
          expire_tokens-IsCompletion ids _ (expire_token-Spares timeout_text listening i w c).0

      expire-IsCompletion :
          (r : Result (List String) × W)
          → IsCompletion out id r.1
          → IsCompletion out id (expire out timeout_text listening r).1
      unfolding expire
      expire-IsCompletion (ok ids, w) c = expire_tokens-IsCompletion ids w c
      expire-IsCompletion (err e, w) c = c

      pub check_transfer_expiry-IsCompletion :
          (w : W)
          → IsCompletion out id w
          → IsCompletion out id (check_transfer_expiry out timeout_text listening w).1
      unfolding check_transfer_expiry
      check_transfer_expiry-IsCompletion w c =
          expire-IsCompletion (out.auth_delete_expired w)
            (same-IsCompletion out id w _ (laws.delete_expired_keeps w) c)
