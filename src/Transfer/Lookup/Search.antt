-- ===== src/Transfer/Lookup/Search.antt =====
-- libp2ptransfermgr.go: what `All` and `byRemoteAddrAndPayloadCid` find in the data store.
use filclient.Base.{
  String, str_eq, false, ◌≡◌, refl, ap, ◌∙◌, List, [], ◌∷◌, Option, none, some, Dict, if◌then◌else◌,
}
use filclient.Errors.{ok}
use filclient.Transfer.{TransferState, ChannelState, Outside, to_dt_state}
use filclient.Transfer.Lookup.{
  remove_leading_slash, each_next, for_each, queried, for_each_completed_transfer, add_active,
  add_completed, all_of, all, first_match, matches, search_completed, search_active,
  by_remote_addr_and_payload_cid,
}

module _ {W : Type 0} (out : Outside W) where
  -- The last stored entry of an id, or what there is without the store.
  abbrev pub stored_at :
      List (String × TransferState) → String → Option ChannelState → Option ChannelState
  stored_at [] id default = default
  stored_at ((key, st) ∷ rest) id default =
      stored_at rest id
        (if str_eq (remove_leading_slash key) id then some (to_dt_state out st) else default)

  -- The last active transfer of an id.
  abbrev pub active_at : List out.Transfer → W → String → Option ChannelState → Option ChannelState
  active_at [] w id default = default
  active_at (xfer ∷ rest) w id default = active_at rest w id (
      if str_eq (out.transfer_id xfer) id
      then some (to_dt_state out (out.transfer_state xfer w))
      else default)

  -- The entries, each of which decodes to its state.
  abbrev pub Decodes : List (String × String) → List (String × TransferState) → Type 0
  Decodes [] [] = Unit
  Decodes [] (_ ∷ _) = ⊥
  Decodes (_ ∷ _) [] = ⊥
  Decodes ((key, text) ∷ texts) ((key', st) ∷ states) =
      (key ≡ key') × ((out.unmarshal text ≡ ok st) × Decodes texts states)

  add_active-active_at :
      (active : List out.Transfer) (w : W) (found : Dict ChannelState) (id : String)
      → add_active out active w found id ≡ active_at active w id (found id)
  unfolding add_active
  add_active-active_at [] w found id = refl
  add_active-active_at (xfer ∷ rest) w found id = add_active-active_at rest w _ id

  for_each-stored_at :
      (texts : List (String × String)) (states : List (String × TransferState))
      (found : Dict ChannelState) (id : String)
      → Decodes texts states
      → ((for_each out (add_completed out) texts found).0 ≡ ok tt)
        × ((for_each out (add_completed out) texts found).1 id ≡ stored_at states id (found id))
  unfolding for_each each_next
  for_each-stored_at [] [] found id h = (refl, refl)
  for_each-stored_at ((key, text) ∷ texts) ((key', st) ∷ states) found id h =
      rw (h.0, h.1.0) (for_each-stored_at texts states _ id h.1.1)
  for_each-stored_at [] (_ ∷ _) found id h = absurd h
  for_each-stored_at (_ ∷ _) [] found id h = absurd h

  all_of-lookup :
      (active : List out.Transfer) (texts : List (String × String))
      (states : List (String × TransferState)) (w w' : W) (id : String)
      → out.ds_query w ≡ (ok texts, w')
      → Decodes texts states
      → ((all_of out (ok active) w).0.0 ≡ ok tt)
        × ((all_of out (ok active) w).0.1 id ≡ stored_at states id (active_at active w id none))
  unfolding all_of for_each_completed_transfer queried
  all_of-lookup active texts states w w' id q h = rw q (
      let (fine, looked) =
        for_each-stored_at texts states (add_active out active w (λ i. none)) id h in
      (fine, looked ∙ ap (stored_at states id) (add_active-active_at active w (λ i. none) id)))

  search_active-first :
      (remote_addr payload_cid : String) (key text : String) (rest : List (String × String))
      (active : List out.Transfer) (st : TransferState) (w w' : W)
      → first_match out remote_addr payload_cid active ≡ none
      → out.ds_query w ≡ (ok ((key, text) ∷ rest), w')
      → out.unmarshal text ≡ ok st
      → matches out remote_addr payload_cid st ≡ false
      → (search_active out remote_addr payload_cid (ok active) w).0 ≡ (ok tt, none)
  unfolding search_active search_completed for_each_completed_transfer queried for_each each_next
  search_active-first remote_addr payload_cid key text rest active st w w' f q d m =
      rw (f, q, d, m) refl

-- When the server and the data store answer and every stored entry decodes, `All` succeeds and
-- has, for each transfer id, the last stored entry of the id, or else the last active transfer of
-- it, or else nothing.
pub all-lookup :
    {W : Type 0} (out : Outside W) (active : List out.Transfer) (texts : List (String × String))
    (states : List (String × TransferState)) (w v v' : W) (id : String)
    → out.server_matching w ≡ (ok active, v)
    → out.ds_query v ≡ (ok texts, v')
    → Decodes out texts states
    → ((all out w).0.0 ≡ ok tt)
      × ((all out w).0.1 id ≡ stored_at out states id (active_at out active v id none))
unfolding all
all-lookup out active texts states w v v' id s q h =
    rw s (all_of-lookup out active texts states v v' id q h)

-- When no active transfer matches and the first stored entry does not either,
-- `byRemoteAddrAndPayloadCid` finds nothing and reports no error, whatever the other entries are:
-- its callback stops at the first entry that does not match.
pub by_remote_addr_and_payload_cid-first :
    {W : Type 0} (out : Outside W) (remote_addr payload_cid : String) (key text : String)
    (rest : List (String × String)) (active : List out.Transfer) (st : TransferState) (w v v' : W)
    → out.server_matching w ≡ (ok active, v)
    → first_match out remote_addr payload_cid active ≡ none
    → out.ds_query v ≡ (ok ((key, text) ∷ rest), v')
    → out.unmarshal text ≡ ok st
    → matches out remote_addr payload_cid st ≡ false
    → (by_remote_addr_and_payload_cid out remote_addr payload_cid w).0 ≡ (ok tt, none)
unfolding by_remote_addr_and_payload_cid
by_remote_addr_and_payload_cid-first out remote_addr payload_cid key text rest active st w v v' s f
      q d m =
    rw s (search_active-first out remote_addr payload_cid key text rest active st v v' f q d m)
