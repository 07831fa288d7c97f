-- ===== src/Transfer/Lookup.antt =====
-- libp2ptransfermgr.go: `forEachCompletedTransfer`, `All`, `byId` and `byRemoteAddrAndPayloadCid`.
pub mod Search
use Prim.Native.Char.{code}
use filclient.Base.{
  ℕ, String, str_eq, Bool, true, false, ◌&&◌, Option, none, some, List, [], ◌∷◌, Dict, update,
  if◌then◌else◌, ◌==◌,
}
use filclient.Errors.{GoError, message, wrap, is, Result, ok, err}
use filclient.Errors.Action.{Action}
use filclient.Transfer.{TransferState, ChannelState, Outside, transfer_not_found, to_dt_state}
use filclient.Transfer.Manager.{get_completed_transfer}

-- An empty key panics in the source; the data store has none.
unfoldable pub remove_leading_slash : String → String
remove_leading_slash String.[] = ""
remove_leading_slash (String.◌∷◌ c s) = if code c == 47 then s else String.◌∷◌ c s

module _ {W : Type 0} (out : Outside W) where
  module _ {A : Type 0} (cb : String → TransferState → A → Bool × A) where
    -- The loop over the stored entries. The callback changes its variables, of type `A`, and says
    -- whether to go on.
    each_next :
        Result TransferState → String → (A → Result (Unit {0}) × A) → A → Result (Unit {0}) × A
    each_next (err e) key rest a = (err (wrap "unmarshaling json from datastore" e), a)
    each_next (ok st) key rest a =
        let (go_on, a') = cb (remove_leading_slash key) st a in
        if go_on then rest a' else (ok tt, a')

    unfoldable pub for_each : List (String × String) → A → Result (Unit {0}) × A
    unfolding each_next remove_leading_slash
    for_each [] a = (ok tt, a)
    for_each ((key, text) ∷ rest) a = each_next (out.unmarshal text) key (for_each rest) a

    queried : Result (List (String × String)) → A → Result (Unit {0}) × A
    unfolding for_each
    queried (ok entries) a = for_each entries a
    queried (err e) a = (err (wrap "query error" e), a)

    unfoldable pub for_each_completed_transfer : A → W → (Result (Unit {0}) × A) × W
    unfolding queried
    for_each_completed_transfer a w = let (entries, w') = out.ds_query w in (queried entries a, w')

  -- `All`: the active transfers, then the stored ones over them.
  unfoldable pub add_active : List out.Transfer → W → Dict ChannelState → Dict ChannelState
  add_active [] w all = all
  add_active (xfer ∷ rest) w all =
      add_active rest w
        (update all (out.transfer_id xfer) (to_dt_state out (out.transfer_state xfer w)))

  abbrev pub add_completed : String → TransferState → Dict ChannelState → Bool × Dict ChannelState
  add_completed id st all = (true, update all id (to_dt_state out st))

  all_of : Result (List out.Transfer) → W → (Result (Unit {0}) × Dict ChannelState) × W
  unfolding add_active for_each_completed_transfer
  all_of (ok active) w =
      for_each_completed_transfer add_completed (add_active active w (λ id. none)) w
  all_of (err e) w = ((err e, (λ id. none)), w)

  unfoldable pub all : W → (Result (Unit {0}) × Dict ChannelState) × W
  unfolding all_of
  all w = let (active, w') = out.server_matching w in all_of active w'

  completed_state : Result TransferState × W → Result ChannelState × W
  completed_state (ok st, w) = (ok (to_dt_state out st), w)
  completed_state (err e, w) = (err e, w)

  -- A server that returns neither a transfer nor an error would make `byId` panic.
  by_id_of : String → Result (Option out.Transfer) → W → Option (Result ChannelState × W)
  unfolding completed_state get_completed_transfer is
  by_id_of id (ok (some xfer)) w = some (ok (to_dt_state out (out.transfer_state xfer w)), w)
  by_id_of id (ok none) w = none
  by_id_of id (err e) w =
      if is transfer_not_found e
      then some (completed_state (get_completed_transfer out id w))
      else some (err e, w)

  unfoldable pub by_id : String → W → Option (Result ChannelState × W)
  unfolding by_id_of
  by_id id w = let (found, w') = out.server_get id w in by_id_of id found w'

  module _ (remote_addr payload_cid : String) where
    -- The first active transfer that matches.
    unfoldable pub first_match : List out.Transfer → Option out.Transfer
    first_match [] = none
    first_match (xfer ∷ rest) =
        if str_eq (out.transfer_remote_addr xfer) remote_addr
          && str_eq (out.transfer_payload_cid xfer) payload_cid
        then some xfer
        else first_match rest

    abbrev pub matches : TransferState → Bool
    matches st = str_eq st.remote_addr remote_addr && str_eq st.payload_cid payload_cid

    -- The callback over the completed transfers: it goes on after a match, and stops otherwise.
    abbrev pub remember : String → TransferState → Option ChannelState → Bool × Option ChannelState
    remember id st found = if matches st then (true, some (to_dt_state out st)) else (false, found)

    search_completed : Option out.Transfer → W → (Result (Unit {0}) × Option ChannelState) × W
    unfolding for_each_completed_transfer
    search_completed (some xfer) w =
        ((ok tt, some (to_dt_state out (out.transfer_state xfer w))), w)
    search_completed none w = for_each_completed_transfer remember none w

    search_active : Result (List out.Transfer) → W → (Result (Unit {0}) × Option ChannelState) × W
    unfolding first_match search_completed
    search_active (ok active) w = search_completed (first_match active) w
    search_active (err e) w = ((err e, none), w)

    unfoldable pub by_remote_addr_and_payload_cid :
        W → (Result (Unit {0}) × Option ChannelState) × W
    unfolding search_active
    by_remote_addr_and_payload_cid w =
        let (active, w') = out.server_matching w in search_active active w'
