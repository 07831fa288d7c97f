-- ===== src/Reports/Progress.antt =====
-- filclient.go: `TransfersInProgress`, and which transfers `TransferStatusByID` asks for.
use filclient.Base.{
  ℕ, ◌^◌, ◌<◌, String, str_eq, true, false, ◌≡◌, refl, subst, ap, ◌∙◌, Option, none, some, List, [],
  ◌∷◌, Dict, update, Bool, if◌then◌else◌,
}
use filclient.Errors.{GoError, Result, ok, err}
use filclient.ChannelId.{
  ChannelId, channel_id_from_string, channel_text, channel_id_from_string-channel_text,
  channel_id_from_string-format_uint,
}
use filclient.Strconv.Split.{NoChar}
use filclient.Strconv.{format_uint}
use filclient.Transfer.{TransferState, ChannelState, Outside, to_dt_state}
use filclient.Transfer.Lookup.{remove_leading_slash, all, by_id}
use filclient.Transfer.Lookup.Search.{stored_at, active_at, Decodes, all-lookup}
use filclient.Reports.{
  DtChannel, DtManager, channel_state_conv, transfer_status, transfer_status_by_id, status_of_id,
}

-- The map that a call returns, at an id.
abbrev pub Gives : Result (Dict ChannelState) → String → Option ChannelState → Type 0
Gives (ok dts) id st = dts id ≡ st
Gives (err e) id st = ⊥

module _ {W : Type 0} (dt : DtManager W) (out : Outside W) where
  unfoldable pub add_channels : List (ChannelId × DtChannel) → Dict ChannelState → Dict ChannelState
  unfolding channel_state_conv
  add_channels [] dts = dts
  add_channels ((id, st) ∷ rest) dts =
      add_channels rest (update dts (dt.channel_text id) (channel_state_conv dt st))

  abbrev pub or_else : Option ChannelState → Option ChannelState → Option ChannelState
  or_else none default = default
  or_else (some st) default = some st

  with_libp2p :
      List (ChannelId × DtChannel)
      → (Result (Unit {0}) × Dict ChannelState) × W
      → Result (Dict ChannelState) × W
  unfolding add_channels
  with_libp2p v1dts ((ok _, v2dts), w) =
      (ok (λ id. or_else (v2dts id) (add_channels v1dts (λ id. none) id)), w)
  with_libp2p v1dts ((err e, v2dts), w) = (err e, w)

  in_progress : Result (List (ChannelId × DtChannel)) × W → Result (Dict ChannelState) × W
  unfolding with_libp2p all
  in_progress (ok v1dts, w) = with_libp2p v1dts (all out w)
  in_progress (err e, w) = (err e, w)

  unfoldable pub transfers_in_progress : W → Result (Dict ChannelState) × W
  unfolding in_progress
  transfers_in_progress w = in_progress (dt.in_progress_channels w)

  -- The last data transfer channel with the text.
  abbrev pub channel_at :
      List (ChannelId × DtChannel) → String → Option ChannelState → Option ChannelState
  channel_at [] id default = default
  channel_at ((chid, st) ∷ rest) id default =
      channel_at rest id
        (if str_eq (dt.channel_text chid) id then some (channel_state_conv dt st) else default)

  add_channels-channel_at :
      (channels : List (ChannelId × DtChannel)) (dts : Dict ChannelState) (id : String)
      → add_channels channels dts id ≡ channel_at channels id (dts id)
  unfolding add_channels
  add_channels-channel_at [] dts id = refl
  add_channels-channel_at ((chid, st) ∷ rest) dts id = add_channels-channel_at rest _ id

  or_else-if :
      (t : Bool) (st : ChannelState) (a b : Option ChannelState)
      → or_else (if t then some st else a) b ≡ (if t then some st else or_else a b)
  or_else-if true st a b = refl
  or_else-if false st a b = refl

  or_else-stored_at :
      (states : List (String × TransferState)) (id : String) (a b : Option ChannelState)
      → or_else (stored_at out states id a) b ≡ stored_at out states id (or_else a b)
  or_else-stored_at [] id a b = refl
  or_else-stored_at ((key, st) ∷ rest) id a b =
      or_else-stored_at rest id _ b
      ∙ ap (stored_at out rest id)
          (or_else-if (str_eq (remove_leading_slash key) id) (to_dt_state out st) a b)

  or_else-active_at :
      (active : List out.Transfer) (w : W) (id : String) (a b : Option ChannelState)
      → or_else (active_at out active w id a) b ≡ active_at out active w id (or_else a b)
  or_else-active_at [] w id a b = refl
  or_else-active_at (xfer ∷ rest) w id a b =
      or_else-active_at rest w id _ b
      ∙ ap (active_at out rest w id) (
          or_else-if (str_eq (out.transfer_id xfer) id)
            (to_dt_state out (out.transfer_state xfer w)) a b)

  with_libp2p-lookup :
      (channels : List (ChannelId × DtChannel))
      (found : (Result (Unit {0}) × Dict ChannelState) × W) (id : String) (st : Option ChannelState)
      → found.0.0 ≡ ok tt
      → found.0.1 id ≡ st
      → Gives (with_libp2p channels found).0 id (or_else st (channel_at channels id none))
  unfolding with_libp2p
  with_libp2p-lookup channels ((ok _, v2dts), w) id st h k =
      ap (λ o. or_else o (add_channels channels (λ i. none) id)) k
      ∙ ap (or_else st) (add_channels-channel_at channels (λ i. none) id)
  with_libp2p-lookup channels ((err e, v2dts), w) id st h k = absurd (cc)

-- When the data transfer manager, the server and the data store answer and every stored entry
-- decodes, `TransfersInProgress` gives for each id the last stored entry of the id, or else the last
-- active libp2p transfer of it, or else the last data transfer channel with that text, or else
-- nothing.
pub transfers_in_progress-lookup :
    {W : Type 0} (dt : DtManager W) (out : Outside W) (channels : List (ChannelId × DtChannel))
    (active : List out.Transfer) (texts : List (String × String))
    (states : List (String × TransferState)) (u w v v' : W) (id : String)
    → dt.in_progress_channels u ≡ (ok channels, w)
    → out.server_matching w ≡ (ok active, v)
    → out.ds_query v ≡ (ok texts, v')
    → Decodes out texts states
    → Gives
        (transfers_in_progress dt out u).0
        id
        (stored_at out states id (active_at out active v id (channel_at dt out channels id none)))
unfolding transfers_in_progress in_progress
transfers_in_progress-lookup dt out channels active texts states u w v v' id c s q h =
    let found = all-lookup out active texts states w v v' id s q h in
    rw c (
      subst (Gives (with_libp2p dt out channels (all out w)).0 id)
        (or_else-stored_at dt out states id _ _
          ∙ ap (stored_at out states id) (or_else-active_at dt out active v id none _))
        (with_libp2p-lookup dt out channels (all out w) id _ found.0 found.1))

module _ {W : Type 0} (dt : DtManager W) (out : Outside W) where
  transfer_status_by_id-channel :
      (id : String) (chid : ChannelId) (w : W)
      → channel_id_from_string out.decode_peer id ≡ ok chid
      → transfer_status_by_id dt out id w ≡ some (transfer_status dt chid w)
  unfolding transfer_status_by_id status_of_id
  transfer_status_by_id-channel id chid w h = rw h refl

  transfer_status_by_id-libp2p :
      (id : String) (e : GoError) (w : W)
      → channel_id_from_string out.decode_peer id ≡ err e
      → transfer_status_by_id dt out id w ≡ by_id out id w
  unfolding transfer_status_by_id status_of_id
  transfer_status_by_id-libp2p id e w h = rw h refl

-- `TransferStatusByID` asks for what `TransfersInProgress` calls a transfer: for the text of a channel
-- between two peers whose texts have no dash and can be decoded, with a 64-bit transfer id, it gives
-- the status of that channel; for a number it gives what the libp2p transfers have under it.
pub transfer_status_by_id-routes :
    {W : Type 0} (dt : DtManager W) (out : Outside W) (a b : String) (chid : ChannelId) (w : W)
    → NoChar 45 a
    → NoChar 45 b
    → out.decode_peer a ≡ ok chid.initiator
    → out.decode_peer b ≡ ok chid.responder
    → chid.id < 2 ^ 64
    → (transfer_status_by_id dt out (channel_text a b chid.id) w ≡ some (transfer_status dt chid w))
      × ((n : ℕ) → transfer_status_by_id dt out (format_uint n) w ≡ by_id out (format_uint n) w)
transfer_status_by_id-routes dt out a b chid w ha hb da db h = (
  transfer_status_by_id-channel dt out _ chid w (
      channel_id_from_string-channel_text out.decode_peer a b chid.initiator chid.responder chid.id
        ha hb da db h),
  λ n.
      let (e, q) = channel_id_from_string-format_uint out.decode_peer n in
      transfer_status_by_id-libp2p dt out (format_uint n) e w q,
)
