-- ===== src/Reports/Diagnostics/Aliasing.antt =====
-- filclient.go: which channels the transfers of `generateTransfers` name.
use filclient.Base.{
  ◌≡◌, refl, sym, ap, ◌∙◌, String, Bool, true, false, Option, none, some, List, [], ◌∷◌, ◌++◌, map,
  append-nil, append_assoc, Bool-cases, inl, inr, if◌then◌else◌, str_append,
}
use filclient.Errors.{error_text, Result, ok, err}
use filclient.ChannelId.{ChannelId}
use filclient.Transfer.{ChannelState}
use filclient.Reports.{DtManager, transfer_status}
use filclient.Reports.Diagnostics.{
  ChannelRequests, PeerState, ChannelPointer, nil, address, Cells, no_cells, assign, load,
  channel_id_variable, GraphsyncTransfer, TransferConverter, empty_converter, has_key,
  convert_transfer, previous_requests, convert_channel, collect_keys, collect_remaining_transfers,
  follow_all, convert_channels, generate_transfers,
}

-- The request of a transfer, with its channel.
abbrev pub labels : {C : Type 0} → List (GraphsyncTransfer C) → List (String × C)
labels [] = []
labels (t ∷ ts) = (t.request_id, t.channel_id) ∷ labels ts

-- Requests with one channel for all.
abbrev pub labelled : {C : Type 0} → C → List String → List (String × C)
labelled c [] = []
labelled c (id ∷ ids) = (id, c) ∷ labelled c ids

-- The requests of the channels, in the order of the loop.
abbrev pub requests_of : List (ChannelId × ChannelRequests) → List String
requests_of [] = []
requests_of ((chid, requests) ∷ rest) = requests.current ∷ (requests.previous ++ requests_of rest)

-- The channel of the last round.
abbrev pub last_channel : ChannelId → List (ChannelId × ChannelRequests) → ChannelId
last_channel chid [] = chid
last_channel chid ((next, requests) ∷ rest) = last_channel next rest

labelled-append :
    {C : Type 0} (c : C) (xs ys : List String)
    → labelled c (xs ++ ys) ≡ labelled c xs ++ labelled c ys
labelled-append c [] ys = refl
labelled-append c (x ∷ xs) ys = ap (◌∷◌ (x, c)) (labelled-append c xs ys)

labels-append :
    {C : Type 0} (ts us : List (GraphsyncTransfer C)) → labels (ts ++ us) ≡ labels ts ++ labels us
labels-append [] us = refl
labels-append (t ∷ ts) us = ap (◌∷◌ (t.request_id, t.channel_id)) (labels-append ts us)

-- Following the pointers, by the labels.
loaded : Cells → List (String × ChannelPointer) → List (String × Option ChannelId)
loaded cells ls = map (λ l. (l.0, load cells l.1)) ls

loaded-append :
    (cells : Cells) (xs ys : List (String × ChannelPointer))
    → loaded cells (xs ++ ys) ≡ loaded cells xs ++ loaded cells ys
unfolding loaded
loaded-append cells [] ys = refl
loaded-append cells (x ∷ xs) ys = ap (◌∷◌ (x.0, load cells x.1)) (loaded-append cells xs ys)

loaded-labelled :
    (cells : Cells) (p : ChannelPointer) (ids : List String)
    → loaded cells (labelled p ids) ≡ labelled (load cells p) ids
unfolding loaded
loaded-labelled cells p [] = refl
loaded-labelled cells p (id ∷ ids) = ap (◌∷◌ (id, load cells p)) (loaded-labelled cells p ids)

labels-follow_all :
    (cells : Cells) (ts : List (GraphsyncTransfer ChannelPointer))
    → labels (follow_all cells ts) ≡ loaded cells (labels ts)
unfolding loaded
labels-follow_all cells [] = refl
labels-follow_all cells (t ∷ ts) =
    ap (◌∷◌ (t.request_id, load cells t.channel_id)) (labels-follow_all cells ts)

-- The address that the loop stores.
abbrev here : ChannelPointer
here = address channel_id_variable

module _ (text : ChannelId → String) (gs : PeerState) (cells : Cells) where
  -- The converter has gained transfers for these requests with this pointer.
  abbrev Gains : TransferConverter → TransferConverter → ChannelPointer → List String → Type 0
  Gains tc tc' p ids = labels tc'.transfers ≡ labels tc.transfers ++ labelled p ids

  Gains-trans :
      (a b c : TransferConverter) (p : ChannelPointer) (xs ys : List String)
      → Gains a b p xs
      → Gains b c p ys
      → Gains a c p (xs ++ ys)
  Gains-trans a b c p xs ys f g =
      g
      ∙ ap (λ ls. ls ++ labelled p ys) f
      ∙ append_assoc (labels a.transfers) (labelled p xs) (labelled p ys)
      ∙ ap (λ ls. labels a.transfers ++ ls) (sym (labelled-append p xs ys))

  convert_transfer-Gains :
      (p : ChannelPointer) (st : Option ChannelState) (base : List String) (id : String)
      (current : Bool) (tc : TransferConverter)
      → Gains tc (convert_transfer text gs cells p st base id current tc) p (id ∷ [])
  unfolding convert_transfer
  convert_transfer-Gains p st base id current tc = labels-append tc.transfers _

  previous_requests-Gains :
      (st : Option ChannelState) (base ids : List String) (tc : TransferConverter)
      → Gains tc (previous_requests text gs cells st base ids tc) here ids
  unfolding previous_requests
  previous_requests-Gains st base [] tc = sym (append-nil _)
  previous_requests-Gains st base (id ∷ ids) tc =
      let tc' = convert_transfer text gs cells here st base id false tc in
      Gains-trans tc tc' (previous_requests text gs cells st base ids tc') here (id ∷ []) ids
        (convert_transfer-Gains here st base id false tc) (previous_requests-Gains st base ids tc')

  convert_channel-Gains :
      (requests : ChannelRequests) (status : Result ChannelState) (tc : TransferConverter)
      → Gains tc
          (convert_channel text gs cells requests status tc)
          here
          (requests.current ∷ requests.previous)
  unfolding convert_channel
  convert_channel-Gains requests (ok st) tc =
      let tc' = convert_transfer text gs cells here (some st) [] requests.current true tc in
      Gains-trans tc tc' (previous_requests text gs cells (some st) [] requests.previous tc') here
        (requests.current ∷ []) requests.previous
        (convert_transfer-Gains here (some st) [] requests.current true tc)
        (previous_requests-Gains (some st) [] requests.previous tc')
  convert_channel-Gains requests (err e) tc =
      let base = str_append "Unable to lookup channel state: " (error_text e) ∷ [] in
      let tc' = convert_transfer text gs cells here none base requests.current true tc in
      Gains-trans tc tc' (previous_requests text gs cells none base requests.previous tc') here
        (requests.current ∷ []) requests.previous
        (convert_transfer-Gains here none base requests.current true tc)
        (previous_requests-Gains none base requests.previous tc')

  -- One round of the loop over the keys.
  abbrev collected : String → TransferConverter → TransferConverter
  collected k tc =
      if has_key tc.matched_requests k
      then tc
      else convert_transfer text gs cells nil none [] k false tc

  collected-Gains :
      (k : String) (tc : TransferConverter)
      → (ids : List String) × Gains tc (collected k tc) nil ids
  collected-Gains k tc = elim (Bool-cases (has_key tc.matched_requests k)) [
    | inl e ↦ rw e ([], sym (append-nil _))
    | inr e ↦ rw e (k ∷ [], convert_transfer-Gains nil none [] k false tc)
  ]

  collect_keys-Gains :
      {V : Type 0} (keys : List (String × V)) (tc : TransferConverter)
      → (ids : List String) × Gains tc (collect_keys text gs cells keys tc) nil ids
  unfolding collect_keys
  collect_keys-Gains [] tc = ([], sym (append-nil _))
  collect_keys-Gains ((k, v) ∷ keys) tc =
      let tc' = collected k tc in
      let (xs, f) = collected-Gains k tc in
      let (ys, g) = collect_keys-Gains keys tc' in
      (xs ++ ys, Gains-trans tc tc' (collect_keys text gs cells keys tc') nil xs ys f g)

  collect_remaining_transfers-Gains :
      (tc : TransferConverter)
      → (ids : List String) × Gains tc (collect_remaining_transfers text gs cells tc) nil ids
  unfolding collect_remaining_transfers
  collect_remaining_transfers-Gains tc =
      let tc' = collect_keys text gs cells gs.request_states tc in
      let (xs, f) = collect_keys-Gains gs.request_states tc in
      let (ys, g) = collect_keys-Gains gs.diagnostics tc' in
      (xs ++ ys, Gains-trans tc tc' (collect_keys text gs cells gs.diagnostics tc') nil xs ys f g)

module _ {W : Type 0} (dt : DtManager W) (gs : PeerState) where
  convert_channels-labels :
      (channels : List (ChannelId × ChannelRequests)) (cells : Cells) (tc : TransferConverter)
      (w : W)
      → labels (convert_channels dt gs channels cells tc w).0.1.transfers
        ≡ labels tc.transfers ++ labelled here (requests_of channels)
  unfolding convert_channels
  convert_channels-labels [] cells tc w = sym (append-nil _)
  convert_channels-labels ((chid, requests) ∷ rest) cells tc w =
      let cells' = assign cells channel_id_variable chid in
      let (status, w') = transfer_status dt chid w in
      let tc' = convert_channel dt.channel_text gs cells' requests status tc in
      Gains-trans dt.channel_text gs cells' tc tc' (convert_channels dt gs rest cells' tc' w').0.1
        here (requests.current ∷ requests.previous) (requests_of rest)
        (convert_channel-Gains dt.channel_text gs cells' requests status tc)
        (convert_channels-labels rest cells' tc' w')

  -- The variable holds the channel of the last round.
  convert_channels-last :
      (chid : ChannelId) (channels : List (ChannelId × ChannelRequests)) (cells : Cells)
      (tc : TransferConverter) (w : W)
      → load cells here ≡ some chid
      → load (convert_channels dt gs channels cells tc w).0.0 here
        ≡ some (last_channel chid channels)
  unfolding convert_channels
  convert_channels-last chid [] cells tc w h = h
  convert_channels-last chid ((next, requests) ∷ rest) cells tc w h =
      convert_channels-last next rest (assign cells channel_id_variable next) _ _ refl

  -- When there is a channel, `generateTransfers` reports each request of the channels, in the order of
  -- the loop, and says of all of them that they belong to the channel of the last round; the transfers
  -- after them have no channel.
  pub generate_transfers-labels :
      (chid : ChannelId) (requests : ChannelRequests) (rest : List (ChannelId × ChannelRequests))
      (w : W)
      → (others : List String) × (labels (generate_transfers dt ((chid, requests) ∷ rest) gs w).0
          ≡ labelled (some (last_channel chid rest)) (requests_of ((chid, requests) ∷ rest))
            ++ labelled none others)
  unfolding generate_transfers convert_channels
  generate_transfers-labels chid requests rest w =
      let channels = (chid, requests) ∷ rest in
      let ((cells, tc), w') = convert_channels dt gs channels no_cells empty_converter w in
      let (others, more) = collect_remaining_transfers-Gains dt.channel_text gs cells tc in
      (
        others,
        labels-follow_all cells (collect_remaining_transfers dt.channel_text gs cells tc).transfers
            ∙ ap (loaded cells) (
                more
                ∙ ap (λ ls. ls ++ labelled nil others)
                    (convert_channels-labels channels no_cells empty_converter w))
            ∙ loaded-append cells (labelled here (requests_of channels)) (labelled nil others)
            ∙ ap (λ ls. ls ++ loaded cells (labelled nil others))
                (loaded-labelled cells here (requests_of channels)
                  ∙ ap (λ c. labelled c (requests_of channels))
                      (convert_channels-last chid rest (assign no_cells channel_id_variable chid) _
                        _ refl))
            ∙ ap (λ ls. labelled (some (last_channel chid rest)) (requests_of channels) ++ ls)
                (loaded-labelled cells nil others),
      )
