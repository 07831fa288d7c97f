-- ===== src/Reports/Diagnostics/Coverage.antt =====
-- filclient.go: which graphsync requests `generateTransfers` reports, and how often.
use filclient.Base.{
  ℕ, ◌+◌, String, str_append, str_eq, eq_iff, Bool, true, false, ◌||◌, ◌≡◌, refl, sym, ap, ◌∙◌,
  subst, Option, none, some, List, [], ◌∷◌, ◌++◌, ltb, arith, if◌then◌else◌, Bool-cases, inl, inr,
}
use filclient.Errors.{GoError, error_text, Result, ok, err}
use filclient.ChannelId.{ChannelId}
use filclient.Transfer.{ChannelState}
use filclient.Reports.{DtManager, transfer_status}
use filclient.Reports.Diagnostics.{
  ChannelRequests, PeerState, ChannelPointer, address, Cells, assign, no_cells, channel_id_variable,
  GraphsyncTransfer, TransferConverter, has_key, convert_transfer, previous_requests,
  convert_channel, collect_keys, collect_remaining_transfers, convert_channels, follow_all,
  generate_transfers, empty_converter,
}

-- 1 for equal texts.
abbrev pub one : String → String → ℕ
one a b = if str_eq a b then 1 else 0

-- How often a request is reported.
abbrev pub count : {C : Type 0} → String → List (GraphsyncTransfer C) → ℕ
count id [] = 0
count id (t ∷ ts) = one t.request_id id + count id ts

-- How often it stands in a list, and among the requests of the channels.
abbrev pub times : String → List String → ℕ
times id [] = 0
times id (r ∷ rs) = one r id + times id rs

abbrev pub listed : String → List (ChannelId × ChannelRequests) → ℕ
listed id [] = 0
listed id ((chid, requests) ∷ rest) =
    one requests.current id + times id requests.previous + listed id rest

abbrev pub is_key {ℓ} : {V : Type ℓ} → String → List (String × V) → Bool
is_key id [] = false
is_key id ((k, v) ∷ rest) = str_eq k id || is_key id rest

-- At least once, if it is a key.
abbrev pub settle : ℕ → Bool → ℕ
settle n b = if ltb 0 n then n else if b then 1 else 0

count-append :
    {C : Type 0} (id : String) (ts : List (GraphsyncTransfer C)) (t : GraphsyncTransfer C)
    → count id (ts ++ t ∷ []) ≡ count id ts + one t.request_id id
count-append id [] t = omega arith
count-append id (u ∷ ts) t = omega (arith, count-append id ts t)

module _ (text : ChannelId → String) (gs : PeerState) (id : String) where
  -- The request has been reported `n` times, and the converter knows whether it has been.
  abbrev Seen : TransferConverter → ℕ → Type 0
  Seen tc n = (count id tc.transfers ≡ n) × (has_key tc.matched_requests id ≡ ltb 0 n)

  convert_transfer-Seen :
      (cells : Cells) (p : ChannelPointer) (st : Option ChannelState) (base : List String)
      (request_id : String) (current : Bool) (tc : TransferConverter) (n : ℕ)
      → Seen tc n
      → Seen
          (convert_transfer text gs cells p st base request_id current tc)
          (n + one request_id id)
  unfolding convert_transfer
  convert_transfer-Seen cells p st base request_id current tc n h = (
    count-append id tc.transfers _ ∙ ap (λ m. m + one request_id id) h.0,
    elim (Bool-cases (str_eq request_id id)) [
      | inl e ↦ rw e (ground arith)
      | inr e ↦ rw e (h.1 ∙ ap (ltb 0) (omega arith))
    ],
  )

  previous_requests-Seen :
      (cells : Cells) (st : Option ChannelState) (base requests : List String)
      (tc : TransferConverter) (n : ℕ)
      → Seen tc n
      → Seen (previous_requests text gs cells st base requests tc) (n + times id requests)
  unfolding previous_requests
  previous_requests-Seen cells st base [] tc n h = subst (Seen tc) (omega arith) h
  previous_requests-Seen cells st base (r ∷ rs) tc n h =
      subst (Seen (previous_requests text gs cells st base (r ∷ rs) tc)) (omega arith) (
        previous_requests-Seen cells st base rs _ (n + one r id)
          (convert_transfer-Seen cells (address channel_id_variable) st base r false tc n h))

  abbrev unknown : GoError → List String
  unknown e = str_append "Unable to lookup channel state: " (error_text e) ∷ []

  convert_channel-Seen :
      (cells : Cells) (requests : ChannelRequests) (status : Result ChannelState)
      (tc : TransferConverter) (n : ℕ)
      → Seen tc n
      → Seen
          (convert_channel text gs cells requests status tc)
          (n + one requests.current id + times id requests.previous)
  unfolding convert_channel
  convert_channel-Seen cells requests (ok st) tc n h =
      previous_requests-Seen cells (some st) [] requests.previous _ _ (
        convert_transfer-Seen cells (address channel_id_variable) (some st) [] requests.current true
          tc n h)
  convert_channel-Seen cells requests (err e) tc n h =
      previous_requests-Seen cells none (unknown e) requests.previous _ _ (
        convert_transfer-Seen cells (address channel_id_variable) none (unknown e) requests.current
          true tc n h)

  settle-or : (n : ℕ) (b c : Bool) → settle (settle n b) c ≡ settle n (b || c)
  settle-or n b c = ground arith

  n-settle-known : (n : ℕ) (b : Bool) → ltb 0 n ≡ true → n ≡ settle n b
  n-settle-known n b h = ground arith

  settle-new : (n : ℕ) → ltb 0 n ≡ false → n + 1 ≡ settle n true
  settle-new n h = ground arith

  same :
      (k : String) (tc : TransferConverter) (n : ℕ)
      → Seen tc n
      → str_eq k id ≡ true
      → has_key tc.matched_requests k ≡ ltb 0 n
  same k tc n h e = ap (has_key tc.matched_requests) ((eq_iff k id).0 e) ∙ h.1

  n-settle :
      (k : String) (tc : TransferConverter) (n : ℕ)
      → (str_eq k id ≡ true → has_key tc.matched_requests k ≡ ltb 0 n)
      → has_key tc.matched_requests k ≡ true
      → n ≡ settle n (str_eq k id)
  n-settle k tc n f e = elim (Bool-cases (str_eq k id)) [
    | inl b ↦ n-settle-known n (str_eq k id) (sym (f b) ∙ e)
    | inr b ↦ rw b (ground arith)
  ]

  n-settle-one :
      (k : String) (tc : TransferConverter) (n : ℕ)
      → (str_eq k id ≡ true → has_key tc.matched_requests k ≡ ltb 0 n)
      → has_key tc.matched_requests k ≡ false
      → n + one k id ≡ settle n (str_eq k id)
  n-settle-one k tc n f e = elim (Bool-cases (str_eq k id)) [
    | inl b ↦ rw b (settle-new n (sym (f b) ∙ e))
    | inr b ↦ rw b (ground arith)
  ]

  -- One round of the loop over the keys.
  settled :
      (cells : Cells) (k : String) (tc : TransferConverter) (n : ℕ)
      → Seen tc n
      → Seen
          (if has_key tc.matched_requests k
            then tc
            else convert_transfer text gs cells ChannelPointer.nil none [] k false tc)
          (settle n (str_eq k id))
  settled cells k tc n h = elim (Bool-cases (has_key tc.matched_requests k)) [
    | inl e ↦ rw e (subst (Seen tc) (n-settle k tc n (same k tc n h) e) h)
    | inr e ↦ rw e (
        subst (Seen (convert_transfer text gs cells ChannelPointer.nil none [] k false tc))
          (n-settle-one k tc n (same k tc n h) e)
          (convert_transfer-Seen cells ChannelPointer.nil none [] k false tc n h))
  ]

  collect_keys-Seen :
      {V : Type 0} (cells : Cells) (keys : List (String × V)) (tc : TransferConverter) (n : ℕ)
      → Seen tc n
      → Seen (collect_keys text gs cells keys tc) (settle n (is_key id keys))
  unfolding collect_keys
  collect_keys-Seen cells [] tc n h = subst (Seen tc) (ground arith) h
  collect_keys-Seen cells ((k, v) ∷ keys) tc n h =
      subst (Seen (collect_keys text gs cells ((k, v) ∷ keys) tc))
        (settle-or n (str_eq k id) (is_key id keys))
        (collect_keys-Seen cells keys _ (settle n (str_eq k id)) (settled cells k tc n h))

  collect_remaining_transfers-Seen :
      (cells : Cells) (tc : TransferConverter) (n : ℕ)
      → Seen tc n
      → Seen
          (collect_remaining_transfers text gs cells tc)
          (settle n (is_key id gs.request_states || is_key id gs.diagnostics))
  unfolding collect_remaining_transfers
  collect_remaining_transfers-Seen cells tc n h =
      subst (Seen (collect_remaining_transfers text gs cells tc)) (settle-or n _ _) (
        collect_keys-Seen cells gs.diagnostics _ _
          (collect_keys-Seen cells gs.request_states tc n h))

zero-add : (n : ℕ) → 0 + n ≡ n
zero-add n = omega arith

count-follow_all :
    (id : String) (cells : Cells) (ts : List (GraphsyncTransfer ChannelPointer))
    → count id (follow_all cells ts) ≡ count id ts
count-follow_all id cells [] = refl
count-follow_all id cells (t ∷ ts) =
    ap (λ n. one t.request_id id + n) (count-follow_all id cells ts)

module _ {W : Type 0} (dt : DtManager W) (gs : PeerState) (id : String) where
  convert_channels-Seen :
      (channels : List (ChannelId × ChannelRequests)) (cells : Cells) (tc : TransferConverter)
      (n : ℕ) (w : W)
      → Seen dt.channel_text gs id tc n
      → Seen dt.channel_text gs id
          (convert_channels dt gs channels cells tc w).0.1
          (n + listed id channels)
  unfolding convert_channels
  convert_channels-Seen [] cells tc n w h = subst (Seen dt.channel_text gs id tc) (omega arith) h
  convert_channels-Seen ((chid, requests) ∷ rest) cells tc n w h =
      subst
        (Seen dt.channel_text gs id
          (convert_channels dt gs ((chid, requests) ∷ rest) cells tc w).0.1)
        (omega arith)
        (convert_channels-Seen rest _ _ _ (transfer_status dt chid w).1 (
          convert_channel-Seen dt.channel_text gs id (assign cells channel_id_variable chid)
            requests (transfer_status dt chid w).0 tc n h))

  -- `generateTransfers` reports a request as often as the channels list it; one that no channel lists
  -- is reported once if the peer's state or its diagnostics have it, and not at all otherwise.
  pub generate_transfers-count :
      (channels : List (ChannelId × ChannelRequests)) (w : W)
      → count id (generate_transfers dt channels gs w).0
        ≡ settle (listed id channels) (is_key id gs.request_states || is_key id gs.diagnostics)
  unfolding generate_transfers
  generate_transfers-count channels w =
      count-follow_all id (convert_channels dt gs channels no_cells empty_converter w).0.0
        (collect_remaining_transfers dt.channel_text gs
          (convert_channels dt gs channels no_cells empty_converter w).0.0
          (convert_channels dt gs channels no_cells empty_converter w).0.1).transfers
      ∙ (collect_remaining_transfers-Seen dt.channel_text gs id
          (convert_channels dt gs channels no_cells empty_converter w).0.0 _ _
          (convert_channels-Seen channels no_cells empty_converter 0 w (refl, refl))).0
      ∙ ap (λ n. settle n (is_key id gs.request_states || is_key id gs.diagnostics))
          (zero-add (listed id channels))
