-- ===== src/Reports/Diagnostics.antt =====
-- filclient.go: `MinerTransferDiagnostics`, `generateTransfers` and the `transferConverter`.
pub mod Coverage
pub mod Aliasing
use filclient.Base.{
  ℕ, ◌==◌, String, str_append, str_eq, Bool, true, false, ◌||◌, Option, none, some, List, [], ◌∷◌,
  ◌++◌, if◌then◌else◌,
}
use filclient.Errors.{GoError, error_text, Result, ok, err}
use filclient.Errors.Action.{Action, return, ◌>>=◌}
use filclient.Connection.{Network, AddrInfo, miner_peer}
use filclient.ChannelId.{ChannelId}
use filclient.Transfer.{ChannelState}
use filclient.Reports.{DtChannel, DtManager, transfer_status}

-- The graphsync requests of a channel, `ChannelGraphsyncRequests`.
pub record ChannelRequests : Type 0 where
  pub current : String
  pub previous : List String

-- `peerstate.PeerState`: two maps by request id, in the order of their iteration.
pub record PeerState : Type 0 where
  pub diagnostics : List (String × List String)
  pub request_states : List (String × String)

-- The transport and graphsync.
pub record Graphsync (W : Type 0) : Type 0 where
  pub sending_channels : String → W → List (ChannelId × ChannelRequests)
  pub receiving_channels : String → W → List (ChannelId × ChannelRequests)
  pub incoming_state : String → W → PeerState
  pub outgoing_state : String → W → PeerState

-- A `*datatransfer.ChannelID`: nil, or the address of a variable.
pub data ChannelPointer : Type 0 where
  nil : ChannelPointer
  address : ℕ → ChannelPointer

-- What the variables hold.
abbrev pub Cells : Type 0
Cells = ℕ → Option ChannelId

abbrev pub no_cells : Cells
no_cells a = none

abbrev pub assign : Cells → ℕ → ChannelId → Cells
assign cells a chid b = if b == a then some chid else cells b

abbrev pub load : Cells → ChannelPointer → Option ChannelId
load cells nil = none
load cells (address a) = cells a

-- The address of `channelID`. Before Go 1.22 a loop has one variable for all its rounds, to which each
-- round assigns.
abbrev pub channel_id_variable : ℕ
channel_id_variable = 0

-- `GraphSyncDataTransfer`.
pub record GraphsyncTransfer (Channel : Type 0) : Type 0 where
  pub request_id : String
  pub request_state : String
  pub is_current_channel_request : Bool
  pub channel_id : Channel
  pub channel_state : Option ChannelState
  pub diagnostics : List String

-- `transferConverter`. Of `matchedRequests` only the keys are read.
pub record TransferConverter : Type 0 where
  pub matched_requests : List String
  pub transfers : List (GraphsyncTransfer ChannelPointer)

abbrev pub empty_converter : TransferConverter
empty_converter = record { matched_requests = []; transfers = [] }

abbrev pub lookup {ℓ} : {V : Type ℓ} → List (String × V) → String → Option V
lookup [] key = none
lookup ((k, v) ∷ rest) key = if str_eq k key then some v else lookup rest key

abbrev pub has_key : List String → String → Bool
has_key [] key = false
has_key (k ∷ ks) key = str_eq k key || has_key ks key

abbrev or_empty : Option (List String) → List String
or_empty none = []
or_empty (some texts) = texts

-- `text` is `ChannelID.String`.
module _ (text : ChannelId → String) (gs : PeerState) where
  -- The request's state, and what there is to say if there is none.
  state_text : Option String → String
  state_text (some state) = state
  state_text none = "no graphsync state found"

  notes : Option ChannelId → Option String → String → List String
  notes none state request_id =
      str_append "No data transfer channel id for GraphSync request ID " request_id ∷ []
  notes (some chid) none request_id =
      str_append "No current request state for data transfer channel id " (text chid) ∷ []
  notes (some chid) (some state) request_id = []

  unfoldable pub convert_transfer :
      Cells
      → ChannelPointer
      → Option ChannelState
      → List String
      → String
      → Bool
      → TransferConverter
      → TransferConverter
  unfolding state_text notes
  convert_transfer cells pointer channel_state base request_id is_current tc =
      let state = lookup gs.request_states request_id in
      record {
        matched_requests = request_id ∷ tc.matched_requests;
        transfers =
            tc.transfers
            ++ (record {
              request_id = request_id;
              request_state = state_text state;
              is_current_channel_request = is_current;
              channel_id = pointer;
              channel_state = channel_state;
              diagnostics =
                  base
                  ++ (notes (load cells pointer) state request_id
                      ++ or_empty (lookup gs.diagnostics request_id));
            })
              ∷ [];
      }

  previous_requests :
      Cells
      → Option ChannelState
      → List String
      → List String
      → TransferConverter
      → TransferConverter
  unfolding convert_transfer
  previous_requests cells channel_state base [] tc = tc
  previous_requests cells channel_state base (request_id ∷ rest) tc =
      previous_requests cells channel_state base rest (
        convert_transfer cells (address channel_id_variable) channel_state base request_id false tc)

  -- One round of the loop over the channels.
  convert_channel :
      Cells → ChannelRequests → Result ChannelState → TransferConverter → TransferConverter
  unfolding previous_requests
  convert_channel cells requests (ok st) tc =
      previous_requests cells (some st) [] requests.previous
        (convert_transfer cells (address channel_id_variable) (some st) [] requests.current true tc)
  convert_channel cells requests (err e) tc =
      let base = str_append "Unable to lookup channel state: " (error_text e) ∷ [] in
      previous_requests cells none base requests.previous
        (convert_transfer cells (address channel_id_variable) none base requests.current true tc)

  -- The loops of `collectRemainingTransfers`: the keys without a transfer get one.
  unfoldable pub collect_keys {ℓ} :
      {V : Type ℓ} → Cells → List (String × V) → TransferConverter → TransferConverter
  unfolding convert_transfer
  collect_keys cells [] tc = tc
  collect_keys cells ((request_id, v) ∷ rest) tc = collect_keys cells rest (
      if has_key tc.matched_requests request_id
      then tc
      else convert_transfer cells nil none [] request_id false tc)

  unfoldable pub collect_remaining_transfers : Cells → TransferConverter → TransferConverter
  unfolding collect_keys
  collect_remaining_transfers cells tc =
      collect_keys cells gs.diagnostics (collect_keys cells gs.request_states tc)

-- Following the pointers of the transfers.
abbrev pub follow_all :
    Cells → List (GraphsyncTransfer ChannelPointer) → List (GraphsyncTransfer (Option ChannelId))
follow_all cells [] = []
follow_all cells (t ∷ ts) =
    (record {
      request_id = t.request_id;
      request_state = t.request_state;
      is_current_channel_request = t.is_current_channel_request;
      channel_id = load cells t.channel_id;
      channel_state = t.channel_state;
      diagnostics = t.diagnostics;
    })
    ∷ follow_all cells ts

module _ {W : Type 0} (dt : DtManager W) where
  convert_channels :
      PeerState
      → List (ChannelId × ChannelRequests)
      → Cells
      → TransferConverter
      → W
      → (Cells × TransferConverter) × W
  unfolding convert_channel transfer_status
  convert_channels gs [] cells tc w = ((cells, tc), w)
  convert_channels gs ((chid, requests) ∷ rest) cells tc w =
      let cells' = assign cells channel_id_variable chid in
      let (status, w') = transfer_status dt chid w in
      convert_channels gs rest cells' (convert_channel dt.channel_text gs cells' requests status tc)
        w'

  -- The transfers, with the pointers as their readers follow them, after the call.
  unfoldable pub generate_transfers :
      List (ChannelId × ChannelRequests)
      → PeerState
      → W
      → List (GraphsyncTransfer (Option ChannelId)) × W
  unfolding convert_channels collect_remaining_transfers
  generate_transfers channels gs w =
      let ((cells, tc), w') = convert_channels gs channels no_cells empty_converter w in
      (follow_all cells (collect_remaining_transfers dt.channel_text gs cells tc).transfers, w')

  -- `MinerTransferDiagnostics`, the struct and the method.
  pub record TransferDiagnostics : Type 0 where
    pub receiving_transfers : List (GraphsyncTransfer (Option ChannelId))
    pub sending_transfers : List (GraphsyncTransfer (Option ChannelId))

  unfoldable pub miner_transfer_diagnostics :
      Network W → Graphsync W → String → Action W TransferDiagnostics
  unfolding generate_transfers miner_peer
  miner_transfer_diagnostics net graphsync miner = do
    peer ← miner_peer net miner
    λ w.
        let (sending, w') =
          generate_transfers (graphsync.sending_channels peer.id w)
            (graphsync.incoming_state peer.id w) w in
        let (receiving, w'') =
          generate_transfers (graphsync.receiving_channels peer.id w)
            (graphsync.outgoing_state peer.id w) w' in
        (ok (record { receiving_transfers = receiving; sending_transfers = sending }), w'')
