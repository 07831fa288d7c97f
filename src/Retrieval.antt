-- ===== src/Retrieval.antt =====
-- filclient.go: a retrieval over data transfer (`retrieveContentFromPeerWithProgressCallback`).
-- This file has what its parts share: the answers of the outside, the deal and its progress.
pub mod Query
pub mod Handler
pub mod Content
pub mod Async
pub mod PaymentChannel
pub mod Tests
use filclient.Base.{
  ℕ, String, Bool, true, false, ◌&&◌, Option, none, some, List, [], ◌∷◌, ◌==◌, str_eq,
}
use filclient.Base.Big.{Big}
use filclient.Errors.{GoError, Result}
pub use filclient.ChannelId.{ChannelId}
use filclient.Rep.Event.{RetrievalEvent}

-- `!=` on channel ids.
abbrev pub same_channel : ChannelId → ChannelId → Bool
same_channel a b = str_eq a.initiator b.initiator && str_eq a.responder b.responder && a.id == b.id

-- The zero value of `ChannelID`.
abbrev pub no_channel : ChannelId
no_channel = record { initiator = ""; responder = ""; id = 0 }

-- The zero value of `address.Address`, which is `address.Undef`.
abbrev pub address_undef : String
address_undef = ""

-- The codes of data transfer events that the callback names, and all others.
pub data EventCode : Type 0 where
  open_code accept restart data_received data_sent cancel error cleanup_complete new_voucher
        new_voucher_result pause_initiator resume_initiator pause_responder resume_responder
        finish_transfer responder_completes responder_begins_finalization begin_finalizing
        disconnected complete complete_cleanup_on_restart data_queued data_queued_progress
        data_sent_progress data_received_progress request_timed_out send_data_error
        receive_data_error transfer_request_queued request_cancelled opened other_code :
      EventCode

-- The statuses of a deal response that the callback names, and all others.
pub data DealStatus : Type 0 where
  deal_accepted funds_needed funds_needed_last_payment rejected funds_needed_unseal unsealing
        cancelled errored completed other_status :
      DealStatus

pub record DealResponse (Int : Type 0) : Type 0 where
  pub status : DealStatus
  pub message : String
  pub payment_owed : Int

-- The event with the channel state that comes with it. The last voucher result is `none` if it is
-- no `DealResponse`.
pub record DtEvent (Int : Type 0) : Type 0 where
  pub code : EventCode
  pub message : String
  pub channel_id : ChannelId
  pub received : ℕ
  pub last_voucher_result : Option (DealResponse Int)

-- `paych.SignedVoucher`, the fields that are set.
pub record Voucher (Int : Type 0) : Type 0 where
  pub channel_addr : String
  pub lane : ℕ
  pub nonce : ℕ
  pub amount : Int

pub record VoucherResult (Int : Type 0) : Type 0 where
  pub voucher : Voucher Int
  pub shortfall : Int

-- `retrievalmarket.DealPayment`.
pub record DealPayment (Int : Type 0) : Type 0 where
  pub id : ℕ
  pub payment_channel : String
  pub payment_voucher : Voucher Int

-- The answers of the payment channel manager and of the data transfer manager during one event.
pub record Replies (Int : Type 0) : Type 0 where
  pub create_voucher : Voucher Int → Result (VoucherResult Int)
  pub send_voucher : ChannelId → DealPayment Int → Result (Unit {0})

-- The variables that do not change once the transfer is open.
pub record Deal : Type 0 where
  pub deal_id : ℕ
  pub root_cid : String
  pub peer_id : String
  pub pch_required : Bool
  pub pch_addr : String
  pub pch_lane : ℕ
  pub chanid : ChannelId

-- The variables that the callback changes, the channel `dtRes` of capacity 1, and what the
-- retrieval has done to the outside: the events it published, the vouchers it asked for and sent
-- on, the progress it reported and the channels it closed.
pub record Progress (Int : Type 0) : Type 0 where
  pub total_payment : Int
  pub nonce : ℕ
  pub dt_res : Option (Option GoError)
  pub all_bytes_received : Bool
  pub deal_complete : Bool
  pub received_first_byte : Bool
  pub published : List (RetrievalEvent Int)
  pub requested : List (Voucher Int)
  pub sent : List (DealPayment Int)
  pub reported : List ℕ
  pub closed : List ChannelId
