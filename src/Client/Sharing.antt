-- ===== src/Client/Sharing.antt =====
-- apiprov.go: the API of the payment channel manager, which sends messages through the client's message
-- pusher. Both have a pointer to it.
pub mod Nonces
use filclient.Base.{ℕ, String, Bool, List, [], ◌∷◌, ◌++◌, ◌==◌, if◌then◌else◌}
use filclient.Base.Big.{Big}
use filclient.Errors.{Result}
use filclient.Errors.Action.{Action}
use filclient.MsgPusher.{Message, SignedMessage, Replies, MsgPusher, mpool_push_message}
use filclient.MsgPusher.Nonces.{used}
use filclient.Client.{Kinds, Ref, Heap, PaychApiProvider, FilClient}

-- The calls of the wallet. The meta data of a signature is its type.
pub record WalletCalls (W Wallet : Type 0) : Type 0 where
  pub has : Wallet → String → Action W Bool
  pub sign : Wallet → String → String → String → Action W String

module _ {W : Type 0} {k : Kinds} (wallet : WalletCalls W (k.Wallet))
    (papi : PaychApiProvider k) where
  unfoldable pub wallet_has : String → Action W Bool
  wallet_has addr = wallet.has papi.wallet addr

  unfoldable pub wallet_sign : String → String → Action W String
  wallet_sign addr raw = wallet.sign papi.wallet addr raw "unknown"

module _ {Int : Type 0} (big : Big Int) where
  -- `(*MsgPusher).MpoolPushMessage` on a pointer.
  unfoldable pub push_at :
      Ref → Replies Int → Message Int → Heap → Result (SignedMessage Int) × Heap
  push_at ref r msg heap =
      let (res, mp) = mpool_push_message big r (heap.pusher ref) msg in
      (res, record heap { pusher = λ i. if i == ref then mp else heap.pusher i })

  module _ {k : Kinds} where
    unfoldable pub provider_push_message :
        PaychApiProvider k → Replies Int → Message Int → Heap → Result (SignedMessage Int) × Heap
    unfolding push_at
    provider_push_message papi r msg heap = push_at papi.mp r msg heap

-- Who pushes a message: a method of the client, or the payment channel manager.
pub data Sender : Type 0 where
  by_client by_payments : Sender

module _ {W Int : Type 0} {k : Kinds} (big : Big Int) (fc : FilClient W k)
    (papi : PaychApiProvider k) where
  unfoldable pub send_by :
      Sender → Replies Int → Message Int → Heap → Result (SignedMessage Int) × Heap
  unfolding push_at provider_push_message
  send_by by_client r msg heap = push_at big fc.mpusher r msg heap
  send_by by_payments r msg heap = provider_push_message big papi r msg heap

  -- The nonces of the key `key` that a sequence of calls uses, in order.
  unfoldable pub all_sent : String → Heap → List (Sender × (Replies Int × Message Int)) → List ℕ
  unfolding send_by
  all_sent key heap [] = []
  all_sent key heap ((who, (r, msg)) ∷ cs) =
      let (res, heap') = send_by who r msg heap in
      used key (r.state_account_key msg.sender) res ++ all_sent key heap' cs
