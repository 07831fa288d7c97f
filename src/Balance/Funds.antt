-- ===== src/Balance/Funds.antt =====
-- filclient.go: the nonces and the funds of `LockMarketFunds`.
use filclient.Base.{ℕ, ◌+◌, String, false, ◌≡◌, refl, ap, ◌⊎◌, inl, inr, some, u64, Bool-cases}
use filclient.Base.Big.{Big}
use filclient.Errors.{Result, ok, err}
use filclient.MsgPusher.{SignedMessage, Replies, MsgPusher}
use filclient.MsgPusher.Nonces.{KeepsNonce, mpool_push_message-renonce}
use filclient.MsgPusher.Pushed.{IsNext, Pushes, mpool_push_message-Pushes}
use filclient.Balance.{
  Actor, FundsEnv, add_balance, locked_by, push_funds, with_actor, lock_market_funds,
}

module _ {Int : Type 0} (big : Big Int) (env : FundsEnv Int) (r : Replies Int)
    (mp : MsgPusher) where
  push_funds-nonce :
      (amt : Int) (n m : ℕ) (enc : Result String)
      → push_funds big env r mp amt n enc ≡ push_funds big env r mp amt m enc
  unfolding push_funds
  push_funds-nonce amt n m (ok enc) =
      ap (locked_by big env r mp)
        (mpool_push_message-renonce big r mp (add_balance big env r mp amt m enc) n)
  push_funds-nonce amt n m (err e) = refl

  -- What a call does for the key `k`, with the balance of the actor that it has seen. On success the
  -- identifier is that of a message in the pool, with the nonce for this call, and the next is tracked.
  abbrev pub Locks : String → Int → Int → Result String × MsgPusher → Type 0
  Locks k balance amt (ok cid, mp') =
      (big.less_than balance amt ≡ false)
      × ((smsg : SignedMessage Int) × (cid ≡ env.message_cid smsg)
          × IsNext r k (mp.nonces k) smsg.message.nonce
          × (r.mpool_push smsg ≡ ok tt)
          × (mp'.nonces k ≡ some (u64 (smsg.message.nonce + 1))))
  Locks k balance amt (err e, mp') =
      (mp'.nonces k ≡ mp.nonces k)
      ⊎ ((n : ℕ) × IsNext r k (mp.nonces k) n × (mp'.nonces k ≡ some n))

  locked_by-Locks :
      (k : String) (balance amt : Int) (pushed : Result (SignedMessage Int) × MsgPusher)
      → big.less_than balance amt ≡ false
      → Pushes r k (mp.nonces k) pushed
      → Locks k balance amt (locked_by big env r mp pushed)
  unfolding locked_by
  locked_by-Locks k balance amt (ok smsg, mp') h (next, accepted, now) =
      (h, (smsg, refl, next, accepted, now))
  locked_by-Locks k balance amt (err e, mp') h u = u

  module _ (keeps : KeepsNonce r) (k : String)
      (key : r.state_account_key env.client_addr ≡ ok k) where
    push_funds-Locks :
        (balance amt : Int) (n : ℕ) (enc : Result String)
        → big.less_than balance amt ≡ false
        → Locks k balance amt (push_funds big env r mp amt n enc)
    unfolding push_funds
    push_funds-Locks balance amt n (ok enc) h =
        locked_by-Locks k balance amt _ h
          (mpool_push_message-Pushes r k big keeps mp (add_balance big env r mp amt n enc) key)
    push_funds-Locks balance amt n (err e) h = inl refl

-- `LockMarketFunds`, if the gas estimate leaves the nonce as it is: it succeeds only if the balance
-- covers the amount, and then the message that it names was accepted by the pool with the tracked nonce of
-- the client's key, or the one on chain if none was tracked, and the next one is tracked; if it fails, a
-- tracked nonce stays. The nonce of the actor that it has read makes no difference.
pub lock_market_funds-Locks :
    {Int : Type 0} (big : Big Int) (env : FundsEnv Int) (r : Replies Int) (mp : MsgPusher)
    (act : Actor Int) (amt : Int) (k : String)
    → KeepsNonce r
    → r.state_account_key env.client_addr ≡ ok k
    → Locks big env r mp k act.balance amt (lock_market_funds big env r mp (ok act) amt)
      × ((n : ℕ)
          → lock_market_funds big env r mp (ok (record act { nonce = n })) amt
            ≡ lock_market_funds big env r mp (ok act) amt)
unfolding lock_market_funds with_actor
lock_market_funds-Locks big env r mp act amt k keeps key =
    elim (Bool-cases (big.less_than act.balance amt)) [
      | inl e ↦ rw e (inl refl, λ n. refl)
      | inr e ↦ rw e (
        push_funds-Locks big env r mp keeps k key act.balance amt act.nonce _ e,
        λ n. push_funds-nonce big env r mp amt n act.nonce _,
      )
    ]
