-- ===== src/MsgPusher/Pushed.antt =====
-- msgpusher.go: the message that a call pushes, and its nonce.
use filclient.Base.{
  ℕ, ◌+◌, ◌≡◌, refl, sym, subst, ◌⊎◌, inl, inr, String, eq_refl, Option, none, some, u64,
}
use filclient.Base.Big.{Big}
use filclient.Errors.{Result, ok, err}
use filclient.MsgPusher.{
  Message, SignedMessage, Replies, MsgPusher, mpool_push_message, set_nonce, price, pushed, signed,
  estimated, send, first_use, tracked, keyed,
}
use filclient.MsgPusher.Nonces.{KeepsNonce}

module _ {Int : Type 0} (r : Replies Int) (k : String) where
  -- From the nonce `n` on: the message that was pushed carries it, and the next one is tracked; or `n` is
  -- tracked.
  abbrev Sends : ℕ → Result (SignedMessage Int) × MsgPusher → Type 0
  Sends n (ok smsg, mp) =
      (smsg.message.nonce ≡ n) × (r.mpool_push smsg ≡ ok tt) × (mp.nonces k ≡ some (u64 (n + 1)))
  Sends n (err e, mp) = mp.nonces k ≡ some n

  -- The nonce for a call: the tracked one, or else the actor's on chain.
  abbrev pub IsNext : Option ℕ → ℕ → Type 0
  IsNext before n = (before ≡ some n) ⊎ ((before ≡ none) × (r.actor_nonce k ≡ ok n))

  -- A call that succeeds has pushed a message with the nonce for it, and the next one is tracked; a call
  -- that fails has left things as they were, or tracks that nonce.
  abbrev pub Pushes : Option ℕ → Result (SignedMessage Int) × MsgPusher → Type 0
  Pushes before (ok smsg, mp) =
      IsNext before smsg.message.nonce
      × (r.mpool_push smsg ≡ ok tt)
      × (mp.nonces k ≡ some (u64 (smsg.message.nonce + 1)))
  Pushes before (err e, mp) =
      (mp.nonces k ≡ before) ⊎ ((n : ℕ) × IsNext before n × (mp.nonces k ≡ some n))

  Sends-Pushes :
      (before : Option ℕ) (n : ℕ) (res : Result (SignedMessage Int) × MsgPusher)
      → IsNext before n
      → Sends n res
      → Pushes before res
  Sends-Pushes before n (ok smsg, mp) next (e, accepted, now) = (
    subst (IsNext before) (sym e) next,
    accepted,
    subst (λ m. mp.nonces k ≡ some (u64 (m + 1))) (sym e) now,
  )
  Sends-Pushes before n (err e, mp) next now = inr (n, next, now)

  module _ (big : Big Int) (keeps : KeepsNonce r) where
    pushed-Sends :
        (mp : MsgPusher) (n : ℕ) (smsg : SignedMessage Int) (answer : Result (Unit {0}))
        → mp.nonces k ≡ some n
        → smsg.message.nonce ≡ n
        → r.mpool_push smsg ≡ answer
        → Sends n (pushed big r mp k smsg answer)
    unfolding pushed
    pushed-Sends mp n smsg (ok _) q e a = (e, a, rw (eq_refl k, q) refl)
    pushed-Sends mp n smsg (err _) q e a = q

    signed-Sends :
        (mp : MsgPusher) (n : ℕ) (estim : Message Int) (sig : Result String)
        → mp.nonces k ≡ some n
        → estim.nonce ≡ n
        → Sends n (signed big r mp k estim sig)
    unfolding signed
    signed-Sends mp n estim (ok sig) q e =
        pushed-Sends mp n (record { message = estim; signature = sig }) _ q e refl
    signed-Sends mp n estim (err _) q e = q

    estimated-Sends :
        (mp : MsgPusher) (n : ℕ) (est : Result (Message Int))
        → mp.nonces k ≡ some n
        → ((m : Message Int) → est ≡ ok m → m.nonce ≡ n)
        → Sends n (estimated big r mp k est)
    unfolding estimated
    estimated-Sends mp n (ok estim) q h =
        signed-Sends mp n (price big r mp estim) _ q (h estim refl)
    estimated-Sends mp n (err e) q h = q

    send-Sends :
        (mp : MsgPusher) (n : ℕ) (msg : Message Int)
        → mp.nonces k ≡ some n
        → Sends n (send big r mp k msg n)
    unfolding send
    send-Sends mp n msg q = estimated-Sends mp n _ q (λ m h. keeps (record msg { nonce = n }) m h)

    first_use-Pushes :
        (mp : MsgPusher) (msg : Message Int) (answer : Result ℕ)
        → mp.nonces k ≡ none
        → r.actor_nonce k ≡ answer
        → Pushes (mp.nonces k) (first_use big r mp msg k answer)
    unfolding first_use
    first_use-Pushes mp msg (ok n) fresh a =
        Sends-Pushes (mp.nonces k) n (send big r (set_nonce mp k n) k msg n) (inr (fresh, a))
          (send-Sends (set_nonce mp k n) n msg (rw (eq_refl k) refl))
    first_use-Pushes mp msg (err e) fresh a = inl refl

    tracked-Pushes :
        (mp : MsgPusher) (msg : Message Int) (o : Option ℕ)
        → mp.nonces k ≡ o
        → Pushes (mp.nonces k) (tracked big r mp msg k o)
    unfolding tracked
    tracked-Pushes mp msg none q = first_use-Pushes mp msg (r.actor_nonce k) q refl
    tracked-Pushes mp msg (some n) q =
        Sends-Pushes (mp.nonces k) n (send big r mp k msg n) (inl q) (send-Sends mp n msg q)

    keyed-Pushes :
        (mp : MsgPusher) (msg : Message Int) (key : Result String)
        → key ≡ ok k
        → Pushes (mp.nonces k) (keyed big r mp msg key)
    unfolding keyed
    keyed-Pushes mp msg key q = rw q (tracked-Pushes mp msg (mp.nonces k) refl)

    pub mpool_push_message-Pushes :
        (mp : MsgPusher) (msg : Message Int)
        → r.state_account_key msg.sender ≡ ok k
        → Pushes (mp.nonces k) (mpool_push_message big r mp msg)
    unfolding mpool_push_message
    mpool_push_message-Pushes mp msg key = keyed-Pushes mp msg _ key
