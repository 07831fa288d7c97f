-- ===== src/MsgPusher/Nonces.antt =====
-- The nonces of the messages that reach the message pool.
use filclient.Base.{
  ℕ, zero, suc, ◌+◌, ◌≡◌, refl, ◌⊎◌, inl, inr, String, str_eq, eq_iff, eq_refl, ap, subst, Option,
  none, some, List, [], ◌∷◌, ◌++◌, length, u64, arith, All, if◌then◌else◌,
}
use filclient.Base.Big.{Big}
use filclient.Errors.{Result, ok, err}
use filclient.MsgPusher.{
  Message, SignedMessage, Replies, MsgPusher, mpool_push_message, estimated, send, first_use,
  tracked, keyed, set_nonce,
}

-- What one call does to the tracked nonce of a key, with the nonces of that key that it has used.
abbrev pub Use : Option ℕ → List ℕ → Option ℕ → Type 0
Use before used now =
    ((used ≡ []) × (now ≡ before))
    ⊎ ((n : ℕ) × (used ≡ []) × (before ≡ none) × (now ≡ some n))
    ⊎ ((n : ℕ) × (used ≡ n ∷ [])
        × ((before ≡ some n) ⊎ (before ≡ none))
        × (now ≡ some (u64 (n + 1))))

-- The gas estimate fills in the gas fields and leaves the nonce.
abbrev pub KeepsNonce : {Int : Type 0} → Replies Int → Type 0
KeepsNonce {Int} r = (m m' : Message Int) → r.gas_estimate m ≡ ok m' → m'.nonce ≡ m.nonce

-- The nonce that a call for the key `k` has used, if it has succeeded.
abbrev pub used : {Int : Type 0} → String → Result String → Result (SignedMessage Int) → List ℕ
used k (ok kaddr) (ok smsg) = if str_eq kaddr k then smsg.message.nonce ∷ [] else []
used k (ok kaddr) (err e) = []
used k (err e) res = []

module _ {Int : Type 0} (big : Big Int) (r : Replies Int) (keeps : KeepsNonce r) (k : String) where
  estimated-Use :
      (mp : MsgPusher) (kaddr : String) (n : ℕ) (msg : Message Int) (est : Result (Message Int))
      → mp.nonces kaddr ≡ some n
      → ((m' : Message Int) → est ≡ ok m' → m'.nonce ≡ n)
      → let (res, mp') = estimated big r mp kaddr est in
        Use (mp.nonces k) (used k (ok kaddr) res) (mp'.nonces k)
  unfolding estimated
  estimated-Use mp kaddr n msg (ok estim) q h = ground (arith, eq_iff kaddr k, h estim)
  estimated-Use mp kaddr n msg (err e) q h = inl (refl, refl)

  send-Use :
      (mp : MsgPusher) (kaddr : String) (n : ℕ) (msg : Message Int)
      → mp.nonces kaddr ≡ some n
      → let (res, mp') = send big r mp kaddr msg n in
        Use (mp.nonces k) (used k (ok kaddr) res) (mp'.nonces k)
  unfolding send
  send-Use mp kaddr n msg q =
      estimated-Use mp kaddr n msg (r.gas_estimate (record msg { nonce = n })) q
        (λ m' h. keeps (record msg { nonce = n }) m' h)

  first_use-Use :
      (mp : MsgPusher) (kaddr : String) (msg : Message Int) (act : Result ℕ)
      → mp.nonces kaddr ≡ none
      → let (res, mp') = first_use big r mp msg kaddr act in
        Use (mp.nonces k) (used k (ok kaddr) res) (mp'.nonces k)
  unfolding first_use
  first_use-Use mp kaddr msg (ok n) q =
      ground (arith, eq_iff kaddr k, eq_refl kaddr, send-Use (set_nonce mp kaddr n) kaddr n msg)
  first_use-Use mp kaddr msg (err e) q = inl (refl, refl)

  tracked-Use :
      (mp : MsgPusher) (kaddr : String) (msg : Message Int) (o : Option ℕ)
      → mp.nonces kaddr ≡ o
      → let (res, mp') = tracked big r mp msg kaddr o in
        Use (mp.nonces k) (used k (ok kaddr) res) (mp'.nonces k)
  unfolding tracked
  tracked-Use mp kaddr msg none q = first_use-Use mp kaddr msg (r.actor_nonce kaddr) q
  tracked-Use mp kaddr msg (some n) q = send-Use mp kaddr n msg q

  keyed-Use :
      (mp : MsgPusher) (msg : Message Int) (key : Result String)
      → let (res, mp') = keyed big r mp msg key in Use (mp.nonces k) (used k key res) (mp'.nonces k)
  unfolding keyed
  keyed-Use mp msg (ok kaddr) = tracked-Use mp kaddr msg (mp.nonces kaddr) refl
  keyed-Use mp msg (err e) = inl (refl, refl)

  -- One call uses at most one nonce of a key, the tracked one or the first one that is read from
  -- the chain, and only if the message is pushed; then the next one is tracked. A call that fails
  -- uses none, and a tracked nonce stays.
  pub mpool_push_message-Use :
      (mp : MsgPusher) (msg : Message Int)
      → let (res, mp') = mpool_push_message big r mp msg in
        Use (mp.nonces k) (used k (r.state_account_key msg.sender) res) (mp'.nonces k)
  unfolding mpool_push_message
  mpool_push_message-Use mp msg = keyed-Use mp msg (r.state_account_key msg.sender)

abbrev pub Call : Type 0 → Type 0
Call Int = Replies Int × Message Int

-- `j` nonces from `n` on.
abbrev pub nonces_from : ℕ → ℕ → List ℕ
nonces_from n zero = []
nonces_from n (suc j) = n ∷ nonces_from (u64 (n + 1)) j

-- A list of consecutive nonces, which starts at the tracked one if there is one.
abbrev pub Consecutive : Option ℕ → List ℕ → Type 0
Consecutive start ns =
    (n : ℕ) × ((start ≡ some n) ⊎ (start ≡ none)) × (ns ≡ nonces_from n (length ns))

no_calls : (o : Option ℕ) → Consecutive o []
no_calls none = (0, inr refl, refl)
no_calls (some n) = (n, inl refl, refl)

Use-Consecutive :
    (before now : Option ℕ) (us ns : List ℕ)
    → Use before us now
    → Consecutive now ns
    → Consecutive before (us ++ ns)
Use-Consecutive before now us ns (inl (e, q)) (n, start, h) = rw e (n, ground arith, h)
Use-Consecutive before now us ns (inr (inl (m, e, fresh, q))) (n, start, h) = rw e (n, inr fresh, h)
Use-Consecutive before now us ns (inr (inr (m, e, b, q))) (n, start, h) =
    rw e (m, b, ap (◌∷◌ m) (subst (λ x. ns ≡ nonces_from x (length ns)) (ground arith) h))

module _ {Int : Type 0} (big : Big Int) (k : String) where
  -- The nonces of `k` that a sequence of calls uses, in order.
  unfoldable pub all_used : MsgPusher → List (Call Int) → List ℕ
  all_used mp [] = []
  all_used mp ((r, msg) ∷ cs) =
      let (res, mp') = mpool_push_message big r mp msg in
      used k (r.state_account_key msg.sender) res ++ all_used mp' cs

  -- The messages pushed for a key carry consecutive nonces, from the tracked one on if there is
  -- one: none is skipped and none used twice, whatever calls fail in between, if the gas estimate
  -- leaves the nonce as it is.
  pub all_used-Consecutive :
      (mp : MsgPusher) (cs : List (Call Int))
      → All (λ c. KeepsNonce c.0) cs
      → Consecutive (mp.nonces k) (all_used mp cs)
  unfolding all_used
  all_used-Consecutive mp [] keeps = no_calls (mp.nonces k)
  all_used-Consecutive mp ((r, msg) ∷ cs) keeps =
      let (res, mp') = mpool_push_message big r mp msg in
      Use-Consecutive (mp.nonces k) (mp'.nonces k) (used k (r.state_account_key msg.sender) res)
        (all_used mp' cs) (mpool_push_message-Use big r keeps.0 k mp msg)
        (all_used-Consecutive mp' cs keeps.1)

-- The nonce that a message comes with is never used.
module _ {Int : Type 0} (big : Big Int) (r : Replies Int) (mp : MsgPusher) (msg : Message Int)
    (n : ℕ) where
  first_use-renonce :
      (kaddr : String) (act : Result ℕ)
      → first_use big r mp (record msg { nonce = n }) kaddr act ≡ first_use big r mp msg kaddr act
  unfolding first_use send
  first_use-renonce kaddr (ok m) = refl
  first_use-renonce kaddr (err e) = refl

  tracked-renonce :
      (kaddr : String) (o : Option ℕ)
      → tracked big r mp (record msg { nonce = n }) kaddr o ≡ tracked big r mp msg kaddr o
  unfolding tracked send
  tracked-renonce kaddr (some m) = refl
  tracked-renonce kaddr none = first_use-renonce kaddr (r.actor_nonce kaddr)

  keyed-renonce :
      (k : Result String) → keyed big r mp (record msg { nonce = n }) k ≡ keyed big r mp msg k
  unfolding keyed
  keyed-renonce (ok kaddr) = tracked-renonce kaddr (mp.nonces kaddr)
  keyed-renonce (err e) = refl

  pub mpool_push_message-renonce :
      mpool_push_message big r mp (record msg { nonce = n }) ≡ mpool_push_message big r mp msg
  unfolding mpool_push_message
  mpool_push_message-renonce = keyed-renonce (r.state_account_key msg.sender)
