-- ===== src/Client/Sharing/Nonces.antt =====
-- The nonces of the messages that a constructed client and its payment channel manager push.
use filclient.Base.{String, ◌≡◌, refl, ap, subst, none, List, [], ◌∷◌, map, All, arith}
use filclient.Base.Big.{Big}
use filclient.Errors.{ok}
use filclient.MsgPusher.{Message, Replies, MsgPusher, mpool_push_message, new_msg_pusher}
use filclient.MsgPusher.Nonces.{KeepsNonce, all_used, Consecutive, all_used-Consecutive}
use filclient.Client.{
  Kinds, Config, Ref, Heap, allocate, Memory, PaychApiProvider, FilClient, Packages,
}
use filclient.Client.Construction.{paych_manager, provider_of, new_client_with_config}
use filclient.Client.Construction.Wiring.{Gives, IsWired, new_client_with_config-Gives}
use filclient.Client.Sharing.{
  push_at, provider_push_message, Sender, by_client, by_payments, send_by, all_sent,
}

abbrev pub Sent : Type 0 → Type 0
Sent Int = Sender × (Replies Int × Message Int)

module _ {W Int : Type 0} {k : Kinds} (big : Big Int) (fc : FilClient W k)
    (papi : PaychApiProvider k) (same : papi.mp ≡ fc.mpusher) (key : String) where
  push_at-pusher :
      (ref : Ref) (r : Replies Int) (msg : Message Int) (heap : Heap)
      → (push_at big ref r msg heap).1.pusher ref
        ≡ (mpool_push_message big r (heap.pusher ref) msg).1
  unfolding push_at
  push_at-pusher ref r msg heap = ground arith

  send_by-same :
      (who : Sender) (r : Replies Int) (msg : Message Int) (heap : Heap)
      → send_by big fc papi who r msg heap ≡ push_at big fc.mpusher r msg heap
  unfolding send_by provider_push_message
  send_by-same by_client r msg heap = refl
  send_by-same by_payments r msg heap = rw same refl

  all_sent-all_used :
      (heap : Heap) (cs : List (Sent Int))
      → all_sent big fc papi key heap cs
        ≡ all_used big key (heap.pusher fc.mpusher) (map (λ c. c.1) cs)
  unfolding all_sent all_used
  all_sent-all_used heap [] = refl
  all_sent-all_used heap ((who, (r, msg)) ∷ cs) =
      let heap' = (push_at big fc.mpusher r msg heap).1 in
      rw
        (
          send_by-same who r msg heap,
          all_sent-all_used heap' cs,
          push_at-pusher fc.mpusher r msg heap,
        )
        refl

abbrev SentKeepsNonce : {Int : Type 0} → Sent Int → Type 0
SentKeepsNonce c = KeepsNonce c.1.0

All-map :
    {Int : Type 0} (cs : List (Sent Int))
    → All SentKeepsNonce cs
    → All (λ (c : Replies Int × Message Int). KeepsNonce c.0) (map (λ c. c.1) cs)
All-map [] h = tt
All-map (c ∷ cs) h = (h.0, All-map cs h.1)

allocate-pusher : (heap : Heap) → (allocate heap).1.pusher heap.next ≡ new_msg_pusher
unfolding allocate
allocate-pusher heap = ground arith

-- A pusher that has just been allocated tracks no nonce.
fresh_nonce :
    (heap heap' : Heap) (ref : Ref) (key : String)
    → heap' ≡ (allocate heap).1
    → ref ≡ heap.next
    → (heap'.pusher ref).nonces key ≡ none
unfolding new_msg_pusher
fresh_nonce heap heap' ref key h q =
    rw (h, q) (ap (λ (mp : MsgPusher). mp.nonces key) (allocate-pusher heap))

module _ {W Int : Type 0} {k : Kinds} (big : Big Int) (pk : Packages W k) (cfg : Config k)
    (mem : Memory W) (fc : FilClient W k) (mem' : Memory W) where
  -- A constructed client and its payment channel manager, whose messages go through the API that it was
  -- made with, push messages in any order: whatever calls fail in between, the messages of a key carry
  -- consecutive nonces, none skipped and none used twice between the two, from the first one that is
  -- read from the chain on, if the gas estimate leaves the nonce as it is.
  pub new_client_with_config-Consecutive :
      (key : String) (cs : List (Sent Int))
      → new_client_with_config pk cfg mem ≡ (ok fc, mem')
      → All SentKeepsNonce cs
      → (fc.pchmgr ≡ paych_manager pk cfg fc.mpusher)
        × Consecutive none (all_sent big fc (provider_of pk cfg fc.mpusher) key mem'.heap cs)
  new_client_with_config-Consecutive key cs made keeps =
      let (wired, heap_lem) =
        subst (Gives pk cfg (IsWired pk cfg mem.heap) (allocate mem.heap).1) made
          (new_client_with_config-Gives pk cfg mem) in
      (
        wired.pchmgr_lem,
        rw (all_sent-all_used big fc (provider_of pk cfg fc.mpusher) refl key mem'.heap cs) (
            subst
              (λ o.
                Consecutive o (all_used big key (mem'.heap.pusher fc.mpusher) (map (λ c. c.1) cs)))
              (fresh_nonce mem.heap mem'.heap fc.mpusher key heap_lem wired.pusher_lem)
              (all_used-Consecutive big key (mem'.heap.pusher fc.mpusher) (map (λ c. c.1) cs)
                (All-map cs keeps))),
      )
