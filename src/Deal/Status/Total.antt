-- ===== src/Deal/Status/Total.antt =====
-- filclient.go: when `DealStatus` gives an answer.
use filclient.Base.{
  String, str_eq, ◌≡◌, ◌≢◌, refl, inl, inr, Any, Option, none, some, List, Bool-cases,
}
use filclient.Errors.{Result, ok, err, or_wrap}
use filclient.Errors.Results.{or_wrap-ok}
use filclient.Errors.Action.{after}
use filclient.Connection.{Network, stream_to_miner, connect_to_miner}
use filclient.Deal.Sending.{Streams}
use filclient.Deal.Status.{
  deal_status_protocol_v110, ProviderDealState, StatusCalls, ask_v120, ask, released, ask_on,
  protocols, deal_status,
}

-- A stream speaks one of the protocols that it was opened for.
abbrev pub Negotiates : {W Deal : Type 0} → StatusCalls W Deal → Network W → Type 0
Negotiates calls net =
    (peer : String) (offered : List String) (w : _) (s : String)
    → (net.new_stream peer offered w).0 ≡ ok s
    → Any (λ p. calls.protocol_of s ≡ p) offered

none-ne-some : {A : Type 0} (a : A) → none ≢ some a
none-ne-some a e = absurd (cc)

after-wrapped :
    {W A B : Type 0} (what : String) (r : Result A) (w : W) (f : A → W → Result B × W) (b : B)
    → (after r w (λ a v. (or_wrap what (f a v).0, (f a v).1))).0 ≡ ok b
    → (a : A) × ((v : W) × ((f a v).0 ≡ ok b))
after-wrapped what (ok a) w f b h = (a, (w, or_wrap-ok what (f a w).0 b h))
after-wrapped what (err e) w f b h = absurd (cc)

module _ {W Deal : Type 0} (streams : Streams W) (calls : StatusCalls W Deal) where
  stream_to_miner-opened :
      (net : Network W) (miner : String) (offered : List String) (w : W) (s : String)
      → (stream_to_miner net miner offered w).0 ≡ ok s
      → (peer : String) × ((v : W) × ((net.new_stream peer offered v).0 ≡ ok s))
  unfolding stream_to_miner
  stream_to_miner-opened net miner offered w s h =
      after-wrapped "failed to open stream to peer" (connect_to_miner net miner w).0
        (connect_to_miner net miner w).1 (λ peer v. net.new_stream peer offered v) s h

  ask-total :
      (s prop_cid : String) (deal_uuid : Option String) (w : W)
      → Any (λ p. calls.protocol_of s ≡ p) (protocols streams calls deal_uuid)
      → (answer : Result (ProviderDealState Deal) × W) × (ask streams calls s prop_cid deal_uuid w
          ≡ some answer)
  unfolding ask ask_v120
  ask-total s prop_cid none w (inl h) = rw h (_, refl)
  ask-total s prop_cid none w (inr h) = absurd h
  ask-total s prop_cid (some deal_uuid) w h =
      elim (Bool-cases (str_eq (calls.protocol_of s) deal_status_protocol_v110)) [
        | inl e ↦ rw e (_, refl)
        | inr e ↦ rw e (_, refl)
      ]

  released-total :
      (s : String) (asked : Option (Result (ProviderDealState Deal) × W))
      → (answer : Result (ProviderDealState Deal) × W) × (asked ≡ some answer)
      → (answer : Result (ProviderDealState Deal) × W) × (released streams calls s asked
          ≡ some answer)
  unfolding released
  released-total s none (answer, e) = absurd (none-ne-some _ e)
  released-total s (some (r, w)) h = (_, refl)

  ask_on-total :
      (prop_cid : String) (deal_uuid : Option String) (opening : Result String × W)
      → ((s : String)
          → opening.0 ≡ ok s
          → Any (λ p. calls.protocol_of s ≡ p) (protocols streams calls deal_uuid))
      → (answer : Result (ProviderDealState Deal) × W) × (ask_on streams calls prop_cid deal_uuid
            opening
          ≡ some answer)
  unfolding ask_on
  ask_on-total prop_cid deal_uuid (err e, w) h = (_, refl)
  ask_on-total prop_cid deal_uuid (ok s, w) h =
      released-total s _ (ask-total s prop_cid deal_uuid _ (h s refl))

-- If a stream speaks one of the protocols that it was opened for, asking for the status of a deal
-- always gives a state or an error: a deal without a UUID is never asked for by its UUID, which
-- would panic.
pub deal_status-total :
    {W Deal : Type 0} (streams : Streams W) (calls : StatusCalls W Deal) (net : Network W)
    (miner prop_cid : String) (deal_uuid : Option String) (w : W)
    → Negotiates calls net
    → (answer : Result (ProviderDealState Deal) × W) × (deal_status streams calls net miner prop_cid
          deal_uuid w
        ≡ some answer)
unfolding deal_status
deal_status-total streams calls net miner prop_cid deal_uuid w negotiates =
    ask_on-total streams calls prop_cid deal_uuid
      (stream_to_miner net miner (protocols streams calls deal_uuid) w)
      (λ s h.
        let (peer, (v, q)) =
          stream_to_miner-opened streams calls net miner (protocols streams calls deal_uuid) w s
            h in
        negotiates peer (protocols streams calls deal_uuid) v s q)
