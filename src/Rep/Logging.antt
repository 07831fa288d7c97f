-- ===== src/Rep/Logging.antt =====
-- filclient.go: `OnRetrievalEvent`, the client's own subscriber, which logs each event.
use filclient.Base.{
  ℕ, ◌+◌, ◌%◌, String, ◌≡◌, refl, Option, none, some, List, [], ◌∷◌, ◌++◌, length, ◌==◌,
  if◌then◌else◌,
}
use filclient.Rep.Event.{
  Phase, Code, QueryResponse, RetrievalEvent, connect, query_ask, proposed, accepted, first_byte,
  failure, success, code, origin,
}

-- An `interface{}` argument: a `string`, or a value of another type.
pub data Arg (Int : Type 0) : Type 0 where
  text : String → Arg Int
  num : ℕ → Arg Int
  int : Int → Arg Int
  code_arg : Code → Arg Int
  phase_arg : Phase → Arg Int

module _ {Int : Type 0} where
  -- The loop of `logadd`; `none` is a panic.
  add_pairs : List (Arg Int) → List (String × Arg Int) → Option (List (String × Arg Int))
  add_pairs [] kv = some kv
  add_pairs (text key ∷ value ∷ kva) kv = add_pairs kva (kv ++ (key, value) ∷ [])
  add_pairs (key ∷ kva) kv = none

  logadd : List (Arg Int) → List (String × Arg Int) → Option (List (String × Arg Int))
  unfolding add_pairs
  logadd kva kv = if length kva % 2 == 0 then add_pairs kva kv else none

  common_args : RetrievalEvent Int → List (Arg Int)
  common_args e =
      text "code"
      ∷ code_arg (code e)
      ∷ text "phase"
      ∷ phase_arg (origin e).phase
      ∷ text "payloadCid"
      ∷ text (origin e).payload_cid
      ∷ text "storageProviderId"
      ∷ text (origin e).storage_provider_id
      ∷ text "storageProviderAddr"
      ∷ text (origin e).storage_provider_addr
      ∷ []

  query_args : QueryResponse Int → List (Arg Int)
  query_args q =
      text "queryResponse:Status"
      ∷ num q.status
      ∷ text "queryResponse:PieceCIDFound"
      ∷ num q.piece_cid_found
      ∷ text "queryResponse:Size"
      ∷ num q.size
      ∷ text "queryResponse:PaymentAddress"
      ∷ text q.payment_address
      ∷ text "queryResponse:MinPricePerByte"
      ∷ int q.min_price_per_byte
      ∷ text "queryResponse:MaxPaymentInterval"
      ∷ num q.max_payment_interval
      ∷ text "queryResponse:MaxPaymentIntervalIncrease"
      ∷ num q.max_payment_interval_increase
      ∷ text "queryResponse:Message"
      ∷ text q.message
      ∷ text "queryResponse:UnsealPrice"
      ∷ int q.unseal_price
      ∷ []

  -- The type switch: only three kinds of event add more.
  specific_args : RetrievalEvent Int → List (String × Arg Int) → Option (List (String × Arg Int))
  unfolding logadd query_args
  specific_args (query_ask o q) kv = logadd (query_args q) kv
  specific_args (failure o e) kv = logadd (text "errorMessage" ∷ text e ∷ []) kv
  specific_args (success o r) kv = logadd (text "receivedSize" ∷ num r.received_size ∷ []) kv
  specific_args _ kv = some kv

  abbrev and_then :
      Option (List (String × Arg Int))
      → (List (String × Arg Int) → Option (List (String × Arg Int)))
      → Option (List (String × Arg Int))
  and_then none f = none
  and_then (some kv) f = f kv

  -- The key/value pairs that are handed to the logger.
  pub on_retrieval_event : RetrievalEvent Int → Option (List (String × Arg Int))
  unfolding logadd common_args specific_args
  on_retrieval_event e = and_then (logadd (common_args e) []) (specific_args e)

  abbrev pub pairs_added : RetrievalEvent Int → ℕ
  pairs_added (query_ask o q) = 9
  pairs_added (failure o e) = 1
  pairs_added (success o r) = 1
  pairs_added _ = 0

  -- Logging never panics: every event gives the five common pairs and those of its kind.
  on_retrieval_event_total :
      (e : RetrievalEvent Int)
      → (kv : List (String × Arg Int)) × (on_retrieval_event e ≡ some kv)
        × (length kv ≡ 5 + pairs_added e)
  unfolding on_retrieval_event
  on_retrieval_event_total (connect o) = (_, refl, refl)
  on_retrieval_event_total (query_ask o q) = (_, refl, refl)
  on_retrieval_event_total (failure o m) = (_, refl, refl)
  on_retrieval_event_total (success o r) = (_, refl, refl)
  on_retrieval_event_total (proposed o) = (_, refl, refl)
  on_retrieval_event_total (accepted o) = (_, refl, refl)
  on_retrieval_event_total (first_byte o) = (_, refl, refl)
