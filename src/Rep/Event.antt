-- ===== src/Rep/Event.antt =====
-- rep/event.go: the events of a retrieval.
use filclient.Base.{ℕ, String}

pub data Phase : Type 0 where
  query_phase retrieval_phase : Phase

pub data Code : Type 0 where
  connected_code query_asked_code proposed_code accepted_code first_byte_code failure_code
        success_code :
      Code

-- `retrievalmarket.QueryResponse`, as far as it is read.
pub record QueryResponse (Int : Type 0) : Type 0 where
  pub status : ℕ
  pub piece_cid_found : ℕ
  pub size : ℕ
  pub payment_address : String
  pub min_price_per_byte : Int
  pub max_payment_interval : ℕ
  pub max_payment_interval_increase : ℕ
  pub message : String
  pub unseal_price : Int

-- The four fields that every event has.
pub record Origin : Type 0 where
  pub phase : Phase
  pub payload_cid : String
  pub storage_provider_id : String
  pub storage_provider_addr : String

pub record Received (Int : Type 0) : Type 0 where
  pub received_size : ℕ
  pub received_cids : ℕ
  pub duration : ℕ
  pub total_payment : Int

-- The seven structs, and so their constructors `NewRetrievalEvent…`.
pub data RetrievalEvent (Int : Type 0) : Type 0 where
  connect : Origin → RetrievalEvent Int
  query_ask : Origin → QueryResponse Int → RetrievalEvent Int
  proposed : Origin → RetrievalEvent Int
  accepted : Origin → RetrievalEvent Int
  first_byte : Origin → RetrievalEvent Int
  failure : Origin → String → RetrievalEvent Int
  success : Origin → Received Int → RetrievalEvent Int

module _ {Int : Type 0} where
  abbrev pub code : RetrievalEvent Int → Code
  code (connect o) = connected_code
  code (query_ask o q) = query_asked_code
  code (proposed o) = proposed_code
  code (accepted o) = accepted_code
  code (first_byte o) = first_byte_code
  code (failure o e) = failure_code
  code (success o r) = success_code

  abbrev pub origin : RetrievalEvent Int → Origin
  origin (connect o) = o
  origin (query_ask o q) = o
  origin (proposed o) = o
  origin (accepted o) = o
  origin (first_byte o) = o
  origin (failure o e) = o
  origin (success o r) = o
