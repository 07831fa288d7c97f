-- ===== src/Deal/Pieces.antt =====
-- filclient.go: `GeneratePieceCommitment` and `GeneratePieceCommitmentFFI`.
pub mod Agreement
mod Tests
use filclient.Base.{ℕ, ◌*◌, ◌^◌, String}
use filclient.Errors.{Result}
use filclient.Errors.Action.{Action, return, ◌>>=◌}

-- `maxTraversalLinks`.
abbrev pub max_traversal_links : ℕ
max_traversal_links = 32 * 2 ^ 20

-- `type GetPieceCommFunc`: the commitment, the size of the payload and the unpadded size of the piece.
abbrev pub GetPieceCommFunc : Type 0 → Type 0 → Type 0
GetPieceCommFunc W Blockstore = String → Blockstore → Action W (String × (ℕ × ℕ))

-- What the archive is written to: `commp.Calc` or the `writer.Writer` of go-commp-utils.
pub data Sink : Type 0 where
  calc commp_writer : Sink

-- What is used of the packages car, commp, commcid and abi. `prepare` makes the archive of the whole
-- dag below a root, with a bound on the links, and `dump` gives the bytes that the sink has taken.
pub record Cars (W Blockstore Prepared : Type 0) : Type 0 where
  pub prepare : Blockstore → String → ℕ → Action W Prepared
  pub dump : Sink → Prepared → Action W String
  pub size : Prepared → ℕ
  pub digest : String → Result (String × ℕ)
  pub sum : String → Result (String × ℕ)
  pub data_commitment_to_cid : String → Result String
  pub unpadded : ℕ → ℕ

module _ {W Blockstore Prepared : Type 0} (cars : Cars W Blockstore Prepared) where
  unfoldable pub generate_piece_commitment : GetPieceCommFunc W Blockstore
  generate_piece_commitment payload_cid bstore = do
    prepared_car ← cars.prepare bstore payload_cid max_traversal_links
    written ← cars.dump calc prepared_car
    (commpc, size) ← λ w. (cars.digest written, w)
    comm_cid ← λ w. (cars.data_commitment_to_cid commpc, w)
    return (comm_cid, (cars.size prepared_car, cars.unpadded size))

  unfoldable pub generate_piece_commitment_ffi : GetPieceCommFunc W Blockstore
  generate_piece_commitment_ffi payload_cid bstore = do
    prepared_car ← cars.prepare bstore payload_cid max_traversal_links
    written ← cars.dump commp_writer prepared_car
    (piece_cid, piece_size) ← λ w. (cars.sum written, w)
    return (piece_cid, (cars.size prepared_car, cars.unpadded piece_size))
