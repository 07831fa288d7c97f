-- ===== src/Deal/Pieces/Agreement.antt =====
-- The two ways to compute a piece commitment, compared.
use filclient.Base.{ℕ, String, ◌≡◌, refl}
use filclient.Errors.{Result, ok, err}
use filclient.Errors.Action.{Action, return, after}
use filclient.Deal.Pieces.{
  Cars, calc, commp_writer, max_traversal_links, generate_piece_commitment,
  generate_piece_commitment_ffi,
}

abbrev pub with_size : ℕ → Result String → Result (String × ℕ)
with_size size (ok c) = ok (c, size)
with_size size (err e) = err e

-- A digest with its commitment made a cid.
abbrev pub digest_sum : (String → Result String) → Result (String × ℕ) → Result (String × ℕ)
digest_sum to_cid (ok (commpc, size)) = with_size size (to_cid commpc)
digest_sum to_cid (err e) = err e

module _ {W Blockstore Prepared : Type 0} (cars : Cars W Blockstore Prepared) where
  abbrev ending : ℕ → String × ℕ → Action W (String × (ℕ × ℕ))
  ending n (piece_cid, size) = return (piece_cid, (n, cars.unpadded size))

  abbrev converting_cid : ℕ → String × ℕ → Action W (String × (ℕ × ℕ))
  converting_cid n (commpc, size) w =
      after (cars.data_commitment_to_cid commpc) w (λ c. ending n (c, size))

  with_size-ending :
      (n size : ℕ) (c : Result String) (w : W)
      → after c w (λ c'. ending n (c', size)) ≡ after (with_size size c) w (ending n)
  with_size-ending n size (ok c) w = refl
  with_size-ending n size (err e) w = refl

  digest_sum-ending :
      (n : ℕ) (d : Result (String × ℕ)) (w : W)
      → after d w (converting_cid n) ≡ after (digest_sum cars.data_commitment_to_cid d) w (ending n)
  digest_sum-ending n (ok (commpc, size)) w =
      with_size-ending n size (cars.data_commitment_to_cid commpc) w
  digest_sum-ending n (err e) w = refl

  module _ (same_dump : (p : Prepared) (w : W) → cars.dump calc p w ≡ cars.dump commp_writer p w)
      (same_sum : (written : String)
        → cars.sum written ≡ digest_sum cars.data_commitment_to_cid (cars.digest written)) where
    dumped_lem :
        (n : ℕ) (written : Result String) (w : W)
        → after written w (λ s v. after (cars.digest s) v (converting_cid n))
          ≡ after written w (λ s v. after (cars.sum s) v (ending n))
    dumped_lem n (ok s) w = rw (same_sum s) (digest_sum-ending n (cars.digest s) w)
    dumped_lem n (err e) w = refl

    prepared_lem :
        (prepared : Result Prepared) (w : W)
        → after prepared w (λ p v.
          after
            (cars.dump calc p v).0
            (cars.dump calc p v).1
            (λ s u. after (cars.digest s) u (converting_cid (cars.size p))))
          ≡ after prepared w (λ p v.
            after
              (cars.dump commp_writer p v).0
              (cars.dump commp_writer p v).1
              (λ s u. after (cars.sum s) u (ending (cars.size p))))
    prepared_lem (ok p) w =
        rw (same_dump p w)
          (dumped_lem (cars.size p) (cars.dump commp_writer p w).0 (cars.dump commp_writer p w).1)
    prepared_lem (err e) w = refl

    -- If both sinks take the archive alike, and if the sum of the writer is the digest of the
    -- calculator with its commitment made a cid, the two functions give the same commitment, sizes and
    -- error, and leave the world the same.
    pub generate_piece_commitment-ffi :
        (payload_cid : String) (bstore : Blockstore) (w : W)
        → generate_piece_commitment cars payload_cid bstore w
          ≡ generate_piece_commitment_ffi cars payload_cid bstore w
    unfolding generate_piece_commitment generate_piece_commitment_ffi
    generate_piece_commitment-ffi payload_cid bstore w =
        let (prepared, w') = cars.prepare bstore payload_cid max_traversal_links w in
        prepared_lem prepared w'
