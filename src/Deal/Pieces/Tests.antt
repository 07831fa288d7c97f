-- ===== src/Deal/Pieces/Tests.antt =====
-- Runs of the piece commitments at concrete packages.
use filclient.Base.{ℕ, ◌+◌, ◌/◌, ◌*◌, String, str_append, str_eq, ◌≡◌, refl, if◌then◌else◌}
use filclient.Errors.{message, ok, err}
use filclient.Deal.Pieces.{Cars, generate_piece_commitment, generate_piece_commitment_ffi}
use filclient.Deal.Pieces.Agreement.{generate_piece_commitment-ffi}

-- The world counts the archives that have been made; one root is not in the store.
abbrev cars : Cars ℕ String String
cars = record {
  prepare = λ bs c n w.
      (if str_eq c "lost" then err (message "not found") else ok (str_append bs c), w + 1);
  dump = λ sink p w. (ok p, w);
  size = λ p. 100;
  digest = λ s. ok (s, 128);
  sum = λ s. ok (str_append "baga" s, 128);
  data_commitment_to_cid = λ s. ok (str_append "baga" s);
  unpadded = λ n. n * 127 / 128;
}

generate_piece_commitment_lem :
    generate_piece_commitment cars "root" "store/" 4 ≡ (ok ("bagastore/root", (100, 127)), 5)
unfolding generate_piece_commitment
generate_piece_commitment_lem = refl

generate_piece_commitment-ffi_sample :
    generate_piece_commitment cars "root" "store/" 4
    ≡ generate_piece_commitment_ffi cars "root" "store/" 4
generate_piece_commitment-ffi_sample =
    generate_piece_commitment-ffi cars (λ p w. refl) (λ s. refl) "root" "store/" 4
