-- ===== src/Filc/Tests.antt =====
-- Concrete inputs of the command line tool, and the theorems of Filc at them.
use filclient.Base.{
  ℕ, ◌≤◌, String, str_eq, true, false, ◌≡◌, ◌≢◌, refl, sym, subst, ap, Option, none, some, List, [],
  ◌∷◌, Any, length, arith, if◌then◌else◌, Dict, update, eq_refl,
}
use filclient.Base.Big.{nat_big}
use filclient.Errors.{message, Result, ok, err}
use filclient.Errors.Action.{Succeeds}
use filclient.Rep.Event.{QueryResponse}
use filclient.Filc.Candidates.{
  Candidate, CandidateQuery, DealProposal, Market, less, retrieve_from_candidates,
}
use filclient.Filc.Candidates.Offered.{Accepts, retrieve_from_candidates-Accepts}
use filclient.Retrieval.Query.Tests.{network, streams, codec, answer}
use filclient.Filc.Candidates.Comparison.{less-Never}
use filclient.Filc.Printing.{progress_line, take}
use filclient.Filc.Printing.Line.{progress_line-width}
use filclient.Filc.Parsing.{Parsers, parse_miners}
use filclient.Filc.Parsing.Miners.{parse_miners-joined}
use filclient.Filc.Disk.{Disk, Read, text, no_file, load_or_init_peer_key}
use filclient.Filc.Disk.Stored.{KeyLaws, Keeps, load_or_init_peer_key-Keeps}
use filclient.Filc.Watcher.{}

abbrev dear : QueryResponse ℕ
dear = record answer { min_price_per_byte = 9 }

abbrev cheap : QueryResponse ℕ
cheap = answer

abbrev first_miner : Candidate
first_miner = record { miner = "t01"; root_cid = "root"; deal_id = 1 }

abbrev second_miner : Candidate
second_miner = record { miner = "t02"; root_cid = "root"; deal_id = 2 }

-- A sort that leaves the list as it is; the parameters are the price.
abbrev retrieval_market : Market (Unit {0}) ℕ String ℕ
retrieval_market = record {
  sort_slice = λ lt qs. qs;
  new_params_v1 = λ price interval increase sel piece unseal. ok price;
  explore_all_recursively = "all";
  next_deal_id = λ w. (7, w);
}

abbrev from_peer : String → String → DealProposal ℕ → Unit {0} → Unit {0} → Result ℕ × Unit {0}
from_peer peer wallet proposal progress w = (ok proposal.params, w)

retrieve_from_candidates-Accepts_example :
    Succeeds
      (λ stats.
        Any
          (Accepts network streams codec retrieval_market nat_big tt from_peer none stats)
          (first_miner ∷ second_miner ∷ []))
      (retrieve_from_candidates network streams codec retrieval_market nat_big tt from_peer
        (λ cs. cs)
        (first_miner ∷ second_miner ∷ [])
        none
        false
        tt).0
retrieve_from_candidates-Accepts_example =
    retrieve_from_candidates-Accepts network streams codec retrieval_market nat_big tt from_peer
      none (λ cs. cs) (first_miner ∷ second_miner ∷ []) false tt (λ lt qs P h. h) (λ P h. h)

abbrev two_queries : List (CandidateQuery ℕ)
two_queries =
    (record { candidate = first_miner; response = dear })
    ∷ (record { candidate = second_miner; response = cheap })
    ∷ []

less-Never_example : less nat_big two_queries 1 0 ≢ some true
less-Never_example = less-Never nat_big two_queries 1 0 (λ n. ground arith)

progress_line-width_example :
    (length (progress_line (some 4) (49 ∷ 50 ∷ [])) ≡ 4)
    × ((2 ≤ 4 → take 2 (progress_line (some 4) (49 ∷ 50 ∷ [])) ≡ 49 ∷ 50 ∷ [])
        × (4 ≤ 2 → progress_line (some 4) (49 ∷ 50 ∷ []) ≡ take 4 (49 ∷ 50 ∷ [])))
progress_line-width_example = progress_line-width 4 (49 ∷ 50 ∷ [])

abbrev pub parsers : Parsers
parsers = record {
  new_from_string = λ s. if str_eq s "" then err (message "empty") else ok s;
  valid_path = λ s. true;
  parse_uuid = λ s. ok s;
}

parse_miners-joined_example :
    parse_miners parsers ("a,b" ∷ "c" ∷ []) ≡ parse_miners parsers ("a" ∷ "b" ∷ "c" ∷ [])
parse_miners-joined_example = parse_miners-joined parsers (("a", "b" ∷ []) ∷ ("c", []) ∷ []) (
  (((λ e. omega (arith, e)), tt), (((λ e. omega (arith, e)), tt), tt)),
  ((((λ e. omega (arith, e)), tt), tt), tt),
)

abbrev file_text : Option String → Read
file_text none = no_file (message "no such file")
file_text (some s) = text s

file_text-update : (w : Dict String) (f s : String) → file_text (update w f s f) ≡ text s
file_text-update w f s = rw (eq_refl f) refl

-- Files with their texts; a key is its text.
abbrev disk : Disk (Dict String) String String
disk = record {
  join = λ a b. b;
  mkdir_all = λ d mode w. (ok tt, w);
  create = λ f w. (ok tt, update w f "");
  write = λ f s w. (ok tt, update w f s);
  read_dir = λ d w. ok [];
  read_file = λ f w. file_text (w f);
  write_file = λ f s mode w. (ok tt, update w f s);
  encode_proposal = λ p. ok p;
  decode_cid = λ s. ok s;
  generate_key = λ w. (ok "fresh", w);
  marshal_key = λ k. ok k;
  unmarshal_key = λ s. ok s;
}

disk-laws : KeyLaws disk
disk-laws = record {
  unmarshal-marshal = λ k s h. sym h;
  read-write = λ f s mode w w' h.
      subst (λ v. file_text (v f) ≡ text s) (ap (λ r. r.1) h) (file_text-update w f s);
}

load_or_init_peer_key-Keeps_example :
    Keeps disk disk-laws "key" (load_or_init_peer_key disk "key" (λ f. none))
load_or_init_peer_key-Keeps_example = load_or_init_peer_key-Keeps disk disk-laws "key" (λ f. none)
