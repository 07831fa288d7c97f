-- ===== src/Filc/Commands/Retrieve.antt =====
-- filc/cmds.go: the action of `retrieveFileCmd`.
use filclient.Base.{
  String, str_append, str_eq, Bool, false, not, ◌||◌, Option, none, some, List, [], ◌∷◌, ◌++◌,
  if◌then◌else◌,
}
use filclient.Errors.{message, wrap, Result, ok, err, or_wrap}
use filclient.Errors.Action.{Action, return, ◌>>=◌}
use filclient.Filc.Parsing.{Parsers, parse_miners, parse_output}
use filclient.Filc.Candidates.{Candidate, retrieve_from_best_candidate}
use filclient.Filc.Candidates.Endpoint.{HttpApi, get_retrieval_candidates}
use filclient.Filc.Commands.{Cli}

abbrev pub network_fil : String
network_fil = "fil"

abbrev pub network_ipfs : String
network_ipfs = "ipfs"

abbrev pub network_auto : String
network_auto = "auto"

-- An entry of `networks`: the structs of the two kinds of attempt.
pub data RetrievalAttempt (Node : Type 0) : Type 0 where
  ipfs_attempt : String → RetrievalAttempt Node
  fil_attempt : String → List Candidate → Option Node → RetrievalAttempt Node

-- The networks, or the text with which `log.Fatal` ends the process.
pub data Chosen (Node : Type 0) : Type 0 where
  attempts : List (RetrievalAttempt Node) → Chosen Node
  fatal : String → Chosen Node

module _ {Node : Type 0} (is_null : Node → Bool) where
  -- `selNode != nil && !selNode.IsNull()`.
  abbrev pub has_selector : Option Node → Bool
  has_selector none = false
  has_selector (some sel) = not (is_null sel)

  -- After the IPFS attempt, if there is one.
  add_fil :
      String → String → List Candidate → Option Node → List (RetrievalAttempt Node) → Chosen Node
  add_fil network c candidates sel [] =
      if str_eq network network_fil || str_eq network network_auto
      then attempts (fil_attempt c candidates sel ∷ [])
      else fatal (str_append "Unknown --network value \"" (str_append network "\""))
  add_fil network c candidates sel (a ∷ networks) =
      if str_eq network network_fil || str_eq network network_auto
      then attempts ((a ∷ networks) ++ fil_attempt c candidates sel ∷ [])
      else attempts (a ∷ networks)

  unfoldable pub choose_networks : String → String → List Candidate → Option Node → Chosen Node
  unfolding add_fil
  choose_networks network c candidates sel =
      if str_eq network network_ipfs || str_eq network network_auto
      then (if has_selector sel
          then (if str_eq network network_ipfs
              then fatal "IPFS is not compatible with selector node"
              else add_fil network c candidates sel [])
          else add_fil network c candidates sel (ipfs_attempt c ∷ []))
      else add_fil network c candidates sel []

-- The candidates: the miners of the flags with the cid as the root, or else those of the endpoint.
abbrev pub miner_candidates : String → List String → List Candidate
miner_candidates c [] = []
miner_candidates c (m ∷ ms) =
    (record { miner = m; root_cid = c; deal_id = 0 }) ∷ miner_candidates c ms

unfoldable pub choose_candidates :
    {W : Type 0} → HttpApi W → String → List String → Action W (List Candidate)
unfolding get_retrieval_candidates
choose_candidates http c (m ∷ ms) w = (ok (miner_candidates c (m ∷ ms)), w)
choose_candidates http c [] w =
    let (res, w') =
      get_retrieval_candidates http "https://api.estuary.tech/retrieval-candidates" c w in
    (or_wrap "failed to get retrieval candidates" res, w')

-- A visit of the selector's traversal: whether it is a match, the paths of the last block and of the
-- node, and the last block's link, with its cid if it is one.
pub record Visit : Type 0 where
  pub is_match : Bool
  pub block_path : String
  pub path : String
  pub link : String
  pub link_cid : Option String

-- The callback over the visits: the last match is the sub-root.
linked : Visit → Option String → Result String
linked v none =
    err (message (str_append "cidlink cast unexpectedly failed on '" (str_append v.link "'")))
linked v (some c) = ok c

visit : Visit → Result (Option String)
unfolding linked
visit v =
    if v.is_match
    then (if str_eq v.block_path v.path
        then (elim (linked v v.link_cid) [ ok c ↦ ok (some c) | err e ↦ err e ])
        else err (
            message (
              str_append "unsupported selection path '"
                (str_append v.path "' does not correspond to a node boundary (a.k.a. CID link)"))))
    else ok none

-- The walk stops at the first error of the callback; `ended` is its own result after the last visit.
unfoldable pub walk : Result (Unit {0}) → Option String → List Visit → Result (Option String)
unfolding visit
walk (ok _) found [] = ok found
walk (err e) found [] = err e
walk ended found (v ∷ vs) = elim (visit v) [
  | err e ↦ err e
  | ok none ↦ walk ended found vs
  | ok (some c) ↦ walk ended (some c) vs
]

sub_root : String → String → Result (Option String) → Result String
sub_root sel_text c (err e) = err (wrap "error while locating partial retrieval sub-root" e)
sub_root sel_text c (ok none) = err (
    message (
      str_append "path selection '"
        (str_append sel_text (str_append "' does not match a node within " c))))
sub_root sel_text c (ok (some found)) = ok found

-- What is saved: the content itself, or the node that the selector's text names.
unfoldable pub root_to_save : String → String → List Visit × Result (Unit {0}) → Result String
unfolding sub_root walk
root_to_save sel_text c (visits, ended) =
    if str_eq sel_text "" then ok c else sub_root sel_text c (walk ended none visits)

-- What the command uses beside: `select` compiles the selector's text, `traverse` gives the visits of
-- `TraverseDag` with its result. `write_car` fails if the file cannot be created; an error of
-- `car.WriteCar` is dropped.
pub record Retrieving (W Node Stats : Type 0) : Type 0 where
  pub miner_flags : List String
  pub lower_trimmed : String → String
  pub query_escape : String → String
  pub select : String → Result Node
  pub is_null : Node → Bool
  pub attempt : RetrievalAttempt Node → Action W Stats
  pub traverse : String → String → W → List Visit × Result (Unit {0})
  pub get_node : String → Action W (Unit {0})
  pub write_car : String → String → Action W (Unit {0})
  pub write_file : String → String → Action W (Unit {0})

module _ {W Node Stats : Type 0} (cli : Cli W) (parsers : Parsers) (http : HttpApi W)
    (calls : Retrieving W Node Stats) where
  abbrev pub output_name : String → String → String → String
  output_name given cid_str sel_text =
      if str_eq given ""
      then (if str_eq sel_text ""
          then cid_str
          else str_append cid_str (str_append "_" (calls.query_escape sel_text)))
      else given

  abbrev pub selected : String → Result (Option Node)
  selected sel_text = if str_eq sel_text "" then ok none else elim (calls.select sel_text) [
    | ok node ↦ ok (some node)
    | err e ↦ err (wrap (str_append "failed to parse text-selector '" (str_append sel_text "'")) e)
  ]

  abbrev pub cid_arg : Option String → Result String
  cid_arg none = err (message "please specify a CID to retrieve")
  cid_arg (some arg) =
      if str_eq arg "" then err (message "please specify a CID to retrieve") else ok arg

  actions : List (RetrievalAttempt Node) → List (Action W Stats)
  actions [] = []
  actions (a ∷ as') = calls.attempt a ∷ actions as'

  -- A process that ends is `none`.
  fetch : Chosen Node → W → Option (Result Stats × W)
  unfolding actions retrieve_from_best_candidate
  fetch (attempts networks) w = some (retrieve_from_best_candidate (actions networks) w)
  fetch (fatal text) w = none

  save : String → String → Action W Stats → Action W Stats
  unfolding root_to_save
  save c output fetched = do
    stats ← fetched
    root ← λ w. (
      root_to_save (cli.flag "datamodel-path-selector") c
          (calls.traverse (cli.flag "datamodel-path-selector") c w),
      w,
    )
    node ← calls.get_node root
    done ←
        if cli.bool_flag "car"
        then calls.write_car root (str_append output ".car")
        else calls.write_file root output
    return stats

  -- The output, the cid, the selector and the candidates.
  prepare : String → Action W (String × (String × (Option Node × List Candidate)))
  unfolding parse_miners parse_output choose_candidates
  prepare ddir = do
    cid_str ← λ w. (cid_arg cli.first_arg, w)
    miners ← λ w. (parse_miners parsers calls.miner_flags, w)
    given ← λ w. (parse_output parsers (cli.flag "output"), w)
    c ← λ w. (cli.decode_cid cid_str, w)
    sel ← λ w. (selected (cli.flag "datamodel-path-selector"), w)
    done ← cli.set_up ddir
    ready ← cli.client
    candidates ← choose_candidates http c miners
    return (output_name given cid_str (cli.flag "datamodel-path-selector"), (c, (sel, candidates)))

  saved : String → String → Option (Result Stats × W) → Option (Result Stats × W)
  unfolding save
  saved c output none = none
  saved c output (some (stats, w)) = some (save c output (λ v. (stats, v)) w)

  run : Result (String × (String × (Option Node × List Candidate))) × W → Option (Result Stats × W)
  unfolding fetch saved choose_networks
  run (err e, w) = some (err e, w)
  run (ok (output, (c, (sel, candidates))), w) = saved c output (
      fetch
        (choose_networks calls.is_null (calls.lower_trimmed (cli.flag "network")) c candidates sel)
        w)

  unfoldable pub retrieve_file_cmd : String → W → Option (Result Stats × W)
  unfolding prepare run
  retrieve_file_cmd ddir w = run (prepare ddir w)
