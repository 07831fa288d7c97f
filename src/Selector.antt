-- ===== src/Selector.antt =====
-- retrievehelper/selector.go: the walk over a DAG.
mod Tests
use filclient.Base.{String, str_append, Option, none, some}
use filclient.Errors.{message, Result, ok, err}
use filclient.Errors.Action.{Action, return, fail, ◌>>=◌}

-- An `ipld.Link`: a `cidlink.Link`, or another, by its text under `%#v`.
pub data Link : Type 0 where
  cid_link : String → Link
  other_link : String → Link

-- `linkSystem.StorageReadOpener`, with the bytes that are read.
abbrev pub Opener : Type 0 → Type 0
Opener W = Link → Action W String

-- What is used of go-ipld-prime and of the DAG service: selectors, the choice of node prototypes, the
-- loading of a node through a link system with the given opener, and the walk. `add_support` is
-- `dagpb.AddSupportToChooser`; `ds_get` gives the raw data of a node.
pub record Ipld (W Node Selector Parsed Prototype Visit : Type 0) : Type 0 where
  pub match_all_recursively : Selector
  pub parse_selector : Selector → Result Parsed
  pub any : Prototype
  pub add_support : (Link → Result Prototype) → Link → Result Prototype
  pub ds_get : String → Action W String
  pub load : Opener W → Link → Prototype → Action W Node
  pub walk_adv : Opener W → (Link → Result Prototype) → Node → Parsed → Visit → Action W (Unit {0})

module _ {W Node Selector Parsed Prototype Visit : Type 0}
    (ipld : Ipld W Node Selector Parsed Prototype Visit) where
  abbrev pub or_match_all : Option Selector → Selector
  or_match_all none = ipld.match_all_recursively
  or_match_all (some selector) = selector

  -- `nodePrototypeChooser`.
  abbrev pub choose_prototype : Link → Result Prototype
  choose_prototype = ipld.add_support (λ lnk. ok ipld.any)

  -- Only the links that are cids are read.
  unfoldable pub open_storage : Opener W
  open_storage (cid_link c) = ipld.ds_get c
  open_storage (other_link text) = fail (message (str_append "unexpected link type " text))

  unfoldable pub traverse_dag : String → Option Selector → Visit → Action W (Unit {0})
  traverse_dag start_from optional_selector visit = do
    parsed ← λ w. (ipld.parse_selector (or_match_all optional_selector), w)
    prototype ← λ w. (choose_prototype (cid_link start_from), w)
    start_node ← ipld.load open_storage (cid_link start_from) prototype
    ipld.walk_adv open_storage choose_prototype start_node parsed visit
