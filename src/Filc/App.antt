-- ===== src/Filc/App.antt =====
-- filc/main.go, and the declarations of the commands in filc/cmds.go.
pub mod Unsealed
pub mod Tests
use filclient.Base.{ℕ, String, str_append, str_eq, Option, none, some, List, [], ◌∷◌, Dict}
use filclient.Base.{if◌then◌else◌}
use filclient.Errors.{GoError, error_text, Result, ok, err}
use filclient.Errors.Action.{Action}
use filclient.Filc.Flags.{
  Flag, flag_named, string_flag, flag_miner, flag_miner_required, flag_miners, flag_verified,
  flag_output, flag_network, flag_car, flag_deal_uuid, flag_dm_path_sel,
}

-- `cli.Command`, without its action.
pub record Command : Type 0 where
  pub name : String
  pub usage : String
  pub description : String
  pub args_usage : String
  pub flags : List Flag

abbrev pub print_loggers_cmd : Command
print_loggers_cmd = record {
  name = "print-loggers";
  usage = "Display loggers present in the program to help configure log levels";
  description = "";
  args_usage = "";
  flags = [];
}

abbrev pub make_deal_cmd : Command
make_deal_cmd = record {
  name = "deal";
  usage = "Make a storage deal with a miner";
  description = "";
  args_usage = "<file path>";
  flags =
      flag_miner_required
      ∷ flag_verified
      ∷ record (flag_named string_flag "announce") {
        usage =
            "the public multi-address from which to download the data (for deals with protocol v120)";
      }
      ∷ [];
}

abbrev pub deal_status_cmd : Command
deal_status_cmd = record {
  name = "deal-status";
  usage = "Get on-chain deal status";
  description = "";
  args_usage = "<proposal cid>";
  flags = flag_miner_required ∷ flag_deal_uuid ∷ [];
}

abbrev pub get_ask_cmd : Command
get_ask_cmd = record {
  name = "get-ask";
  usage = "Query storage deal ask for a miner";
  description = "";
  args_usage = "<miner>";
  flags = [];
}

abbrev pub info_cmd : Command
info_cmd = record {
  name = "info";
  usage = "Display wallet information";
  description = "";
  args_usage = " ";
  flags = [];
}

abbrev pub list_deals_cmd : Command
list_deals_cmd = record {
  name = "list";
  usage = "List local storage deal history";
  description = "";
  args_usage = " ";
  flags = [];
}

abbrev pub retrieve_file_cmd : Command
retrieve_file_cmd = record {
  name = "retrieve";
  usage = "Retrieve a file by CID from a miner";
  description =
      "Retrieve a file by CID from a miner. If desired, multiple miners can be specified as fallbacks in case of a failure (comma-separated, no spaces).";
  args_usage = "<cid>";
  flags = flag_miners ∷ flag_output ∷ flag_network ∷ flag_dm_path_sel ∷ flag_car ∷ [];
}

abbrev pub query_retrieval_cmd : Command
query_retrieval_cmd = record {
  name = "query-retrieval";
  usage = "Query retrieval information for a CID";
  description = "";
  args_usage = "<cid>";
  flags = flag_miner ∷ [];
}

abbrev pub clear_blockstore_cmd : Command
clear_blockstore_cmd = record {
  name = "clear-blockstore";
  usage = "Delete all retrieved file data in the blockstore";
  description = "";
  args_usage = " ";
  flags = [];
}

-- A value of the map `Metadata`.
pub data MetaValue : Type 0 where
  text : String → MetaValue
  other_value : ℕ → MetaValue

-- `cli.App`.
pub record App : Type 0 where
  pub commands : List Command
  pub flags : List Flag
  pub metadata : Dict MetaValue

abbrev pub app_of : String → App
app_of ddir = record {
  commands =
      print_loggers_cmd ∷ make_deal_cmd ∷ deal_status_cmd ∷ get_ask_cmd ∷ info_cmd ∷ list_deals_cmd
      ∷ retrieve_file_cmd ∷ query_retrieval_cmd ∷ clear_blockstore_cmd ∷ [];
  flags = record (flag_named string_flag "repo") { value = "~/.lotus" } ∷ [];
  metadata = λ key. if str_eq key "ddir" then some (text ddir) else none;
}

-- What is used of the packages os, homedir and cli. `expand` gives "" with an error; `run` is `app.Run` on
-- the arguments.
pub record Process (W : Type 0) : Type 0 where
  pub getenv : String → W → String
  pub setenv : String → String → W → W
  pub expand : String → W → Result String
  pub mkdir_all : String → ℕ → Action W (Unit {0})
  pub println : String → W → W
  pub run : App → Action W (Unit {0})

module _ {W : Type 0} (os : Process W) where
  -- `init`.
  unfoldable pub init : W → W
  init w =
      if str_eq (os.getenv "FULLNODE_API_INFO" w) ""
      then os.setenv "FULLNODE_API_INFO" "wss://api.chain.love" w
      else w

  -- The code with which the process ends.
  ran : Result (Unit {0}) × W → ℕ × W
  ran (ok _, w) = (0, w)
  ran (err e, w) = (1, os.println (error_text e) w)

  with_directory : String → Result (Unit {0}) × W → ℕ × W
  unfolding ran
  with_directory ddir (ok _, w) = ran (os.run (app_of ddir) w)
  with_directory ddir (err e, w) =
      (1, os.println (str_append "could not create config directory:  " (error_text e)) w)

  -- The directory that is expanded: an error is printed, and the empty path goes on.
  expanded : Result String → W → String × W
  expanded (ok ddir) w = (ddir, w)
  expanded (err e) w = ("", os.println (str_append "could not set config dir:  " (error_text e)) w)

  unfoldable pub main : W → ℕ × W
  unfolding with_directory expanded
  main w =
      let (ddir, w') = expanded (os.expand "~/.filc" w) w in
      with_directory ddir (os.mkdir_all ddir 493 w')

-- `ddir(cctx)`, which panics if there is no text under the key.
as_text : Option MetaValue → Option String
as_text (some (text s)) = some s
as_text (some (other_value n)) = none
as_text none = none

unfoldable pub ddir : App → Option String
unfolding as_text
ddir app = as_text (app.metadata "ddir")
