-- ===== src/Filc/Flags.antt =====
-- filc/flags.go: the flags of the command line tool.
use filclient.Base.{String, str_eq, Bool, true, false, ◌||◌, List, [], ◌∷◌}
use filclient.Filc.Commands.Retrieve.{network_auto}

-- The kinds of `cli.Flag` that are used: `cli.StringFlag`, `cli.StringSliceFlag` and `cli.BoolFlag`.
pub data FlagKind : Type 0 where
  string_flag string_slice_flag bool_flag : FlagKind

pub record Flag : Type 0 where
  pub kind : FlagKind
  pub name : String
  pub aliases : List String
  pub required : Bool
  pub usage : String
  pub default_text : String
  pub value : String

-- A flag of which only the name is set.
abbrev pub flag_named : FlagKind → String → Flag
flag_named kind name = record {
  kind = kind;
  name = name;
  aliases = [];
  required = false;
  usage = "";
  default_text = "";
  value = "";
}

abbrev pub flag_miner : Flag
flag_miner = record (flag_named string_flag "miner") { aliases = "m" ∷ [] }

abbrev pub flag_miner_required : Flag
flag_miner_required = record (flag_named string_flag flag_miner.name) {
  aliases = flag_miner.aliases;
  required = true;
}

abbrev pub flag_miners : Flag
flag_miners = record (flag_named string_slice_flag "miners") { aliases = "miner" ∷ "m" ∷ [] }

abbrev pub flag_miners_required : Flag
flag_miners_required = record (flag_named string_slice_flag flag_miners.name) {
  aliases = flag_miners.aliases;
  required = true;
}

abbrev pub flag_verified : Flag
flag_verified = flag_named bool_flag "verified"

abbrev pub remove_unsealed : Flag
remove_unsealed = flag_named bool_flag "remove-unsealed"

abbrev pub flag_output : Flag
flag_output = record (flag_named string_flag "output") { aliases = "o" ∷ [] }

abbrev pub flag_network : Flag
flag_network = record (flag_named string_flag "network") {
  aliases = "n" ∷ [];
  usage = "which network to retrieve from [fil|ipfs|auto]";
  default_text = network_auto;
  value = network_auto;
}

abbrev pub flag_car : Flag
flag_car = flag_named bool_flag "car"

abbrev pub flag_deal_uuid : Flag
flag_deal_uuid = flag_named string_flag "deal-uuid"

abbrev pub flag_dm_path_sel : Flag
flag_dm_path_sel = record (flag_named string_flag "datamodel-path-selector") {
  usage =
      "a rudimentary (DM-level-only) text-path selector, allowing for sub-selection within a deal";
}

-- Whether one of the flags has the name.
abbrev pub is_name : String → List String → Bool
is_name s [] = false
is_name s (n ∷ ns) = str_eq s n || is_name s ns

abbrev pub is_flag : List Flag → String → Bool
is_flag [] s = false
is_flag (f ∷ fs) s = is_name s (f.name ∷ f.aliases) || is_flag fs s
