-- ===== src/Filc/App/Tests.antt =====
-- The flags of the commands, and runs of `main`.
use filclient.Base.{
  ℕ, String, str_eq, Bool, true, false, not, ◌&&◌, ◌≡◌, refl, none, some, List, [], ◌∷◌, ◌++◌, map,
  if◌then◌else◌,
}
use filclient.Base.Big.{nat_big}
use filclient.Errors.{message, Result, ok, err}
use filclient.Errors.Action.{Succeeds}
use filclient.Connection.{Network, deal_protocol_v110}
use filclient.Deal.{NetProposal}
use filclient.Deal.Tests.{sample_market}
use filclient.Deal.Sending.{Codec}
use filclient.Retrieval.Query.Tests.{network, streams}
use filclient.Filc.Tests.{parsers}
use filclient.Filc.Disk.{Disk, no_file}
use filclient.Filc.Commands.{Cli}
use filclient.Filc.Commands.Deal.{Ask, make_and_save}
use filclient.Filc.Flags.{Flag, is_name, is_flag, remove_unsealed, flag_miners_required}
use filclient.Filc.App.{Command, Process, make_deal_cmd, app_of, init, main, ddir, other_value}
use filclient.Filc.App.Unsealed.{make_and_save-IsFast}

all_names : List Flag → List String
all_names [] = []
all_names (f ∷ fs) = (f.name ∷ f.aliases) ++ all_names fs

is_distinct : List String → Bool
is_distinct [] = true
is_distinct (n ∷ ns) = not (is_name n ns) && is_distinct ns

each_is_distinct : List Command → Bool
each_is_distinct [] = true
each_is_distinct (c ∷ cs) = is_distinct (all_names c.flags) && each_is_distinct cs

-- No two flags of a command have a name in common, and no two commands.
distinct_lem :
    (each_is_distinct (app_of "").commands ≡ true)
    × (is_distinct (map (λ (c : Command). c.name) (app_of "").commands) ≡ true)
unfolding each_is_distinct is_distinct all_names
distinct_lem = (refl, refl)

-- The two flags that no command registers.
unused_lem :
    (is_flag make_deal_cmd.flags remove_unsealed.name ≡ false)
    × (is_distinct (all_names (flag_miners_required ∷ [])) ≡ true)
unfolding is_distinct all_names
unused_lem = (refl, refl)

-- The world is what has been printed.
abbrev process : Result String → Result (Unit {0}) → Process (List String)
process home ended = record {
  getenv = λ key w. "";
  setenv = λ key v w. w ++ v ∷ [];
  expand = λ path w. home;
  mkdir_all = λ path mode w. (if str_eq path "" then (err (message "no such file")) else ok tt, w);
  println = λ line w. w ++ line ∷ [];
  run = λ app w. (ended, w);
}

main_lem :
    (main (process (ok "/home/.filc") (ok tt)) [] ≡ (0, []))
    × (main (process (ok "/home/.filc") (err (message "lost"))) [] ≡ (1, "lost" ∷ []))
    × (main (process (err (message "no home")) (ok tt)) [] ≡ (
      1,
      "could not set config dir:  no home" ∷ "could not create config directory:  no such file"
          ∷ [],
    ))
unfolding main
main_lem = (refl, refl, refl)

init_lem : init (process (ok "") (ok tt)) [] ≡ "wss://api.chain.love" ∷ []
unfolding init
init_lem = refl

-- The directory is there for the commands that `main` runs; without it `ddir` panics.
ddir_lem :
    (ddir (app_of "/home/.filc") ≡ some "/home/.filc")
    × (ddir (record (app_of "") { metadata = λ key. some (other_value 3) }) ≡ none)
unfolding ddir
ddir_lem = (refl, refl)

abbrev cli : Cli (Unit {0})
cli = record {
  first_arg = some "file";
  flag = λ n. "t01";
  bool_flag = λ n. false;
  decode_cid = λ s. ok s;
  set_up = λ d w. (ok tt, w);
  client = λ w. (ok tt, w);
  remove_all = λ p w. (ok tt, w);
  find_providers = λ c w. (ok [], w);
  default_address = λ w. (ok "t01", w);
}

abbrev disk : Disk (Unit {0}) String (NetProposal ℕ String)
disk = record {
  join = λ a b. b;
  mkdir_all = λ d mode w. (ok tt, w);
  create = λ f w. (ok tt, w);
  write = λ f s w. (ok tt, w);
  read_dir = λ d w. ok [];
  read_file = λ f w. no_file (message "no such file");
  write_file = λ f s mode w. (ok tt, w);
  encode_proposal = λ p. ok p.proposal.piece_cid;
  decode_cid = λ s. ok s;
  generate_key = λ w. (ok "fresh", w);
  marshal_key = λ k. ok k;
  unmarshal_key = λ s. ok s;
}

abbrev ask_codec : Codec (Unit {0}) String (Ask ℕ)
ask_codec = record {
  write = λ s q w. (ok tt, w);
  read = λ s w. (ok (record { price = 4; verified_price = 2; min_piece_size = 2048 }), w);
}

abbrev online : Network (Unit {0})
online = record network { first_supported_protocol = λ p ps w. (ok deal_protocol_v110, w) }

make_and_save-IsFast_example :
    Succeeds
      (λ made. made.proposal.fast_retrieval ≡ true)
      (make_and_save cli parsers nat_big sample_market "client" streams online disk ask_codec
        (λ path w. (ok "root", w))
        (λ net. ok net.root)
        ".filc"
        tt).0
make_and_save-IsFast_example =
    make_and_save-IsFast cli parsers nat_big sample_market "client" streams online disk ask_codec
      (λ path w. (ok "root", w)) (λ net. ok net.root) (λ name h. refl) ".filc" tt
