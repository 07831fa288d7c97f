-- ===== src/Filc/Parsing.antt =====
-- filc/parsing.go: what the command line tool reads of its flags.
pub mod Miners
use filclient.Base.{
  ℕ, String, str_append, str_eq, Bool, not, ◌&&◌, Option, none, some, List, [], ◌∷◌, ◌++◌,
  if◌then◌else◌,
}
use filclient.Errors.{GoError, message, wrap, Result, ok, err, or_wrap}
use filclient.Errors.Action.{collect}
use filclient.Strconv.{split}

-- What is used of the packages address, fs and uuid. An address is its text, a UUID its text or "" for
-- `uuid.Nil`.
pub record Parsers : Type 0 where
  pub new_from_string : String → Result String
  pub valid_path : String → Bool
  pub parse_uuid : String → Result String

abbrev pub comma : ℕ
comma = 44

module _ (parsers : Parsers) where
  unfoldable pub parse_miner : String → Result String
  parse_miner raw = or_wrap (str_append "failed to parse miner: " raw) (parsers.new_from_string raw)

  split_raw : List String → List String
  split_raw [] = []
  split_raw (raw ∷ rest) = split comma raw ++ split_raw rest

  parse_each : List String → Result (List String)
  parse_each [] = ok []
  parse_each (ms ∷ rest) =
      collect (or_wrap (str_append "failed to parse miner " ms) (parsers.new_from_string ms))
        (parse_each rest)

  unfoldable pub parse_miners : List String → Result (List String)
  unfolding split_raw parse_each
  parse_miners raws = parse_each (split_raw raws)

  unfoldable pub parse_output : String → Result String
  parse_output path =
      if not (str_eq path "") && not (parsers.valid_path path)
      then err (message (str_append "invalid output location '" (str_append path "'")))
      else ok path

  uuid_or_fail : String → Result String → Result String
  uuid_or_fail text (ok uuid) = ok uuid
  uuid_or_fail text (err e) =
      err (message (str_append "failed to parse deal UUID '" (str_append text "'")))

  unfoldable pub parse_deal_uuid : String → Result String
  unfolding uuid_or_fail
  parse_deal_uuid text =
      if str_eq text "" then ok "" else uuid_or_fail text (parsers.parse_uuid text)
