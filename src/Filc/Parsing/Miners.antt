-- ===== src/Filc/Parsing/Miners.antt =====
-- filc/parsing.go: the two ways to name several miners.
use filclient.Base.{
  String, str_append, ◌≡◌, refl, ap, ◌∙◌, List, [], ◌∷◌, ◌++◌, map, All, All-append, sym,
}
use filclient.Strconv.{split}
use filclient.Strconv.Split.{NoChar, split-append, split-of_NoChar}
use filclient.Filc.Parsing.{Parsers, comma, split_raw, parse_each, parse_miners}

-- One flag with the names of a miner and of others, separated by commas.
abbrev pub joined : String × List String → String
joined (m, []) = m
joined (m, n ∷ rest) = str_append m (String.◌∷◌ "," (joined (n, rest)))

-- The names of all flags, one by one.
abbrev pub singles : List (String × List String) → List String
singles [] = []
singles ((m, ms) ∷ rest) = m ∷ ms ++ singles rest

abbrev pub NoCommas : String × List String → Type 0
NoCommas (m, ms) = NoChar comma m × All (NoChar comma) ms

split-joined :
    (m : String) (ms : List String) → NoCommas (m, ms) → split comma (joined (m, ms)) ≡ m ∷ ms
split-joined m [] h = split-of_NoChar comma m h.0
split-joined m (n ∷ rest) h =
    split-append "," m (joined (n, rest)) h.0 ∙ ap (◌∷◌ m) (split-joined n rest h.1)

module _ (parsers : Parsers) where
  split_raw-joined :
      (flags : List (String × List String))
      → All NoCommas flags
      → split_raw parsers (map joined flags) ≡ singles flags
  unfolding split_raw
  split_raw-joined [] h = refl
  split_raw-joined ((m, ms) ∷ rest) h = rw (split-joined m ms h.0, split_raw-joined rest h.1) refl

  split_raw-singles : (ms : List String) → All (NoChar comma) ms → split_raw parsers ms ≡ ms
  unfolding split_raw
  split_raw-singles [] h = refl
  split_raw-singles (m ∷ ms) h = rw (split-of_NoChar comma m h.0, split_raw-singles ms h.1) refl

singles-NoChar :
    (flags : List (String × List String)) → All NoCommas flags → All (NoChar comma) (singles flags)
singles-NoChar [] h = tt
singles-NoChar ((m, ms) ∷ rest) h =
    (h.0.0, All-append (NoChar comma) ms (singles rest) h.0.1 (singles-NoChar rest h.1))

-- Miners may be named in any mixture of flags and of lists separated by commas: if no name has a
-- comma, the flags give the same miners, or the same error, as one flag for each name.
pub parse_miners-joined :
    (parsers : Parsers) (flags : List (String × List String))
    → All NoCommas flags
    → parse_miners parsers (map joined flags) ≡ parse_miners parsers (singles flags)
unfolding parse_miners
parse_miners-joined parsers flags h = ap (parse_each parsers) (
    split_raw-joined parsers flags h
    ∙ sym (split_raw-singles parsers (singles flags) (singles-NoChar flags h)))
