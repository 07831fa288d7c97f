-- ===== src/Filc/Candidates/Endpoint.antt =====
-- filc/retrieval.go: `GetRetrievalCandidates`, which asks an endpoint for candidates.
use filclient.Base.{ℕ, String, str_append, Option, none, some, List, ◌==◌, if◌then◌else◌}
use filclient.Errors.{message, Result, ok, err}
use filclient.Errors.Action.{Action, fail, ◌>>=◌}
use filclient.Filc.Candidates.{Candidate}

-- The answer of an HTTP server: its status and its body.
pub record HttpApi (W : Type 0) : Type 0 where
  pub endpoint_url : String → String → Option String
  pub http_get : String → Action W (ℕ × String)
  pub status_ok : ℕ
  pub status_text : String → ℕ → String
  pub decode_candidates : String → Option (List Candidate)

module _ {W : Type 0} (http : HttpApi W) where
  decoded : String → Option (List Candidate) → Result (List Candidate)
  decoded c none = err (message (str_append "could not unmarshal http response for cid " c))
  decoded c (some res) = ok res

  read_candidates : String → String → ℕ × String → Result (List Candidate)
  unfolding decoded
  read_candidates url c (status, body) =
      if status == http.status_ok
      then decoded c (http.decode_candidates body)
      else err (message (http.status_text url status))

  from_url : String → String → Option String → Action W (List Candidate)
  unfolding read_candidates
  from_url endpoint c none =
      fail (message (str_append "endpoint " (str_append endpoint " is not a valid url")))
  from_url endpoint c (some url) = do resp ← http.http_get url; λ w. (read_candidates url c resp, w)

  unfoldable pub get_retrieval_candidates : String → String → Action W (List Candidate)
  unfolding from_url
  get_retrieval_candidates endpoint c = from_url endpoint c (http.endpoint_url endpoint c)
