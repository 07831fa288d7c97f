-- ===== src/Transfer/Tests.antt =====
-- A data store as a list of entries, one active transfer, and the theorems of Transfer at them.
use filclient.Base.{
  String, str_eq, eq_iff, Bool, Bool-cases, inl, inr, ◌≢◌, true, false, ◌≡◌, refl, List, [], ◌∷◌,
  ◌++◌, none, some, All, if◌then◌else◌,
}
use filclient.Errors.{message, Result, ok, err}
use filclient.Strconv.{parse_uint}
use filclient.Transfer.{
  TransferStatus, completed, started, TransferState, Outside, datastore_not_found, to_dt_state,
}
use filclient.Transfer.Manager.{Notice, subscribe, on_server_event}
use filclient.Transfer.Expiry.{expire_token, check_transfer_expiry}
use filclient.Transfer.Running.{
  Running, from, from_server, new_libp2p_transfer_manager, start, serve, Runs, begins, starts,
  subscribes, serves, Source, from_ticker, check, ticks, checks,
}
use filclient.Transfer.Running.Heard.{Fits, Runs-Fits}
use filclient.Transfer.Expiry.Completion.{entry, IsCompletion, StoreLaws}
use filclient.Transfer.Expiry.Completed.{
  now, serves as later_serves, checks as later_checks, on_server_event-expire_token,
}
use filclient.Transfer.Lookup.{
  all, remove_leading_slash, first_match, by_remote_addr_and_payload_cid,
}
use filclient.Transfer.Lookup.Search.{all-lookup, by_remote_addr_and_payload_cid-first}

-- The entries of the data store.
abbrev pub Store : Type 0
Store = List (String × String)

abbrev lookup : Store → String → Result String
lookup [] k = err (message datastore_not_found)
lookup ((j, text) ∷ rest) k = if str_eq j k then ok text else lookup rest k

abbrev pub sample : String → TransferStatus → TransferState
sample payload status = record {
  id = "7";
  local_addr = "client";
  remote_addr = "miner";
  status = status;
  sent = 5;
  received = 0;
  message = "";
  payload_cid = payload;
}

-- A text is the payload of a completed transfer.
abbrev pub sample_outside : Outside Store
sample_outside = record {
  Transfer = Unit {0};
  decode_peer = λ s. ok s;
  status_name = λ s. "status";
  marshal = λ st. ok st.payload_cid;
  unmarshal = λ text. ok (sample text completed);
  new_key = λ id. id;
  ds_get = λ k w. (lookup w k, w);
  ds_put = λ k text w. (ok tt, (k, text) ∷ w);
  ds_query = λ w. (ok w, w);
  auth_put = λ k v w. (ok tt, w);
  auth_delete = λ k w. (ok tt, w);
  auth_delete_expired = λ w. (ok ("7" ∷ []), w);
  server_id = "client";
  server_get = λ id w. (ok (some tt), w);
  server_cancel = λ id w. (ok tt, w);
  server_matching = λ w. (ok (tt ∷ []), w);
  transfer_id = λ t. "7";
  transfer_remote_addr = λ t. "miner";
  transfer_payload_cid = λ t. "active";
  transfer_state = λ t w. sample "active" started;
}

abbrev pub two_entries : Store
two_entries = ("7", "first") ∷ ("8", "wanted") ∷ []

-- An expired token of a transfer that was never stored is reported.
expiry_reports :
    (check_transfer_expiry sample_outside "timed out" true []).0
    ≡ (
      7,
      to_dt_state sample_outside
          (record (sample "active" TransferStatus.failed) { message = "timed out" }),
    )
      ∷ []
unfolding check_transfer_expiry parse_uint
expiry_reports = refl

-- The manager starts, a listener comes, the server's transfer is ongoing, and a token expires.
abbrev idle : Running Store String
idle = record { listener = none; subscribed = false; ticking = false; tick = false; world = [] }

abbrev ready : Running Store String
ready = record idle { subscribed = true; ticking = true; listener = some "listener" }

ready-Runs : Runs sample_outside "timed out" ready []
unfolding new_libp2p_transfer_manager start subscribe
ready-Runs = subscribes "listener" (start idle) [] (starts idle [] (begins []))

abbrev served : Running Store String
served = (serve sample_outside "timed out" "7" (sample "active" TransferStatus.ongoing) ready).1

abbrev told : List Notice
told = (serve sample_outside "timed out" "7" (sample "active" TransferStatus.ongoing) ready).0

served-Runs : Runs sample_outside "timed out" served ([] ++ from from_server told)
served-Runs = serves "7" (sample "active" TransferStatus.ongoing) ready [] ready-Runs refl

abbrev expiring : Running Store String
expiring = record served { tick = true }

abbrev heard : List (Source × Notice)
heard =
    ([] ++ from from_server told) ++ from from_ticker (check sample_outside "timed out" expiring).0

expiring-Runs : Runs sample_outside "timed out" (check sample_outside "timed out" expiring).1 heard
unfolding serve
expiring-Runs = checks expiring _ (ticks served _ served-Runs refl) refl

Runs-Fits_example : All Fits heard
Runs-Fits_example =
    Runs-Fits sample_outside "timed out" (check sample_outside "timed out" expiring).1 heard
      expiring-Runs

put_elsewhere :
    (i text : String) (w : Store)
    → i ≢ "7"
    → entry sample_outside "7" (sample_outside.ds_put i text w).1 ≡ entry sample_outside "7" w
put_elsewhere i text w ne = elim (Bool-cases (str_eq i "7")) [
  | inl e ↦ absurd (ne ((eq_iff i "7").0 e))
  | inr e ↦ rw e refl
]

sample_outside-StoreLaws : StoreLaws sample_outside "7"
sample_outside-StoreLaws = record {
  get_keeps = λ k w. refl;
  server_get_keeps = λ i w. refl;
  server_cancel_keeps = λ i w. refl;
  delete_expired_keeps = λ w. refl;
  put_others = λ i text w num ne. put_elsewhere i text w ne;
  put_own = λ text w h. refl;
  put_fails = λ text w e h. absurd (cc);
  encodes = λ st text done h. (sample text completed, refl, refl);
}

-- The transfer is completed, then another one is, and a check finds the token expired.
abbrev after_completion : Store
after_completion = (on_server_event sample_outside true "7" (sample "first" completed) []).1

abbrev after_check : Store
after_check =
    (check_transfer_expiry sample_outside "timed out" true
      (on_server_event sample_outside true "8" (sample "wanted" completed) after_completion).1).1

on_server_event-expire_token_example :
    IsCompletion sample_outside "7" after_check
    × ((heard : Bool) → (expire_token sample_outside "timed out" heard "7" after_check).0 ≡ [])
unfolding parse_uint
on_server_event-expire_token_example =
    on_server_event-expire_token sample_outside "7" sample_outside-StoreLaws "timed out" true 7
      (sample "first" completed) "first" [] after_check refl refl refl refl
      (later_checks true (later_serves true "8" (sample "wanted" completed) now))

all-lookup_example :
    ((all sample_outside two_entries).0.0 ≡ ok tt)
    × ((all sample_outside two_entries).0.1 "7"
        ≡ some (to_dt_state sample_outside (sample "first" completed)))
unfolding remove_leading_slash
all-lookup_example =
    all-lookup sample_outside (tt ∷ []) two_entries
      (("7", sample "first" completed) ∷ ("8", sample "wanted" completed) ∷ []) two_entries
      two_entries two_entries "7" refl refl (refl, (refl, (refl, (refl, tt))))

-- The second entry matches and is not found.
by_remote_addr_and_payload_cid-first_example :
    (by_remote_addr_and_payload_cid sample_outside "miner" "wanted" two_entries).0 ≡ (ok tt, none)
unfolding first_match
by_remote_addr_and_payload_cid-first_example =
    by_remote_addr_and_payload_cid-first sample_outside "miner" "wanted" "7" "first"
      (("8", "wanted") ∷ []) (tt ∷ []) (sample "first" completed) two_entries two_entries
      two_entries refl refl refl refl refl
