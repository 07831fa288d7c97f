-- ===== src/Selector/Tests.antt =====
-- A walk over a DAG service that has one block.
use filclient.Base.{ℕ, ◌+◌, String, str_append, str_eq, ◌≡◌, refl, none, some, if◌then◌else◌}
use filclient.Errors.{message, ok, err}
use filclient.Selector.{other_link, Ipld, open_storage, traverse_dag}

-- The world counts the reads.
abbrev ipld : Ipld ℕ String String String String String
ipld = record {
  match_all_recursively = "all";
  parse_selector = λ s. if str_eq s "" then err (message "empty selector") else ok s;
  any = "any";
  add_support = λ choose lnk. choose lnk;
  ds_get = λ c w. (if str_eq c "root" then ok "bytes" else err (message "not found"), w + 1);
  load = λ opener lnk prototype. opener lnk;
  walk_adv = λ opener choose node parsed visit w. (err (message (str_append node parsed)), w);
}

traverse_dag_lem :
    (traverse_dag ipld "root" none "visit" 0 ≡ (err (message "bytesall"), 1))
    × (traverse_dag ipld "root" (some "") "visit" 0 ≡ (err (message "empty selector"), 0))
    × (traverse_dag ipld "lost" none "visit" 0 ≡ (err (message "not found"), 1))
unfolding traverse_dag open_storage
traverse_dag_lem = (refl, refl, refl)

open_storage_lem :
    open_storage ipld (other_link "path") 4 ≡ (err (message "unexpected link type path"), 4)
unfolding open_storage
open_storage_lem = refl
