-- ===== src/Keystore/Tests.antt =====
-- A file system as a map from paths to modes and texts, and the theorems of Keystore at it.
use filclient.Base.{
  ℕ, String, str_eq, eq_iff, eq_refl, true, false, ◌≡◌, ◌≢◌, refl, List, [], ◌∷◌, map, All, Option,
  none, some, Dict, update, delete as remove_key, Bool-cases, inl, inr,
}
use filclient.Errors.{message, wrap, Result, ok, err}
use filclient.Keystore.{
  Stat, present, not_exist, Fs, key_info_not_found, key_exists, is_private, about, list_files, list,
  key_path, get, put, delete,
}
use filclient.Keystore.Laws.{FsLaws, put-get, delete-get}
use filclient.Keystore.Listing.{list-private}

abbrev Files : Type 0
Files = Dict (ℕ × String)

abbrev file_stat : Option (ℕ × String) → Stat
file_stat none = not_exist (message "no such file")
file_stat (some (mode, text)) = present mode

abbrev file_text : Option (ℕ × String) → Result String
file_text none = err (message "no such file")
file_text (some (mode, text)) = ok text

abbrev file_open : Option (ℕ × String) → Result (Unit {0})
file_open none = err (message "no such file")
file_open (some (mode, text)) = ok tt

-- Keys are texts, stored as they are.
abbrev sample_fs : Fs Files String
sample_fs = record {
  stat = λ p w. file_stat (w p);
  open_file = λ p w. file_open (w p);
  readdir = λ p w. ok (("a", 384) ∷ ("b", 256) ∷ []);
  read_all = λ p w. file_text (w p);
  mkdir = λ p mode w. (ok tt, w);
  write_file = λ p text mode w. (ok tt, update w p (mode, text));
  remove = λ p w. (ok tt, remove_key w p);
  join = λ d p. p;
  encode = λ s. s;
  decode = λ s. ok s;
  marshal = λ k. ok k;
  unmarshal = λ s. ok s;
  permission_text = λ name mode. name;
}

str_eq-ne : (a b : String) → b ≢ a → str_eq a b ≡ false
str_eq-ne a b ne = elim (Bool-cases (str_eq a b)) [
  | inl e ↦ absurd (ne (cc ((eq_iff a b).0 e)))
  | inr e ↦ e
]

abbrev no_files : Files
no_files p = none

abbrev one_file : Files
one_file = update no_files "k" (384, "secret")

update-same : (w : Files) (p : String) (v : ℕ × String) → update w p v p ≡ some v
update-same w p v = rw (eq_refl p) refl

update-other : (w : Files) (p q : String) (v : ℕ × String) → q ≢ p → update w p v q ≡ w q
update-other w p q v ne = rw (str_eq-ne p q ne) refl

sample_fs-FsLaws : (w : Files) → FsLaws sample_fs "keys" w
unfolding key_path
sample_fs-FsLaws w = record {
  written = λ name text e missing h.
      rw (update-same w name (384, text)) ((384, (refl, refl)), (refl, refl));
  removed = λ name h. (message "no such file", rw (eq_refl name) refl);
  write_others = λ name other text e missing ne. record {
    same_stat = rw (str_eq-ne name other ne) refl;
    same_open = rw (str_eq-ne name other ne) refl;
    same_read = rw (str_eq-ne name other ne) refl;
  };
  remove_others = λ name other ne. record {
    same_stat = rw (str_eq-ne name other ne) refl;
    same_open = rw (str_eq-ne name other ne) refl;
    same_read = rw (str_eq-ne name other ne) refl;
  };
}

put-get_example :
    let w' = (put sample_fs "keys" "k" "secret" no_files).1 in
    (get sample_fs "keys" "k" w' ≡ ok "secret")
    × (((other : String)
          → other ≢ "k"
          → get sample_fs "keys" other w' ≡ get sample_fs "keys" other no_files)
        × ((again : String)
            → put sample_fs "keys" "k" again w'
              ≡ (err (wrap (about "checking key before put" "k") (message key_exists)), w')))
unfolding put
put-get_example =
    put-get sample_fs "keys" "k" "secret" "secret" no_files (sample_fs-FsLaws no_files) refl refl
      refl

delete-get_example :
    let w' = (delete sample_fs "keys" "k" one_file).1 in
    (get sample_fs "keys" "k" w'
      ≡ err (wrap (about "opening key" "k") (message key_info_not_found)))
    × ((other : String)
        → other ≢ "k"
        → get sample_fs "keys" other w' ≡ get sample_fs "keys" other one_file)
unfolding delete
delete-get_example = delete-get sample_fs "keys" "k" one_file (sample_fs-FsLaws one_file) refl

list-private_example :
    (files : List (String × ℕ)) × ((sample_fs.readdir "keys" one_file ≡ ok files)
      × (All (λ f. is_private f.1 ≡ true) files
          × (map (λ f. sample_fs.decode f.0) files ≡ map ok ("a" ∷ "b" ∷ []))))
unfolding list list_files
list-private_example =
    list-private sample_fs "keys" (update one_file "keys" (448, "")) ("a" ∷ "b" ∷ []) refl
