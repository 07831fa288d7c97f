-- ===== src/Keystore.antt =====
-- keystore/keystore.go: `DiskKeyStore`, a directory with one file per key.
pub mod Laws
pub mod Listing
mod Tests
use filclient.Base.{
  ℕ, String, str_append, Bool, true, false, Option, none, some, List, [], ◌∷◌, ◌%◌, ◌==◌,
  if◌then◌else◌,
}
use filclient.Errors.{GoError, message, wrap, Result, ok, err, or_wrap}
use filclient.Errors.Action.{Action, return, fail, ◌>>=◌, wrapping, after}

-- The result of `os.Stat`: the file's mode, an error of which `os.IsNotExist` is true, or another.
pub data Stat : Type 0 where
  present : ℕ → Stat
  not_exist : GoError → Stat
  stat_error : GoError → Stat

-- What the key store uses of other packages: the file system, whose state is the world `W`, and
-- the encodings of names and keys.
pub record Fs (W KeyInfo : Type 0) : Type 0 where
  pub stat : String → W → Stat
  pub open_file : String → W → Result (Unit {0})
  pub readdir : String → W → Result (List (String × ℕ))
  pub read_all : String → W → Result String
  pub mkdir : String → ℕ → Action W (Unit {0})
  pub write_file : String → String → ℕ → Action W (Unit {0})
  pub remove : String → Action W (Unit {0})
  pub join : String → String → String
  pub encode : String → String
  pub decode : String → Result String
  pub marshal : KeyInfo → Result String
  pub unmarshal : String → Result KeyInfo
  pub permission_text : String → ℕ → String

-- The texts of `types.ErrKeyInfoNotFound` and `types.ErrKeyExists`.
abbrev pub key_info_not_found : String
key_info_not_found = "key info not found"

abbrev pub key_exists : String
key_exists = "key already exists"

-- `mode & 0077 == 0`: the six lowest bits.
abbrev pub is_private : ℕ → Bool
is_private mode = mode % 64 == 0

-- "… '%s'": the text before the error that is wrapped.
abbrev pub about : String → String → String
about what name = str_append what (str_append " '" (str_append name "'"))

module _ {W KeyInfo : Type 0} (fs : Fs W KeyInfo) where
  -- The key store is its path.
  open_missing : String → Stat → Action W String
  open_missing p (present mode) = return p
  open_missing p (stat_error e) = fail e
  open_missing p (not_exist e) = do _ ← fs.mkdir p 448; return p

  unfoldable pub open_or_init_keystore : String → Action W String
  unfolding open_missing
  open_or_init_keystore p w = open_missing p (fs.stat p w) w

  -- One file of the loop of `List`, before what the rest gives.
  listed : String → ℕ → Result String → Result (List String) → Result (List String)
  listed name mode (err e) rest = err (wrap (str_append "decoding key: '" (str_append name "'")) e)
  listed name mode (ok key) (ok keys) = ok (key ∷ keys)
  listed name mode (ok key) (err e) = err e

  unfoldable pub list_files : List (String × ℕ) → Result (List String)
  unfolding listed
  list_files [] = ok []
  list_files ((name, mode) ∷ files) =
      let rest = list_files files in
      if is_private mode
      then listed name mode (fs.decode name) rest
      else err (message (fs.permission_text name mode))

  read_listing : Result (List (String × ℕ)) → Result (List String)
  unfolding list_files
  read_listing (ok files) = list_files files
  read_listing (err e) = err (wrap "reading keystore dir" e)

  open_listing : String → W → Result (Unit {0}) → Result (List String)
  unfolding read_listing
  open_listing path w (ok _) = read_listing (fs.readdir path w)
  open_listing path w (err e) = err (wrap "opening dir to list keystore" e)

  module _ (path : String) where
    unfoldable pub list : W → Result (List String)
    unfolding open_listing
    list w = open_listing path w (fs.open_file path w)

    unfoldable pub key_path : String → String
    key_path name = fs.join path (fs.encode name)

    decode_key : String → Result String → Result KeyInfo
    decode_key name (ok data') = or_wrap (about "decoding key" name) (fs.unmarshal data')
    decode_key name (err e) = err (wrap (about "reading key" name) e)

    read_key : String → W → Result (Unit {0}) → Result KeyInfo
    unfolding decode_key key_path
    read_key name w (ok _) = decode_key name (fs.read_all (key_path name) w)
    read_key name w (err e) = err (wrap (about "opening key" name) e)

    get_found : String → W → Stat → Result KeyInfo
    unfolding read_key key_path
    get_found name w (not_exist e) =
        err (wrap (about "opening key" name) (message key_info_not_found))
    get_found name w (stat_error e) = err (wrap (about "opening key" name) e)
    get_found name w (present mode) =
        if is_private mode
        then read_key name w (fs.open_file (key_path name) w)
        else err (message (fs.permission_text name mode))

    unfoldable pub get : String → W → Result KeyInfo
    unfolding get_found key_path
    get name w = get_found name w (fs.stat (key_path name) w)

    -- The file is made with mode 0600.
    put_checked : String → KeyInfo → Stat → Action W (Unit {0})
    unfolding key_path
    put_checked name info (present mode) =
        fail (wrap (about "checking key before put" name) (message key_exists))
    put_checked name info (stat_error e) = fail (wrap (about "checking key before put" name) e)
    put_checked name info (not_exist e) = do
      key_data ← λ w. (or_wrap (about "encoding key" name) (fs.marshal info), w)
      wrapping (about "writing key" name) (fs.write_file (key_path name) key_data 384)

    unfoldable pub put : String → KeyInfo → Action W (Unit {0})
    unfolding put_checked key_path
    put name info w = put_checked name info (fs.stat (key_path name) w) w

    delete_checked : String → Stat → Action W (Unit {0})
    unfolding key_path
    delete_checked name (present mode) =
        wrapping (about "deleting key" name) (fs.remove (key_path name))
    delete_checked name (stat_error e) = fail (wrap (about "checking key before delete" name) e)
    delete_checked name (not_exist e) =
        fail (wrap (about "checking key before delete" name) (message key_info_not_found))

    unfoldable pub delete : String → Action W (Unit {0})
    unfolding delete_checked key_path
    delete name w = delete_checked name (fs.stat (key_path name) w) w
