-- ===== src/Keystore/Laws.antt =====
-- keystore/keystore.go: the key store as a map from names to keys.
use filclient.Base.{ℕ, String, ◌≡◌, ◌≢◌, refl, ap, subst, ◌∙◌, ◌%◌, if◌then◌else◌}
use filclient.Errors.{GoError, message, wrap, Result, ok, err, or_wrap}
use filclient.Errors.Results.{or_wrap-ok}
use filclient.Errors.Action.{after}
use filclient.Keystore.{
  Stat, present, not_exist, stat_error, Fs, key_info_not_found, key_exists, is_private, about,
  key_path, decode_key, read_key, get_found, get, put_checked, put, delete_checked, delete,
}

module _ {W KeyInfo : Type 0} (fs : Fs W KeyInfo) (path : String) where
  -- A file is seen in the same way in two worlds.
  pub record SameFile (p : String) (w w' : W) : Type 0 where
    pub same_stat : fs.stat p w ≡ fs.stat p w'
    pub same_open : fs.open_file p w ≡ fs.open_file p w'
    pub same_read : fs.read_all p w ≡ fs.read_all p w'

  -- What the operating system does in the world `w`, whose directory holds files and no links, for a
  -- process that may read the files it makes: a file that was missing is made with the mode that was
  -- asked for, less the bits that the process masks; a file that is removed is missing; both leave the
  -- files of the other names as they are.
  pub record FsLaws (w : W) : Type 0 where
    pub written :
        (name text : String) (e : GoError)
        → let p = key_path fs path name in
          let w' = (fs.write_file p text 384 w).1 in
          fs.stat p w ≡ not_exist e
          → (fs.write_file p text 384 w).0 ≡ ok tt
          → ((mode : ℕ) × ((fs.stat p w' ≡ present mode) × (mode % 64 ≡ 0)))
            × ((fs.open_file p w' ≡ ok tt) × (fs.read_all p w' ≡ ok text))
    pub removed :
        (name : String)
        → let p = key_path fs path name in
          (fs.remove p w).0 ≡ ok tt → (e : GoError) × (fs.stat p (fs.remove p w).1 ≡ not_exist e)
    pub write_others :
        (name other text : String) (e : GoError)
        → let p = key_path fs path name in
          fs.stat p w ≡ not_exist e
          → other ≢ name
          → SameFile (key_path fs path other) (fs.write_file p text 384 w).1 w
    pub remove_others :
        (name other : String)
        → other ≢ name
        → SameFile (key_path fs path other) (fs.remove (key_path fs path name) w).1 w

  read_key-SameFile :
      (name : String) (w w' : W) (r : Result (Unit {0}))
      → fs.read_all (key_path fs path name) w ≡ fs.read_all (key_path fs path name) w'
      → read_key fs path name w r ≡ read_key fs path name w' r
  unfolding read_key
  read_key-SameFile name w w' (ok _) h = ap (decode_key fs path name) h
  read_key-SameFile name w w' (err e) h = refl

  get_found-SameFile :
      (name : String) (w w' : W) (st : Stat)
      → SameFile (key_path fs path name) w w'
      → get_found fs path name w st ≡ get_found fs path name w' st
  unfolding get_found
  get_found-SameFile name w w' (not_exist e) h = refl
  get_found-SameFile name w w' (stat_error e) h = refl
  get_found-SameFile name w w' (present mode) h =
      ap (λ r. if is_private mode then r else err (message (fs.permission_text name mode)))
        (ap (read_key fs path name w) h.same_open ∙ read_key-SameFile name w w' _ h.same_read)

  get-SameFile :
      (name : String) (w w' : W)
      → SameFile (key_path fs path name) w w'
      → get fs path name w ≡ get fs path name w'
  unfolding get
  get-SameFile name w w' h =
      ap (get_found fs path name w) h.same_stat
      ∙ get_found-SameFile name w w' (fs.stat (key_path fs path name) w') h

  -- What a put that succeeds has done: the file was missing, and has been written.
  abbrev IsWritten : String → String → W → Result (Unit {0}) × W → Type 0
  IsWritten name text w (res, w') =
      ((fs.write_file (key_path fs path name) text 384 w).0 ≡ ok tt)
      × (w' ≡ (fs.write_file (key_path fs path name) text 384 w).1)

  put_checked-ok :
      (name text : String) (info : KeyInfo) (st : Stat) (w : W)
      → fs.marshal info ≡ ok text
      → (put_checked fs path name info st w).0 ≡ ok tt
      → ((e : GoError) × (st ≡ not_exist e))
        × IsWritten name text w (put_checked fs path name info st w)
  unfolding put_checked
  put_checked-ok name text info (present mode) w q h = absurd (cc)
  put_checked-ok name text info (stat_error e) w q h = absurd (cc)
  put_checked-ok name text info (not_exist e) w q h = (
    (e, refl),
    (
      or_wrap-ok _ _ tt (
          subst
            (λ r.
              (after (or_wrap (about "encoding key" name) r) w (λ d. λ v. (
                or_wrap (about "writing key" name)
                    (fs.write_file (key_path fs path name) d 384 v).0,
                (fs.write_file (key_path fs path name) d 384 v).1,
              ))).0
              ≡ ok tt)
            q h),
      rw q refl,
    ),
  )

  put-ok :
      (name text : String) (info : KeyInfo) (w : W)
      → fs.marshal info ≡ ok text
      → (put fs path name info w).0 ≡ ok tt
      → ((e : GoError) × (fs.stat (key_path fs path name) w ≡ not_exist e))
        × IsWritten name text w (put fs path name info w)
  unfolding put
  put-ok name text info w q h = put_checked-ok name text info _ w q h

  get-written :
      (name text : String) (info : KeyInfo) (mode : ℕ) (w : W)
      → fs.unmarshal text ≡ ok info
      → fs.stat (key_path fs path name) w ≡ present mode
      → mode % 64 ≡ 0
      → fs.open_file (key_path fs path name) w ≡ ok tt
      → fs.read_all (key_path fs path name) w ≡ ok text
      → get fs path name w ≡ ok info
  unfolding get get_found read_key decode_key
  get-written name text info mode w u st low op rd = rw (st, low, op, rd, u) refl

  put-existing :
      (name : String) (info : KeyInfo) (mode : ℕ) (w : W)
      → fs.stat (key_path fs path name) w ≡ present mode
      → put fs path name info w
        ≡ (err (wrap (about "checking key before put" name) (message key_exists)), w)
  unfolding put put_checked
  put-existing name info mode w st = rw st refl

  delete_checked-ok :
      (name : String) (st : Stat) (w : W)
      → (delete_checked fs path name st w).0 ≡ ok tt
      → ((fs.remove (key_path fs path name) w).0 ≡ ok tt)
        × ((delete_checked fs path name st w).1 ≡ (fs.remove (key_path fs path name) w).1)
  unfolding delete_checked
  delete_checked-ok name (present mode) w h = (or_wrap-ok _ _ tt h, refl)
  delete_checked-ok name (stat_error e) w h = absurd (cc)
  delete_checked-ok name (not_exist e) w h = absurd (cc)

  delete-ok :
      (name : String) (w : W)
      → (delete fs path name w).0 ≡ ok tt
      → ((fs.remove (key_path fs path name) w).0 ≡ ok tt)
        × ((delete fs path name w).1 ≡ (fs.remove (key_path fs path name) w).1)
  unfolding delete
  delete-ok name w h = delete_checked-ok name (fs.stat (key_path fs path name) w) w h

  get-missing :
      (name : String) (e : GoError) (w : W)
      → fs.stat (key_path fs path name) w ≡ not_exist e
      → get fs path name w ≡ err (wrap (about "opening key" name) (message key_info_not_found))
  unfolding get get_found
  get-missing name e w st = rw st refl

  private_file :
      (name text : String) (info : KeyInfo) (w : W) (e : GoError)
      → FsLaws w
      → fs.stat (key_path fs path name) w ≡ not_exist e
      → fs.unmarshal text ≡ ok info
      → (fs.write_file (key_path fs path name) text 384 w).0 ≡ ok tt
      → let w' = (fs.write_file (key_path fs path name) text 384 w).1 in
        (get fs path name w' ≡ ok info)
        × (((other : String) → other ≢ name → get fs path other w' ≡ get fs path other w)
            × ((again : KeyInfo)
                → put fs path name again w'
                  ≡ (err (wrap (about "checking key before put" name) (message key_exists)), w')))
  private_file name text info w e laws missing u done =
      let ((mode, (st, low)), (op, rd)) = laws.written name text e missing done in
      (
        get-written name text info mode _ u st low op rd,
        (
          (λ other ne. get-SameFile other _ w (laws.write_others name other text e missing ne)),
          (λ again. put-existing name again mode _ st),
        ),
      )

-- After a key is put, if its encoding can be read back: get returns it, all other names give what
-- they gave before, and a second put under the name is refused and changes nothing.
pub put-get :
    {W KeyInfo : Type 0} (fs : Fs W KeyInfo) (path name text : String) (info : KeyInfo) (w : W)
    → FsLaws fs path w
    → fs.marshal info ≡ ok text
    → fs.unmarshal text ≡ ok info
    → (put fs path name info w).0 ≡ ok tt
    → let w' = (put fs path name info w).1 in
      (get fs path name w' ≡ ok info)
      × (((other : String) → other ≢ name → get fs path other w' ≡ get fs path other w)
          × ((again : KeyInfo)
              → put fs path name again w'
                ≡ (err (wrap (about "checking key before put" name) (message key_exists)), w')))
put-get fs path name text info w laws m u h =
    let ((e, missing), (done, world)) = put-ok fs path name text info w m h in
    rw world (private_file fs path name text info w e laws missing u done)

-- After a key is deleted, get reports under its name that there is no such key, and all other
-- names give what they gave before.
pub delete-get :
    {W KeyInfo : Type 0} (fs : Fs W KeyInfo) (path name : String) (w : W)
    → FsLaws fs path w
    → (delete fs path name w).0 ≡ ok tt
    → let w' = (delete fs path name w).1 in
      (get fs path name w' ≡ err (wrap (about "opening key" name) (message key_info_not_found)))
      × ((other : String) → other ≢ name → get fs path other w' ≡ get fs path other w)
delete-get fs path name w laws h =
    let (done, world) = delete-ok fs path name w h in
    let (e, st) = laws.removed name done in
    rw world (
      get-missing fs path name e _ st,
      (λ other ne. get-SameFile fs path other _ w (laws.remove_others name other ne)),
    )
