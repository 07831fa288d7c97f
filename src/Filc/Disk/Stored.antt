-- ===== src/Filc/Disk/Stored.antt =====
-- filc/disk.go: the peer key that is kept on disk.
use filclient.Base.{String, ℕ, ◌≡◌, refl}
use filclient.Errors.{Result, ok, err}
use filclient.Errors.Action.{after, return}
use filclient.Filc.Disk.{
  Disk, Read, text, no_file, read_error, new_peer_key, read_peer_key, load_or_init_peer_key,
}

-- A key is read back from its encoding, and a file that is written has the text.
pub record KeyLaws {W Key Proposal : Type 0} (disk : Disk W Key Proposal) : Type 0 where
  pub unmarshal-marshal :
      (k : Key) (s : String) → disk.marshal_key k ≡ ok s → disk.unmarshal_key s ≡ ok k
  pub read-write :
      (f s : String) (mode : ℕ) (w w' : W)
      → disk.write_file f s mode w ≡ (ok tt, w')
      → disk.read_file f w' ≡ text s

module _ {W Key Proposal : Type 0} (disk : Disk W Key Proposal) (laws : KeyLaws disk)
    (kf : String) where
  -- What a call leaves behind, when it returns a key.
  abbrev pub Keeps : Result Key × W → Type 0
  Keeps (ok k, w) = load_or_init_peer_key disk kf w ≡ (ok k, w)
  Keeps (err e, w) = Unit

  written-Keeps :
      (k : Key) (s : String) (done : Result (Unit {0})) (w w' : W)
      → disk.marshal_key k ≡ ok s
      → disk.write_file kf s 384 w ≡ (done, w')
      → Keeps (after done w' (λ u. return k))
  unfolding load_or_init_peer_key read_peer_key
  written-Keeps k s (ok u) w w' m h =
      rw (laws.read-write kf s 384 w w' h, laws.unmarshal-marshal k s m) refl
  written-Keeps k s (err e) w w' m h = tt

  marshalled-Keeps :
      (k : Key) (made : Result String) (w : W)
      → disk.marshal_key k ≡ made
      → Keeps (
          after made w (λ s w'.
            after (disk.write_file kf s 384 w').0 (disk.write_file kf s 384 w').1 (λ u. return k)))
  marshalled-Keeps k (ok s) w m = written-Keeps k s _ w _ m refl
  marshalled-Keeps k (err e) w m = tt

  generated-Keeps :
      (made : Result Key) (w : W)
      → Keeps (
          after made w (λ k w'. after (disk.marshal_key k) w' (λ s w''.
            after
              (disk.write_file kf s 384 w'').0
              (disk.write_file kf s 384 w'').1
              (λ u. return k))))
  generated-Keeps (ok k) w = marshalled-Keeps k _ w refl
  generated-Keeps (err e) w = tt

  new_peer_key-Keeps : (w : W) → Keeps (new_peer_key disk kf w)
  unfolding new_peer_key
  new_peer_key-Keeps w = generated-Keeps _ _

  unmarshalled-Keeps :
      (s : String) (key : Result Key) (w : W)
      → disk.read_file kf w ≡ text s
      → disk.unmarshal_key s ≡ key
      → Keeps (key, w)
  unfolding load_or_init_peer_key read_peer_key
  unmarshalled-Keeps s (ok k) w r h = rw (r, h) refl
  unmarshalled-Keeps s (err e) w r h = tt

  read_peer_key-Keeps :
      (read : Read) (w : W) → disk.read_file kf w ≡ read → Keeps (read_peer_key disk kf read w)
  unfolding read_peer_key
  read_peer_key-Keeps (text s) w h = unmarshalled-Keeps s _ w h refl
  read_peer_key-Keeps (no_file e) w h = new_peer_key-Keeps w
  read_peer_key-Keeps (read_error e) w h = tt

  -- When a key's encoding is read back as the key and a written file is read back: a peer key that is
  -- loaded, or made because there was none, is the one that is loaded the next time, which changes
  -- nothing.
  pub load_or_init_peer_key-Keeps : (w : W) → Keeps (load_or_init_peer_key disk kf w)
  unfolding load_or_init_peer_key
  load_or_init_peer_key-Keeps w = read_peer_key-Keeps (disk.read_file kf w) w refl
