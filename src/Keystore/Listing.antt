-- ===== src/Keystore/Listing.antt =====
-- keystore/keystore.go: what a listing that succeeds says of the directory.
use filclient.Base.{ℕ, String, true, ◌≡◌, refl, ap, List, [], ◌∷◌, map, All, Bool-cases, inl, inr}
use filclient.Errors.{Result, ok, err}
use filclient.Errors.Results.{ok-injective, err-ne-ok, if_true_lem, if_false_lem}
use filclient.Keystore.{Fs, is_private, listed, list_files, read_listing, open_listing, list}

module _ {W KeyInfo : Type 0} (fs : Fs W KeyInfo) where
  listed-ok :
      (name : String) (mode : ℕ) (r : Result String) (rest : Result (List String))
      (keys : List String)
      → listed fs name mode r rest ≡ ok keys
      → (key : String) × ((more : List String) × ((r ≡ ok key)
            × ((rest ≡ ok more) × (key ∷ more ≡ keys))))
  unfolding listed
  listed-ok name mode (ok key) (ok more) keys h = (key, (more, (refl, (refl, ok-injective _ _ h))))
  listed-ok name mode (ok key) (err e) keys h = absurd (cc)
  listed-ok name mode (err e) rest keys h = absurd (cc)

  -- The files of a listing that succeeds.
  list_files-ok :
      (files : List (String × ℕ)) (keys : List String)
      → list_files fs files ≡ ok keys
      → All (λ f. is_private f.1 ≡ true) files × (map (λ f. fs.decode f.0) files ≡ map ok keys)
  unfolding list_files
  list_files-ok [] keys h = (tt, ap (map ok) (ok-injective _ _ h))
  list_files-ok ((name, mode) ∷ files) keys h = elim (Bool-cases (is_private mode)) [
    | inr q ↦ absurd (err-ne-ok _ _ (if_false_lem _ _ _ _ q h))
    | inl q ↦
        let (key, (more, (d, (r, e)))) = listed-ok name mode _ _ keys (if_true_lem _ _ _ _ q h) in
        let (low, names) = list_files-ok files more r in ((q, low), rw (d, names) (ap (map ok) e))
  ]

  read_listing-ok :
      (r : Result (List (String × ℕ))) (keys : List String)
      → read_listing fs r ≡ ok keys
      → (files : List (String × ℕ)) × ((r ≡ ok files)
          × (All (λ f. is_private f.1 ≡ true) files
              × (map (λ f. fs.decode f.0) files ≡ map ok keys)))
  unfolding read_listing
  read_listing-ok (ok files) keys h = (files, (refl, list_files-ok files keys h))
  read_listing-ok (err e) keys h = absurd (err-ne-ok _ _ h)

  open_listing-ok :
      (path : String) (w : W) (r : Result (Unit {0})) (keys : List String)
      → open_listing fs path w r ≡ ok keys
      → read_listing fs (fs.readdir path w) ≡ ok keys
  unfolding open_listing
  open_listing-ok path w (ok _) keys h = h
  open_listing-ok path w (err e) keys h = absurd (err-ne-ok _ _ h)

-- When a listing succeeds, the directory was read, none of its files can be accessed by others
-- than the owner, and the keys are the decoded names of all its files, in the directory's order.
pub list-private :
    {W KeyInfo : Type 0} (fs : Fs W KeyInfo) (path : String) (w : W) (keys : List String)
    → list fs path w ≡ ok keys
    → (files : List (String × ℕ)) × ((fs.readdir path w ≡ ok files)
        × (All (λ f. is_private f.1 ≡ true) files × (map (λ f. fs.decode f.0) files ≡ map ok keys)))
unfolding list
list-private fs path w keys h = read_listing-ok fs _ keys (open_listing-ok fs path w _ keys h)
