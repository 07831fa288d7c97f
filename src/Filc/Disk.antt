-- ===== src/Filc/Disk.antt =====
-- filc/disk.go: what the command line tool keeps in its directory, and how it sets up its node.
pub mod Stored
use filclient.Base.{
  ℕ, String, str_append, str_eq, Bool, true, false, Option, none, some, List, [], ◌∷◌,
  if◌then◌else◌,
}
use filclient.Errors.{GoError, message, wrap, error_text, Result, ok, err}
use filclient.Errors.Action.{Action, return, fail, ◌>>=◌}
use filclient.Keystore.{Fs, open_or_init_keystore}

-- The result of `ioutil.ReadFile`: the file's text, an error of which `os.IsNotExist` is true, or
-- another.
pub data Read : Type 0 where
  text : String → Read
  no_file : GoError → Read
  read_error : GoError → Read

-- What is used of the packages os, filepath, json, crypto and cid.
pub record Disk (W Key Proposal : Type 0) : Type 0 where
  pub join : String → String → String
  pub mkdir_all : String → ℕ → Action W (Unit {0})
  pub create : String → Action W (Unit {0})
  pub write : String → String → Action W (Unit {0})
  pub read_dir : String → W → Result (List String)
  pub read_file : String → W → Read
  pub write_file : String → String → ℕ → Action W (Unit {0})
  pub encode_proposal : Proposal → Result String
  pub decode_cid : String → Result String
  pub generate_key : Action W Key
  pub marshal_key : Key → Result String
  pub unmarshal_key : String → Result Key

module _ {W Key Proposal : Type 0} (disk : Disk W Key Proposal) where
  abbrev pub deals_path : String → String
  deals_path base_dir = disk.join base_dir "deals"

  abbrev pub key_path : String → String
  key_path base_dir = disk.join base_dir "libp2p.key"

  abbrev pub blockstore_path : String → String
  blockstore_path base_dir = disk.join base_dir "blockstore"

  abbrev pub datastore_path : String → String
  datastore_path base_dir = disk.join base_dir "datastore"

  abbrev pub wallet_path : String → String
  wallet_path base_dir = disk.join base_dir "wallet"

  -- A proposal is kept in a file with the name of its cid.
  unfoldable pub save_deal_proposal : String → String → Proposal → Action W (Unit {0})
  save_deal_proposal data_dir propcid proposal = do
    made ← disk.mkdir_all (deals_path data_dir) 493
    created ← disk.create (disk.join (deals_path data_dir) propcid)
    encoded ← λ w. (disk.encode_proposal proposal, w)
    disk.write (disk.join (deals_path data_dir) propcid) encoded

  keep_decoded : Result String → List String → List String
  keep_decoded (ok c) out = c ∷ out
  keep_decoded (err e) out = out

  decoded_names : List String → List String
  unfolding keep_decoded
  decoded_names [] = []
  decoded_names (name ∷ rest) = keep_decoded (disk.decode_cid name) (decoded_names rest)

  deals_of : Result (List String) → Result (List String)
  unfolding decoded_names
  deals_of (ok names) = ok (decoded_names names)
  deals_of (err e) = err e

  unfoldable pub list_deals : String → W → Result (List String)
  unfolding deals_of
  list_deals data_dir w = deals_of (disk.read_dir (deals_path data_dir) w)

  -- A new key is written before it is returned. 384 is 0600.
  new_peer_key : String → Action W Key
  new_peer_key kf = do
    k ← disk.generate_key
    data' ← λ w. (disk.marshal_key k, w)
    done ← disk.write_file kf data' 384
    return k

  read_peer_key : String → Read → Action W Key
  unfolding new_peer_key
  read_peer_key kf (text data') w = (disk.unmarshal_key data', w)
  read_peer_key kf (no_file e) w = new_peer_key kf w
  read_peer_key kf (read_error e) w = (err e, w)

  unfoldable pub load_or_init_peer_key : String → Action W Key
  unfolding read_peer_key
  load_or_init_peer_key kf w = read_peer_key kf (disk.read_file kf w) w

-- The wallet of lotus, on a key store.
pub record Wallets (W Wallet : Type 0) : Type 0 where
  pub new_wallet : String → Action W Wallet
  pub wallet_list : Wallet → Action W (List String)
  pub wallet_new : Wallet → String → Action W String

module _ {W KeyInfo Wallet : Type 0} (fs : Fs W KeyInfo) (wallets : Wallets W Wallet) where
  first_address : Wallet → List String → Action W Wallet
  first_address wallet [] = do addr ← wallets.wallet_new wallet "bls"; return wallet
  first_address wallet (a ∷ as') = return wallet

  unfoldable pub setup_wallet : String → Action W Wallet
  unfolding first_address open_or_init_keystore
  setup_wallet dir = do
    kstore ← open_or_init_keystore fs dir
    wallet ← wallets.new_wallet kstore
    addrs ← wallets.wallet_list wallet
    first_address wallet addrs

-- The parts of a node, and the libraries that make them.
pub record Node (Host Blockstore Datastore Dht Bitswap Wallet : Type 0) : Type 0 where
  pub host : Host
  pub blockstore : Blockstore
  pub dht : Dht
  pub datastore : Datastore
  pub bitswap : Bitswap
  pub wallet : Wallet

pub record Libraries (W Key Host Blockstore Datastore Dht Bitswap : Type 0) : Type 0 where
  pub new_host : Key → Action W Host
  pub create_or_open_flatfs : String → Action W Blockstore
  pub new_datastore : String → Action W Datastore
  pub new_dht : Host → Datastore → Action W Dht
  pub new_bitswap : Host → Dht → Blockstore → W → Bitswap × W

module _ {W Key Proposal KeyInfo Host Blockstore Datastore Dht Bitswap Wallet : Type 0}
    (disk : Disk W Key Proposal) (fs : Fs W KeyInfo) (wallets : Wallets W Wallet)
    (libs : Libraries W Key Host Blockstore Datastore Dht Bitswap) where
  blockstore_failed : GoError → GoError
  blockstore_failed e = message (
      str_append
        "blockstore could not be opened (it may be incompatible after an update - try running clear-blockstore subcommand to delete the blockstore and try again): "
        (error_text e))

  open_blockstore : Result Blockstore × W → Result Blockstore × W
  unfolding blockstore_failed
  open_blockstore (ok bstore, w) = (ok bstore, w)
  open_blockstore (err e, w) = (err (blockstore_failed e), w)

  with_bitswap :
      Host
      → Blockstore
      → Datastore
      → Dht
      → Wallet
      → Bitswap
      → Node Host Blockstore Datastore Dht Bitswap Wallet
  with_bitswap h bstore ds dht wallet bswap = record {
    host = h;
    blockstore = bstore;
    dht = dht;
    datastore = ds;
    bitswap = bswap;
    wallet = wallet;
  }

  unfoldable pub setup : String → Action W (Node Host Blockstore Datastore Dht Bitswap Wallet)
  unfolding load_or_init_peer_key setup_wallet open_blockstore with_bitswap
  setup cfgdir = do
    peerkey ← load_or_init_peer_key disk (key_path disk cfgdir)
    h ← libs.new_host peerkey
    bstore ← λ w. open_blockstore (libs.create_or_open_flatfs (blockstore_path disk cfgdir) w)
    ds ← libs.new_datastore (datastore_path disk cfgdir)
    dht ← libs.new_dht h ds
    bswap ← λ w. let (b, w') = libs.new_bitswap h dht bstore w in (ok b, w')
    wallet ← setup_wallet fs wallets (wallet_path disk cfgdir)
    return (with_bitswap h bstore ds dht wallet bswap)
