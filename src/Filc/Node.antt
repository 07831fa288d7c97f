-- ===== src/Filc/Node.antt =====
-- filc/disk.go: `clientFromNode` and `getClient`, which build a client on the node.
mod Tests
use filclient.Base.{String, List, []}
use filclient.Errors.{Result, ok, err}
use filclient.Errors.Action.{Action, return, ◌>>=◌}
use filclient.Client.{Kinds, Memory, FilClient, Packages}
use filclient.Client.Construction.{outside, new_client}
use filclient.Keystore.{Fs}
use filclient.Filc.Disk.{Disk, Wallets, Node, Libraries, setup}

-- The node of the tool, with the parts that a client takes.
abbrev pub NodeOf : Kinds → Type 0 → Type 0 → Type 0
NodeOf k Dht Bitswap = Node (k.Host) (k.Blockstore) (k.Datastore) Dht Bitswap (k.Wallet)

module _ {W Dht Bitswap Closer : Type 0} {k : Kinds} (pk : Packages W k)
    (get_gateway_api : Action W (k.Api × Closer)) (get_default : k.Wallet → Action W String) where
  unfoldable pub client_from_node :
      NodeOf k Dht Bitswap → String → Action (Memory W) (FilClient W k × Closer)
  unfolding new_client
  client_from_node nd dir = do
    (api, closer) ← outside get_gateway_api
    addr ← outside (get_default nd.wallet)
    fc ← new_client pk nd.host api nd.wallet addr nd.blockstore nd.datastore dir []
    return (fc, closer)

  module _ {Key Proposal KeyInfo : Type 0} (disk : Disk W Key Proposal) (fs : Fs W KeyInfo)
      (wallets : Wallets W (k.Wallet))
      (libs : Libraries W Key (k.Host) (k.Blockstore) (k.Datastore) Dht Bitswap) where
    unfoldable pub get_client : String → Action (Memory W) (FilClient W k × Closer)
    unfolding client_from_node setup
    get_client dir = do nd ← outside (setup disk fs wallets libs dir); client_from_node nd dir
