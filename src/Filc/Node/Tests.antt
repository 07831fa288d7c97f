-- ===== src/Filc/Node/Tests.antt =====
-- A node whose client is built, and one whose client is not.
use filclient.Base.{String, ◌≡◌, refl, []}
use filclient.Errors.{message, ok, err}
use filclient.Errors.Action.{Action, return, ◌>>=◌}
use filclient.Client.Construction.{new_client}
use filclient.Client.Tests.{kinds, World, packages, start_memory}
use filclient.Keystore.{Fs}
use filclient.Filc.Disk.{Disk, Wallets, Libraries, setup}
use filclient.Filc.Node.{NodeOf, client_from_node, get_client}

abbrev node : NodeOf kinds String String
node = record {
  host = "host";
  blockstore = "blocks";
  dht = "dht";
  datastore = "data";
  bitswap = "bitswap";
  wallet = "wallet";
}

-- The gateway, with what closes the connection to it.
abbrev gateway : Action World (String × String)
gateway w = (ok ("api", "closer"), w)

client_from_node_lem :
    client_from_node packages gateway (λ wallet w. (ok "t01", w)) node "/tmp" start_memory ≡ (
      (do
        fc ← new_client packages "host" "api" "wallet" "t01" "blocks" "data" "/tmp" []
        return (fc, "closer"))
        start_memory)
unfolding client_from_node new_client
client_from_node_lem = refl

-- Without an address no client is built; the gateway's connection is not closed.
no_address_lem :
    client_from_node packages gateway
      (λ wallet w. (err (message "no default"), w))
      node
      "/tmp"
      start_memory
    ≡ (err (message "no default"), start_memory)
unfolding client_from_node
no_address_lem = refl

-- The client is built on the node that is set up.
module _ {Key Proposal KeyInfo : Type 0} (disk : Disk World Key Proposal) (fs : Fs World KeyInfo)
    (wallets : Wallets World String)
    (libs : Libraries World Key String String String String String) where
  get_client_lem :
      (w : World)
      → setup disk fs wallets libs "/tmp" start_memory.world ≡ (ok node, w)
      → get_client packages gateway
          (λ wallet v. (ok "t01", v))
          disk
          fs
          wallets
          libs
          "/tmp"
          start_memory
        ≡ client_from_node packages gateway
            (λ wallet v. (ok "t01", v))
            node
            "/tmp"
            (record start_memory { world = w })
  unfolding get_client
  get_client_lem w h = rw h refl
