-- ===== src/Connection.antt =====
-- filclient.go: reaching a storage provider (`ConnectToMiner`, `minerAddrInfo`, streams).
pub mod Codes
mod Tests
use filclient.Base.{
  String, str_append, str_eq, Bool, Option, none, some, List, [], ◌∷◌, if◌then◌else◌,
}
use filclient.Errors.{
  GoError, message, wrap, Result, ok, err, new_err_lotus_error, new_err_miner_connection_failed,
  or_convert,
}
use filclient.Errors.Action.{Action, return, fail, ◌>>=◌, wrapping, converting, collect}

-- `peer.AddrInfo`.
pub record AddrInfo : Type 0 where
  pub id : String
  pub addrs : List String

-- The part of `api.MinerInfo` that is read.
pub record MinerInfo : Type 0 where
  pub peer_id : Option String
  pub multiaddrs : List String
  pub owner : String

-- The gateway API and the libp2p host: they may answer otherwise each time, so they act on a world.
pub record Network (W : Type 0) : Type 0 where
  pub state_miner_info : String → Action W MinerInfo
  pub new_multiaddr_bytes : String → Result String
  pub connect : AddrInfo → Action W (Unit {0})
  pub new_stream : String → List String → Action W String
  pub first_supported_protocol : String → List String → Action W String
  pub peerstore_get : String → Action W String

abbrev pub deal_protocol_v110 : String
deal_protocol_v110 = "/fil/storage/mk/1.1.0"

abbrev pub deal_protocol_v120 : String
deal_protocol_v120 = "/fil/storage/mk/1.2.0"

invalid_multiaddr : String → GoError → GoError
unfolding new_err_miner_connection_failed
invalid_multiaddr maddr e =
    new_err_miner_connection_failed
      (wrap (str_append "miner " (str_append maddr " had invalid multiaddrs in their info")) e)

require_peer_id : String → Option String → Result String
unfolding new_err_miner_connection_failed
require_peer_id maddr none = err (
    new_err_miner_connection_failed
      (message (str_append "miner " (str_append maddr " has no peer ID set"))))
require_peer_id maddr (some id) = ok id

require_addrs : String → String → List String → Result AddrInfo
unfolding new_err_miner_connection_failed
require_addrs maddr id [] = err (
    new_err_miner_connection_failed
      (message (str_append "miner " (str_append maddr " has no multiaddrs set on chain"))))
require_addrs maddr id (ma ∷ mas) = ok (record { id = id; addrs = ma ∷ mas })

module _ {W : Type 0} (net : Network W) where
  -- The loop over `minfo.Multiaddrs`; the first invalid one stops it.
  parse_multiaddrs : String → List String → Result (List String)
  unfolding invalid_multiaddr
  parse_multiaddrs maddr [] = ok []
  parse_multiaddrs maddr (mma ∷ rest) =
      collect (or_convert (invalid_multiaddr maddr) (net.new_multiaddr_bytes mma))
        (parse_multiaddrs maddr rest)

  -- What follows the gateway's answer.
  connect_with_info : String → MinerInfo → Action W AddrInfo
  unfolding parse_multiaddrs require_peer_id require_addrs new_err_miner_connection_failed
  connect_with_info maddr minfo = do
    id ← λ w. (require_peer_id maddr minfo.peer_id, w)
    maddrs ← λ w. (parse_multiaddrs maddr minfo.multiaddrs, w)
    info ← λ w. (require_addrs maddr id maddrs, w)
    done ← converting new_err_miner_connection_failed (net.connect info)
    return info

  miner_addr_info : String → Action W AddrInfo
  unfolding connect_with_info new_err_lotus_error
  miner_addr_info maddr = do
    minfo ← converting new_err_lotus_error (net.state_miner_info maddr)
    connect_with_info maddr minfo

  unfoldable pub connect_to_miner : String → Action W String
  unfolding miner_addr_info
  connect_to_miner maddr = do
    addr_info ← miner_addr_info maddr
    done ← converting new_err_miner_connection_failed (net.connect addr_info)
    return addr_info.id

  unfoldable pub deal_protocol_for_miner : String → Action W String
  unfolding connect_to_miner
  deal_protocol_for_miner miner = do
    mpid ← wrapping (str_append "connecting to " miner) (connect_to_miner miner)
    proto ←
        wrapping (str_append "getting deal protocol for " miner)
          (net.first_supported_protocol mpid (deal_protocol_v120 ∷ deal_protocol_v110 ∷ []))
    if str_eq proto ""
        then fail (message (str_append miner " does not support any deal making protocol"))
        else return proto

  unfoldable pub stream_to_miner : String → List String → Action W String
  unfolding connect_to_miner
  stream_to_miner maddr protocol = do
    mpid ← connect_to_miner maddr
    wrapping "failed to open stream to peer" (net.new_stream mpid protocol)

  unfoldable pub connect_to_peer : AddrInfo → Action W (Unit {0})
  unfolding new_err_miner_connection_failed
  connect_to_peer addr = converting new_err_miner_connection_failed (net.connect addr)

  unfoldable pub open_stream_to_peer : AddrInfo → String → Action W String
  unfolding connect_to_peer
  open_stream_to_peer addr protocol = do
    done ← connect_to_peer addr
    wrapping "failed to open stream to peer" (net.new_stream addr.id (protocol ∷ []))

  -- A peer whose agent version is not known has the version "".
  agent_version : String → Action W String
  agent_version pid w = elim (net.peerstore_get pid w).0 [
    | ok agent ↦ (ok agent, (net.peerstore_get pid w).1)
    | err e ↦ (ok "", (net.peerstore_get pid w).1)
  ]

  unfoldable pub get_miner_version : String → Action W String
  unfolding connect_to_miner agent_version
  get_miner_version maddr = do pid ← connect_to_miner maddr; agent_version pid

  -- The same without connecting, and with plain errors.
  abbrev plain_invalid : String → GoError → GoError
  plain_invalid miner e =
      wrap (str_append "miner " (str_append miner " had invalid multiaddrs in their info")) e

  abbrev plain_peer_id : String → Option String → Result String
  plain_peer_id miner none =
      err (message (str_append "miner " (str_append miner " has no peer ID set")))
  plain_peer_id miner (some id) = ok id

  parse_peer_addrs : String → List String → Result (List String)
  parse_peer_addrs miner [] = ok []
  parse_peer_addrs miner (mma ∷ rest) =
      collect (or_convert (plain_invalid miner) (net.new_multiaddr_bytes mma))
        (parse_peer_addrs miner rest)

  unfoldable pub miner_peer : String → Action W AddrInfo
  unfolding parse_peer_addrs
  miner_peer miner = do
    minfo ← net.state_miner_info miner
    id ← λ w. (plain_peer_id miner minfo.peer_id, w)
    maddrs ← λ w. (parse_peer_addrs miner minfo.multiaddrs, w)
    return (record { id = id; addrs = maddrs })

  abbrev owner_of : MinerInfo → Result String
  owner_of minfo = elim minfo.peer_id [
    | none ↦ err (message "miner has no peer id")
    | some id ↦ ok minfo.owner
  ]

  unfoldable pub miner_owner : String → Action W String
  miner_owner miner = do minfo ← net.state_miner_info miner; λ w. (owner_of minfo, w)
