-- ===== src/Connection/Codes.antt =====
-- Which error code a failed connection to a storage provider carries.
use filclient.Base.{String, ◌≡◌, refl, Option, some, none, List, [], ◌∷◌}
use filclient.Errors.{
  GoError, Result, new_err_lotus_error, ok, err, code_of, err_lotus_error,
  err_miner_connection_failed,
}
use filclient.Errors.{new_err_miner_connection_failed}
use filclient.Errors.Action.{
  converting, Fails, Fails-err, Fails-collect, Fails-or_convert, Fails-mono, Fails-after,
  Fails-converted, converted-ok,
}
use filclient.Connection.{
  Network, MinerInfo, AddrInfo, invalid_multiaddr, require_peer_id, require_addrs, parse_multiaddrs,
  connect_with_info, miner_addr_info, connect_to_miner,
}

-- The error of a failed connection, given the gateway's answer.
abbrev pub IsCoded : Result MinerInfo → GoError → Type 0
IsCoded (ok minfo) e = code_of e ≡ some err_miner_connection_failed
IsCoded (err e') e = code_of e ≡ some err_lotus_error

abbrev IsConnectionError : GoError → Type 0
IsConnectionError e = code_of e ≡ some err_miner_connection_failed

IsConnectionError-IsCoded :
    (r : Result MinerInfo) (minfo : MinerInfo) (e : GoError)
    → r ≡ ok minfo
    → IsConnectionError e
    → IsCoded r e
IsConnectionError-IsCoded r minfo e q h = rw q h

new_err_code : (e : GoError) → IsConnectionError (new_err_miner_connection_failed e)
unfolding new_err_miner_connection_failed
new_err_code e = refl

require_peer_id_code :
    (maddr : String) (id : Option String) → Fails IsConnectionError (require_peer_id maddr id)
unfolding require_peer_id
require_peer_id_code maddr none = refl
require_peer_id_code maddr (some id) = tt

require_addrs_code :
    (maddr id : String) (mas : List String) → Fails IsConnectionError (require_addrs maddr id mas)
unfolding require_addrs
require_addrs_code maddr id [] = refl
require_addrs_code maddr id (ma ∷ mas) = tt

module _ {W : Type 0} (net : Network W) where
  parse_multiaddrs_code :
      (maddr : String) (mas : List String)
      → Fails IsConnectionError (parse_multiaddrs net maddr mas)
  unfolding parse_multiaddrs
  parse_multiaddrs_code maddr [] = tt
  parse_multiaddrs_code maddr (ma ∷ mas) =
      Fails-collect IsConnectionError _ (parse_multiaddrs net maddr mas)
        (Fails-or_convert IsConnectionError (invalid_multiaddr maddr) (net.new_multiaddr_bytes ma)
          (λ e. unfold invalid_multiaddr in refl))
        (parse_multiaddrs_code maddr mas)

  connect_code :
      (info : AddrInfo) (w : W)
      → Fails IsConnectionError (converting new_err_miner_connection_failed (net.connect info) w).0
  connect_code info w = Fails-or_convert IsConnectionError _ (net.connect info w).0 new_err_code

  connect_with_info_code :
      (maddr : String) (minfo : MinerInfo) (w : W)
      → Fails IsConnectionError (connect_with_info net maddr minfo w).0
  unfolding connect_with_info
  connect_with_info_code maddr minfo w =
      Fails-after IsConnectionError _ w _ (require_peer_id_code maddr minfo.peer_id) λ id _.
        Fails-after IsConnectionError _ w _ (parse_multiaddrs_code maddr minfo.multiaddrs) λ mas _.
          Fails-after IsConnectionError _ w _ (require_addrs_code maddr id mas)
            λ info _. Fails-after IsConnectionError _ _ _ (connect_code info w) λ _ _. tt

  miner_addr_info_code :
      (maddr : String) (w : W)
      → Fails (IsCoded (net.state_miner_info maddr w).0) (miner_addr_info net maddr w).0
  unfolding miner_addr_info
  miner_addr_info_code maddr w =
      Fails-converted _ new_err_lotus_error r _ (connect_with_info net maddr) (λ e q. rw q refl)
        λ minfo q.
          Fails-mono IsConnectionError (IsCoded r) _
            (λ e h. IsConnectionError-IsCoded r minfo e q h) (connect_with_info_code maddr minfo _)
    where
      r : Result MinerInfo
      r = (net.state_miner_info maddr w).0

  connect_again_code :
      (maddr : String) (w w' : W) (info : AddrInfo)
      → (miner_addr_info net maddr w).0 ≡ ok info
      → Fails
          (IsCoded (net.state_miner_info maddr w).0)
          (converting new_err_miner_connection_failed (net.connect info) w').0
  unfolding miner_addr_info
  connect_again_code maddr w w' info q =
      let (minfo, p) =
        converted-ok new_err_lotus_error (net.state_miner_info maddr w).0 _ _ info q in
      rw p (connect_code info w')

  -- Every error of `ConnectToMiner` is an `Error` of this package: with the code of the Lotus API
  -- if the gateway gave no miner info, and else with the code of a failed connection.
  pub connect_to_miner_code :
      (maddr : String) (w : W) (e : GoError)
      → (connect_to_miner net maddr w).0 ≡ err e
      → IsCoded (net.state_miner_info maddr w).0 e
  unfolding connect_to_miner
  connect_to_miner_code maddr w e h =
      Fails-err (IsCoded r) (connect_to_miner net maddr w).0 e
        (Fails-after (IsCoded r) _ _ _ (miner_addr_info_code maddr w)
          λ info q. Fails-after (IsCoded r) _ _ _ (connect_again_code maddr w _ info q) λ _ _. tt)
        h
    where
      r : Result MinerInfo
      r = (net.state_miner_info maddr w).0
