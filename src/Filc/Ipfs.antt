-- ===== src/Filc/Ipfs.antt =====
-- filc/retrieval.go: the attempt to retrieve a file over IPFS.
use filclient.Base.{
  ℕ, ◌+◌, Bool, true, false, Option, none, some, List, [], ◌∷◌, u64, ◌==◌, if◌then◌else◌, String,
}
use filclient.Errors.{GoError, message, Result, ok, err}

-- What the goroutine of an IPFS retrieval receives: a provider with its addresses, the end of the
-- channel, or the end of the context.
pub data ProviderEvent : Type 0 where
  provider : List String → ProviderEvent
  no_more_providers : ProviderEvent
  cancelled : GoError → ProviderEvent

-- Whether a provider is ready, if it comes to that.
unfoldable pub await_ready : List ProviderEvent → Option (Result Bool)
await_ready [] = none
await_ready (provider [] ∷ rest) = await_ready rest
await_ready (provider (a ∷ as') ∷ rest) = some (ok true)
await_ready (no_more_providers ∷ rest) = some (ok false)
await_ready (cancelled e ∷ rest) = some (err e)

-- A node of the DAG: the number of its links, and its size if that can be told.
pub record DagNode : Type 0 where
  pub links : ℕ
  pub size : Option ℕ

-- Only leaves count.
abbrev pub leaf_size : DagNode → ℕ
leaf_size n = elim n.size [ none ↦ 0 | some s ↦ if n.links == 0 then s else 0 ]

unfoldable pub bytes_retrieved : ℕ → List DagNode → ℕ
bytes_retrieved bytes [] = bytes
bytes_retrieved bytes (n ∷ ns) = bytes_retrieved (u64 (bytes + leaf_size n)) ns

-- `IPFSRetrievalStats`.
pub record IpfsStats : Type 0 where
  pub byte_size : ℕ
  pub duration : ℕ

ipfs_stats : ℕ → List DagNode → Result (Unit {0}) → Result IpfsStats
unfolding bytes_retrieved
ipfs_stats duration visited (ok _) =
    ok (record { byte_size = bytes_retrieved 0 visited; duration = duration })
ipfs_stats duration visited (err e) = err e

ipfs_when : Option (Result Bool) → Result IpfsStats → Option (Result IpfsStats)
ipfs_when none stats = none
ipfs_when (some (err e)) stats = some (err e)
ipfs_when (some (ok false)) stats = some (err (message "couldn't find CID"))
ipfs_when (some (ok true)) stats = some stats

-- `IPFSRetrievalAttempt.Retrieve`: `visited` are the nodes that `merkledag.Walk` visits, in the order in
-- which they take the lock, and `walk` is its result.
unfoldable pub retrieve_ipfs :
    List ProviderEvent → List DagNode → Result (Unit {0}) → ℕ → Option (Result IpfsStats)
unfolding await_ready ipfs_stats ipfs_when
retrieve_ipfs events visited walk duration =
    ipfs_when (await_ready events) (ipfs_stats duration visited walk)
