-- ===== src/Lib.antt =====
-- filclient: a client of Filecoin storage providers. It makes storage deals and sends them, retrieves
-- data against payment, serves data to providers over libp2p, pushes messages to the chain and keeps
-- keys on disk. This library models these parts.
--
-- The program's parts, and the files that model them:
--   * errors.go, the coded errors: Errors.antt. A Go error is a leaf with its text, an error that wraps
--     another, or the struct `Error`. Errors/Action.antt has code that calls the outside as functions
--     of a world, chained by do blocks that stop at the first error.
--   * filclient.go, `ConnectToMiner`, `minerAddrInfo`, `streamToMiner`, `DealProtocolForMiner`,
--     `GetMinerVersion`: Connection.antt. The gateway and the libp2p host are the record `Network`.
--   * filclient.go, `NewClient`, `NewClientWithConfig` and the types of the configuration: Client.antt and
--     Client/Construction.antt. The libraries are the record `Packages` over the types `Kinds`; the
--     message pusher lies on a heap, since apiprov.go, in Client/Sharing.antt, shares it with the client.
--   * msgpusher.go, `MpoolPushMessage` with the map of nonces: MsgPusher.antt.
--   * channelid.go, `ChannelIDFromString`: ChannelId.antt, on Strconv.antt for what it uses of the
--     packages strconv, fmt and strings.
--   * libp2ptransfermgr.go: Transfer.antt (states and their conversion), Transfer/Manager.antt (server
--     events, listener, requests), Transfer/Expiry.antt (`checkTransferExpiry`),
--     Transfer/Lookup.antt (`All`, `byId`, `byRemoteAddrAndPayloadCid`) and Transfer/Running.antt (`Start`,
--     `Stop` and the ticker, as the steps of a relation). The data store, the token
--     store and the car server are the record `Outside`.
--   * rep/event.go and rep/publisher.go: Rep/Event.antt and Rep/Publisher.antt, where the publisher,
--     its goroutine and its users interleave as the steps of a relation; `OnRetrievalEvent` of
--     filclient.go: Rep/Logging.antt.
--   * filclient.go, `retrieveContentFromPeerWithProgressCallback`: Retrieval/Handler.antt has the
--     callback on data transfer events, with the payments; Retrieval/Content.antt what is around it;
--     Retrieval/PaymentChannel.antt has `getPaychWithMinFunds`. `RetrieveContentFromPeerAsync`:
--     Retrieval/Async.antt, the steps of its goroutine, its callback and its caller over three channels.
--   * filclient.go, `ComputePrice`, `MakeDealUnsigned`, `MakeDealWithOptions`, `MakeDeal` and the
--     options: Deal.antt, Deal/Proposal.antt, Deal/Making.antt; `GeneratePieceCommitment` and its FFI
--     variant: Deal/Pieces.antt.
--   * retrievehelper/selector.go, `TraverseDag`: Selector.antt.
--   * filclient.go, `doRpc`, `GetAsk`, `SendProposalV110`, `SendProposalV120` and its options:
--     Deal/Sending.antt and Deal/Boost.antt, which use the streams of Connection.antt; `DealStatus`
--     and `toLegacyDealStatus`: Deal/Status.antt.
--   * keystore/keystore.go: Keystore.antt, over a file system that is the record `Fs`.
--   * filclient.go, the reports on transfers: Reports.antt (`TransferStatus` and its kin,
--     `StartDataTransfer`), Reports/Progress.antt (`TransfersInProgress`, over both kinds of transfer),
--     Reports/Diagnostics.antt (`MinerTransferDiagnostics`, `generateTransfers`).
--   * filclient.go, `Balance`, `LockMarketFunds` (on the message pusher), `CheckChainDeal` and
--     `CheckOngoingTransfer`: Balance.antt; `RetrievalQuery`, `RetrievalQueryToPeer` and the
--     `RetrieveContent` methods: Retrieval/Query.antt.
--   * filc, the command line tool: Filc/Candidates.antt and Filc/Ipfs.antt (filc/retrieval.go,
--     retrievehelper/params.go),
--     Filc/Parsing.antt (filc/parsing.go), Filc/Printing.antt and Filc/Printing/Layout.antt
--     (filc/printing.go), Filc/Disk.antt and Filc/Node.antt (filc/disk.go), Filc/Flags.antt
--     (filc/flags.go), Filc/App.antt (filc/main.go and the table of commands), and of filc/cmds.go:
--     Filc/Deals.antt and Filc/Deals/Making.antt (deals and the waits for their transfers),
--     Filc/Watcher.antt (`connWatcher`), Filc/Commands.antt, Filc/Commands/Deal.antt and
--     Filc/Commands/Retrieve.antt (the commands). The commands take the set up of the node and of the
--     client as a parameter.
--
-- Identifiers of other packages (cids, peer ids, addresses) are texts, and the undefined one is the
-- empty text. Numbers of 64 bits are natural numbers below 2 ^ 64, with the wrap-around written out;
-- a signed one is its bit pattern. The unbounded integers are the interface `Big` of Base/Big.antt.
-- Errors from outside the repository, clocks and the answers of other systems are parameters, and
-- what a theorem needs of them is a hypothesis.
--
-- Fuel: `format_uint` in Strconv.antt prints at most 20 digits, which is enough for every number of 64
-- bits. The loop `poll` in Filc/Deals.antt takes the number of its rounds, since nothing bounds the time
-- that a transfer takes; a number beyond the round that sees the transfer end is enough.
--
-- Not modelled: the libraries, which are parameters; the setup of the logger in filc/main.go; and what
-- only passes a call on to a library (`GraphSyncStats`, `SubscribeToDataTransferEvents`,
-- `SubscribeToRetrievalEvents`). Logging and tracing are left out, except for the key/value pairs of
-- `OnRetrievalEvent`.
pub mod Balance
pub mod Base
pub mod ChannelId
pub mod Client
pub mod Connection
pub mod Deal
pub mod Errors
pub mod Filc
pub mod Keystore
pub mod MsgPusher
pub mod Rep
pub mod Reports
pub mod Retrieval
pub mod Selector
pub mod Strconv
pub mod Transfer
