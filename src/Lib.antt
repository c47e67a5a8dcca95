-- ===== src/Lib.antt =====
-- Covered-options pools for the OP_NET chain: the contracts of src/contracts, and what the indexer of
-- indexer/src makes of their events.
--
-- Parts and files. An option pool (src/contracts/pool/contract.ts over src/contracts/pool/base.ts)
-- locks the collateral of the options that are written in it, sells them, and pays out at exercise,
-- settlement, cancellation or roll. It calls the OP20 contracts of its two tokens.
--   Prelude   Boolean tests, maps as functions, sums, and the names of the libraries
--   Runtime   Runtime.Revert: calls that return or revert, as state passing with a result;
--             Runtime.Chain: what @btc-vision/btc-runtime and the token contracts give
--   Pool      State: constants.ts, the record of storage.ts, events.ts and the fields of base.ts;
--             Fees, Base: amounts, registry, fee recipient, token calls; Write, Trade, Close, Roll,
--             Batch: the handlers writeOption, buyOption, transferOption, cancelOption, exercise,
--             settle, rollOption, batchCancel, batchSettle; Views, Getters: its views;
--             Step: calls as data and histories of them
--   Pool, proofs   Amounts: the amounts in closed form; Effects: what a call that returned has done;
--             Ledgers, Payments: who is paid what; Solvency: the pool holds what it owes;
--             Lifecycle: what may become of an option; Deadlines: when; Deployment: how a pool
--             starts; Batch.Items, Batch.Sequences: the batches against the single calls; Tests:
--             concrete runs
--   Factory   src/contracts/factory/contract.ts, which deploys and lists the pools: Deployer: what it
--             calls outside the repository; State, Handlers: its fields and methods; Changes: calls
--             as data, and what each does to the registry; Registry: the agreement of the map and the
--             list; Histories, Creation: the same over histories, and creation; Tests: a concrete run
--   Storage   OptionStorage of src/contracts/pool/storage.ts (Options) and ReservationStorage of
--             src/contracts/pool/reservation-storage.ts (Reservations), byte by byte; OptionCells and
--             ReservationCells: they refine the maps that the handlers use
--   Bridge    NativeSwapBridge of src/contracts/bridge/contract.ts: the price cache, the scripts, and
--             the registry of the Bitcoin outputs that were used up
--   QuotePool the type 1 pool of src/contracts/pool/btc-quote.ts, whose price is in Bitcoin: options
--             are reserved, and paid for by an output that the bridge verifies. It shares the fields
--             and writeOption, cancelOption, settle with Pool. Deployment: how a pool starts;
--             Bridging: the bridge as the interface that the pool uses
--   Router    SpreadRouter of src/contracts/router/contract.ts over the calls of a pool; Legs: over
--             one type 0 pool
--   BtcPool   the type 2 pool of src/contracts/pool/btc-underlying.ts, whose underlying is Bitcoin: the
--             collateral of a call is an output to an escrow, which the bridge verifies, and a put is
--             exercised by an output to its writer. It shares the fields and buyOption with Pool and
--             the interface of the bridge with QuotePool. Handlers: its methods; Effects: what a call
--             that returned has done; Security, Preservation, Histories: what its collateral is;
--             Guarantees: the Bitcoin payments
--   Indexer   Tables: the rows of indexer/src/types/index.ts and the statements of
--             indexer/src/db/queries.ts; Reader, Decoder: indexer/src/decoder/index.ts; Emission: the
--             data of the events as the contracts write them; Statements, Decoding: the one against
--             the other; Mirror, Following, Batches, Replay, Histories: the table of options against
--             the options of a type 0 pool, call by call; Poller: a run of
--             indexer/src/poller/index.ts, where what the run finds of the pools and the blocks that
--             the node gives are parameters; Agreement, Polling, Progress: runs of it
--
-- How the code is read. A handler is a function from the state to the value and the state after it,
-- or to the reason of its revert, in the order of the source's statements. The state of the token
-- contracts is a part of the pool's state, so that a failing call reverts everything. Function names
-- are those of the source in snake case; the source's `set` of a fresh option is set_option.
-- u256 arithmetic goes through SafeMath, which reverts where the result does not fit; the u64 sums of
-- block numbers, which wrap, are written `% u64_mod`. Addresses are the numbers of their 32 bytes.
--
-- Parameters. The record Runtime holds what is not in the repository: SafeMath with its exact
-- results, the bytes that storage gives back, and the token ledgers, of which a transfer that goes
-- through moves the amount and nothing else. It may fail for any reason. Tests.Chain is an instance.
-- Deployer does the same for the factory: MapOfMap as a map of maps, sha256, and the deployment of a
-- contract, which may fail for any reason. The storage keys of the list of pools are taken not to
-- collide. HostStorage is the storage of the chain; it says by `present` whether a slot into which
-- zero bytes were written counts as there. The handlers of QuotePool take the same as a Boolean,
-- zero_present. Bitcoin holds sha256, the script library and NativeSwap for the bridge. The interface
-- BridgeCalls of QuotePool and BtcPool is filled by Bridge, the interface PoolCalls of Router by Pool.
-- Whom a pool sees as its caller when the router calls it, the wallet or the router, is the parameter
-- `seen` of Router.Legs.
-- BytesWriter writes the fields of an event as so many bytes, numbers with the highest byte first.
-- Javascript is `Number` of a decimal text, exact below 2 ^ 53. The indexer reads the base64 text of an
-- event's data as its bytes; a text that spells bytes in hexadecimal is the list of them.
--
-- Bounds and fuel. Loops run over lists and need no fuel, but for these: the bytes of a number, in
-- storage and in the data of an event, are as many rounds as in the source; the rounds of
-- encodeScriptNumber are eight, which use up every number below 2 ^ 64; and the poller makes a round
-- for each block of its window.
--
-- Not modelled. @nonReentrant: a token call is one step, in which the token does not call the pool.
-- getRegisteredPubkey, and the reading and writing of calldata; the buffers that are made for calldata
-- and events are taken to be large enough. Of the indexer, how indexer/src/poller/index.ts reaches the
-- node and reads its answers, the HTTP API of indexer/src/api/router.ts and the tables of prices, which
-- are input and output or floating point. The frontend.
pub mod Prelude
pub mod Runtime
pub mod Pool
pub mod Factory
pub mod Storage
pub mod Bridge
pub mod QuotePool
pub mod Router
pub mod BtcPool
pub mod Indexer
