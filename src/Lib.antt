-- ===== src/Lib.antt =====
-- The BSC link of a BTP relay (chain/bsc2): it follows the headers of a BSC chain, finds the blocks that
-- are final, builds relay messages from them, and sends relay messages to a BSC contract.
--
-- Parts, with the code that each models:
-- - Base: results, uint64 arithmetic, association lists for Go maps, lists under native lengths.
-- - Chain: what is taken from go-ethereum, as one record of functions; Go's indices and slices, which
--   panic outside.
-- - Tree (chain/bsc2/status.go): the block tree of a verifier and its RLP; Tree/Grow on Add,
--   Tree/Pruning and Tree/Kept on Prune, Tree/Line on a line of blocks under the two, Tree/Codec and
--   Tree/Rank on the codec.
-- - Snapshot (chain/bsc2/snapshot.go): Snapshot/Extra reads a header's extra field, Snapshot/State is
--   the snapshot and what is computed from it (Snapshot/State/Order: the validators without an order), Snapshot/Step is apply, Snapshot/Boot is BootSnapshot
--   and FindAncientHeader (Snapshot/Boot/Made: what it makes). Snapshot/Store (chain/bsc2/snapshots.go) finds and keeps snapshots, and
--   Snapshot/Port is that store as the sender and the receiver use it, with the laws that
--   Snapshot/Store/Filled shows of it.
-- - Calculator (chain/bsc2/calculator.go): the blocks that are final by the snapshots' attestations.
-- - Transactor (chain/bsc2/transactor.go): a message's transitions; Transactor/Finality is
--   tryFinalizeInLock, Transactor/Run the goroutines as a step relation, and Transactor/Settled a
--   message's way through them.
-- - Client (chain/bsc2/client.go): the retrying transport and the searches by windows of blocks;
--   Client/Connect is NewClient and ChainID.
-- - Factory (chain/bsc2/bsc2factory.go): the configuration of a chain, its options and the wallet;
--   Factory/Open is newReceiver and newSender. Factory/Options and Factory/Interval follow two options
--   into the receiver's start and the snapshots' store, Factory/Failures the errors.
-- - Command (cmd/relay/main.go): the relay's configuration before a command runs, and save.
-- - Errors (chain/bsc2/errors.go): the errors after which a loop is entered again.
-- - Subscription (chain/bsc2/subscription.go, and WatchHeader of chain/bsc2/client.go): the goroutine,
--   the mutex and the channels between a watcher and its reader, as a step relation.
-- - Receiver (chain/bsc2/receiver.go, chain/bsc2/types.go): block updates; Receiver/Relay holds the
--   message proofs and the relay message (Receiver/Proof: what a proof is for; Receiver/InsertionOrder:
--   the order of the receipts), Receiver/Watch the loop over new headers with the status and
--   the caches, Receiver/Sync the preparation, the accumulator's catching up and the purge, Receiver/Link
--   the parts of a message as the link sees them, and Receiver/Start the whole of Start. On
--   BuildBlockUpdate, Receiver/Update has the headers, Receiver/Kept and Receiver/Rooted the tree, and
--   Receiver/Mainline and Receiver/Ends its end on a chain without forks; Receiver/Link/Rounds puts it
--   together with the link's update and newStatus.
-- - Sender (chain/bsc2/sender.go): the loop that follows finality, Relay on the transactor, and in
--   Sender/Start the sender on the snapshots' store from its start.
--
-- The subscription hands headers to the loops of the sender and the receiver. Either applies them to a
-- snapshot, adds the result to its store and feeds its calculator; the sender tells its transactor the
-- last block that the calculator finds final, the receiver reads the messages of the blocks below it.
-- The calculator, the transactor and the block updates read snapshots through a function from a hash
-- to what get answers for it; what get itself adds to the cache on its way is followed in Snapshot/Store
-- only.
--
-- A hash or an address is a number; the zero hash is 0. A Go map is an association list whose order no
-- theorem reads. Numbers of type uint64 wrap where the code adds or subtracts them. Values are
-- immutable, so a deep copy is the value itself. A nil pointer that is dereferenced, an index outside
-- and log.Panic are the result panics.
--
-- Loops without a bound in the code take fuel. Prune and the RLP encoder end with as much fuel as the
-- rank of the root and the size of the tree, which a well-formed tree has; the search by windows with
-- one round for each block; the poll of a pending message with ten; the calculator with the length of
-- the line of parents down to the checkpoint; the walk of tryFinalizeInLock with the height of its
-- block; BuildBlockUpdate with the rank of the peer's tree and the height of the chain. The order of a
-- loop's effects is the code's.
--
-- The loops of the sender and the receiver are functions of a sequence of events, which ends where the
-- events end; an event is a header, an error of the subscription or a status of the peer. A round of the
-- receiver's loop and the purge by the other goroutine are functions of their own, and the interleavings
-- of the two are not followed beyond that. In the transactor's step relation a message is put on the
-- channel only where there is room, as Go's channel of 128 places has it, and Relay's test of Busy and
-- its Send are one step. The parts of a relay message are taken in by the link one after the other, in
-- the order in which the relay's library hands them over. Messages are cached by their sequence number;
-- a message proof compares the heights of their blocks, not the hashes.
--
-- Not modelled: the generated contract binding (chain/bsc2/bmc.go); the commands version and start of
-- cmd/relay, which print and call the library; logging, sleeping and printing. Third-party code is an argument: RLP decoding of an attestation, key recovery
-- and hashing, the node's answers, the trie of receipts, the accumulator, the database, the caches,
-- dialling, files, wallets, Viper and its flags, and the printing and reading of numbers.
pub mod Base
pub mod Tree
pub mod Chain
pub mod Snapshot
pub mod Calculator
pub mod Transactor
pub mod Client
pub mod Errors
pub mod Factory
pub mod Command
pub mod Subscription
pub mod Receiver
pub mod Sender
