-- ===== src/Lib.antt =====
-- Verification of dusk-blockchain, a node of the Dusk network: peers exchange framed messages, the
-- consensus components collect and verify votes of committees drawn from the stakers, transactions wait
-- in the mempool, and the chain takes the blocks that they agree on.
--
-- The parts that are modelled, and how they meet:
--   * Encoding (pkg/p2p/wire/encoding): every reader and writer. A bytes.Buffer is the list of bytes
--     that is left in it, a byte is a number, and a function on a buffer gives its result and the rest,
--     or an error (`Buffer.M`, with do blocks). `Codec` states a round trip once for all formats;
--     `Kept` states what a reader gives whatever it is fed. `Reader` has ReadVarBytes on a bytes.Reader,
--     from which transactions are read.
--   * Wire (pkg/p2p/wire, pkg/p2p/peer): what a peer puts on a connection. `Frame` is
--     processing/frame.go and the Process of processing/gossip.go, `Gossip` is extractMagic of
--     peer.go with unmarshaller.go, `Topics` and `Version` are the topics and the version message,
--     `Messages` is peermsg, `DupeMap` is dupemap with util/nativeutils/hashset, whose `Forwarding` has
--     the two steps of CanFwd in any interleaving. A connection is the list of bytes on it.
--   * SortedSet (pkg/util/nativeutils/sortedset): the set of BLS keys, a slice of numbers, with its
--     binary search on fuel (one round more than there are elements, which always suffices) and its
--     bit sets.
--   * Committee (pkg/core/consensus/user, pkg/core/consensus/committee): `Provisioners` is
--     provisioners.go over a SortedSet and a map, `Store` the messages of store.go that change it with
--     the size and quorum of agreement.go, `BidList` the checks of bidlist.go. The loop of
--     RemoveExpired has the fuel `expire_fuel`, which covers a full pass for each stake removed.
--     `Sortition` is sortition.go: its loops run on fuel, one round for each member wanted and for each
--     unit of the score, and `Election` proves it enough. `Extractor` is the committee cache of store.go
--     with IsMember, Pack and Unpack of agreement.go.
--   * Consensus (pkg/core/consensus): `Header`, `EventQueue`, `State`, `AccumulatorStore`,
--     `Accumulator` and `EventFilter` are the files of these names. The filter queues what is early and
--     hands what is current to the accumulator, whose workers verify it. The goroutines are actions
--     that happen in any order, and a channel is the list of what waits in it. What the accumulator
--     asks of its handler (the committee, the quorum, the verification of a vote) is the record
--     `Accumulator.Handler`, a parameter. `Timer` is timer.go, and `Keys` the keys of a node with the
--     checks of both signatures of a message (msg/validation.go, eventprocessor.go).
--   * Crypto (pkg/crypto/bls): `Bls` is bls.go over the record `Curve`, which stands for the bn256
--     library and the hash; what a theorem asks of them is a record of hypotheses (`Bilinear`,
--     `Compresses`, `Marshals`, `Commutes`), and Tests has a curve that meets them all.
--   * Reduction (pkg/core/consensus/reduction): `Event` and `Handler` are the votes, `Reducer` the two
--     steps of reducer.go. What a step fetches from the accumulator is an argument, and what is
--     published is kept in a list.
--   * Agreement (pkg/core/consensus/agreement): `Event` and `Handler` are the files of these names. The
--     handler asks its committee through the record `Foldable`, which `Committee` fills with drawn
--     committees. A panic in the middle of a reader is the error `panicked`.
--   * Transactions (pkg/core/transactions): `Input`, `Output`, `Standard`, `Locked` (timelocktx.go,
--     bidtx.go, staketx.go) and `Coinbase` are the types, `Transaction` the interface over them with the
--     reader of a list, `Slices` their counted lists, `Duplicates` HasDuplicates. A slice that Go cannot
--     make is the error `panicked`.
--   * Merkle in Crypto (pkg/crypto/merkletree): the hash tree, where a node is its subtree and the parent
--     pointers are the tree's levels. createIntermediate runs on fuel, one round for each leaf, and
--     `Levels` proves it enough.
--   * Block (pkg/core/block): `Header` and `Certificate`, `Body` with the transactions, and `Root`, which
--     puts the root of their tree in the header. The hash function is a parameter.
--   * Verifiers (pkg/core/verifiers): `Transaction` and `Block` are the files of these names,
--     `Certificate` the check of a certificate with the generator of pkg/core/consensus/generation that
--     makes it. A check gives the first fault; one that writes to the header gives the block as well.
--     The database, the ring signatures and the scalars are the record `Transaction.Queries`.
--   * Mempool (pkg/core/mempool): `Pool` is hashmap.go, `Pending` what becomes of a transaction that
--     arrives, `Accepted` what a block takes out.
--   * Chain (pkg/core/chain): AcceptBlock on the verifiers, and the other calls of chain.go. The
--     database is the record `Database`, whose errors are `none`; what goes to the event bus is a list.
--     `Taken` has what an acceptance does, `Linked` the calls in sequence, and `Staked` the message that
--     `Committee.Store` reads.
--   * Ring (pkg/util/container/ring): `Ring` is buffer.go, the messages that wait for a peer.
--   * Base holds the lists, tests, maps and facts on numbers that these share; Tests has concrete runs.
--
-- Integers of Go are natural numbers with the wrap-around of their width written out. Maps are
-- association lists; an iteration over a map goes in the order of the list, which is any. Locks,
-- tickers and logging are left out; an operation under a lock is one step.
--
-- Not modelled: the handshake, the router and the synchronisation of pkg/p2p/peer; the brokers of
-- reduction and agreement, selection and most of generation of pkg/core/consensus; the loader of the
-- chain and the databases of pkg/core; the cryptography of pkg/crypto other than BLS and the hash tree;
-- the buses of pkg/p2p/wire; and the wallet, the command line, the RPC server and the monitoring, which
-- are input and output around the node.
pub mod Agreement
pub mod Base
pub mod Block
pub mod Chain
pub mod Committee
pub mod Consensus
pub mod Crypto
pub mod Encoding
pub mod Mempool
pub mod Reduction
pub mod Ring
pub mod SortedSet
pub mod Transactions
pub mod Verifiers
pub mod Wire
pub mod Tests
