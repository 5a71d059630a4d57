-- ===== src/Lib.antt =====
-- novachannel: a verification library for the Rust workspace of that name: a post-quantum secure
-- channel and, beside it, an oblivious store.
--
-- THE PROGRAM. `crates/core` holds the channel. `src/wire.rs` writes and reads the messages. A
-- handshake (`src/handshake.rs`, `src/x3dh.rs`) over the hybrid key exchange of `src/kex.rs` ends in a
-- session, which either seals records under two fixed keys (`src/transport.rs`) or runs a ratchet
-- (`src/ratchet.rs`): every record has a key of its own, from a hash chain, and a ratchet step moves
-- both sides to new chains, in one message each way or in erasure-coded chunks (`src/erasure.rs`).
-- Members of a group (`src/group.rs`) share a tree of hybrid keys, sign with the identities of
-- `src/identity.rs`, and move from epoch to epoch by commits. `crates/oram` stores blocks on a server
-- that must not learn which block is read.
--
-- THE FILES.
--   Wire        crates/core/src/wire.rs. Writer and Reader; Fields and Canonical prove reads and writes
--               against each other.
--   Errors      crates/core/src/error.rs. The error values.
--   Crypto      The cryptographic and coding crates, as records of operations with records of the laws
--               that the crates document. Crypto/Toy and Crypto/Signing have primitives that keep them.
--   Transport   crates/core/src/transport.rs. Sender::seal is `seal`, Receiver::open is `open_record`,
--               check_replay and record_seen keep their names. Window relates the window's bits to the
--               set of numbers seen, Replay a receiver to its specification, Nonce and Records are about
--               sealing.
--   Identity    crates/core/src/identity.rs. PublicIdentity, HybridSignature and Identity; Codec is about the
--               encodings, Signing about what verifies.
--   Kex         crates/core/src/kex.rs. generate, finish and responder_exchange; Agreement.
--   Erasure     crates/core/src/erasure.rs. encode and decode. Payload and RoundTrip prove
--               them against each other.
--   Ratchet     crates/core/src/ratchet.rs. Receive is open_on; Session is sealing, opening and the
--               one-shot step (RatchetedSession::open is `open_record`); Chunks and Incremental are the
--               incremental step. Chain (Skipped, Outcome, Once), Delivery, Epochs (Steps,
--               ChunkAnswers, ChunkSteps, Reach), Gather (Outcome) and Agreement (Keys, Step) hold the
--               proofs.
--   Group       crates/core/src/group.rs. Index is the arithmetic of the tree, Keys and Sealing the keys on
--               it, Messages the commits and welcomes with their parsers, Resolution and State the tree and
--               the member, Commits making and applying a commit, Proposals the calls that make one,
--               Records the records of an epoch (Group::open is `open_record`), Join joining. Paths, Cover, Invariant, Finding, Learning,
--               Shown, Accepts, Epoch and Removal are about one receiver; Seals, Levels, Follow, Opening, Making,
--               Installed, Keeping, Agreement, Sending, Following and Converge about a commit and its
--               receivers; Delivery about records, Encoding and CommitBytes about the bytes of a commit.
--   Oram        crates/oram/src/lib.rs. The tree, the reference server and the client's access
--               (Client::access is `access`); Session runs lists of calls. Tree, Depth, Storage,
--               Placement, ReadPath, Evict, Access and Trace hold the proofs. Verified has the hash tree
--               and Client::verified_access.
--   Common      Results, bytes, bits, numbers and lists.
--
-- STATE AND RESULTS. A method that takes `&mut self` is a function from the object to a result and the
-- object afterwards. A result is a value, an error value or a panic: the workspace is built with
-- overflow checks, so an arithmetic overflow and an index out of range are panics, and are written out.
-- In Oram, where no call returns an error, a panic is `none`. What the program draws at random is an
-- argument: a leaf, a key seed, an attempt nonce. A hash map is an association list (the skipped keys) or
-- a function (the position map, the secrets and chains of a group member). Integers are natural
-- numbers with the wrap-around or overflow of their width written out; `usize` has 64 bits.
--
-- LOOPS. Loops over a list are structural. The doubling loop of the depth computation has 64 rounds,
-- enough for a 64-bit number; a path climbs from a node to the root with the node itself as fuel, which
-- halving cannot use up. In a group a path climbs in the same way, and a resolution descends with the
-- number of nodes as fuel, since a child's index is larger than its parent's. The draws of a commit are
-- named by the level of the path and the node that is sealed to.
--
-- INTERFACES. Every proof about a bucket store takes the contract that the trait documents
-- (Oram.Storage.IsStore), which the reference server is proved to keep. Proofs about ciphers, key
-- exchanges and codes take the laws in Crypto.
--
-- NOT MODELLED. Wiping of secrets, vector capacities and timing. The encrypting layer of crates/oram;
-- handshakes, prekeys, sealed sender and multi-device in crates/core; crates/dp, crates/mpc and crates/rln; the fuzz targets, examples and ProVerif models.
pub mod Common
pub mod Errors
pub mod Wire
pub mod Crypto
pub mod Identity
pub mod Kex
pub mod Erasure
pub mod Ratchet
pub mod Group
pub mod Transport
pub mod Oram
