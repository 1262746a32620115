-- ===== src/Lib.antt =====
-- A verification library for TurboRaft: the deterministic core in src/core, the runtime that drives it in
-- src/runtime/raft_runtime.c, the queue by groups in src/transport/raft_group_queue.c, and the transfer of
-- snapshots in src/snapshot.
--
-- The program. A core is a Raft node's state without I/O. Its owner hands it a message
-- (`tr_raft_core_step`), the passing of time (`tr_raft_core_tick`) or a request, and gets back a ready
-- value: what to persist, to send and to apply. The owner acknowledges it before the next call. The core
-- stands on a log behind a compacted prefix (raft_log.c), a committed membership with the configurations
-- that the log still holds uncommitted (raft_membership_transition.c over raft_membership.c and
-- raft_configuration.c), and the set of peers of all these (raft_peer_set.c). The owner can be a runtime
-- (raft_runtime.c), which persists a ready value, hands its messages on, applies its entries and
-- acknowledges it. Payloads wait for their group's turn in a group queue; a follower that is too far behind
-- is sent a snapshot in chunks.
--
-- The files.
-- - Prelude, Status, Vec: shared names, lists and bits over native numbers; the status codes
--   (src/turboraft_stl_status.h); the container of the library cstl.
-- - Conf, Conf.Codec, Entry: src/core/raft_configuration.c. Conf.Valid is about validation, Conf.Words,
--   Conf.RoundTrip and Conf.Wire about the bytes.
-- - Membership, Membership.Change, Membership.Vote: src/core/raft_membership.c. Membership.Quorum is about
--   votes, Membership.Match about commits.
-- - PeerSet: src/core/raft_peer_set.c. Transition: src/core/raft_membership_transition.c;
--   Transition.Steps is about how commits and proposals move it.
-- - Log, Log.Append, Log.Reconcile: src/core/raft_log.c. Log.Reconcile.Merge is the abstract rule of Raft
--   for a leader's entries, Log.Reconcile.Store the writes, Log.Reconcile.Refine the comparison of both;
--   Log.Held says what a log holds at an index.
-- - Core and its children: src/core/raft_core.c in the order of the file. Window, Peers, Emit, Replicate,
--   Reads, Election, Sync, Follow, Commit, Leader are its static functions; Step, Tick, Api, Apply, Create
--   and Inspect the public ones. Core.Commit.Rule and Reached, Core.Follow.Commits, Core.Election.Safety
--   and Ballot, Core.Step.Terms and Core.Apply.Order hold proofs, with lemmas in Core.Election.Frames,
--   Core.Follow.Terms and Core.Leader.Terms.
-- - Host: the callbacks and types of include/turboraft/raft_runtime.h. Runtime: src/runtime/raft_runtime.c;
--   Runtime.Io is about the calls of the storage and the transport, Runtime.Deliver about applying entries,
--   Runtime.Process the public calls. Runtime.Trace, Runtime.Durable and Runtime.Once hold proofs.
-- - GroupQueue: src/transport/raft_group_queue.c, GroupQueue.Serve from `tr_raft_group_queue_peek_next` on.
--   GroupQueue.Fifo is about a ring as a list, Groups about the slots as queues by group, Valid about the
--   invariant; Accept, Offer, Refuse, Refine, Turn and Reach are about the operations.
-- - Snapshot: the chunks and acknowledgements of include/turboraft/raft_wire_codec.h. Snapshot.Receiver:
--   src/snapshot/raft_snapshot_receiver.c; Create is its creation, Sound the invariant, and Open, Absorb,
--   HandOver and Install are about the parts of the handling of a chunk. Snapshot.Sender:
--   src/snapshot/raft_snapshot_sender.c; Chain and Window are about the claims in flight, Moves and Reach
--   about the operations. Snapshot.Agree is about chunks at a receiver.
-- - Calls: a computation that ends with a status, and what holds where it ends.
-- - Tests: runs of the model and the theorems at concrete inputs.
--
-- The correspondence. A definition has the name of its C function without the prefix `tr_`, `tr_raft_`
-- and the component's name (`tr_raft_log_reconcile` is `Log.Reconcile.reconcile`); a loop's body is a
-- definition beside it. A structure is a record with the fields of the source; a counted array is a list,
-- an array below the peer count a function. A function that changes its argument returns the new value, and
-- with an error also what it has changed by then. SALTS_OK is `ok`. Index -1 is `none`. Pointers are taken
-- as not null, and the tests for null are left out. Sums of `uint64_t` that can wrap are `add64`; a
-- subtraction is written where the source's guards make it exact, or with `add64`. A message is built whole
-- where the code fills in the fields of one appended before.
--
-- Loops are structural recursion on the list that they read, or recursion on fuel: the distance from the
-- commit index for the search for one (each round lowers the candidate), the message capacity for the
-- filling of windows (each round but the last sends), the number of ids for the union of memberships (each
-- round takes one), the index for the reject hint. `Core.Commit.Rule` proves that the first is enough.
-- The loop that applies entries has their number as fuel (each round takes one at least), the search of the
-- group queue the number of slots.
--
-- What is not in the repository is a parameter: the statuses of the vector's calls are a `Vec`, any at all.
-- The callbacks of the runtime are effects: a `Host` says what a call returns behind the calls made before.
-- So are those of the receiver, in a `Sink`, with the library's digest as a `Sha`; the proofs take it to be a
-- function of the bytes that it is given (`Hashes`). A sender's `Source` gives bytes for an offset and a
-- capacity; a claim carries the bytes of its slot, which no other claim has.
-- Not modelled: the service, the write-ahead log, the coordination of snapshots, the transports, the
-- wire codec, the control plane and the text tools, which stand around the core; memory exhaustion of
-- the allocations in `tr_raft_core_create`.
pub mod Prelude
pub mod Status
pub mod Calls
pub mod Vec
pub mod Conf
pub mod Entry
pub mod Membership
pub mod PeerSet
pub mod Transition
pub mod Log
pub mod Core
pub mod Host
pub mod Runtime
pub mod GroupQueue
pub mod Snapshot
pub mod Tests
