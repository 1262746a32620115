-- ===== src/Core/Election/Frames.antt =====
-- What sending does to the term and the vote of a core of src/core/raft_core.c: nothing.
use turboraft.Prelude.{
  ℕ, zero, suc, ◌+◌, ◌≡◌, refl, true, false, Bool, ◌==◌, if◌then◌else◌, ◌∙◌, not, ◌&&◌, leb, arith,
  List,
}
use turboraft.Core.{Core, Call}
use turboraft.Core.Peers.{
  core_has_quorum, peer_id, peer_count, refresh_peers, move_peers, own_progress,
}
use turboraft.Core.Replicate.{
  emit_replication, emit_entries, broadcast_replication, broadcast_replication_from, has_room,
  fill_peer_loop, fill_peer_replication_window,
}
use turboraft.Core.Emit.{broadcast}
use turboraft.Log.{last_index}
use turboraft.Core.Reads.{read_reset_all}
use turboraft.Core.Election.{become_leader, start_election, lead, stand}

pub record Same (before after : Core) : Type 0 where
  pub same_term : after.term ≡ before.term
  pub same_vote : after.voted_for ≡ before.voted_for

pub emit_replication-Same :
    (i : ℕ) (b : Bool) (call : Call) → Same call.core (emit_replication i b call).1.core
unfolding emit_replication emit_entries
emit_replication-Same i b call = record { same_term = ground arith; same_vote = ground arith }

pub Same-refl : (a : Core) → Same a a
Same-refl a = record { same_term = refl; same_vote = refl }

-- Two branches of one call.
pub Same-if :
    (before : Core) (b : Bool) (x y : Call)
    → Same before x.core
    → Same before y.core
    → Same before (if b then x else y).core
Same-if before true x y h k = h
Same-if before false x y h k = k

pub Same-trans : {a b c : Core} → Same a b → Same b c → Same a c
Same-trans h k = record {
  same_term = k.same_term ∙ h.same_term;
  same_vote = k.same_vote ∙ h.same_vote;
}

pub broadcast_replication_from-Same :
    (n i : ℕ) (call : Call) → Same call.core (broadcast_replication_from n i call).core
unfolding broadcast_replication_from
broadcast_replication_from-Same zero i call = record { same_term = refl; same_vote = refl }
broadcast_replication_from-Same (suc n) i call =
    Same-trans
      (Same-if call.core (not (peer_id call.core i == call.core.self_id)) _ _
        (emit_replication-Same i true call) (Same-refl call.core))
      (broadcast_replication_from-Same n (i + 1) _)

pub become_leader-Same : (call : Call) → Same call.core (become_leader call).core
unfolding become_leader lead read_reset_all broadcast_replication
become_leader-Same call =
    let h =
      broadcast_replication_from-Same (peer_count (lead call.core)) 0
        (record call { core = lead call.core }) in
    record { same_term = h.same_term; same_vote = h.same_vote }

pub start_election-Same : (call : Call) → Same (stand call.core) (start_election call).core
unfolding start_election broadcast
start_election-Same call =
    Same-if (stand call.core) (core_has_quorum (stand call.core) (stand call.core).votes) _ _
      (become_leader-Same (record call { core = stand call.core })) (Same-refl (stand call.core))

pub fill_peer_loop-Same : (n i : ℕ) (call : Call) → Same call.core (fill_peer_loop n i call).core
unfolding fill_peer_loop
fill_peer_loop-Same zero i call = Same-refl call.core
fill_peer_loop-Same (suc n) i call =
    let sent = emit_replication-Same i false call in
    Same-if call.core
      (has_room call.ready && leb (call.core.next_index i) (last_index call.core.log)) _ _
      (Same-if call.core (emit_replication i false call).0 _ _
        (Same-trans sent (fill_peer_loop-Same n i (emit_replication i false call).1)) sent)
      (Same-refl call.core)

pub fill_peer_replication_window-Same :
    (i : ℕ) (call : Call) → Same call.core (fill_peer_replication_window i call).core
unfolding fill_peer_replication_window
fill_peer_replication_window-Same i call =
    Same-if call.core (leb (call.core.next_index i) call.core.log.base_index) _ _
      (emit_replication-Same i false call)
      (fill_peer_loop-Same (suc call.ready.message_capacity) i call)

pub refresh_peers-Same : (core : Core) (ids : List ℕ) → Same core (refresh_peers core ids)
unfolding refresh_peers move_peers own_progress
refresh_peers-Same core ids = record { same_term = ground arith; same_vote = ground arith }
