-- ===== src/Core/Reads.antt =====
-- src/core/raft_core.c: linearizable reads that wait for a quorum.
use turboraft.Prelude.{
  ℕ, ◌+◌, Bool, true, false, List, [], ◌∷◌, map, ◌==◌, if◌then◌else◌, length, get_or, bit,
}
use turboraft.Core.{Core, Call, ReadState}
use turboraft.Core.Peers.{voter_index, known, core_has_quorum}
use turboraft.Core.Emit.{broadcast_read_index}

unfoldable pub read_total_count : Core → ℕ
read_total_count core = length core.pending_reads + length core.waiting_reads

unfoldable pub contains : ℕ → List ℕ → Bool
contains context_id [] = false
contains context_id (c ∷ contexts) = if c == context_id then true else contains context_id contexts

unfoldable pub read_context_exists : Core → ℕ → Bool
unfolding contains
read_context_exists core context_id =
    if contains context_id core.pending_reads then true else contains context_id core.waiting_reads

unfoldable pub read_clear_active : Core → Core
read_clear_active core = record core {
  pending_read_context_id = 0;
  pending_read_index = 0;
  pending_read_acks = 0;
  pending_reads = [];
}

unfoldable pub read_reset_all : Core → Core
unfolding read_clear_active
read_reset_all core = record (read_clear_active core) { waiting_reads = [] }

abbrev pub read_state : ℕ → ℕ → ReadState
read_state index context_id = record { context_id = context_id; index = index }

unfoldable pub read_emit_active : Call → Call
unfolding read_clear_active
read_emit_active call = record {
  core = read_clear_active call.core;
  ready = record (call.ready) {
    read_states = map (read_state call.core.pending_read_index) call.core.pending_reads;
  };
}

unfoldable pub read_move_waiting_to_active : Core → Core
read_move_waiting_to_active core = record core {
  pending_reads = core.waiting_reads;
  waiting_reads = [];
}

unfoldable pub read_start_active_barrier : Call → Call
unfolding read_emit_active
read_start_active_barrier call =
    let core = record (call.core) {
      pending_read_context_id = get_or call.core.pending_reads 0 0;
      pending_read_index = call.core.commit_index;
      pending_read_acks = bit (known (voter_index call.core call.core.self_id));
    } in
    if core_has_quorum core core.pending_read_acks
    then read_emit_active (record call { core = core })
    else broadcast_read_index core.pending_read_context_id (record call { core = core })
