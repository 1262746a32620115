-- ===== src/Core/Replicate.antt =====
-- src/core/raft_core.c: what a leader sends to its peers.
use turboraft.Prelude.{
  ℕ, zero, suc, ◌+◌, ◌-◌, Bool, true, false, ◌||◌, ◌&&◌, not, ltb, leb, ◌==◌, if◌then◌else◌, length,
  min,
}
use turboraft.Conf.{add64}
use turboraft.Log.{Log, last_index, get}
use turboraft.Log.Reconcile.{term_of}
use turboraft.Core.{
  MessageType, heartbeat_request, append_request, Message, Core, Ready, Call, update,
  max_append_entries, default_max_inflight,
}
use turboraft.Core.Window.{reset, push}
use turboraft.Core.Peers.{peer_id, peer_count, peer_paused, peer_index_paused, leads}
use turboraft.Core.Emit.{fresh_message, emit, emit_snapshot_request, entries_from}

abbrev pub window_limit : Core → ℕ → ℕ
window_limit core i =
    if (core.append_windows i).probe
    then default_max_inflight
    else core.max_inflight_append_requests

abbrev pub previous_term : Log → ℕ → ℕ
previous_term log previous_index =
    if previous_index == log.base_index then log.base_term else term_of (get log previous_index)

unfoldable pub replication_message : Core → MessageType → ℕ → ℕ → Message
replication_message core type i entry_count =
    record (fresh_message core type (peer_id core i) false) {
      previous_log_index = core.next_index i - 1;
      previous_log_term = previous_term core.log (core.next_index i - 1);
      leader_commit = core.commit_index;
      entries = entries_from core.log (core.next_index i) entry_count;
    }

unfoldable pub emit_message : MessageType → ℕ → ℕ → Call → Call
unfolding emit
emit_message type i entry_count call = record call {
  ready = emit call.core (replication_message call.core type i entry_count) call.ready;
}

-- The end of `tr_emit_replication`, with entries: the message is taken back where the window is full.
unfoldable pub emit_entries : ℕ → ℕ → Call → Bool × Call
emit_entries i entry_count call =
    let next = call.core.next_index i in
    let (pushed, window) = push (call.core.append_windows i) (next - 1) (next + entry_count - 1) in
    if pushed
    then (
      true,
      record (emit_message append_request i entry_count call) {
        core = record (call.core) {
          append_windows = update call.core.append_windows i window;
          next_index = update call.core.next_index i (add64 next entry_count);
        };
      },
    )
    else (false, call)

-- `tr_emit_replication`. Subtraction from `next_index` is exact: it is above the base there.
unfoldable pub emit_replication : ℕ → Bool → Call → Bool × Call
unfolding emit_entries emit_message
emit_replication i allow_heartbeat call =
    let core = call.core in
    let full = leb call.ready.message_capacity (length call.ready.messages) in
    let next = core.next_index i in
    if peer_index_paused core i
    then (false, call)
    else if leb next core.log.base_index
    then (
      true,
      record {
        core = record core { append_windows = update core.append_windows i (reset true) };
        ready = emit_snapshot_request core i call.ready;
      },
    )
    else if leb next (last_index core.log)
    then (if leb (window_limit core i) (core.append_windows i).count || full
        then (false, call)
        else if peer_paused core (peer_id core i)
        then (false, call)
        else emit_entries i (min (last_index core.log - next + 1) max_append_entries) call)
    else if not allow_heartbeat || full
    then (false, call)
    else if peer_paused core (peer_id core i)
    then (false, call)
    else (true, emit_message heartbeat_request i 0 call)

-- The loop of `tr_broadcast_replication`, over the `n` peers from `i` on.
unfoldable pub broadcast_replication_from : ℕ → ℕ → Call → Call
broadcast_replication_from zero i call = call
broadcast_replication_from (suc n) i call = broadcast_replication_from n (i + 1) (
    if not (peer_id call.core i == call.core.self_id)
    then (emit_replication i true call).1
    else call)

unfoldable pub broadcast_replication : Call → Call
unfolding broadcast_replication_from
broadcast_replication call = broadcast_replication_from (peer_count call.core) 0 call

-- The first loop of `tr_fill_replication_windows`.
unfoldable pub fill_snapshots : ℕ → ℕ → Call → Call
fill_snapshots zero i call = call
fill_snapshots (suc n) i call = fill_snapshots n (i + 1) (
    if not (peer_id call.core i == call.core.self_id)
      && leb (call.core.next_index i) call.core.log.base_index
    then (emit_replication i false call).1
    else call)

abbrev pub has_room : Ready → Bool
has_room ready = ltb (length ready.messages) ready.message_capacity

abbrev pub wants_entries : Core → ℕ → Bool
wants_entries core i = not (
    peer_id core i == core.self_id
    || leb (core.next_index i) core.log.base_index
    || ltb (last_index core.log) (core.next_index i))

-- The body of the inner loop: whether a message has been emitted in the round, and the state.
abbrev pub fill_peer : ℕ → Bool → Call → Bool × Call
fill_peer i emitted call =
    if wants_entries call.core i
    then (let (sent, after) = emit_replication i false call in (sent || emitted, after))
    else (emitted, call)

unfoldable pub fill_round : ℕ → ℕ → Bool → Call → Bool × Call
fill_round zero i emitted call = (emitted, call)
fill_round (suc n) i emitted call =
    let rest = fill_round n (i + 1) (fill_peer i emitted call).0 (fill_peer i emitted call).1 in
    if has_room call.ready then rest else (emitted, call)

-- The `do` loop; each round but the last emits a message, so the capacity bounds the rounds.
unfoldable pub fill_rounds : ℕ → Call → Call
fill_rounds zero call = call
fill_rounds (suc fuel) call =
    let (emitted, after) = fill_round (peer_count call.core) 0 false call in
    let rest = fill_rounds fuel after in if emitted && has_room after.ready then rest else after

unfoldable pub fill_replication_windows : Call → Call
unfolding fill_snapshots fill_rounds fill_round
fill_replication_windows call =
    if not (leads call.core.role)
    then call
    else fill_rounds (suc call.ready.message_capacity)
        (fill_snapshots (peer_count call.core) 0 call)

-- The loop of `tr_fill_peer_replication_window`, with the capacity as fuel.
unfoldable pub fill_peer_loop : ℕ → ℕ → Call → Call
fill_peer_loop zero i call = call
fill_peer_loop (suc fuel) i call =
    let (sent, after) = emit_replication i false call in
    let rest = fill_peer_loop fuel i after in
    if has_room call.ready && leb (call.core.next_index i) (last_index call.core.log)
    then (if sent then rest else after)
    else call

unfoldable pub fill_peer_replication_window : ℕ → Call → Call
unfolding fill_peer_loop
fill_peer_replication_window i call =
    if leb (call.core.next_index i) call.core.log.base_index
    then (emit_replication i false call).1
    else fill_peer_loop (suc call.ready.message_capacity) i call
