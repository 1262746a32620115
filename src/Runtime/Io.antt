-- ===== src/Runtime/Io.antt =====
-- src/runtime/raft_runtime.c: the calls of the storage and the transport.
use turboraft.Prelude.{◌+◌, true, ◌&&◌, not, List, [], ◌∷◌, ◌==◌, if◌then◌else◌, length}
use turboraft.Calls.{on_error, ◌▸◌, done}
use turboraft.Status.{Error, einval}
use turboraft.Core.{Ready, Message, SnapshotRequest}
use turboraft.Host.{
  Stage, storage_begin, storage_hard_state, storage_truncate, storage_append, storage_commit_index,
  storage_commit, transport_send, Effect, begin, commit, rollback, write_hard_state, truncate_log,
  append_log, write_commit_index, enqueue, enqueue_snapshot, Host,
}
use turboraft.Runtime.{Work, Step, at_stage, fail}

module _ (host : Host) where
  -- A call of a callback.
  unfoldable pub call : Effect → Work → Step
  call effect w =
      let r = host.answer w.history effect in (r, record w { history = (effect, r) ∷ w.history })

  unfoldable pub roll_back : Stage → Error → Work → Step
  unfolding fail call
  roll_back stage e w =
      let (r, after) = call rollback w in
      fail stage e (record after { result = record (after.result) { rollback_error = r } })

  -- A call whose error rolls the transaction back.
  unfoldable pub store : Stage → Effect → Work → Step
  unfolding call roll_back
  store stage effect w = on_error (roll_back stage) (call effect (at_stage stage w))

  -- A call whose error is final.
  unfoldable pub attempt : Stage → Effect → Work → Step
  unfolding call fail
  attempt stage effect w = on_error (fail stage) (call effect (at_stage stage w))

  unfoldable pub persist : Ready → Work → Step
  unfolding attempt store
  persist ready w =
      attempt storage_begin begin w
      ▸ (λ w.
          if ready.hard_state_changed
          then store storage_hard_state (write_hard_state ready.term ready.voted_for) w
          else done w)
      ▸ (λ w.
          if ready.log_changed && not (ready.log_truncate_from == 0)
          then store storage_truncate (truncate_log ready.log_truncate_from) w
          else done w)
      ▸ (λ w.
          if ready.log_changed && not (length ready.log_entries == 0)
          then store storage_append (append_log ready.log_entries) w
          else done w)
      ▸ (λ w.
          if ready.commit_changed
          then store storage_commit_index (write_commit_index ready.commit_index) w
          else done w)
      ▸ store storage_commit commit
      ▸ λ w. done (record w { result = record (w.result) { durable = true } })

  unfoldable pub send_messages : List Message → Work → Step
  unfolding attempt
  send_messages [] w = done w
  send_messages (m ∷ messages) w = attempt transport_send (enqueue m) w ▸ λ w.
      send_messages messages (record w {
        result = record (w.result) { messages_enqueued = w.result.messages_enqueued + 1 };
      })

  unfoldable pub send_requests : List SnapshotRequest → Work → Step
  unfolding attempt fail
  send_requests [] w = done w
  send_requests (r ∷ requests) w =
      if not host.has_enqueue_snapshot
      then fail transport_send einval w
      else attempt transport_send (enqueue_snapshot r) w ▸ λ w. send_requests requests (record w {
        result = record (w.result) { snapshots_requested = w.result.snapshots_requested + 1 };
      })
