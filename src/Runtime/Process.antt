-- ===== src/Runtime/Process.antt =====
-- src/runtime/raft_runtime.c: `tr_raft_runtime_process` and `tr_raft_runtime_retry_apply`.
use turboraft.Prelude.{true, false, ◌||◌, ◌&&◌, not, leb, ◌==◌, if◌then◌else◌, length}
use turboraft.Calls.{◌▸◌, done}
use turboraft.Status.{einval, eproto, ebusy, enoent, ok, err}
use turboraft.Core.{Ready}
use turboraft.Core.Apply.{advance}
use turboraft.Host.{
  idle, storage_begin, transport_send, state_machine_apply, core_advance, complete, History, Host,
  ready_needs_storage, first_read_state,
}
use turboraft.Runtime.{Runtime, no_result, Work, Step, at_stage, fail}
use turboraft.Runtime.Io.{persist, send_messages, send_requests}
use turboraft.Runtime.Deliver.{apply_from}

unfoldable pub advance_after_apply : Work → Step
unfolding fail
advance_after_apply w = elim (advance w.runtime.core) [
  | err e ↦ fail core_advance e (at_stage core_advance w)
  | ok core ↦ done (at_stage complete (record w { runtime = record (w.runtime) { core = core } }))
]

module _ (host : Host) where
  unfoldable pub persist_needed : Ready → Work → Step
  unfolding ready_needs_storage persist fail
  persist_needed ready w =
      if not (ready_needs_storage ready)
      then done w
      else if not host.storage_complete
      then fail storage_begin einval w
      else persist host ready w

  unfoldable pub send_all : Ready → Work → Step
  unfolding fail send_messages send_requests
  send_all ready w =
      if not (length ready.messages == 0) && not host.has_enqueue
      then fail transport_send einval w
      else send_messages host ready.messages (at_stage transport_send w)
        ▸ send_requests host ready.snapshot_requests

  unfoldable pub apply_committed : Ready → Work → Step
  unfolding apply_from
  apply_committed ready w =
      if not (length ready.committed_entries == 0)
      then apply_from host ready.committed_entries 0 false w
      else done w

  unfoldable pub process : Ready → Runtime → History → Step
  unfolding fail persist_needed send_all apply_committed advance_after_apply
  process ready runtime history =
      let w : Work = record { runtime = runtime; result = no_result; history = history } in
      if runtime.faulted
      then fail idle eproto w
      else if runtime.apply_blocked
      then (
        err ebusy,
        record w { result = record no_result { stage = state_machine_apply; cause = err ebusy } },
      )
      else (persist_needed ready (record w {
        result = record no_result { read_state = first_read_state ready.read_states };
      })
          ▸ send_all ready
          ▸ apply_committed ready
          ▸ advance_after_apply)

  unfoldable pub retry_apply : Runtime → History → Step
  unfolding fail apply_from
  retry_apply runtime history =
      let w : Work = record { runtime = runtime; result = no_result; history = history } in
      if runtime.faulted
      then fail idle eproto w
      else if not runtime.apply_blocked
          || leb (length runtime.blocked_entries) runtime.blocked_apply_begin
      then (err enoent, w)
      else apply_from host runtime.blocked_entries runtime.blocked_apply_begin true w ▸ λ w.
          done (at_stage complete w)
