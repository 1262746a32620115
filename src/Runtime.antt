-- ===== src/Runtime.antt =====
-- src/runtime/raft_runtime.c: persist what a core reports, send its messages, apply what it has
-- committed, and acknowledge it.
pub mod Io
pub mod Deliver
pub mod Process
pub mod Trace
pub mod Durable
pub mod Once
use turboraft.Prelude.{
  ℕ, zero, suc, ◌+◌, ◌-◌, Bool, true, false, ◌||◌, ◌&&◌, not, Option, none, some, List, [], ◌∷◌,
  leb, ◌==◌, if◌then◌else◌, length, take, drop,
}
use turboraft.Calls.{on_error, ◌▸◌, done}
use turboraft.Status.{Error, einval, eproto, ebusy, enoent, Result, ok, err}
use turboraft.Entry.{Entry, is_configuration}
use turboraft.Core.{Core, Ready, Message, SnapshotRequest, ReadState}
use turboraft.Core.Apply.{ack_ready, ack_applied, advance}
use turboraft.Host.{
  Stage, idle, storage_begin, storage_hard_state, storage_truncate, storage_append,
  storage_commit_index, storage_commit, transport_send, state_machine_apply, core_advance, complete,
  Effect, begin, commit, rollback, write_hard_state, truncate_log, append_log, write_commit_index,
  enqueue, enqueue_snapshot, apply_batch, History, Host, ready_needs_storage, first_read_state,
}

-- `struct tr_raft_runtime`, but for the callbacks; `blocked_entry_count` is a length.
pub record Runtime : Type 0 where
  pub core : Core
  pub blocked_entries : List Entry
  pub blocked_apply_begin : ℕ
  pub apply_blocked : Bool
  pub faulted : Bool

-- `tr_raft_runtime_result_t`
pub record RuntimeResult : Type 0 where
  pub stage : Stage
  pub cause : Result (Unit {0})
  pub rollback_error : Result (Unit {0})
  pub messages_enqueued : ℕ
  pub snapshots_requested : ℕ
  pub applied_through : ℕ
  pub durable : Bool
  pub read_state : Option ReadState

abbrev pub no_result : RuntimeResult
no_result = record {
  stage = idle;
  cause = ok tt;
  rollback_error = ok tt;
  messages_enqueued = 0;
  snapshots_requested = 0;
  applied_through = 0;
  durable = false;
  read_state = none;
}

-- What a call works on.
pub record Work : Type 0 where
  pub runtime : Runtime
  pub result : RuntimeResult
  pub history : History

-- A status with the state behind it.
abbrev pub Step : Type 0
Step = Result (Unit {0}) × Work

abbrev pub at_stage : Stage → Work → Work
at_stage stage w = record w { result = record (w.result) { stage = stage } }

unfoldable pub fail : Stage → Error → Work → Step
fail stage e w = (
  err e,
  record w {
    runtime = record (w.runtime) { faulted = true };
    result = record (w.result) { stage = stage; cause = err e };
  },
)

unfoldable pub clear_apply_block : Work → Work
clear_apply_block w = record w {
  runtime = record (w.runtime) {
    blocked_entries = [];
    blocked_apply_begin = 0;
    apply_blocked = false;
  };
}

-- An error after which the code clears the block.
unfoldable pub or_clear : Step → Step
unfolding clear_apply_block
or_clear = on_error (λ e w. (err e, clear_apply_block w))

-- The loop of `tr_runtime_ack_applied_range`.
unfoldable pub ack_entries : List Entry → Work → Step
unfolding fail
ack_entries [] w = done w
ack_entries (entry ∷ entries) w = elim (ack_applied entry.index w.runtime.core) [
  | err e ↦ fail core_advance e w
  | ok core ↦ ack_entries entries (record w {
    runtime = record (w.runtime) { core = core };
    result = record (w.result) { applied_through = entry.index };
  })
]

unfoldable pub ack_applied_range : List Entry → Work → Step
unfolding ack_entries
ack_applied_range entries w = ack_entries entries (at_stage core_advance w)

unfoldable pub ack_ready_prefix : ℕ → List Entry → Work → Step
unfolding fail ack_applied_range
ack_ready_prefix entry_count applied w = elim (ack_ready entry_count w.runtime.core) [
  | err e ↦ fail core_advance e (at_stage core_advance w)
  | ok core ↦ ack_applied_range applied (record w { runtime = record (w.runtime) { core = core } })
]

-- `tr_raft_runtime_create`, where the memory is there.
unfoldable pub create : Core → Runtime
create core = record {
  core = core;
  blocked_entries = [];
  blocked_apply_begin = 0;
  apply_blocked = false;
  faulted = false;
}
