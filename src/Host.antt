-- ===== src/Host.antt =====
-- What the host gives a runtime in include/turboraft/raft_runtime.h: storage, transport and state
-- machine. Their code is the host's: a callback is an effect, and what it returns is a parameter.
use turboraft.Prelude.{ℕ, Bool, ◌||◌, List, [], ◌∷◌, Option, none, some}
use turboraft.Status.{Result}
use turboraft.Entry.{Entry}
use turboraft.Core.{Message, SnapshotRequest, Ready, ReadState}

-- `tr_raft_runtime_stage_t`
pub data Stage : Type 0 where
  idle storage_begin storage_hard_state storage_truncate storage_append storage_commit_index : Stage
  storage_commit transport_send state_machine_apply core_advance complete : Stage

-- A callback with its arguments.
pub data Effect : Type 0 where
  begin commit rollback : Effect
  write_hard_state : ℕ → ℕ → Effect
  truncate_log : ℕ → Effect
  append_log : List Entry → Effect
  write_commit_index : ℕ → Effect
  enqueue : Message → Effect
  enqueue_snapshot : SnapshotRequest → Effect
  apply_batch : List Entry → Effect

-- The calls that have been made with what they returned, the last one first.
abbrev pub History : Type 0
History = List (Effect × Result (Unit {0}))

-- Which callbacks are set, and what a call returns behind a history.
pub record Host : Type 0 where
  pub storage_complete : Bool
  pub has_enqueue : Bool
  pub has_enqueue_snapshot : Bool
  pub has_apply_batch : Bool
  pub answer : History → Effect → Result (Unit {0})

-- `tr_ready_needs_storage`
unfoldable pub ready_needs_storage : Ready → Bool
ready_needs_storage ready = ready.hard_state_changed || ready.log_changed || ready.commit_changed

-- `read_state_ready` with `read_state`.
abbrev pub first_read_state : List ReadState → Option ReadState
first_read_state [] = none
first_read_state (r ∷ rs) = some r
