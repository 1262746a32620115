-- ===== src/Runtime/Deliver.antt =====
-- src/runtime/raft_runtime.c: `tr_runtime_apply_from`, the application of committed entries.
use turboraft.Prelude.{
  ℕ, zero, suc, ◌+◌, Bool, true, false, ◌&&◌, not, List, [], ◌∷◌, ◌==◌, if◌then◌else◌, length, take,
  drop,
}
use turboraft.Calls.{on_error, ◌▸◌, done}
use turboraft.Status.{Error, einval, ebusy, err}
use turboraft.Entry.{Entry, is_configuration}
use turboraft.Host.{state_machine_apply, apply_batch, Host}
use turboraft.Runtime.{
  Work, Step, at_stage, fail, clear_apply_block, or_clear, ack_applied_range, ack_ready_prefix,
}
use turboraft.Runtime.Io.{call}

unfoldable pub is_busy : Error → Bool
is_busy ebusy = true
is_busy _ = false

-- The entries up to the first that carries a configuration.
unfoldable pub command_prefix : List Entry → List Entry
command_prefix [] = []
command_prefix (e ∷ es) = if is_configuration e then [] else e ∷ command_prefix es

unfoldable pub last_index_of : ℕ → List Entry → ℕ
last_index_of i [] = i
last_index_of i (e ∷ es) = last_index_of e.index es

-- Behind the loop of `tr_runtime_apply_from`.
unfoldable pub applied_all : List Entry → Bool → Work → Step
unfolding last_index_of clear_apply_block
applied_all entries acknowledged w = done (
    clear_apply_block (
      if not (length entries == 0) && not acknowledged
      then record w {
        result = record (w.result) {
          applied_through = last_index_of w.result.applied_through entries;
        };
      }
      else w))

-- The acknowledgement of entries that have just been applied.
unfoldable pub acknowledge_applied : Bool → List Entry → Work → Step
unfolding or_clear ack_applied_range
acknowledge_applied acknowledged entries w =
    if acknowledged
    then or_clear (ack_applied_range entries w) ▸ (λ w. done (at_stage state_machine_apply w))
    else done w

-- The acknowledgement of the ready value, where it has not been given yet.
unfoldable pub acknowledge_ready : Bool → List Entry → ℕ → Work → Step
unfolding or_clear ack_ready_prefix
acknowledge_ready acknowledged entries first w =
    if acknowledged
    then done w
    else or_clear (ack_ready_prefix (length entries) (take first entries) w)

unfoldable pub block_at : List Entry → ℕ → Work → Work
block_at entries first w = record w {
  runtime = record (w.runtime) {
    blocked_entries = entries;
    blocked_apply_begin = first;
    apply_blocked = true;
  };
  result = record (w.result) { stage = state_machine_apply; cause = err ebusy };
}

-- The state machine has refused the entries from `first` on.
unfoldable pub refused : List Entry → ℕ → Bool → Error → Work → Step
unfolding acknowledge_ready block_at fail clear_apply_block
refused entries first acknowledged e w = acknowledge_ready acknowledged entries first w ▸ λ w.
    if is_busy e
    then (err ebusy, block_at entries first w)
    else fail state_machine_apply e (clear_apply_block w)

module _ (host : Host) where
  -- A round of the loop of `tr_runtime_apply_from` over the entries that are left; `next` goes on
  -- behind as many entries as it is given.
  unfoldable pub apply_round : List Entry → ℕ → Bool → (ℕ → Work → Step) → List Entry → Work → Step
  unfolding acknowledge_applied refused applied_all command_prefix
  apply_round entries first acknowledged next [] w = applied_all entries acknowledged w
  apply_round entries first acknowledged next (e ∷ es) w =
      let batch = command_prefix (e ∷ es) in
      if is_configuration e
      then acknowledge_applied acknowledged (e ∷ []) w ▸ next 1
      else if not host.has_apply_batch
      then fail state_machine_apply einval w
      else on_error (refused entries first acknowledged) (call host (apply_batch batch) w)
        ▸ acknowledge_applied acknowledged batch
        ▸ next (length batch)

  -- Each round takes an entry at least, so the number of entries is enough fuel.
  unfoldable pub apply_loop : ℕ → List Entry → ℕ → Bool → Work → Step
  unfolding apply_round
  apply_loop zero entries first acknowledged w = applied_all entries acknowledged w
  apply_loop (suc fuel) entries first acknowledged w =
      apply_round entries first acknowledged (λ n. apply_loop fuel entries (first + n) acknowledged)
        (drop first entries) w

  unfoldable pub apply_from : List Entry → ℕ → Bool → Work → Step
  unfolding apply_loop
  apply_from entries first acknowledged w =
      apply_loop (length entries) entries first acknowledged (at_stage state_machine_apply w)
