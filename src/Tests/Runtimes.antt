-- ===== src/Tests/Runtimes.antt =====
-- The runtime with hosts that take every call, or are busy.
use turboraft.Prelude.{◌≡◌, refl, true, false, [], ◌++◌, drop, if◌then◌else◌, ◌==◌, length}
use turboraft.Status.{ok, err, ebusy}
use turboraft.Core.{Ready, leader}
use turboraft.Host.{Host, ready_needs_storage}
use turboraft.Runtime.{Work, no_result, Runtime}
use turboraft.Runtime.Deliver.{apply_from}
use turboraft.Runtime.Process.{process}
use turboraft.Runtime.Durable.{DurableFirst, is_durable, process-DurableFirst}
use turboraft.Runtime.Once.{Once, taken, commands, apply_from-Once}
use turboraft.Tests.Nodes.{node, no_ready, four_entries}

-- Every callback is set, and returns SALTS_OK.
abbrev willing : Host
willing = record {
  storage_complete = true;
  has_enqueue = true;
  has_enqueue_snapshot = true;
  has_apply_batch = true;
  answer = λ history effect. ok tt;
}

-- The second call is refused for now.
abbrev busy : Host
busy = record willing {
  answer = λ history effect. if length history == 0 then ok tt else err ebusy;
}

abbrev runtime : Runtime
runtime = record {
  core = node leader;
  blocked_entries = [];
  blocked_apply_begin = 0;
  apply_blocked = false;
  faulted = false;
}

-- A new term is to be stored, and a command to be applied.
abbrev two_reports : Ready
two_reports = record no_ready {
  hard_state_changed = true;
  term = 3;
  committed_entries = four_entries.entries;
}

abbrev before : Work
before = record { runtime = runtime; result = no_result; history = [] }

needs_storage : ready_needs_storage two_reports ≡ true
unfolding ready_needs_storage
needs_storage = refl

process-DurableFirst_example :
    DurableFirst (process willing two_reports runtime []).1.history
    × ((process willing two_reports runtime []).0 ≡ ok tt
        → is_durable (process willing two_reports runtime []).1.history ≡ true)
process-DurableFirst_example = process-DurableFirst willing two_reports runtime needs_storage

apply_from-Once_example :
    Once
      (taken [] ++ commands (drop 0 four_entries.entries))
      (apply_from busy four_entries.entries 0 false before)
apply_from-Once_example = apply_from-Once busy four_entries.entries 0 false before
