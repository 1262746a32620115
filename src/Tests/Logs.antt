-- ===== src/Tests/Logs.antt =====
-- The log at concrete inputs.
use turboraft.Prelude.{ℕ, List, [], ◌∷◌, arith}
use turboraft.Entry.{Entry}
use turboraft.Status.{stl_ok}
use turboraft.Vec.{Vec}
use turboraft.Log.{Log}
use turboraft.Log.Reconcile.{reconcile}
use turboraft.Log.Reconcile.Refine.{Reconciles, reconcile_refines}

-- A container whose calls succeed.
abbrev pub plenty : Vec
plenty = record {
  init_bytes = λ _. stl_ok;
  reserve = λ _. stl_ok;
  push = λ _. stl_ok;
  resize = λ _ _. stl_ok;
}

abbrev pub command : ℕ → ℕ → Entry
command index term = record {
  index = index;
  term = term;
  command_id = index;
  data_length = 1;
  payload = term ∷ [];
}

-- Entries 4 and 5 of term 2 behind a snapshot at 3.
abbrev short_log : Log
short_log = record {
  entries = command 4 2 ∷ command 5 2 ∷ [];
  max_entries = 8;
  base_index = 3;
  base_term = 1;
}

-- Entry 4 is there, entry 5 conflicts, entry 6 is new.
abbrev incoming : List Entry
incoming = command 4 2 ∷ command 5 3 ∷ command 6 3 ∷ []

reconcile_refines_example :
    Reconciles short_log 3 1 incoming (reconcile plenty short_log 3 1 incoming 3)
reconcile_refines_example =
    reconcile_refines plenty short_log 3 1 incoming 3 (omega arith) (omega arith) (omega arith)
