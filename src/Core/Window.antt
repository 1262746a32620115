-- ===== src/Core/Window.antt =====
-- src/core/raft_core.c, the `tr_append_window_` functions: the append requests in flight to a peer.
use turboraft.Prelude.{
  ℕ, zero, suc, ◌+◌, ◌-◌, ◌%◌, Bool, true, false, Option, none, some, ltb, leb, ◌==◌, if◌then◌else◌,
}
use turboraft.Core.{Inflight, AppendWindow, max_inflight, update}

abbrev pub no_inflight : Inflight
no_inflight = record { previous_index = 0; last_index = 0; elapsed_ticks = 0 }

unfoldable pub reset : Bool → AppendWindow
reset probe = record { items = λ _. no_inflight; head = 0; count = 0; probe = probe }

abbrev pub physical : AppendWindow → ℕ → ℕ
physical window logical_index = (window.head + logical_index) % max_inflight

unfoldable pub at : AppendWindow → ℕ → Inflight
at window logical_index = window.items (physical window logical_index)

-- `tr_append_window_push`: whether it was added, and the window.
unfoldable pub push : AppendWindow → ℕ → ℕ → Bool × AppendWindow
push window previous_index last_index = if leb max_inflight window.count then (false, window) else (
  true,
  record window {
    items =
        update window.items (physical window window.count)
          (record { previous_index = previous_index; last_index = last_index; elapsed_ticks = 0 });
    count = window.count + 1;
  },
)

-- The loop of `tr_append_window_find`, over the `n` items from `i` on.
unfoldable pub find_from : ℕ → ℕ → AppendWindow → ℕ → Option ℕ
find_from zero i window previous_index = none
find_from (suc n) i window previous_index =
    if (at window i).previous_index == previous_index
    then some i
    else find_from n (i + 1) window previous_index

unfoldable pub find : AppendWindow → ℕ → Option ℕ
unfolding find_from
find window previous_index = find_from window.count 0 window previous_index

-- The body of the loop of `tr_append_window_release_through`.
unfoldable pub release_front : AppendWindow → AppendWindow
release_front window = record window {
  items = update window.items window.head no_inflight;
  head = (window.head + 1) % max_inflight;
  count = window.count - 1;
}

-- The loop, with the items in the window as fuel.
unfoldable pub release_loop : ℕ → AppendWindow → ℕ → AppendWindow
release_loop zero window match_index = window
release_loop (suc fuel) window match_index =
    let rest = release_loop fuel (release_front window) match_index in
    if window.count == 0
    then window
    else if ltb match_index (at window 0).last_index
    then window
    else rest

unfoldable pub release_through : AppendWindow → ℕ → AppendWindow
unfolding release_loop
release_through window match_index =
    let released = release_loop window.count window match_index in
    if released.count == 0 then record released { head = 0 } else released

unfoldable pub oldest_elapsed : AppendWindow → ℕ
oldest_elapsed window = if window.count == 0 then 0 else (at window 0).elapsed_ticks
