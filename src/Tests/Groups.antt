-- ===== src/Tests/Groups.antt =====
-- The group queue at concrete payloads.
use turboraft.Prelude.{ℕ, ◌≡◌, refl, true, [], ◌∷◌, arith}
use turboraft.Status.{ok, err, enospc}
use turboraft.GroupQueue.{
  Slot, Config, Queue, no_cell, free_slot, update_cell, init, config_valid, free_slots, enqueue,
}
use turboraft.GroupQueue.Serve.{pop, removed}
use turboraft.GroupQueue.Valid.{IsValid}
use turboraft.GroupQueue.Refine.{Pops, pop-Pops}
use turboraft.GroupQueue.Accept.{Puts, Keeps, as_cell}
use turboraft.GroupQueue.Offer.{enqueue-Puts}
use turboraft.GroupQueue.Refuse.{enqueue-Keeps}
use turboraft.GroupQueue.Turn.{Turn, peek_next-Turn}
use turboraft.GroupQueue.Reach.{Reach, start, enqueued, Reach-IsValid}

-- Two groups, of two entries each.
abbrev small : Config
small = record {
  max_groups = 2;
  total_item_capacity = 4;
  total_data_bytes = 100;
  per_group_item_capacity = 2;
  per_group_data_bytes = 50;
}

abbrev fresh : Queue ℕ
fresh = record {
  config = small;
  slots = free_slot ∷ free_slot ∷ [];
  active_group_count = 0;
  queued_item_count = 0;
  queued_data_bytes = 0;
  cursor = 0;
  initialized = true;
}

-- Payload 4, of 10 bytes, for group 7.
abbrev one_slot : Slot ℕ
one_slot = record {
  group_id = 7;
  allocated = true;
  entries = update_cell (λ _. no_cell) 0 (as_cell 4 10);
  head = 0;
  count = 1;
  queued_data_bytes = 10;
}

abbrev one_queued : Queue ℕ
one_queued = record fresh {
  slots = one_slot ∷ free_slot ∷ [];
  active_group_count = 1;
  queued_item_count = 1;
  queued_data_bytes = 10;
}

start_fresh : init 100 100 true small ≡ ok fresh
unfolding init config_valid free_slots
start_fresh = refl

enqueue_first : enqueue true 7 4 10 fresh ≡ (ok tt, one_queued)
unfolding enqueue
enqueue_first = refl

-- Group 8 has a free slot, but 60 bytes are more than it may have.
enqueue_large : enqueue true 8 4 60 one_queued ≡ (
  err enospc,
  record one_queued { slots = one_slot ∷ record free_slot { allocated = true } ∷ [] },
)
unfolding enqueue
enqueue_large = refl

pop_first : pop 0 one_queued ≡ (ok (as_cell 4 10), removed 0 one_slot one_queued)
unfolding pop
pop_first = refl

reached : Reach small one_queued
reached = enqueued true 7 4 10 (ok tt) (start 100 100 start_fresh) enqueue_first

fresh-IsValid : IsValid fresh
fresh-IsValid = Reach-IsValid small fresh (start 100 100 start_fresh)

one_queued-IsValid : IsValid one_queued
one_queued-IsValid = Reach-IsValid small one_queued reached

Reach-IsValid_example : IsValid one_queued
Reach-IsValid_example =
    Reach-IsValid small one_queued
      (enqueued true 7 4 10 (ok tt) (start 100 100 start_fresh) enqueue_first)

enqueue-Puts_example : Puts fresh 7 (as_cell 4 10) one_queued
enqueue-Puts_example = enqueue-Puts fresh one_queued true 7 4 10 fresh-IsValid enqueue_first

enqueue-Keeps_example :
    Keeps one_queued
      (record one_queued { slots = one_slot ∷ record free_slot { allocated = true } ∷ [] })
enqueue-Keeps_example =
    enqueue-Keeps one_queued
      (record one_queued { slots = one_slot ∷ record free_slot { allocated = true } ∷ [] }) true 8 4
      60 enospc one_queued-IsValid enqueue_large

pop-Pops_example : Pops one_queued 0 (as_cell 4 10) (removed 0 one_slot one_queued)
pop-Pops_example =
    pop-Pops one_queued (removed 0 one_slot one_queued) 0 (as_cell 4 10) one_queued-IsValid
      pop_first

peek_next-Turn_example : Turn one_queued
peek_next-Turn_example =
    peek_next-Turn one_queued one_queued-IsValid (λ e. absurd (omega (arith, e)))
