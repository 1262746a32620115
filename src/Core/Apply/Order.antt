-- ===== src/Core/Apply/Order.antt =====
-- The order of the indices that the host's acknowledgements move, in src/core/raft_core.c.
use turboraft.Prelude.{ℕ, ◌+◌, ◌≤◌, ◌≡◌, ◌⊎◌, false, arith}
use turboraft.Status.{ok}
use turboraft.Conf.{u64_max}
use turboraft.Core.{Core}
use turboraft.Core.Apply.{ack_ready, ack_applied}

-- What has been applied has been admitted, what has been admitted has been committed, and the entries
-- that wait for admission are between these.
pub record IsOrdered (core : Core) : Type 0 where
  pub applied_admitted : core.applied_index ≤ core.apply_admitted_index
  pub admitted_committed : core.apply_admitted_index ≤ core.commit_index
  pub pending_committed : core.pending_apply_index ≤ core.commit_index
  pub commit_fits : core.commit_index ≤ u64_max

-- What admitting `n` entries does.
pub record Admits (n : ℕ) (before after : Core) : Type 0 where
  pub ordered : IsOrdered after
  pub admitted : after.apply_admitted_index ≡ before.apply_admitted_index + n
  pub offered : (n ≡ 0) ⊎ (after.apply_admitted_index ≤ before.pending_apply_index)
  pub closed : after.ready_outstanding ≡ false

-- What applying the entry at an index does.
pub record Applies (index : ℕ) (before after : Core) : Type 0 where
  pub ordered : IsOrdered after
  pub next : index ≡ before.applied_index + 1
  pub applied : after.applied_index ≡ index
  pub was_admitted : index ≤ before.apply_admitted_index

-- Where a ready value's acknowledgement is taken, exactly the acknowledged number of entries is admitted,
-- not past those offered, the indices stay in order and the ready value is closed.
pub ack_ready-Admits :
    (n : ℕ) (core after : Core) → IsOrdered core → ack_ready n core ≡ ok after → Admits n core after
unfolding ack_ready
ack_ready-Admits n core after h e = record {
  ordered = record {
    applied_admitted = ground arith;
    admitted_committed = ground arith;
    pending_committed = ground arith;
    commit_fits = ground arith;
  };
  admitted = ground arith;
  offered = ground arith;
  closed = ground arith;
}

-- Where an applied entry's acknowledgement is taken, the entry is the one behind the last applied, it
-- has been admitted, and the indices stay in order.
pub ack_applied-Applies :
    (index : ℕ) (core after : Core)
    → IsOrdered core
    → ack_applied index core ≡ ok after
    → Applies index core after
unfolding ack_applied
ack_applied-Applies index core after h e = record {
  ordered = record {
    applied_admitted = ground arith;
    admitted_committed = ground arith;
    pending_committed = ground arith;
    commit_fits = ground arith;
  };
  next = ground arith;
  applied = ground arith;
  was_admitted = ground arith;
}

-- The entries that `advance` passes have all been offered; the indices stay in order and do not sink.
pub record Advances (before after : Core) : Type 0 where
  pub ordered : IsOrdered after
  pub applied_le : before.applied_index ≤ after.applied_index
  pub offered :
      (after.applied_index ≡ before.applied_index)
      ⊎ (after.applied_index ≡ before.pending_apply_index)
  pub closed : after.ready_outstanding ≡ false
