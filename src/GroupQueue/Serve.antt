-- ===== src/GroupQueue/Serve.antt =====
-- src/transport/raft_group_queue.c: what takes payloads out, and what is shown of the queue.
use turboraft.Prelude.{
  ℕ, zero, suc, ◌+◌, ◌-◌, ◌%◌, Bool, false, ◌||◌, ◌&&◌, not, Option, none, some, List, [], ◌∷◌,
  ◌++◌, leb, ◌==◌, if◌then◌else◌, get_elem?, set,
}
use turboraft.Status.{einval, eproto, ebusy, enoent, Result, ok, err}
use turboraft.GroupQueue.{Config, Cell, Slot, Queue, no_cell, update_cell, find_group, ring}

module _ {A : Type 0} where
  unfoldable pub has_entry : Option (Slot A) → Bool
  has_entry none = false
  has_entry (some s) = not (s.group_id == 0) && not (s.count == 0)

  -- The loop of `tr_raft_group_queue_peek_next`, over the offsets that are left.
  unfoldable pub peek_from : Queue A → ℕ → ℕ → Option ℕ
  unfolding has_entry
  peek_from q zero offset = none
  peek_from q (suc n) offset =
      let i = (q.cursor + offset) % q.config.max_groups in
      if has_entry (get_elem? q.slots i) then some i else peek_from q n (offset + 1)

  abbrev pub head_of : Option (Slot A) → Option A
  head_of none = none
  head_of (some s) = (s.entries s.head).owned

  -- The token and the payload that is shown.
  unfoldable pub peek_next : Queue A → Result (ℕ × Option A)
  unfolding peek_from
  peek_next q =
      if not q.initialized
      then err einval
      else if q.queued_item_count == 0
      then err ebusy
      else elim (peek_from q q.config.max_groups 0) [
        | none ↦ err eproto
        | some i ↦ ok (i, head_of (get_elem? q.slots i))
      ]

  -- A slot behind its first entry; an empty one is free.
  unfoldable pub shifted : Config → Slot A → Slot A
  shifted c s =
      let bytes = (s.entries s.head).data_bytes in
      let rest : Slot A = record s {
        entries = update_cell s.entries s.head no_cell;
        head = (s.head + 1) % c.per_group_item_capacity;
        count = s.count - 1;
        queued_data_bytes = s.queued_data_bytes - bytes;
      } in
      if rest.count == 0
      then record rest { group_id = 0; head = 0; queued_data_bytes = 0 }
      else rest

  -- The queue without the first entry of a slot.
  unfoldable pub removed : ℕ → Slot A → Queue A → Queue A
  unfolding shifted
  removed token s q = record q {
    slots = set q.slots token (shifted q.config s);
    queued_item_count = q.queued_item_count - 1;
    queued_data_bytes = q.queued_data_bytes - (s.entries s.head).data_bytes;
    cursor = (token + 1) % q.config.max_groups;
    active_group_count = (if s.count == 1 then q.active_group_count - 1 else q.active_group_count);
  }

  -- What `tr_raft_group_queue_pop` hands back or, where the caller does not want it, releases.
  unfoldable pub pop : ℕ → Queue A → Result (Cell A) × Queue A
  unfolding has_entry removed
  pop token q =
      if not q.initialized || leb q.config.max_groups token
      then (err einval, q)
      else elim (get_elem? q.slots token) [
        | none ↦ (err eproto, q)
        | some s ↦
            if not (has_entry (some s))
            then (err eproto, q)
            else (ok (s.entries s.head), removed token s q)
      ]

  -- The payloads that `tr_raft_group_queue_clear` releases, slot by slot.
  unfoldable pub released : ℕ → List (Slot A) → List (Cell A)
  unfolding ring
  released cap [] = []
  released cap (s ∷ ss) = ring cap s.entries s.head s.count ++ released cap ss

  -- The cells of a ring that are cleared.
  unfoldable pub wiped : ℕ → (ℕ → Cell A) → ℕ → ℕ → ℕ → Cell A
  wiped cap cells head zero = cells
  wiped cap cells head (suc n) = wiped cap (update_cell cells head no_cell) ((head + 1) % cap) n

  unfoldable pub cleared : ℕ → List (Slot A) → List (Slot A)
  unfolding wiped
  cleared cap [] = []
  cleared cap (s ∷ ss) =
      record s {
        group_id = 0;
        entries = wiped cap s.entries s.head s.count;
        head = 0;
        count = 0;
        queued_data_bytes = 0;
      }
      ∷ cleared cap ss

  unfoldable pub clear : Queue A → Result (List (Cell A)) × Queue A
  unfolding released cleared
  clear q = if not q.initialized then (err einval, q) else (
    ok (released q.config.per_group_item_capacity q.slots),
    record q {
      slots = cleared q.config.per_group_item_capacity q.slots;
      active_group_count = 0;
      queued_item_count = 0;
      queued_data_bytes = 0;
      cursor = 0;
    },
  )

  -- The payloads that are released, and the memory of the queue set to 0.
  unfoldable pub destroy : Queue A → List (Cell A) × Queue A
  unfolding released
  destroy q = if not q.initialized then ([], q) else (
    released q.config.per_group_item_capacity q.slots,
    record {
      config = record {
        max_groups = 0;
        total_item_capacity = 0;
        total_data_bytes = 0;
        per_group_item_capacity = 0;
        per_group_data_bytes = 0;
      };
      slots = [];
      active_group_count = 0;
      queued_item_count = 0;
      queued_data_bytes = 0;
      cursor = 0;
      initialized = false;
    },
  )

  unfoldable pub size : Queue A → ℕ
  size q = if q.initialized then q.queued_item_count else 0

  unfoldable pub data_bytes : Queue A → ℕ
  data_bytes q = if q.initialized then q.queued_data_bytes else 0

  unfoldable pub active_groups : Queue A → ℕ
  active_groups q = if q.initialized then q.active_group_count else 0

  -- The count and the bytes of a group.
  unfoldable pub get_group_status : Queue A → ℕ → Result (ℕ × ℕ)
  unfolding find_group
  get_group_status q group =
      if not q.initialized || group == 0 then err einval else elim (find_group q group) [
        | none ↦ err enoent
        | some i ↦ elim (get_elem? q.slots i) [
          | none ↦ err enoent
          | some s ↦ ok (s.count, s.queued_data_bytes)
        ]
      ]
