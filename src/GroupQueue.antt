-- ===== src/GroupQueue.antt =====
-- src/transport/raft_group_queue.c: a bounded queue of payloads for each group, served in turn.
-- A payload is any value with the id of its group. The sums of `size_t` are below the capacities, and
-- the differences are taken below them.
pub mod Serve
pub mod Fifo
pub mod Groups
pub mod Valid
pub mod Refine
pub mod Accept
pub mod Offer
pub mod Reach
pub mod Turn
pub mod Refuse
use turboraft.Prelude.{
  ℕ, zero, suc, ◌+◌, ◌-◌, ◌%◌, Bool, true, false, ◌||◌, ◌&&◌, not, Option, none, some, List, [],
  ◌∷◌, ◌++◌, ltb, leb, ◌==◌, if◌then◌else◌, get_elem?, set,
}
use turboraft.Status.{Error, einval, eproto, enospc, ebusy, enoent, enomem, Result, ok, err}

-- `tr_raft_group_queue_config_t`, but for the callback.
pub record Config : Type 0 where
  pub max_groups : ℕ
  pub total_item_capacity : ℕ
  pub total_data_bytes : ℕ
  pub per_group_item_capacity : ℕ
  pub per_group_data_bytes : ℕ

-- `max_entries` and `max_slots` are what SIZE_MAX holds of each.
unfoldable pub config_valid : ℕ → ℕ → Config → Bool
config_valid max_entries max_slots c =
    not (c.max_groups == 0)
    && not (c.total_item_capacity == 0)
    && not (c.total_data_bytes == 0)
    && not (c.per_group_item_capacity == 0)
    && not (c.per_group_data_bytes == 0)
    && leb c.max_groups c.total_item_capacity
    && leb c.per_group_item_capacity c.total_item_capacity
    && leb c.per_group_data_bytes c.total_data_bytes
    && leb c.per_group_item_capacity max_entries
    && leb c.max_groups max_slots

-- `tr_raft_group_queue_entry_t`; an entry that is cleared holds `none`.
pub record Cell (A : Type 0) : Type 0 where
  pub owned : Option A
  pub data_bytes : ℕ

-- `struct tr_raft_group_queue_slot`: a ring of cells, which `allocated` says are there.
pub record Slot (A : Type 0) : Type 0 where
  pub group_id : ℕ
  pub allocated : Bool
  pub entries : ℕ → Cell A
  pub head : ℕ
  pub count : ℕ
  pub queued_data_bytes : ℕ

-- `tr_raft_group_queue_t`
pub record Queue (A : Type 0) : Type 0 where
  pub config : Config
  pub slots : List (Slot A)
  pub active_group_count : ℕ
  pub queued_item_count : ℕ
  pub queued_data_bytes : ℕ
  pub cursor : ℕ
  pub initialized : Bool

module _ {A : Type 0} where
  abbrev pub no_cell : Cell A
  no_cell = record { owned = none; data_bytes = 0 }

  abbrev pub free_slot : Slot A
  free_slot = record {
    group_id = 0;
    allocated = false;
    entries = λ _. no_cell;
    head = 0;
    count = 0;
    queued_data_bytes = 0;
  }

  unfoldable pub free_slots : ℕ → List (Slot A)
  free_slots zero = []
  free_slots (suc n) = free_slot ∷ free_slots n

  -- `tr_raft_group_queue_init` behind its checks, where `calloc_ok` says that the slots are there.
  unfoldable pub init : ℕ → ℕ → Bool → Config → Result (Queue A)
  unfolding config_valid free_slots
  init max_entries max_slots calloc_ok c =
      if not (config_valid max_entries max_slots c)
      then err einval
      else if not calloc_ok
      then err enomem
      else ok (record {
        config = c;
        slots = free_slots c.max_groups;
        active_group_count = 0;
        queued_item_count = 0;
        queued_data_bytes = 0;
        cursor = 0;
        initialized = true;
      })

  -- The loop of `tr_raft_group_queue_find_group`, and with 0 that of `tr_raft_group_queue_find_free`.
  unfoldable pub find_from : ℕ → ℕ → List (Slot A) → Option ℕ
  find_from group i [] = none
  find_from group i (s ∷ ss) = if s.group_id == group then some i else find_from group (i + 1) ss

  unfoldable pub find_group : Queue A → ℕ → Option ℕ
  unfolding find_from
  find_group q group = find_from group 0 q.slots

  unfoldable pub prepare_slot : Bool → ℕ → Slot A → Result (Slot A)
  prepare_slot calloc_ok group s =
      if not s.allocated && not calloc_ok
      then err enomem
      else ok (record {
        group_id = group;
        allocated = true;
        entries = (if s.allocated then s.entries else λ _. no_cell);
        head = 0;
        count = 0;
        queued_data_bytes = 0;
      })

  abbrev pub update_cell : (ℕ → Cell A) → ℕ → Cell A → ℕ → Cell A
  update_cell cells i c j = if i == j then c else cells j

  -- A slot that has no room, and one with the entry at its tail.
  unfoldable pub slot_full : Config → ℕ → Slot A → Bool
  slot_full c bytes s =
      leb c.per_group_item_capacity s.count
      || ltb (c.per_group_data_bytes - s.queued_data_bytes) bytes

  unfoldable pub appended : Config → A → ℕ → Slot A → Slot A
  appended c owned bytes s = record s {
    entries =
        update_cell s.entries ((s.head + s.count) % c.per_group_item_capacity)
          (record { owned = some owned; data_bytes = bytes });
    count = s.count + 1;
    queued_data_bytes = s.queued_data_bytes + bytes;
  }

  unfoldable pub put : ℕ → Slot A → A → ℕ → Queue A → Result (Unit {0}) × Queue A
  unfolding slot_full appended
  put i s owned bytes q =
      if slot_full q.config bytes s
      then (
        err enospc,
        (if s.count == 0 && s.queued_data_bytes == 0
            then record q {
              slots = set q.slots i (record s { group_id = 0 });
              active_group_count = q.active_group_count - 1;
            }
            else q),
      )
      else (
        ok tt,
        record q {
          slots = set q.slots i (appended q.config owned bytes s);
          queued_item_count = q.queued_item_count + 1;
          queued_data_bytes = q.queued_data_bytes + bytes;
        },
      )

  -- The part of `tr_raft_group_queue_enqueue` for a group that has no slot.
  unfoldable pub enqueue_new : Bool → ℕ → A → ℕ → Queue A → Result (Unit {0}) × Queue A
  unfolding find_group prepare_slot put
  enqueue_new calloc_ok group owned bytes q =
      if leb q.config.max_groups q.active_group_count
      then (err enospc, q)
      else elim (find_group q 0) [
        | none ↦ (err eproto, q)
        | some i ↦ elim (get_elem? q.slots i) [
          | none ↦ (err eproto, q)
          | some s ↦ elim (prepare_slot calloc_ok group s) [
            | err e ↦ (err e, q)
            | ok s' ↦ put i s' owned bytes (record q {
              slots = set q.slots i s';
              active_group_count = q.active_group_count + 1;
            })
          ]
        ]
      ]

  unfoldable pub enqueue : Bool → ℕ → A → ℕ → Queue A → Result (Unit {0}) × Queue A
  unfolding enqueue_new
  enqueue calloc_ok group owned bytes q =
      if not q.initialized || group == 0
      then (err einval, q)
      else if leb q.config.total_item_capacity q.queued_item_count
          || ltb (q.config.total_data_bytes - q.queued_data_bytes) bytes
      then (err enospc, q)
      else elim (find_group q group) [
        | none ↦ enqueue_new calloc_ok group owned bytes q
        | some i ↦ elim (get_elem? q.slots i) [
          | none ↦ (err eproto, q)
          | some s ↦ put i s owned bytes q
        ]
      ]

  -- The entries of a ring, first to last.
  unfoldable pub ring : ℕ → (ℕ → Cell A) → ℕ → ℕ → List (Cell A)
  ring cap cells head zero = []
  ring cap cells head (suc n) = cells head ∷ ring cap cells ((head + 1) % cap) n
