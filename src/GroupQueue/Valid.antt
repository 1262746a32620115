-- ===== src/GroupQueue/Valid.antt =====
-- The invariant of a group queue, and what a slot's changes do to it.
use turboraft.Prelude.{
  ℕ, zero, suc, ◌+◌, ◌-◌, ◌%◌, ◌≤◌, ◌<◌, ◌≡◌, ◌≢◌, refl, ap, true, false, some, List, [], ◌∷◌, ◌++◌,
  ◌==◌, if◌then◌else◌, arith, inl, inr, set, length, Bool-cases,
}
use turboraft.GroupQueue.{Cell, Slot, Config, Queue, slot_full, appended, ring}
use turboraft.GroupQueue.Serve.{shifted}
use turboraft.GroupQueue.Fifo.{contents, contents-appended, contents-shifted}
use turboraft.GroupQueue.Groups.{Distinct, total, AllSlots}

module _ {A : Type 0} where
  abbrev pub bytes_of : List (Cell A) → ℕ
  bytes_of [] = 0
  bytes_of (x ∷ xs) = x.data_bytes + bytes_of xs

  pub bytes_of-append : (xs ys : List (Cell A)) → bytes_of (xs ++ ys) ≡ bytes_of xs + bytes_of ys
  bytes_of-append [] ys = omega arith
  bytes_of-append (x ∷ xs) ys = omega (arith, bytes_of-append xs ys)

  pub record IsRing (c : Config) (s : Slot A) : Type 0 where
    pub head_lt : s.head < c.per_group_item_capacity
    pub count_le : s.count ≤ c.per_group_item_capacity
    pub bytes_eq : s.queued_data_bytes ≡ bytes_of (contents c.per_group_item_capacity s)
    pub bytes_le : s.queued_data_bytes ≤ c.per_group_data_bytes

  -- A slot is of a group exactly when it holds an entry.
  pub record IsSlot (c : Config) (s : Slot A) : Type 0 where
    pub is_ring : IsRing c s
    pub free_empty : s.group_id ≡ 0 → s.count ≡ 0
    pub empty_free : s.count ≡ 0 → s.group_id ≡ 0

  abbrev pub in_use : Slot A → ℕ
  in_use s = if s.group_id == 0 then 0 else 1

  pub record IsValid (q : Queue A) : Type 0 where
    pub slots_length : length q.slots ≡ q.config.max_groups
    pub slots_valid : AllSlots (IsSlot q.config) q.slots
    pub distinct : Distinct q.slots
    pub item_count : q.queued_item_count ≡ total (λ (s : Slot A). s.count) q.slots
    pub byte_count : q.queued_data_bytes ≡ total (λ (s : Slot A). s.queued_data_bytes) q.slots
    pub group_count : q.active_group_count ≡ total in_use q.slots
    pub items_le : q.queued_item_count ≤ q.config.total_item_capacity
    pub bytes_le : q.queued_data_bytes ≤ q.config.total_data_bytes
    pub cursor_lt : q.cursor < q.config.max_groups
    pub set_up : q.initialized ≡ true

  pub length-set : (xs : List (Slot A)) (j : ℕ) (s : Slot A) → length (set xs j s) ≡ length xs
  length-set [] j s = refl
  length-set (x ∷ xs) zero s = refl
  length-set (x ∷ xs) (suc j) s = ap suc (length-set xs j s)

  pub set-set : (xs : List (Slot A)) (j : ℕ) (s t : Slot A) → set (set xs j s) j t ≡ set xs j t
  set-set [] j s t = refl
  set-set (x ∷ xs) zero s t = refl
  set-set (x ∷ xs) (suc j) s t = ap (◌∷◌ x) (set-set xs j s t)

  pub appended-IsSlot :
      (c : Config) (owned : A) (bytes : ℕ) (s : Slot A)
      → IsRing c s
      → s.group_id ≢ 0
      → slot_full c bytes s ≡ false
      → IsSlot c (appended c owned bytes s)
  unfolding slot_full appended
  appended-IsSlot c owned bytes s v nz room =
      let lt : s.count < c.per_group_item_capacity = ground (arith, room) in
      let e = ap bytes_of (contents-appended c owned bytes s v.head_lt lt) in
      let f =
        bytes_of-append (contents c.per_group_item_capacity s)
          (record { owned = some owned; data_bytes = bytes } ∷ []) in
      record {
        is_ring = record {
          head_lt = v.head_lt;
          count_le = omega (arith, lt);
          bytes_eq = omega (arith, e, f, v.bytes_eq);
          bytes_le = ground (arith, room, v.bytes_le);
        };
        free_empty = λ z. absurd (nz z);
        empty_free = λ z. absurd (omega arith);
      }

  pub count-shifted : (c : Config) (s : Slot A) → (shifted c s).count ≡ s.count - 1
  unfolding shifted
  count-shifted c s = ground arith

  pub group-shifted :
      (c : Config) (s : Slot A)
      → (shifted c s).group_id ≡ (if s.count - 1 == 0 then 0 else s.group_id)
  unfolding shifted
  group-shifted c s = ground arith

  pub bytes-shifted :
      (c : Config) (s : Slot A)
      → (shifted c s).queued_data_bytes
        ≡ (if s.count - 1 == 0 then 0 else s.queued_data_bytes - (s.entries s.head).data_bytes)
  unfolding shifted
  bytes-shifted c s = ground arith

  head-shifted :
      (c : Config) (s : Slot A)
      → (shifted c s).head
        ≡ (if s.count - 1 == 0 then 0 else (s.head + 1) % c.per_group_item_capacity)
  unfolding shifted
  head-shifted c s = ground arith

  pub contents_empty : (cap : ℕ) (s : Slot A) → s.count ≡ 0 → contents cap s ≡ []
  contents_empty cap s e = rw e (empty s.entries s.head)
    where
      empty : (cells : ℕ → Cell A) (h : ℕ) → ring cap cells h 0 ≡ []
      empty cells h = unfold ring in refl

  pub shifted-IsSlot : (c : Config) (s : Slot A) → IsSlot c s → s.count ≢ 0 → IsSlot c (shifted c s)
  shifted-IsSlot c s v nz =
      let cap = c.per_group_item_capacity in
      let n = count-shifted c s in
      let e = ap bytes_of (contents-shifted c s v.is_ring.head_lt v.is_ring.count_le nz) in
      let empty =
        λ (z : (shifted c s).count ≡ 0). ap bytes_of (contents_empty cap (shifted c s) z) in
      record {
        is_ring = record {
          head_lt = ground (arith, head-shifted c s);
          count_le = omega (arith, n);
          bytes_eq = elim (Bool-cases (s.count - 1 == 0)) [
            | inl z ↦
                let z' : (shifted c s).count ≡ 0 = ground (arith, n, z) in
                let w = empty z' in ground (arith, bytes-shifted c s, z, w)
            | inr z ↦ ground (arith, bytes-shifted c s, z, e)
          ];
          bytes_le = ground (arith, bytes-shifted c s);
        };
        free_empty = λ z. ground (arith, group-shifted c s, n);
        empty_free = λ z. ground (arith, group-shifted c s, n);
      }
