-- ===== src/GroupQueue/Accept.antt =====
-- What an enqueue does to the queues of the groups, where it takes the payload and where it does not.
use turboraft.Prelude.{
  ℕ, ◌+◌, ◌-◌, ◌<◌, ◌≡◌, ◌≢◌, ◌∙◌, refl, sym, ap, false, some, [], ◌∷◌, ◌++◌, ltb, leb, ◌||◌, arith,
  inl, get_elem?, set, ==_iff,
}
use turboraft.GroupQueue.{Cell, Slot, Config, Queue, slot_full, appended}
use turboraft.GroupQueue.Fifo.{contents-appended}
use turboraft.GroupQueue.Groups.{
  First, NoGroup, Distinct, get_elem?-First, group-First, items-First, items-set, items-set_new,
  items-NoGroup, Distinct-set, Distinct-set_new, total-set, AllSlots-get, AllSlots-set,
}
use turboraft.GroupQueue.Valid.{
  IsRing, IsSlot, in_use, IsValid, length-set, appended-IsSlot, contents_empty, bytes_of,
}
use turboraft.GroupQueue.Refine.{queued, if_true, if_false}

module _ {A : Type 0} where
  abbrev pub as_cell : A → ℕ → Cell A
  as_cell owned bytes = record { owned = some owned; data_bytes = bytes }

  -- A payload goes behind the others of its group.
  pub record Puts (q : Queue A) (group : ℕ) (cell : Cell A) (q' : Queue A) : Type 0 where
    pub valid : IsValid q'
    pub back : queued q' group ≡ queued q group ++ cell ∷ []
    pub others : (g : ℕ) → g ≢ 0 → g ≢ group → queued q' g ≡ queued q g

  -- What is queued stays.
  pub record Keeps (q q' : Queue A) : Type 0 where
    pub valid : IsValid q'
    pub same : (g : ℕ) → g ≢ 0 → queued q' g ≡ queued q g

  abbrev pub placed : Queue A → ℕ → Slot A → A → ℕ → ℕ → Queue A
  placed q i s owned bytes active = record q {
    slots = set q.slots i (appended q.config owned bytes s);
    queued_item_count = q.queued_item_count + 1;
    queued_data_bytes = q.queued_data_bytes + bytes;
    active_group_count = active;
  }

  -- The room that `enqueue` asks for in all.
  abbrev pub HasRoom : Queue A → ℕ → Type 0
  HasRoom q bytes =
      (leb q.config.total_item_capacity q.queued_item_count
        || ltb (q.config.total_data_bytes - q.queued_data_bytes) bytes)
      ≡ false

  room_lt :
      (c : Config) (bytes : ℕ) (s : Slot A)
      → slot_full c bytes s ≡ false
      → s.count < c.per_group_item_capacity
  unfolding slot_full
  room_lt c bytes s room = ground (arith, room)

  pub bytes_zero : (c : Config) (s : Slot A) → IsSlot c s → s.group_id ≡ 0 → s.queued_data_bytes ≡ 0
  bytes_zero c s w z =
      w.is_ring.bytes_eq ∙ ap bytes_of (contents_empty c.per_group_item_capacity s (w.free_empty z))

  in_use_one : (s : Slot A) → s.group_id ≢ 0 → (n : ℕ) → n + in_use s ≡ n + 1
  in_use_one s nz n = ground arith

  in_use_none : (s : Slot A) → s.group_id ≡ 0 → (n : ℕ) → n + 1 + in_use s ≡ n + 1
  in_use_none s z n = ground arith

  -- A slot `s` becomes `s'`, of as many entries, and takes one more.
  placed-IsValid :
      (q : Queue A) (i : ℕ) (s s' : Slot A) (owned : A) (bytes active : ℕ)
      → IsValid q
      → get_elem? q.slots i ≡ some s
      → IsRing q.config s'
      → s'.group_id ≢ 0
      → s'.count ≡ s.count
      → s'.queued_data_bytes ≡ s.queued_data_bytes
      → slot_full q.config bytes s' ≡ false
      → HasRoom q bytes
      → Distinct (set q.slots i (appended q.config owned bytes s'))
      → active + in_use s ≡ q.active_group_count + 1
      → IsValid (placed q i s' owned bytes active)
  unfolding appended
  placed-IsValid q i s s' owned bytes active v get w nz ec eb room all d ea =
      let t = appended q.config owned bytes s' in
      record {
        slots_length = length-set q.slots i t ∙ v.slots_length;
        slots_valid =
            AllSlots-set (IsSlot q.config) i q.slots t
              (appended-IsSlot q.config owned bytes s' w nz room) v.slots_valid;
        distinct = d;
        item_count =
            omega (arith, v.item_count, ec, total-set (λ (t : Slot A). t.count) i q.slots s t get);
        byte_count = omega (
          arith,
          v.byte_count,
          eb,
          total-set (λ (t : Slot A). t.queued_data_bytes) i q.slots s t get,
        );
        group_count = ground (arith, v.group_count, ea, nz, total-set in_use i q.slots s t get);
        items_le = ground (arith, all);
        bytes_le = ground (arith, all, v.bytes_le);
        cursor_lt = v.cursor_lt;
        set_up = v.set_up;
      }

  -- The slot of the group takes the payload.
  pub put_existing :
      (q : Queue A) (group i : ℕ) (s : Slot A) (owned : A) (bytes : ℕ)
      → IsValid q
      → group ≢ 0
      → First group i q.slots s
      → HasRoom q bytes
      → slot_full q.config bytes s ≡ false
      → Puts q group (as_cell owned bytes) (placed q i s owned bytes q.active_group_count)
  unfolding appended
  put_existing q group i s owned bytes v gz f all room =
      let get = get_elem?-First group i q.slots s f in
      let same = group-First group i q.slots s f in
      let w = AllSlots-get (IsSlot q.config) i q.slots s get v.slots_valid in
      let cap = q.config.per_group_item_capacity in
      let t = appended q.config owned bytes s in
      let after = λ (g : ℕ). items-set cap group g i q.slots s t f same in
      let lt : s.count < cap = room_lt q.config bytes s room in
      record {
        valid =
            placed-IsValid q i s s owned bytes q.active_group_count v get w.is_ring
              (λ z. gz (sym same ∙ z)) refl refl room all
              (Distinct-set group i q.slots s t f v.distinct (inl same))
              (in_use_one s (λ z. gz (sym same ∙ z)) q.active_group_count);
        back =
            after group
            ∙ if_true ((==_iff group group).1 refl) _ _
            ∙ contents-appended q.config owned bytes s w.is_ring.head_lt lt
            ∙ ap (λ t. t ++ as_cell owned bytes ∷ []) (sym (items-First cap group i q.slots s f));
        others = λ g nz ne. after g ∙ if_false (λ e. ne (sym ((==_iff group g).0 e))) _ _;
      }

  -- A free slot becomes that of the group, and takes the payload.
  pub put_new :
      (q : Queue A) (group i : ℕ) (s s' : Slot A) (owned : A) (bytes : ℕ)
      → IsValid q
      → group ≢ 0
      → First 0 i q.slots s
      → NoGroup group q.slots
      → IsRing q.config s'
      → s'.group_id ≡ group
      → s'.count ≡ 0
      → s'.queued_data_bytes ≡ 0
      → HasRoom q bytes
      → slot_full q.config bytes s' ≡ false
      → Puts q group (as_cell owned bytes) (placed q i s' owned bytes (q.active_group_count + 1))
  unfolding appended
  put_new q group i s s' owned bytes v gz f n w same cz bz all room =
      let get = get_elem?-First 0 i q.slots s f in
      let free = group-First 0 i q.slots s f in
      let w0 = AllSlots-get (IsSlot q.config) i q.slots s get v.slots_valid in
      let cap = q.config.per_group_item_capacity in
      let t = appended q.config owned bytes s' in
      let after = λ (g : ℕ). items-set_new cap group g i q.slots s t f n same in
      let lt : s'.count < cap = room_lt q.config bytes s' room in
      record {
        valid =
            placed-IsValid q i s s' owned bytes (q.active_group_count + 1) v get w
              (λ z. gz (sym same ∙ z)) (cz ∙ sym (w0.free_empty free))
              (bz ∙ sym (bytes_zero q.config s w0 free)) room all
              (Distinct-set_new group i q.slots s t f n v.distinct same)
              (in_use_none s free q.active_group_count);
        back =
            after group gz
            ∙ if_true ((==_iff group group).1 refl) _ _
            ∙ contents-appended q.config owned bytes s' w.head_lt lt
            ∙ ap (λ t. t ++ as_cell owned bytes ∷ [])
                (contents_empty cap s' cz ∙ sym (items-NoGroup cap group q.slots n));
        others = λ g nz ne. after g nz ∙ if_false (λ e. ne (sym ((==_iff group g).0 e))) _ _;
      }
