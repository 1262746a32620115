-- ===== src/GroupQueue/Refine.antt =====
-- A group queue behaves as a queue for each group.
use turboraft.Prelude.{
  ℕ, ◌+◌, ◌-◌, ◌%◌, ◌≡◌, ◌≢◌, ◌∙◌, refl, sym, ap, subst, Bool, true, some, List, ◌∷◌, ◌==◌,
  if◌then◌else◌, arith, inl, inr, get_elem?, set, Bool-cases, Option-cases, ==_iff,
}
use turboraft.Status.{ok}
use turboraft.GroupQueue.{Cell, Slot, Queue}
use turboraft.GroupQueue.Serve.{shifted, removed, pop, has_entry}
use turboraft.GroupQueue.Fifo.{contents, contents-shifted}
use turboraft.GroupQueue.Groups.{
  First, items, get_elem?-First, items-First, items-set, items-set_free, First-Distinct,
  Distinct-set, total-set, AllSlots-get, AllSlots-set,
}
use turboraft.GroupQueue.Valid.{
  IsSlot, in_use, IsValid, length-set, shifted-IsSlot, count-shifted, group-shifted, contents_empty,
  bytes_of,
}

pub if_true : {B : Type 0} {b : Bool} → b ≡ true → (x y : B) → (if b then x else y) ≡ x
if_true e x y = rw e refl

pub if_false : {B : Type 0} {b : Bool} → b ≢ true → (x y : B) → (if b then x else y) ≡ y
if_false {b = b} e x y = elim (Bool-cases b) [ inl h ↦ absurd (e h) | inr h ↦ rw h refl ]

module _ {A : Type 0} where
  -- What a group has queued.
  abbrev pub queued : Queue A → ℕ → List (Cell A)
  queued q g = items q.config.per_group_item_capacity g q.slots

  -- The first entry of a group is taken, and the turn goes on behind its slot.
  pub record Pops (q : Queue A) (token : ℕ) (cell : Cell A) (q' : Queue A) : Type 0 where
    pub valid : IsValid q'
    pub group : ℕ
    pub in_group : group ≢ 0
    pub front : queued q group ≡ cell ∷ queued q' group
    pub others : (g : ℕ) → g ≢ 0 → g ≢ group → queued q' g ≡ queued q g
    pub turn : q'.cursor ≡ (token + 1) % q.config.max_groups

  removed-items :
      (q : Queue A) (token : ℕ) (s : Slot A)
      → IsValid q
      → IsSlot q.config s
      → First s.group_id token q.slots s
      → s.group_id ≢ 0
      → (g : ℕ) → g ≢ 0
      → items q.config.per_group_item_capacity g (set q.slots token (shifted q.config s)) ≡ (
          if s.group_id == g
          then contents q.config.per_group_item_capacity (shifted q.config s)
          else items q.config.per_group_item_capacity g q.slots)
  removed-items q token s v w f nz g gz = elim (Bool-cases (s.count - 1 == 0)) [
    | inl z ↦
        let free : (shifted q.config s).group_id ≡ 0 =
          ground (arith, group-shifted q.config s, z) in
        let empty =
          contents_empty q.config.per_group_item_capacity (shifted q.config s)
            (ground (arith, count-shifted q.config s, z)) in
        items-set_free q.config.per_group_item_capacity s.group_id g token q.slots s
          (shifted q.config s) f v.distinct nz free gz
        ∙ ap (λ t. if s.group_id == g then t else items q.config.per_group_item_capacity g q.slots)
            (sym empty)
    | inr z ↦
        items-set q.config.per_group_item_capacity s.group_id g token q.slots s (shifted q.config s)
          f (ground (arith, group-shifted q.config s, z))
  ]

  removed-IsValid :
      (q : Queue A) (token : ℕ) (s : Slot A)
      → IsValid q
      → IsSlot q.config s
      → First s.group_id token q.slots s
      → s.group_id ≢ 0
      → s.count ≢ 0
      → IsValid (removed token s q)
  unfolding removed
  removed-IsValid q token s v w f nz cz =
      let get = get_elem?-First s.group_id token q.slots s f in
      let s' = shifted q.config s in
      let w' = shifted-IsSlot q.config s w cz in
      let behind =
        ap bytes_of (contents-shifted q.config s w.is_ring.head_lt w.is_ring.count_le cz) in
      record {
        slots_length = length-set q.slots token s' ∙ v.slots_length;
        slots_valid = AllSlots-set (IsSlot q.config) token q.slots s' w' v.slots_valid;
        distinct =
            Distinct-set s.group_id token q.slots s s' f v.distinct
              (elim (Bool-cases (s.count - 1 == 0)) [
                | inl z ↦ inr (ground (arith, group-shifted q.config s, z))
                | inr z ↦ inl (ground (arith, group-shifted q.config s, z))
              ]);
        item_count = omega (
          arith,
          v.item_count,
          count-shifted q.config s,
          total-set (λ (t : Slot A). t.count) token q.slots s s' get,
        );
        byte_count = omega (
          arith,
          v.byte_count,
          behind,
          w.is_ring.bytes_eq,
          w'.is_ring.bytes_eq,
          total-set (λ (t : Slot A). t.queued_data_bytes) token q.slots s s' get,
        );
        group_count = ground (
          arith,
          v.group_count,
          group-shifted q.config s,
          total-set in_use token q.slots s s' get,
        );
        items_le = omega (arith, v.items_le);
        bytes_le = omega (arith, v.bytes_le);
        cursor_lt = ground (arith, v.cursor_lt);
        set_up = v.set_up;
      }

  removed-Pops :
      (q : Queue A) (token : ℕ) (s : Slot A)
      → IsValid q
      → get_elem? q.slots token ≡ some s
      → s.group_id ≢ 0
      → s.count ≢ 0
      → Pops q token (s.entries s.head) (removed token s q)
  unfolding removed
  removed-Pops q token s v get nz cz =
      let w = AllSlots-get (IsSlot q.config) token q.slots s get v.slots_valid in
      let f = First-Distinct token q.slots s get nz v.distinct in
      let cap = q.config.per_group_item_capacity in
      let after = removed-items q token s v w f nz in
      let self : (s.group_id == s.group_id) ≡ true = (==_iff s.group_id s.group_id).1 refl in
      record {
        valid = removed-IsValid q token s v w f nz cz;
        group = s.group_id;
        in_group = nz;
        front =
            items-First cap s.group_id token q.slots s f
            ∙ contents-shifted q.config s w.is_ring.head_lt w.is_ring.count_le cz
            ∙ ap (◌∷◌ (s.entries s.head)) (sym (after s.group_id nz ∙ if_true self _ _));
        others = λ g gz ne. after g gz ∙ if_false (λ e. ne (sym ((==_iff s.group_id g).0 e))) _ _;
        turn = refl;
      }

  -- An entry that is popped from a valid queue is the first of its group: the queue stays valid, that
  -- group loses just that entry, no other group changes, and the turn goes on behind its slot.
  pub pop-Pops :
      (q q' : Queue A) (token : ℕ) (cell : Cell A)
      → IsValid q
      → pop token q ≡ (ok cell, q')
      → Pops q token cell q'
  unfolding pop has_entry
  pop-Pops q q' token cell v e = elim (Option-cases (get_elem? q.slots token)) [
    | inl get ↦ absurd (ground (arith, e, get))
    | inr found ↦
        let (s, get) = found in
        let nz : s.group_id ≢ 0 = ground (arith, e, get) in
        let cz : s.count ≢ 0 = ground (arith, e, get) in
        let front : s.entries s.head ≡ cell = ground (arith, e, get) in
        let rest : removed token s q ≡ q' = ground (arith, e, get) in
        subst (λ t. Pops q token cell t) rest
          (subst (λ t. Pops q token t (removed token s q)) front
            (removed-Pops q token s v get nz cz))
  ]
