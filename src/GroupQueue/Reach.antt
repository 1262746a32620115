-- ===== src/GroupQueue/Reach.antt =====
-- The states that a group queue comes to, and what holds in all of them.
use turboraft.Prelude.{
  ℕ, zero, suc, ◌<◌, ◌≡◌, ◌∙◌, refl, sym, ap, subst, Bool, true, some, List, [], ◌∷◌, not, leb,
  ◌||◌, arith, inl, inr, get_elem?, length, Bool-cases, Option-cases,
}
use turboraft.Status.{Error, Result, ok, err}
use turboraft.GroupQueue.{
  Cell, Slot, Config, Queue, free_slot, free_slots, init, config_valid, enqueue,
}
use turboraft.GroupQueue.Serve.{has_entry, pop, clear, cleared}
use turboraft.GroupQueue.Groups.{Distinct, total, AllSlots}
use turboraft.GroupQueue.Valid.{IsSlot, in_use, IsValid, contents_empty, bytes_of}
use turboraft.GroupQueue.Refine.{pop-Pops}
use turboraft.GroupQueue.Offer.{enqueue-Puts}
use turboraft.GroupQueue.Refuse.{enqueue-Keeps}

module _ {A : Type 0} where
  -- The operations that change a queue, from the one that sets it up.
  pub data Reach (c : Config) : Queue A → Type 0 where
    start :
        {q : Queue A} (max_entries max_slots : ℕ)
        → init max_entries max_slots true c ≡ ok q
        → Reach c q
    enqueued :
        {q q' : Queue A} (calloc_ok : Bool) (group : ℕ) (owned : A) (bytes : ℕ)
        (r : Result (Unit {0}))
        → Reach c q
        → enqueue calloc_ok group owned bytes q ≡ (r, q')
        → Reach c q'
    taken :
        {q q' : Queue A} (token : ℕ) (r : Result (Cell A))
        → Reach c q
        → pop token q ≡ (r, q')
        → Reach c q'
    emptied :
        {q q' : Queue A} (r : Result (List (Cell A))) → Reach c q → clear q ≡ (r, q') → Reach c q'

  -- A slot that holds nothing.
  nothing-IsSlot :
      (c : Config) (s : Slot A)
      → 0 < c.per_group_item_capacity
      → s.group_id ≡ 0
      → s.head ≡ 0
      → s.count ≡ 0
      → s.queued_data_bytes ≡ 0
      → IsSlot c s
  nothing-IsSlot c s p g h n b = record {
    is_ring = record {
      head_lt = omega (arith, h, p);
      count_le = omega (arith, n);
      bytes_eq = b ∙ sym (ap bytes_of (contents_empty c.per_group_item_capacity s n));
      bytes_le = omega (arith, b);
    };
    free_empty = λ _. n;
    empty_free = λ _. g;
  }

  -- Slots of no group, that hold nothing.
  abbrev AllFree : List (Slot A) → Type 0
  AllFree =
      AllSlots (λ s. (s.group_id ≡ 0) × (s.head ≡ 0) × (s.count ≡ 0) × (s.queued_data_bytes ≡ 0))

  AllFree-free_slots :
      (n : ℕ) (xs : List (Slot A)) → xs ≡ free_slots n → AllFree xs × (length xs ≡ n)
  unfolding free_slots
  AllFree-free_slots n [] e = (tt, none_left n e)
    where
      none_left : (n : ℕ) → [] ≡ free_slots {A = A} n → 0 ≡ n
      none_left zero e = refl
      none_left (suc n) e = absurd (ground (arith, e))
  AllFree-free_slots zero (x ∷ xs) e = absurd (ground (arith, e))
  AllFree-free_slots (suc n) (x ∷ xs) e =
      let h : x ≡ free_slot = ground (arith, e) in
      let (f, l) = AllFree-free_slots n xs (ground (arith, e)) in
      let of = λ (g : Slot A → ℕ). ap g h in
      (
        (
          (
            (of (λ s. s.group_id)),
            of (λ s. s.head),
            of (λ s. s.count),
            of (λ s. s.queued_data_bytes),
          ),
          f,
        ),
        ap suc l,
      )

  AllFree-cleared :
      (cap : ℕ) (xs : List (Slot A))
      → AllFree (cleared cap xs) × (length (cleared cap xs) ≡ length xs)
  unfolding cleared
  AllFree-cleared cap [] = (tt, refl)
  AllFree-cleared cap (x ∷ xs) =
      let (f, l) = AllFree-cleared cap xs in (((refl, refl, refl, refl), f), ap suc l)

  AllFree-IsSlot :
      (c : Config)
      → 0 < c.per_group_item_capacity
      → (xs : List (Slot A)) → AllFree xs
      → AllSlots (IsSlot c) xs
  AllFree-IsSlot c p [] f = tt
  AllFree-IsSlot c p (x ∷ xs) ((g, h, n, b), f) =
      (nothing-IsSlot c x p g h n b, AllFree-IsSlot c p xs f)

  AllFree-Distinct : (xs : List (Slot A)) → AllFree xs → Distinct xs
  AllFree-Distinct [] f = tt
  AllFree-Distinct (x ∷ xs) ((g, h, n, b), f) = ((λ nz. absurd (nz g)), AllFree-Distinct xs f)

  AllFree-total :
      (xs : List (Slot A))
      → AllFree xs
      → (total (λ (s : Slot A). s.count) xs ≡ 0)
        × (total (λ (s : Slot A). s.queued_data_bytes) xs ≡ 0)
        × (total in_use xs ≡ 0)
  AllFree-total [] f = (refl, refl, refl)
  AllFree-total (x ∷ xs) ((g, h, n, b), f) =
      let (tn, tb, tu) = AllFree-total xs f in
      (omega (arith, tn, n), omega (arith, tb, b), ground (arith, tu, g))

  -- A queue whose slots are all free, of a configuration that leaves room.
  AllFree-IsValid :
      (q : Queue A)
      → 0 < q.config.per_group_item_capacity
      → 0 < q.config.max_groups
      → AllFree q.slots
      → length q.slots ≡ q.config.max_groups
      → q.queued_item_count ≡ 0
      → q.queued_data_bytes ≡ 0
      → q.active_group_count ≡ 0
      → q.cursor ≡ 0
      → q.initialized ≡ true
      → IsValid q
  AllFree-IsValid q p m f l n b a c i =
      let (tn, tb, tu) = AllFree-total q.slots f in
      record {
        slots_length = l;
        slots_valid = AllFree-IsSlot q.config p q.slots f;
        distinct = AllFree-Distinct q.slots f;
        item_count = n ∙ sym tn;
        byte_count = b ∙ sym tb;
        group_count = a ∙ sym tu;
        items_le = omega (arith, n);
        bytes_le = omega (arith, b);
        cursor_lt = omega (arith, c, m);
        set_up = i;
      }

  init-IsValid :
      (q : Queue A) (max_entries max_slots : ℕ) (c : Config)
      → init max_entries max_slots true c ≡ ok q
      → IsValid q
  unfolding init config_valid
  init-IsValid q max_entries max_slots c e =
      let p : 0 < c.per_group_item_capacity = ground (arith, e) in
      let m : 0 < c.max_groups = ground (arith, e) in
      let (f, l) = AllFree-free_slots c.max_groups (free_slots c.max_groups) refl in
      let first : Queue A = record {
        config = c;
        slots = free_slots c.max_groups;
        active_group_count = 0;
        queued_item_count = 0;
        queued_data_bytes = 0;
        cursor = 0;
        initialized = true;
      } in
      subst IsValid {x = first} (ground (arith, e))
        (AllFree-IsValid first p m f l refl refl refl refl refl)

  capacity_pos :
      (c : Config) (xs : List (Slot A))
      → AllSlots (IsSlot c) xs
      → 0 < length xs
      → 0 < c.per_group_item_capacity
  capacity_pos c [] w l = absurd (omega (arith, l))
  capacity_pos c (x ∷ xs) w l = omega (arith, w.0.is_ring.head_lt)

  clear-IsValid :
      (q q' : Queue A) (r : Result (List (Cell A))) → IsValid q → clear q ≡ (r, q') → IsValid q'
  unfolding clear
  clear-IsValid q q' r v e =
      let cap = q.config.per_group_item_capacity in
      let (f, l) = AllFree-cleared cap q.slots in
      let m : 0 < q.config.max_groups = omega (arith, v.cursor_lt) in
      let p = capacity_pos q.config q.slots v.slots_valid (omega (arith, m, v.slots_length)) in
      let empty : Queue A = record q {
        slots = cleared cap q.slots;
        active_group_count = 0;
        queued_item_count = 0;
        queued_data_bytes = 0;
        cursor = 0;
      } in
      subst IsValid {x = empty} (ground (arith, e, v.set_up))
        (AllFree-IsValid empty p m f (l ∙ v.slots_length) refl refl refl refl v.set_up)

  pop_refused : (q q' : Queue A) (token : ℕ) (x : Error) → pop token q ≡ (err x, q') → q ≡ q'
  unfolding pop
  pop_refused q q' token x e =
      elim (Bool-cases (not q.initialized || leb q.config.max_groups token)) [
        | inl bad ↦ ground (arith, e, bad)
        | inr good ↦ elim (Option-cases (get_elem? q.slots token)) [
          | inl miss ↦ ground (arith, e, good, miss)
          | inr found ↦ elim (Bool-cases (has_entry (some found.0))) [
            | inl full ↦ absurd (ground (arith, e, good, found.1, full))
            | inr empty ↦ ground (arith, e, good, found.1, empty)
          ]
        ]
      ]

  -- In every state that a group queue comes to from its set-up, by any sequence of enqueues, pops and
  -- clears, each with any result, the queue is valid: no group has two slots, a slot is of a group exactly
  -- when it holds an entry, the counts and the byte counts of the queue and of its slots are those of the
  -- entries, and no bound of the configuration is passed.
  pub Reach-IsValid : (c : Config) (q : Queue A) → Reach c q → IsValid q
  Reach-IsValid c q (start max_entries max_slots e) = init-IsValid q max_entries max_slots c e
  Reach-IsValid c q (enqueued {q = p} calloc_ok group owned bytes (ok tt) r e) =
      (enqueue-Puts p q calloc_ok group owned bytes (Reach-IsValid c p r) e).valid
  Reach-IsValid c q (enqueued {q = p} calloc_ok group owned bytes (err x) r e) =
      (enqueue-Keeps p q calloc_ok group owned bytes x (Reach-IsValid c p r) e).valid
  Reach-IsValid c q (taken {q = p} token (ok cell) r e) =
      (pop-Pops p q token cell (Reach-IsValid c p r) e).valid
  Reach-IsValid c q (taken {q = p} token (err x) r e) =
      subst IsValid (pop_refused p q token x e) (Reach-IsValid c p r)
  Reach-IsValid c q (emptied {q = p} r h e) = clear-IsValid p q r (Reach-IsValid c p h) e
