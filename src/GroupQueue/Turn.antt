-- ===== src/GroupQueue/Turn.antt =====
-- Whose turn it is in a group queue.
use turboraft.Prelude.{
  ℕ, zero, suc, ◌+◌, ◌-◌, ◌%◌, ◌≤◌, ◌<◌, ◌≡◌, ◌≢◌, ◌∙◌, refl, sym, ap, Bool, true, false, some,
  List, [], ◌∷◌, ◌==◌, arith, inl, inr, get_elem?, length, Bool-cases, Option-cases, le_or_lt,
}
use native.Mathlib.Nat.{mod-eq_of_lt, mod-eq-sub-mod}
use turboraft.Status.{ok}
use turboraft.GroupQueue.{Slot, Queue}
use turboraft.GroupQueue.Serve.{removed, pop, has_entry, peek_next, peek_from}
use turboraft.GroupQueue.Groups.{total, AllSlots-get}
use turboraft.GroupQueue.Valid.{IsSlot, IsValid}

-- The offset at which the ring of the slots, from a cursor, comes to an index.
offset_to : (n cursor j : ℕ) → cursor < n → j < n → (k : ℕ) × (k < n) × ((cursor + k) % n ≡ j)
offset_to n cursor j c h = elim (le_or_lt cursor j) [
  | inl p ↦
      (j - cursor, omega arith, ap (λ t. t % n) (omega (arith, p)) ∙ mod-eq_of_lt {n = j} {m = n} h)
  | inr p ↦
      let e : cursor + (n - cursor + j) ≡ n + j = omega (arith, c) in
      (
        n - cursor + j,
        omega arith,
        ap (λ t. t % n) e
            ∙ mod-eq-sub-mod {n = n + j} {m = n} (omega arith)
            ∙ ap (λ t. t % n) (omega arith)
            ∙ mod-eq_of_lt {n = j} {m = n} h,
      )
]

module _ {A : Type 0} where
  -- Where a total is not 0, some slot has a share.
  total-some :
      (xs : List (Slot A))
      → total (λ (s : Slot A). s.count) xs ≢ 0
      → (j : ℕ) × (s : Slot A) × (get_elem? xs j ≡ some s) × (s.count ≢ 0) × (j < length xs)
  total-some [] nz = absurd (nz refl)
  total-some (x ∷ xs) nz = elim (Bool-cases (x.count == 0)) [
    | inl z ↦
        let (j, s, get, c, lt) = total-some xs (ground (arith, nz, z)) in
        (suc j, s, get, c, omega (arith, lt))
    | inr z ↦ (0, x, refl, ground (arith, z), omega arith)
  ]

  -- The slot at an offset from the cursor has an entry.
  abbrev pub ready_at : Queue A → ℕ → Bool
  ready_at q k = has_entry (get_elem? q.slots ((q.cursor + k) % q.config.max_groups))

  -- A search that passes an offset with an entry ends at the first such one.
  peek_from_first :
      (q : Queue A) (n offset k : ℕ)
      → offset ≤ k
      → k < offset + n
      → ready_at q k ≡ true
      → (l : ℕ) × (peek_from q n offset ≡ some ((q.cursor + l) % q.config.max_groups))
        × (ready_at q l ≡ true)
        × ((m : ℕ) → offset ≤ m → m < l → ready_at q m ≡ false)
  unfolding peek_from
  peek_from_first q zero offset k a b h = absurd (omega (arith, a, b))
  peek_from_first q (suc n) offset k a b h = elim (Bool-cases (ready_at q offset)) [
    | inl r ↦ (offset, rw r refl, r, λ m p l. absurd (omega (arith, p, l)))
    | inr r ↦
        let ne : offset ≢ k = λ e. absurd (ground (arith, sym h ∙ ap (ready_at q) (sym e) ∙ r)) in
        let (l, found, at, first) =
          peek_from_first q n (offset + 1) k (omega (arith, a, ne)) (omega (arith, b)) h in
        (
          l,
          rw r found,
          at,
          λ m p lt. elim (Bool-cases (offset == m)) [
            | inl e ↦ ap (ready_at q) (ground (arith, e)) ∙ r
            | inr e ↦ first m (ground (arith, p, e)) lt
          ],
        )
  ]

  -- The token that `peek_next` gives is that of the first slot, from the cursor on, that holds an entry.
  pub record Turn (q : Queue A) : Type 0 where
    pub offset : ℕ
    pub slot : Slot A
    pub shown :
        peek_next q ≡ ok ((q.cursor + offset) % q.config.max_groups, (slot.entries slot.head).owned)
    pub popped :
        pop ((q.cursor + offset) % q.config.max_groups) q
        ≡ (ok (slot.entries slot.head), removed ((q.cursor + offset) % q.config.max_groups) slot q)
    pub passed : (m : ℕ) → m < offset → ready_at q m ≡ false

  -- A valid queue that is not empty always has a payload to show: the search of the slots ends at the
  -- first slot from the cursor on that holds an entry, no such slot is passed over, and a pop of that
  -- token succeeds and gives the payload that was shown.
  pub peek_next-Turn : (q : Queue A) → IsValid q → q.queued_item_count ≢ 0 → Turn q
  unfolding peek_next pop has_entry
  peek_next-Turn q v nz =
      let (j, s, get, c, lt) = total-some q.slots (λ z. nz (v.item_count ∙ z)) in
      let w = AllSlots-get (IsSlot q.config) j q.slots s get v.slots_valid in
      let g : s.group_id ≢ 0 = λ z. c (w.free_empty z) in
      let n = q.config.max_groups in
      let (k, kn, at) = offset_to n q.cursor j v.cursor_lt (omega (arith, lt, v.slots_length)) in
      let r : ready_at q k ≡ true = rw (at, get) (ground (arith, c, g)) in
      let (l, found, h, first) = peek_from_first q n 0 k (omega arith) (omega (arith, kn)) r in
      elim (Option-cases (get_elem? q.slots ((q.cursor + l) % n))) [
        | inl miss ↦ absurd (ground (arith, sym h ∙ ap has_entry miss))
        | inr there ↦
            let (t, get') = there in
            let i = (q.cursor + l) % n in
            let full : has_entry (some t) ≡ true = sym (ap has_entry get') ∙ h in
            let lt : i < n = omega (arith, v.cursor_lt) in
            record {
              offset = l;
              slot = t;
              shown = ground (arith, v.set_up, nz, found, get');
              popped = ground (arith, v.set_up, lt, full, get');
              passed = λ m before. first m (omega arith) before;
            }
      ]
