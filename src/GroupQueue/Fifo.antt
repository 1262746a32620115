-- ===== src/GroupQueue/Fifo.antt =====
-- The ring of a slot as a list, and a write just behind it.
use native.Mathlib.Nat.{mod-add-mod, mod-eq_of_lt, mod-eq-sub-mod, add-zero}
use turboraft.Prelude.{
  ℕ, zero, suc, ◌+◌, ◌-◌, ◌%◌, ◌≤◌, ◌<◌, ◌≡◌, ◌≢◌, ◌∙◌, refl, sym, ap, ap₂, true, false, List, [],
  ◌∷◌, ◌++◌, ◌==◌, some, arith, ==_iff, le_or_lt, inl, inr, Bool-cases,
}
use turboraft.GroupQueue.{Cell, Slot, Config, ring, update_cell, no_cell, appended}
use turboraft.GroupQueue.Serve.{shifted}

-- Fewer than `cap` steps round a ring do not come back to the start.
ring_ne : (cap h k : ℕ) → h < cap → suc k < cap → (h + suc k) % cap ≢ h
ring_ne cap h k hh hk = elim (le_or_lt cap (h + suc k)) [
  | inl p ↦ omega (
    arith,
    mod-eq-sub-mod {n = h + suc k} {m = cap} p,
    mod-eq_of_lt {n = h + suc k - cap} {m = cap} (omega arith),
  )
  | inr p ↦ omega (arith, mod-eq_of_lt p)
]

-- A step round the ring first.
ring_step : (cap h k : ℕ) → ((h + 1) % cap + k) % cap ≡ (h + suc k) % cap
ring_step cap h k = rw mod-add-mod (ap (λ t. t % cap) (omega arith))

ring_at : (cap h : ℕ) → h < cap → (h + 0) % cap ≡ h
ring_at cap h hh = rw add-zero (mod-eq_of_lt hh)

module _ {A : Type 0} (cap : ℕ) where
  update_self : (cells : ℕ → Cell A) (i j : ℕ) (x : Cell A) → i ≡ j → update_cell cells i x j ≡ x
  update_self cells i j x e = let q : (i == j) ≡ true = ground arith in rw q refl

  update_ne :
      (cells : ℕ → Cell A) (i j : ℕ) (x : Cell A) → i ≢ j → update_cell cells i x j ≡ cells j
  update_ne cells i j x e = let q : (i == j) ≡ false = ground arith in rw q refl

  -- A write that no cell of the ring is at.
  ring-update_ne :
      (cells : ℕ → Cell A) (i : ℕ) (x : Cell A) (h n : ℕ)
      → ((k : ℕ) → k < n → (h + k) % cap ≢ i)
      → h < cap
      → ring cap (update_cell cells i x) h n ≡ ring cap cells h n
  unfolding ring
  ring-update_ne cells i x h zero away hh = refl
  ring-update_ne cells i x h (suc n) away hh =
      ap₂ ◌∷◌ (update_ne cells i h x (λ e. away 0 (omega arith) (ring_at cap h hh ∙ sym e))) (
        ring-update_ne cells i x ((h + 1) % cap) n
          (λ k lt e. away (suc k) (omega (arith, lt)) (sym (ring_step cap h k) ∙ e)) (omega arith))

  -- A write just behind the ring makes it longer by that cell.
  ring-update_tail :
      (cells : ℕ → Cell A) (x : Cell A) (n h i : ℕ)
      → h < cap
      → n < cap
      → i ≡ (h + n) % cap
      → ring cap (update_cell cells i x) h (suc n) ≡ ring cap cells h n ++ x ∷ []
  unfolding ring
  ring-update_tail cells x zero h i hh hn e =
      ap₂ ◌∷◌ (update_self cells i h x (e ∙ ring_at cap h hh)) refl
  ring-update_tail cells x (suc n) h i hh hn e =
      ap₂ ◌∷◌ (update_ne cells i h x (λ q. ring_ne cap h n hh hn (sym e ∙ q))) (
        ring-update_tail cells x n ((h + 1) % cap) i (omega arith) (omega arith)
          (e ∙ sym (ring_step cap h n)))

  ring-shift :
      (cells : ℕ → Cell A) (x : Cell A) (h n : ℕ)
      → h < cap
      → suc n ≤ cap
      → ring cap (update_cell cells h x) ((h + 1) % cap) n ≡ ring cap cells ((h + 1) % cap) n
  ring-shift cells x h n hh hn =
      ring-update_ne cells h x ((h + 1) % cap) n
        (λ k lt e. ring_ne cap h k hh (omega (arith, lt)) (sym (ring_step cap h k) ∙ e))
        (omega arith)

-- What a slot holds, first to last.
abbrev pub contents : {A : Type 0} → ℕ → Slot A → List (Cell A)
contents cap s = ring cap s.entries s.head s.count

module _ {A : Type 0} (c : Config) where
  pub contents-appended :
      (owned : A) (bytes : ℕ) (s : Slot A)
      → s.head < c.per_group_item_capacity
      → s.count < c.per_group_item_capacity
      → contents c.per_group_item_capacity (appended c owned bytes s)
        ≡ contents c.per_group_item_capacity s
          ++ record { owned = some owned; data_bytes = bytes } ∷ []
  unfolding appended
  contents-appended owned bytes s h k =
      let e : s.count + 1 ≡ suc s.count = omega arith in
      rw e (
        ring-update_tail c.per_group_item_capacity s.entries
          (record { owned = some owned; data_bytes = bytes }) s.count s.head _ h k refl)

  ring_zero :
      (cap : ℕ) (cells cells' : ℕ → Cell A) (h h' n : ℕ)
      → n ≡ 0
      → ring cap cells h n ≡ ring cap cells' h' n
  unfolding ring
  ring_zero cap cells cells' h h' zero e = refl
  ring_zero cap cells cells' h h' (suc n) e = absurd (omega arith)

  ring_suc :
      (cap : ℕ) (cells : ℕ → Cell A) (h n : ℕ)
      → n ≢ 0
      → ring cap cells h n ≡ cells h ∷ ring cap cells ((h + 1) % cap) (n - 1)
  unfolding ring
  ring_suc cap cells h zero nz = absurd (nz refl)
  ring_suc cap cells h (suc n) nz = let e : suc n - 1 ≡ n = omega arith in rw e refl

  -- What is behind the first entry stays.
  pub contents-shifted :
      (s : Slot A)
      → s.head < c.per_group_item_capacity
      → s.count ≤ c.per_group_item_capacity
      → s.count ≢ 0
      → contents c.per_group_item_capacity s
        ≡ s.entries s.head ∷ contents c.per_group_item_capacity (shifted c s)
  unfolding shifted
  contents-shifted s h k nz =
      let cap = c.per_group_item_capacity in
      let tail =
        sym (ring-shift cap s.entries no_cell s.head (s.count - 1) h (omega (arith, nz, k))) in
      ring_suc cap s.entries s.head s.count nz
      ∙ ap (◌∷◌ (s.entries s.head)) (elim (Bool-cases (s.count - 1 == 0)) [
        | inl z ↦ rw z (tail ∙ ring_zero cap _ _ _ _ (s.count - 1) ((==_iff (s.count - 1) 0).0 z))
        | inr z ↦ rw z tail
      ])
