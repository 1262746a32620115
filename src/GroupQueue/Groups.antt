-- ===== src/GroupQueue/Groups.antt =====
-- The slots of a group queue as queues by group.
use turboraft.Prelude.{
  ℕ, zero, suc, ◌+◌, ◌≡◌, ◌≢◌, ◌∙◌, refl, sym, ap, subst, ◌⊎◌, true, false, none, some, List, [],
  ◌∷◌, ◌==◌, if◌then◌else◌, arith, Bool-cases, ==_iff, inl, inr, get_elem?, set,
}
use turboraft.GroupQueue.{Cell, Slot, find_from}
use turboraft.GroupQueue.Fifo.{contents}

module _ {A : Type 0} where
  -- The first slot of a group is the one at an index.
  abbrev pub First : ℕ → ℕ → List (Slot A) → Slot A → Type 0
  First g j [] s = ⊥
  First g zero (x ∷ xs) s = (x ≡ s) × (x.group_id ≡ g)
  First g (suc j) (x ∷ xs) s = (x.group_id ≢ g) × First g j xs s

  abbrev pub NoGroup : ℕ → List (Slot A) → Type 0
  NoGroup g [] = Unit
  NoGroup g (x ∷ xs) = (x.group_id ≢ g) × NoGroup g xs

  -- No two slots are of one group.
  abbrev pub Distinct : List (Slot A) → Type 0
  Distinct [] = Unit
  Distinct (x ∷ xs) = (x.group_id ≢ 0 → NoGroup x.group_id xs) × Distinct xs

  -- What the queue holds for a group.
  unfoldable pub items : ℕ → ℕ → List (Slot A) → List (Cell A)
  items cap g [] = []
  items cap g (x ∷ xs) = if x.group_id == g then contents cap x else items cap g xs

  pub find_from-First :
      (g i : ℕ) (xs : List (Slot A)) (k : ℕ)
      → find_from g i xs ≡ some k
      → (j : ℕ) × (s : Slot A) × (k ≡ i + j) × First g j xs s
  unfolding find_from
  find_from-First g i [] k e = absurd (ground (arith, e))
  find_from-First g i (x ∷ xs) k e = elim (Bool-cases (x.group_id == g)) [
    | inl h ↦ (0, x, ground (arith, e, h), (refl, ground (arith, h)))
    | inr h ↦
        let e' : find_from g (i + 1) xs ≡ some k = ground (arith, e, h) in
        let (j, s, q, f) = find_from-First g (i + 1) xs k e' in
        (suc j, s, omega (arith, q), (ground (arith, h), f))
  ]

  pub find_from-NoGroup : (g i : ℕ) (xs : List (Slot A)) → find_from g i xs ≡ none → NoGroup g xs
  unfolding find_from
  find_from-NoGroup g i [] e = tt
  find_from-NoGroup g i (x ∷ xs) e = elim (Bool-cases (x.group_id == g)) [
    | inl h ↦ absurd (ground (arith, e, h))
    | inr h ↦ (ground (arith, h), find_from-NoGroup g (i + 1) xs (ground (arith, e, h)))
  ]

  pub get_elem?-First :
      (g j : ℕ) (xs : List (Slot A)) (s : Slot A) → First g j xs s → get_elem? xs j ≡ some s
  get_elem?-First g j [] s f = absurd f
  get_elem?-First g zero (x ∷ xs) s f = ap some (f.0)
  get_elem?-First g (suc j) (x ∷ xs) s f = get_elem?-First g j xs s f.1

  pub group-First : (g j : ℕ) (xs : List (Slot A)) (s : Slot A) → First g j xs s → s.group_id ≡ g
  group-First g j [] s f = absurd f
  group-First g zero (x ∷ xs) s f = ap (λ (t : Slot A). t.group_id) (sym (f.0)) ∙ f.1
  group-First g (suc j) (x ∷ xs) s f = group-First g j xs s f.1

  pub items-First :
      (cap g j : ℕ) (xs : List (Slot A)) (s : Slot A)
      → First g j xs s
      → items cap g xs ≡ contents cap s
  unfolding items
  items-First cap g j [] s f = absurd f
  items-First cap g zero (x ∷ xs) s f =
      let e : (x.group_id == g) ≡ true = ground (arith, f.1) in rw e (ap (contents cap) (f.0))
  items-First cap g (suc j) (x ∷ xs) s f =
      let e : (x.group_id == g) ≡ false = ground (arith, f.0) in rw e (items-First cap g j xs s f.1)

  -- The slot of a group is changed, and stays that of the group.
  pub items-set :
      (cap g g' j : ℕ) (xs : List (Slot A)) (s s' : Slot A)
      → First g j xs s
      → s'.group_id ≡ g
      → items cap g' (set xs j s') ≡ (if g == g' then contents cap s' else items cap g' xs)
  unfolding items
  items-set cap g g' j [] s s' f e = absurd f
  items-set cap g g' zero (x ∷ xs) s s' f e = ground (arith, e, f.1)
  items-set cap g g' (suc j) (x ∷ xs) s s' f e =
      ground (arith, f.0, items-set cap g g' j xs s s' f.1 e)

  -- A free slot becomes that of a group that had none.
  pub items-set_new :
      (cap g g' j : ℕ) (xs : List (Slot A)) (s s' : Slot A)
      → First 0 j xs s
      → NoGroup g xs
      → s'.group_id ≡ g
      → g' ≢ 0
      → items cap g' (set xs j s') ≡ (if g == g' then contents cap s' else items cap g' xs)
  unfolding items
  items-set_new cap g g' j [] s s' f n e nz = absurd f
  items-set_new cap g g' zero (x ∷ xs) s s' f n e nz = ground (arith, e, f.1)
  items-set_new cap g g' (suc j) (x ∷ xs) s s' f n e nz =
      ground (arith, n.0, items-set_new cap g g' j xs s s' f.1 n.1 e nz)

  pub items-NoGroup : (cap g : ℕ) (xs : List (Slot A)) → NoGroup g xs → items cap g xs ≡ []
  unfolding items
  items-NoGroup cap g [] n = refl
  items-NoGroup cap g (x ∷ xs) n = ground (arith, n.0, items-NoGroup cap g xs n.1)

  NoGroup-First :
      (g h j : ℕ) (xs : List (Slot A)) (s : Slot A) → NoGroup g xs → First h j xs s → h ≢ g
  NoGroup-First g h j [] s n f = absurd f
  NoGroup-First g h zero (x ∷ xs) s n f = λ e. n.0 (f.1 ∙ e)
  NoGroup-First g h (suc j) (x ∷ xs) s n f = NoGroup-First g h j xs s n.1 f.1

  -- A slot in use whose entries go is free.
  pub items-set_free :
      (cap g g' j : ℕ) (xs : List (Slot A)) (s s' : Slot A)
      → First g j xs s
      → Distinct xs
      → g ≢ 0
      → s'.group_id ≡ 0
      → g' ≢ 0
      → items cap g' (set xs j s') ≡ (if g == g' then [] else items cap g' xs)
  unfolding items
  items-set_free cap g g' j [] s s' f d nz e nz' = absurd f
  items-set_free cap g g' zero (x ∷ xs) s s' f d nz e nz' =
      let empty : g ≡ g' → items cap g' xs ≡ [] = λ q.
        items-NoGroup cap g' xs
          (subst (λ t. NoGroup t xs) (f.1 ∙ q) (d.0 (λ z. nz (sym (f.1) ∙ z)))) in
      elim (Bool-cases (g == g')) [
        | inl q ↦ ground (arith, e, empty ((==_iff g g').0 q))
        | inr q ↦ ground (arith, e, f.1)
      ]
  items-set_free cap g g' (suc j) (x ∷ xs) s s' f d nz e nz' =
      ground (arith, f.0, items-set_free cap g g' j xs s s' f.1 d.1 nz e nz')

  -- A slot in use is the first of its group.
  pub First-Distinct :
      (j : ℕ) (xs : List (Slot A)) (s : Slot A)
      → get_elem? xs j ≡ some s
      → s.group_id ≢ 0
      → Distinct xs
      → First s.group_id j xs s
  First-Distinct j [] s e nz d = absurd (ground (arith, e))
  First-Distinct zero (x ∷ xs) s e nz d =
      let q : x ≡ s = ground (arith, e) in (q, ap (λ (t : Slot A). t.group_id) q)
  First-Distinct (suc j) (x ∷ xs) s e nz d =
      let f = First-Distinct j xs s e nz d.1 in
      ((λ q. NoGroup-First x.group_id s.group_id j xs s (d.0 (λ z. nz (sym q ∙ z))) f (sym q)), f)

  NoGroup-set :
      (g j : ℕ) (xs : List (Slot A)) (s' : Slot A)
      → NoGroup g xs
      → s'.group_id ≢ g
      → NoGroup g (set xs j s')
  NoGroup-set g j [] s' n e = tt
  NoGroup-set g zero (x ∷ xs) s' n e = (e, n.1)
  NoGroup-set g (suc j) (x ∷ xs) s' n e = (n.0, NoGroup-set g j xs s' n.1 e)

  -- A slot keeps its group, or is freed.
  pub Distinct-set :
      (g j : ℕ) (xs : List (Slot A)) (s s' : Slot A)
      → First g j xs s
      → Distinct xs
      → (s'.group_id ≡ g) ⊎ (s'.group_id ≡ 0)
      → Distinct (set xs j s')
  Distinct-set g j [] s s' f d e = tt
  Distinct-set g zero (x ∷ xs) s s' f d (inl e) =
      ((λ nz. subst (λ t. NoGroup t xs) (f.1 ∙ sym e) (d.0 (λ z. nz (e ∙ sym (f.1) ∙ z)))), d.1)
  Distinct-set g zero (x ∷ xs) s s' f d (inr e) = ((λ nz. absurd (nz e)), d.1)
  Distinct-set g (suc j) (x ∷ xs) s s' f d e = (
    (λ nz. NoGroup-set x.group_id j xs s' (d.0 nz) (other nz e)),
    Distinct-set g j xs s s' f.1 d.1 e,
  )
    where
      other : x.group_id ≢ 0 → (s'.group_id ≡ g) ⊎ (s'.group_id ≡ 0) → s'.group_id ≢ x.group_id
      other nz (inl e) q = f.0 (sym q ∙ e)
      other nz (inr e) q = nz (sym q ∙ e)

  -- A free slot becomes that of a group that had none.
  pub Distinct-set_new :
      (g j : ℕ) (xs : List (Slot A)) (s s' : Slot A)
      → First 0 j xs s
      → NoGroup g xs
      → Distinct xs
      → s'.group_id ≡ g
      → Distinct (set xs j s')
  Distinct-set_new g j [] s s' f n d e = tt
  Distinct-set_new g zero (x ∷ xs) s s' f n d e =
      ((λ nz. subst (λ t. NoGroup t xs) (sym e) n.1), d.1)
  Distinct-set_new g (suc j) (x ∷ xs) s s' f n d e = (
    (λ nz. NoGroup-set x.group_id j xs s' (d.0 nz) (λ q. n.0 (sym q ∙ e))),
    Distinct-set_new g j xs s s' f.1 n.1 d.1 e,
  )

  -- A sum over the slots.
  abbrev pub total : (Slot A → ℕ) → List (Slot A) → ℕ
  total f [] = 0
  total f (x ∷ xs) = f x + total f xs

  pub total-set :
      (f : Slot A → ℕ) (j : ℕ) (xs : List (Slot A)) (s s' : Slot A)
      → get_elem? xs j ≡ some s
      → total f (set xs j s') + f s ≡ total f xs + f s'
  total-set f j [] s s' e = absurd (ground (arith, e))
  total-set f zero (x ∷ xs) s s' e = let q : x ≡ s = ground (arith, e) in rw (ap f q) (omega arith)
  total-set f (suc j) (x ∷ xs) s s' e = omega (arith, total-set f j xs s s' e)

  -- What holds of every slot.
  abbrev pub AllSlots : (Slot A → Type 0) → List (Slot A) → Type 0
  AllSlots P [] = Unit
  AllSlots P (x ∷ xs) = P x × AllSlots P xs

  pub AllSlots-get :
      (P : Slot A → Type 0) (j : ℕ) (xs : List (Slot A)) (s : Slot A)
      → get_elem? xs j ≡ some s
      → AllSlots P xs
      → P s
  AllSlots-get P j [] s e h = absurd (ground (arith, e))
  AllSlots-get P zero (x ∷ xs) s e h = subst P (ground (arith, e)) h.0
  AllSlots-get P (suc j) (x ∷ xs) s e h = AllSlots-get P j xs s e h.1

  pub AllSlots-set :
      (P : Slot A → Type 0) (j : ℕ) (xs : List (Slot A)) (s' : Slot A)
      → P s'
      → AllSlots P xs
      → AllSlots P (set xs j s')
  AllSlots-set P j [] s' p h = tt
  AllSlots-set P zero (x ∷ xs) s' p h = (p, h.1)
  AllSlots-set P (suc j) (x ∷ xs) s' p h = (h.0, AllSlots-set P j xs s' p h.1)
