-- ===== src/GroupQueue/Offer.antt =====
-- What an enqueue does to the queues of the groups, whether it takes the payload or not.
use turboraft.Prelude.{
  ℕ, ◌+◌, ◌≡◌, ◌≢◌, ◌∙◌, sym, ap, subst, Bool, false, none, some, arith, inl, inr, Option-cases,
}
use turboraft.Status.{Result-cases, ok}
use turboraft.GroupQueue.{
  Slot, Config, Queue, slot_full, appended, put, enqueue, enqueue_new, find_group, prepare_slot,
}
use turboraft.GroupQueue.Groups.{
  First, NoGroup, find_from-First, find_from-NoGroup, get_elem?-First, AllSlots-get,
}
use turboraft.GroupQueue.Valid.{IsRing, IsSlot, IsValid, set-set, contents_empty, bytes_of}
use turboraft.GroupQueue.Accept.{Puts, as_cell, put_existing, put_new, placed, HasRoom}

module _ {A : Type 0} where
  -- What is found is the first slot of the group.
  pub found-First :
      (q : Queue A) (group i : ℕ)
      → find_group q group ≡ some i
      → (s : Slot A) × First group i q.slots s
  unfolding find_group
  found-First q group i e =
      let (j, s, at, f) = find_from-First group 0 q.slots i e in
      (s, subst (λ t. First group t q.slots s) (omega (arith, at)) f)

  missing-NoGroup : (q : Queue A) (group : ℕ) → find_group q group ≡ none → NoGroup group q.slots
  unfolding find_group
  missing-NoGroup q group e = find_from-NoGroup group 0 q.slots e

  pub prepare_slot-IsRing :
      (c : Config) (calloc_ok : Bool) (group : ℕ) (s s' : Slot A)
      → IsRing c s
      → prepare_slot calloc_ok group s ≡ ok s'
      → IsRing c s'
        × (s'.group_id ≡ group)
        × (s'.count ≡ 0)
        × (s'.queued_data_bytes ≡ 0)
        × (s'.head ≡ 0)
  unfolding prepare_slot
  prepare_slot-IsRing c calloc_ok group s s' w e =
      let h : s'.head ≡ 0 = ground (arith, e) in
      let n : s'.count ≡ 0 = ground (arith, e) in
      let b : s'.queued_data_bytes ≡ 0 = ground (arith, e) in
      let g : s'.group_id ≡ group = ground (arith, e) in
      (
        record {
          head_lt = omega (arith, h, w.head_lt);
          count_le = omega (arith, n);
          bytes_eq = b ∙ sym (ap bytes_of (contents_empty c.per_group_item_capacity s' n));
          bytes_le = omega (arith, b);
        },
        g,
        n,
        b,
        h,
      )

  enqueue_new-Puts :
      (q q' : Queue A) (calloc_ok : Bool) (group : ℕ) (owned : A) (bytes : ℕ)
      → IsValid q
      → group ≢ 0
      → HasRoom q bytes
      → NoGroup group q.slots
      → enqueue_new calloc_ok group owned bytes q ≡ (ok tt, q')
      → Puts q group (as_cell owned bytes) q'
  unfolding enqueue_new put
  enqueue_new-Puts q q' calloc_ok group owned bytes v gz all n e =
      elim (Option-cases (find_group q 0)) [
        | inl miss ↦ absurd (ground (arith, e, miss))
        | inr found ↦
            let (i, at) = found in
            let (s, f) = found-First q 0 i at in
            let get = get_elem?-First 0 i q.slots s f in
            let w = AllSlots-get (IsSlot q.config) i q.slots s get v.slots_valid in
            elim (Result-cases (prepare_slot calloc_ok group s)) [
              | inl bad ↦ absurd (ground (arith, e, at, get, bad.1))
              | inr fine ↦
                  let (s', p) = fine in
                  let (w', g, cz, bz, _) =
                    prepare_slot-IsRing q.config calloc_ok group s s' w.is_ring p in
                  let room : slot_full q.config bytes s' ≡ false = ground (arith, e, at, get, p) in
                  let done : placed q i s' owned bytes (q.active_group_count + 1) ≡ q' =
                    rw (sym (set-set q.slots i s' (appended q.config owned bytes s')))
                      (ground (arith, e, at, get, p)) in
                  subst (λ t. Puts q group (as_cell owned bytes) t) done
                    (put_new q group i s s' owned bytes v gz f n w' g cz bz all room)
            ]
      ]

  -- A payload that a valid queue takes goes behind the others of its group: the queue stays valid, and
  -- no other group changes.
  pub enqueue-Puts :
      (q q' : Queue A) (calloc_ok : Bool) (group : ℕ) (owned : A) (bytes : ℕ)
      → IsValid q
      → enqueue calloc_ok group owned bytes q ≡ (ok tt, q')
      → Puts q group (as_cell owned bytes) q'
  unfolding enqueue put
  enqueue-Puts q q' calloc_ok group owned bytes v e =
      let gz : group ≢ 0 = ground (arith, e) in
      let all : HasRoom q bytes = ground (arith, e) in
      elim (Option-cases (find_group q group)) [
        | inl miss ↦
            enqueue_new-Puts q q' calloc_ok group owned bytes v gz all
              (missing-NoGroup q group miss) (ground (arith, e, miss))
        | inr found ↦
            let (i, at) = found in
            let (s, f) = found-First q group i at in
            let get = get_elem?-First group i q.slots s f in
            let room : slot_full q.config bytes s ≡ false = ground (arith, e, at, get) in
            let done : placed q i s owned bytes q.active_group_count ≡ q' =
              ground (arith, e, at, get) in
            subst (λ t. Puts q group (as_cell owned bytes) t) done
              (put_existing q group i s owned bytes v gz f all room)
      ]
