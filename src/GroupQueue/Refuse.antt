-- ===== src/GroupQueue/Refuse.antt =====
-- What an enqueue that fails leaves of the queues of the groups.
use turboraft.Prelude.{
  ℕ, ◌-◌, ◌≡◌, ◌≢◌, ◌∙◌, refl, sym, subst, Bool, ◌==◌, not, ltb, leb, ◌||◌, arith, inl, inr, set,
  Bool-cases, Option-cases, ==_iff,
}
use turboraft.Status.{Error, Result-cases, err}
use turboraft.GroupQueue.{Slot, Queue, put, enqueue, enqueue_new, find_group, prepare_slot}
use turboraft.GroupQueue.Groups.{
  First, get_elem?-First, group-First, Distinct-set, total-set, AllSlots-get, AllSlots-set,
  items-set,
}
use turboraft.GroupQueue.Valid.{IsRing, IsSlot, in_use, IsValid, length-set, set-set}
use turboraft.GroupQueue.Refine.{if_false}
use turboraft.GroupQueue.Accept.{Keeps, bytes_zero}
use turboraft.GroupQueue.Offer.{found-First, prepare_slot-IsRing}

module _ {A : Type 0} where
  abbrev freed : Slot A → Slot A
  freed s = record s { group_id = 0 }

  abbrev given_back : Queue A → ℕ → Slot A → Queue A
  given_back q i s = record q { slots = set q.slots i (freed s) }

  Keeps-all : (q : Queue A) → IsValid q → Keeps q q
  Keeps-all q v = record { valid = v; same = λ g nz. refl }

  -- A free slot that is made ready for a group, and freed again.
  given_back-Keeps :
      (q : Queue A) (i : ℕ) (s s' : Slot A)
      → IsValid q
      → First 0 i q.slots s
      → IsRing q.config s'
      → s'.count ≡ 0
      → s'.queued_data_bytes ≡ 0
      → s'.head ≡ 0
      → Keeps q (given_back q i s')
  given_back-Keeps q i s s' v f w cz bz hz =
      let get = get_elem?-First 0 i q.slots s f in
      let free = group-First 0 i q.slots s f in
      let w0 = AllSlots-get (IsSlot q.config) i q.slots s get v.slots_valid in
      let t = freed s' in
      let w' : IsSlot q.config t = record {
        is_ring = record {
          head_lt = w.head_lt;
          count_le = w.count_le;
          bytes_eq = w.bytes_eq;
          bytes_le = w.bytes_le;
        };
        free_empty = λ _. cz;
        empty_free = λ _. refl;
      } in
      record {
        valid = record {
          slots_length = length-set q.slots i t ∙ v.slots_length;
          slots_valid = AllSlots-set (IsSlot q.config) i q.slots t w' v.slots_valid;
          distinct = Distinct-set 0 i q.slots s t f v.distinct (inr refl);
          item_count = omega (
            arith,
            v.item_count,
            cz,
            w0.free_empty free,
            total-set (λ (t : Slot A). t.count) i q.slots s t get,
          );
          byte_count = omega (
            arith,
            v.byte_count,
            bz,
            bytes_zero q.config s w0 free,
            total-set (λ (t : Slot A). t.queued_data_bytes) i q.slots s t get,
          );
          group_count = ground (arith, v.group_count, free, total-set in_use i q.slots s t get);
          items_le = v.items_le;
          bytes_le = v.bytes_le;
          cursor_lt = v.cursor_lt;
          set_up = v.set_up;
        };
        same = λ g nz.
            items-set q.config.per_group_item_capacity 0 g i q.slots s t f refl
            ∙ if_false (λ e. nz (sym ((==_iff 0 g).0 e))) _ _;
      }

  enqueue_new-Keeps :
      (q q' : Queue A) (calloc_ok : Bool) (group : ℕ) (owned : A) (bytes : ℕ) (x : Error)
      → IsValid q
      → enqueue_new calloc_ok group owned bytes q ≡ (err x, q')
      → Keeps q q'
  unfolding enqueue_new put
  enqueue_new-Keeps q q' calloc_ok group owned bytes x v e =
      elim (Bool-cases (leb q.config.max_groups q.active_group_count)) [
        | inl full ↦ subst (Keeps q) (ground (arith, e, full)) (Keeps-all q v)
        | inr open_ ↦ elim (Option-cases (find_group q 0)) [
          | inl miss ↦ subst (Keeps q) (ground (arith, e, open_, miss)) (Keeps-all q v)
          | inr found ↦
              let (i, at) = found in
              let (s, f) = found-First q 0 i at in
              let get = get_elem?-First 0 i q.slots s f in
              let w = AllSlots-get (IsSlot q.config) i q.slots s get v.slots_valid in
              elim (Result-cases (prepare_slot calloc_ok group s)) [
                | inl bad ↦
                    subst (Keeps q) (ground (arith, e, at, get, bad.1, open_)) (Keeps-all q v)
                | inr fine ↦
                    let (s', p) = fine in
                    let (w', g, cz, bz, hz) =
                      prepare_slot-IsRing q.config calloc_ok group s s' w.is_ring p in
                    let done : given_back q i s' ≡ q' =
                      rw (sym (set-set q.slots i s' (freed s')))
                        (ground (arith, e, at, get, p, open_, cz, bz)) in
                    subst (Keeps q) done (given_back-Keeps q i s s' v f w' cz bz hz)
              ]
        ]
      ]

  -- An enqueue that fails, for whatever reason, leaves the queue valid and what every group has queued
  -- as it was: a slot that was opened for the group is given back.
  pub enqueue-Keeps :
      (q q' : Queue A) (calloc_ok : Bool) (group : ℕ) (owned : A) (bytes : ℕ) (x : Error)
      → IsValid q
      → enqueue calloc_ok group owned bytes q ≡ (err x, q')
      → Keeps q q'
  unfolding enqueue put
  enqueue-Keeps q q' calloc_ok group owned bytes x v e =
      elim (Bool-cases (
        (not q.initialized || group == 0)
        || (leb q.config.total_item_capacity q.queued_item_count
            || ltb (q.config.total_data_bytes - q.queued_data_bytes) bytes))) [
              | inl refused ↦ subst (Keeps q) (ground (arith, e, refused)) (Keeps-all q v)
              | inr passed ↦
                  let gz : group ≢ 0 = ground (arith, passed) in
                  elim (Option-cases (find_group q group)) [
                    | inl miss ↦
                        enqueue_new-Keeps q q' calloc_ok group owned bytes x v
                          (ground (arith, e, miss, passed))
                    | inr found ↦
                        let (i, at) = found in
                        let (s, f) = found-First q group i at in
                        let get = get_elem?-First group i q.slots s f in
                        let same = group-First group i q.slots s f in
                        let w = AllSlots-get (IsSlot q.config) i q.slots s get v.slots_valid in
                        let cz : s.count ≢ 0 = λ z. gz (sym same ∙ w.empty_free z) in
                        subst (Keeps q) (ground (arith, e, at, get, passed, cz)) (Keeps-all q v)
                  ]
            ]
