-- ===== src/Log/Reconcile/Store.antt =====
-- The loop of `tr_raft_log_reconcile` that stores the new entries.
use mathlib.Core.List.{append_assoc}
use turboraft.Prelude.{
  ℕ, zero, suc, ◌+◌, ◌-◌, ◌≤◌, ◌≡◌, sym, refl, ap, some, List, [], ◌∷◌, ◌++◌, length, take, arith,
  length-append,
}
use turboraft.Conf.{u64_max}
use turboraft.Entry.{Entry}
use turboraft.Vec.{resized, write_at}
use turboraft.Log.Reconcile.{zero_entry, offset, write_all}

-- Entries with consecutive indices behind `previous`.
abbrev pub Numbered : ℕ → List Entry → Type 0
Numbered previous [] = Unit
Numbered previous (e ∷ es) = (e.index ≡ suc previous) × Numbered (suc previous) es

write_at-append :
    (before : List Entry) (i : ℕ) (x y : Entry) (after : List Entry)
    → length before ≡ i
    → write_at i x (before ++ y ∷ after) ≡ some (before ++ x ∷ after)
unfolding write_at
write_at-append [] zero x y after h = refl
write_at-append [] (suc i) x y after h = absurd (omega arith)
write_at-append (b ∷ before) zero x y after h = absurd (omega arith)
write_at-append (b ∷ before) (suc i) x y after h =
    rw (write_at-append before i x y after (omega arith)) refl

-- Numbered entries fill the end of the list, in order, and no write is out of range.
pub write_all-append :
    (base_index previous : ℕ) (before new after : List Entry)
    → Numbered previous new
    → base_index + length before ≡ previous
    → length after ≡ length new
    → previous + length new ≤ u64_max
    → write_all base_index new (before ++ after) ≡ some (before ++ new)
unfolding write_all
write_all-append base_index previous before [] [] n p l room = refl
write_all-append base_index previous before [] (y ∷ after) n p l room = absurd (omega arith)
write_all-append base_index previous before (e ∷ es) [] n p l room = absurd (omega arith)
write_all-append base_index previous before (e ∷ es) (y ∷ after) n p l room =
    let s = write_at-append before (offset base_index e.index) e y after (omega (arith, n.0)) in
    let one : before ++ e ∷ after ≡ (before ++ e ∷ []) ++ after =
      sym (append_assoc before (e ∷ []) after) in
    let r =
      write_all-append base_index (suc previous) (before ++ e ∷ []) es after n.1
        (omega (arith, p, length-append before (e ∷ []))) (omega arith) (omega arith) in
    rw (s, write_all, one, r) (ap some (append_assoc before (e ∷ []) es))

length-resized : (m : ℕ) (xs : List Entry) → length (resized zero_entry m xs) ≡ m
unfolding resized
length-resized zero xs = refl
length-resized (suc m) [] = ap suc (length-resized m [])
length-resized (suc m) (x ∷ xs) = ap suc (length-resized m xs)

-- A resize to `r` elements and more keeps the first `r`.
pub resized_split :
    (r m : ℕ) (xs : List Entry)
    → r ≤ length xs
    → r ≤ m
    → (after : List Entry) × (resized zero_entry m xs ≡ take r xs ++ after) × (length after ≡ m - r)
unfolding resized
resized_split zero m xs h k = (resized zero_entry m xs, refl, omega (arith, length-resized m xs))
resized_split (suc r) m [] h k = absurd (omega arith)
resized_split (suc r) zero (x ∷ xs) h k = absurd (omega arith)
resized_split (suc r) (suc m) (x ∷ xs) h k =
    let (after, e, l) = resized_split r m xs (omega arith) (omega arith) in
    (after, ap (◌∷◌ x) e, omega arith)
