-- ===== src/Log/Reconcile/Merge.antt =====
-- What a leader's entries should do to the local entries behind the entry that they follow, and that
-- the loop of `tr_raft_log_reconcile` finds it.
use turboraft.Prelude.{
  ℕ, suc, ◌+◌, ◌-◌, ◌≤◌, ◌≡◌, ◌⊎◌, inl, inr, refl, Bool, true, false, not, List, [], ◌∷◌, ◌++◌,
  ◌==◌, if◌then◌else◌, length, get_elem?, take, drop, arith, get_elem?_beyond, get_elem?-drop_nil,
  get_elem?-drop_cons, Bool-cases,
}
use turboraft.Conf.{u64_max, add64}
use turboraft.Status.{einval, eproto}
use turboraft.Entry.{Entry}
use turboraft.Log.{Log, get}
use turboraft.Log.Reconcile.{Scan, fails, unchanged, changes, scan}

-- An entry with the term of the local one at its index is there already. The first other entry
-- replaces all that is left, and so does an entry behind the end.
unfoldable pub merge_entries : List Entry → List Entry → List Entry
merge_entries local [] = local
merge_entries [] (e ∷ es) = e ∷ es
merge_entries (l ∷ local) (e ∷ es) = if l.term == e.term then l ∷ merge_entries local es else e ∷ es

-- No index of the log wraps.
abbrev pub InRange : Log → Type 0
InRange log = log.base_index + length log.entries ≤ u64_max

pub get_from :
    (log : Log) (d : ℕ) → InRange log → get log (log.base_index + d + 1) ≡ get_elem? log.entries d
unfolding get
get_from log d h =
    let k : log.base_index + d + 1 - log.base_index - 1 ≡ d = omega arith in
    ground (arith, k, get_elem?_beyond log.entries d)

-- How the loop has ended, where `local` is what the log holds from the first incoming entry on.
abbrev pub Scanned : ℕ → List Entry → List Entry → Scan → Type 0
Scanned i local incoming (fails s) = Unit
Scanned i local incoming unchanged = merge_entries local incoming ≡ local
Scanned i local incoming (changes k truncates e es) =
    (n : ℕ) × (k ≡ i + n)
    × (n ≤ length local)
    × (merge_entries local incoming ≡ take n local ++ e ∷ es)
    × (drop n incoming ≡ e ∷ es)
    × ((truncates ≡ true) ⊎ (n ≡ length local))

Scanned-suc :
    (i : ℕ) (l : Entry) (local : List Entry) (e : Entry) (es : List Entry) (s : Scan)
    → (l.term == e.term) ≡ true
    → Scanned (i + 1) local es s
    → Scanned i (l ∷ local) (e ∷ es) s
unfolding merge_entries
Scanned-suc i l local e es (fails s) t h = tt
Scanned-suc i l local e es unchanged t h = rw (t, h)
Scanned-suc i l local e es (changes k truncates x xs) t (n, ek, le, m, d, w) = (
  suc n,
  omega arith,
  omega arith,
  rw (t, m),
  d,
  elim w [ inl y ↦ inl y | inr z ↦ inr (omega arith) ],
)

Scanned-checks :
    (i : ℕ) (local incoming : List Entry) (a b : Bool) (s : Scan)
    → Scanned i local incoming s
    → Scanned i local incoming (if a then fails einval else if b then fails eproto else s)
Scanned-checks i local incoming true b s h = tt
Scanned-checks i local incoming false true s h = tt
Scanned-checks i local incoming false false s h = h

Scanned-conflict :
    (i : ℕ) (l : Entry) (local : List Entry) (e : Entry) (es : List Entry) (b : Bool) (s : Scan)
    → Scanned (i + 1) local es s
    → Scanned i
        (l ∷ local)
        (e ∷ es)
        (if not (l.term == e.term) then changes i true e es else if b then fails eproto else s)
unfolding merge_entries
Scanned-conflict i l local e es b s h = elim (Bool-cases (l.term == e.term)) [
  | inl t ↦
      rw t
        (elim (Bool-cases b) [ inl f ↦ rw f tt | inr g ↦ rw g (Scanned-suc i l local e es s t h) ])
  | inr f ↦ rw f (0, omega arith, omega arith, rw f, refl, inl refl)
]

get_expected :
    (log : Log) (previous d i : ℕ)
    → InRange log
    → previous ≡ log.base_index + d
    → previous + i + 1 ≤ u64_max
    → get log (add64 (add64 previous i) 1) ≡ get_elem? log.entries (d + i)
get_expected log previous d i fits p room =
    let e : add64 (add64 previous i) 1 ≡ log.base_index + (d + i) + 1 = omega arith in
    rw e (get_from log (d + i) fits)

-- The loop finds what the abstract rule says.
pub scan-Scanned :
    (log : Log) (previous d i : ℕ) (incoming local : List Entry)
    → InRange log
    → previous ≡ log.base_index + d
    → previous + i + length incoming ≤ u64_max
    → drop (d + i) log.entries ≡ local
    → Scanned i local incoming (scan log previous i incoming)
unfolding scan merge_entries
scan-Scanned log previous d i [] [] fits p room at = refl
scan-Scanned log previous d i [] (l ∷ local) fits p room at = refl
scan-Scanned log previous d i (e ∷ es) [] fits p room at =
    let here = get_expected log previous d i fits p (omega arith) in
    let gone = get_elem?-drop_nil log.entries (d + i) at in
    rw (here, gone)
      (Scanned-checks i [] (e ∷ es) _ _ (changes i false e es)
        (0, omega arith, omega arith, refl, refl, inr refl))
scan-Scanned log previous d i (e ∷ es) (l ∷ local) fits p room at =
    let here = get_expected log previous d i fits p (omega arith) in
    let (found, rest, _) = get_elem?-drop_cons log.entries (d + i) l local at in
    let k : d + (i + 1) ≡ suc (d + i) = omega arith in
    rw (here, found)
      (Scanned-checks i (l ∷ local) (e ∷ es) _ _ _ (
        Scanned-conflict i l local e es _ (scan log previous (i + 1) es)
          (scan-Scanned log previous d (i + 1) es local fits p (omega arith) (rw k rest))))
