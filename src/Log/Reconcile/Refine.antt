-- ===== src/Log/Reconcile/Refine.antt =====
-- `tr_raft_log_reconcile` against the abstract rule `merge_entries`.
use mathlib.Core.List.{append_assoc}
use turboraft.Prelude.{
  ◌↔◌, ◌∙◌, ℕ, zero, suc, ◌+◌, ◌-◌, ◌≤◌, ◌≡◌, sym, subst, inl, inr, refl, ap, Bool, ◌||◌, ◌&&◌,
  true, false, List, [], ◌∷◌, ◌++◌, ltb, leb, if◌then◌else◌, length, take, drop, arith, length-drop,
  length-take, take-append-drop, take-add, Bool-cases, ltb_false→le,
}
use turboraft.Status.{Error, eproto, enospc, Result, ok, err, stl_status_to_error}
use turboraft.Conf.{u64_max}
use turboraft.Entry.{Entry}
use turboraft.Vec.{Vec, resized}
use turboraft.Log.{Log, count, log_matches, get}
use turboraft.Log.Reconcile.{
  Scan, fails, unchanged, changes, scan, Outcome, undefined, returns, kept, stored, zero_entry,
  write_all, replace, reconcile,
}
use turboraft.Log.Reconcile.Merge.{merge_entries, InRange, Scanned, scan-Scanned}
use turboraft.Log.Held.{HasEntry, log_matches-HasEntry}
use turboraft.Log.Reconcile.Store.{Numbered, write_all-append, resized_split}

-- What holds of the log behind a call that returns SALTS_OK.
pub record Merges (log : Log) (previous : ℕ) (incoming : List Entry) (log' : Log) : Type 0 where
  pub base_index : log'.base_index ≡ log.base_index
  pub base_term : log'.base_term ≡ log.base_term
  pub max_entries : log'.max_entries ≡ log.max_entries
  pub entries :
      log'.entries
      ≡ take (previous - log.base_index) log.entries
        ++ merge_entries (drop (previous - log.base_index) log.entries) incoming

abbrev Settles : Log → ℕ → ℕ → List Entry → Outcome → Type 0
Settles log previous previous_term incoming undefined = ⊥
Settles log previous previous_term incoming (returns (err e)) = Unit
Settles log previous previous_term incoming (returns (ok (r, log'))) =
    (r.matched ≡ log_matches log previous previous_term)
    × (r.matched ≡ false → log' ≡ log)
    × (r.matched ≡ true → Merges log previous incoming log')

-- An entry that the log matches lies within it.
log_matches_bounds :
    (log : Log) (index term : ℕ)
    → InRange log
    → log_matches log index term ≡ true
    → (log.base_index ≤ index) × (index ≤ log.base_index + length log.entries)
unfolding log_matches get
log_matches_bounds log index term h e = (ground arith, ground arith)

Numbered-drop :
    (previous n : ℕ) (incoming rest : List Entry)
    → Numbered previous incoming
    → drop n incoming ≡ rest
    → Numbered (previous + n) rest
Numbered-drop previous zero incoming rest h e =
    let k : previous + 0 ≡ previous = omega arith in rw k (subst (Numbered previous) e h)
Numbered-drop previous (suc n) [] rest h e = subst (Numbered (previous + suc n)) e tt
Numbered-drop previous (suc n) (x ∷ incoming) rest h e =
    let k : previous + suc n ≡ suc previous + n = omega arith in
    rw k (Numbered-drop (suc previous) n incoming rest h.1 e)

length-drop_rest :
    (n : ℕ) (incoming : List Entry) (e : Entry) (es : List Entry)
    → drop n incoming ≡ e ∷ es
    → n + suc (length es) ≡ length incoming
length-drop_rest n incoming e es d =
    omega (arith, length-drop n incoming, ap length d, length-drop_rest_le)
  where
    length-drop_rest_le : length (drop n incoming) ≡ suc (length es)
    length-drop_rest_le = ap length d

Settles-checks :
    (log : Log) (previous previous_term : ℕ) (incoming : List Entry) (a b : Bool) (x y : Error)
    (r : Result (Unit {0})) (o : Outcome)
    → Settles log previous previous_term incoming o
    → Settles log previous previous_term incoming (
        if a
        then returns (err x)
        else if b
        then returns (err y)
        else elim r [ err s ↦ returns (err s) | ok _ ↦ o ])
Settles-checks log previous previous_term incoming true b x y r o h = tt
Settles-checks log previous previous_term incoming false true x y r o h = tt
Settles-checks log previous previous_term incoming false false x y (err s) o h = tt
Settles-checks log previous previous_term incoming false false x y (ok _) o h = h

-- The entries that are stored are those of the abstract rule.
stored-Settles :
    (log : Log) (previous previous_term : ℕ) (incoming : List Entry) (n : ℕ) (t : Bool) (e : Entry)
    (es : List Entry)
    → InRange log
    → Numbered previous incoming
    → previous + length incoming ≤ u64_max
    → log_matches log previous previous_term ≡ true
    → Scanned 0 (drop (previous - log.base_index) log.entries) incoming (changes n t e es)
    → Settles log previous previous_term incoming (
        stored log t e es (
          write_all log.base_index
            (e ∷ es)
            (resized zero_entry (previous - log.base_index + n + suc (length es)) log.entries)))
stored-Settles log previous previous_term incoming n t e es fits num room m (k, ek, le, mg, dr, w) =
    let bounds = log_matches_bounds log previous previous_term fits m in
    let d : ℕ = previous - log.base_index in
    let same : k ≡ n = omega arith in
    let size = length-drop_rest k incoming e es dr in
    let short : d + n ≤ length log.entries = omega (arith, le, length-drop d log.entries, bounds) in
    let (after, split, l) =
      resized_split (d + n) (d + n + suc (length es)) log.entries short (omega arith) in
    let kept = length-take (d + n) log.entries in
    let w =
      write_all-append log.base_index (previous + k) (take (d + n) log.entries) (e ∷ es) after
        (Numbered-drop previous k incoming (e ∷ es) num dr) (omega arith) (omega arith)
        (omega arith) in
    rw (split, w)
      (
        sym m,
        (λ z. cc),
        λ z. record {
          base_index = refl;
          base_term = refl;
          max_entries = refl;
          entries =
              rw (take-add d n log.entries, mg, same)
                (append_assoc (take d log.entries) (take n (drop d log.entries)) (e ∷ es));
        },
      )

reconcile-Settles :
    (v : Vec) (log : Log) (previous previous_term : ℕ) (incoming : List Entry) (protected : ℕ)
    → InRange log
    → previous ≤ u64_max
    → Numbered previous incoming
    → Settles log previous previous_term incoming
        (reconcile v log previous previous_term incoming protected)
unfolding reconcile
reconcile-Settles v log previous previous_term incoming protected fits small num =
    elim (Bool-cases (ltb (u64_max - previous) (length incoming))) [
      | inl long ↦ rw long tt
      | inr room ↦ rw room (elim (Bool-cases (log_matches log previous previous_term)) [
        | inr f ↦ rw f (sym f, (λ z. refl), (λ z. cc))
        | inl m ↦ rw m (
            go m (omega (arith, ltb_false→le _ _ room)) (scan log previous 0 incoming)
              (found m (omega (arith, ltb_false→le _ _ room))))
      ])
    ]
  where
    found :
        log_matches log previous previous_term ≡ true
        → previous + length incoming ≤ u64_max
        → Scanned 0
            (drop (previous - log.base_index) log.entries)
            incoming
            (scan log previous 0 incoming)
    found m room =
        let bounds = log_matches_bounds log previous previous_term fits m in
        scan-Scanned log previous (previous - log.base_index) 0 incoming _ fits (omega arith)
          (omega arith) (ap (λ k. drop k log.entries) (omega arith))

    go :
        log_matches log previous previous_term ≡ true
        → previous + length incoming ≤ u64_max
        → (s : Scan) → Scanned 0 (drop (previous - log.base_index) log.entries) incoming s
        → Settles log previous previous_term incoming (elim s [
          | fails s ↦ returns (err s)
          | unchanged ↦ kept log
          | changes first_change truncates e es ↦
              replace v log previous protected first_change truncates e es
        ])
    go m room (fails e) h = tt
    go m room unchanged h = (
      sym m,
      (λ z. cc),
      λ z. record {
        base_index = refl;
        base_term = refl;
        max_entries = refl;
        entries = rw h (sym (take-append-drop (previous - log.base_index) log.entries));
      },
    )
    go m room (changes n t e es) h =
        Settles-checks log previous previous_term incoming (t && leb e.index protected)
          (ltb log.max_entries (previous - log.base_index + n)
            || ltb (log.max_entries - (previous - log.base_index + n)) (suc (length es)))
          eproto enospc
          (stl_status_to_error
            (v.resize (count log) (previous - log.base_index + n + suc (length es))))
          (stored log t e es (
            write_all log.base_index (e ∷ es)
              (resized zero_entry (previous - log.base_index + n + suc (length es)) log.entries)))
          (stored-Settles log previous previous_term incoming n t e es fits num room m h)

-- What is known behind a call of `tr_raft_log_reconcile`.
abbrev pub Reconciles : Log → ℕ → ℕ → List Entry → Outcome → Type 0
Reconciles log previous previous_term incoming undefined = ⊥
Reconciles log previous previous_term incoming (returns (err e)) = Unit
Reconciles log previous previous_term incoming (returns (ok (r, log'))) =
    ((r.matched ≡ true) ↔ HasEntry log previous previous_term)
    × (r.matched ≡ false → log' ≡ log)
    × (r.matched ≡ true → Merges log previous incoming log')

-- `tr_raft_log_reconcile` never writes out of range. Where it returns SALTS_OK, it matched exactly if the
-- previous index and term are those that the compacted prefix ends with, or those of an entry of the log;
-- the log is unchanged without a match, and with one it holds the merge of the entries behind the previous
-- one with the incoming entries. The log's indices do not wrap, and the incoming entries are numbered
-- from the previous index on.
pub reconcile_refines :
    (v : Vec) (log : Log) (previous previous_term : ℕ) (incoming : List Entry) (protected : ℕ)
    → InRange log
    → previous ≤ u64_max
    → Numbered previous incoming
    → Reconciles log previous previous_term incoming
        (reconcile v log previous previous_term incoming protected)
reconcile_refines v log previous previous_term incoming protected fits small num =
    settled (reconcile v log previous previous_term incoming protected)
      (reconcile-Settles v log previous previous_term incoming protected fits small num)
  where
    settled :
        (o : Outcome)
        → Settles log previous previous_term incoming o
        → Reconciles log previous previous_term incoming o
    settled undefined h = h
    settled (returns (err e)) h = tt
    settled (returns (ok (r, log'))) (m, same, merges) =
        let held = log_matches-HasEntry log previous previous_term fits in
        (((λ e. held.0 (sym m ∙ e)), (λ e. m ∙ held.1 e)), same, merges)
