-- ===== src/Transition/Steps.antt =====
-- The pending configurations of src/core/raft_membership_transition.c: how commits and proposals move
-- them.
use turboraft.Prelude.{
  ℕ, ◌≤◌, ◌<◌, ◌≡◌, ◌⊎◌, inl, inr, refl, true, false, Bool-cases, List, [], ◌∷◌, ◌++◌, ltb, leb,
  ltb→lt, length, length-append, subst, sym, arith, ◌==◌,
}
use turboraft.Status.{ok}
use turboraft.Conf.{Conf}
use turboraft.Transition.{
  Transition, Pending, commit_limit, apply, apply_pending, stage, stage_new, last_log_index,
  max_pending,
}

-- The first pending configuration is above an index.
unfoldable pub IsAfter : ℕ → List Pending → Type 0
IsAfter i [] = Unit
IsAfter i (p ∷ ps) = i < p.log_index

-- The log indices of the pending configurations ascend.
unfoldable pub Ascending : List Pending → Type 0
unfolding IsAfter
Ascending [] = Unit
Ascending (p ∷ ps) = IsAfter p.log_index ps × Ascending ps

-- What a commit does to a transition: nothing, or it makes the first pending configuration the committed
-- one, at that configuration's index.
abbrev pub OneStep : Transition → ℕ → Transition → Type 0
OneStep t i after =
    ((after ≡ t) × IsAfter i t.pending)
    ⊎ ((p : Pending) × (ps : List Pending) × (t.pending ≡ p ∷ ps)
        × (i ≡ p.log_index)
        × (after ≡ record { committed = p.configuration; pending = ps }))

apply_pending-later :
    (i : ℕ) (committed : Conf) (ps : List Pending)
    → IsAfter i ps
    → apply_pending i committed ps ≡ record { committed = committed; pending = ps }
unfolding apply_pending IsAfter
apply_pending-later i committed [] h = refl
apply_pending-later i committed (p ∷ ps) h =
    let c : leb p.log_index i ≡ false = ground arith in rw c refl

apply-commit_limit_at :
    (committed : Conf) (ps : List Pending) (candidate : ℕ)
    → Ascending ps
    → OneStep
        (record { committed = committed; pending = ps })
        (commit_limit (record { committed = committed; pending = ps }) candidate)
        (apply
          (record { committed = committed; pending = ps })
          (commit_limit (record { committed = committed; pending = ps }) candidate))
unfolding apply commit_limit Ascending IsAfter apply_pending
apply-commit_limit_at committed [] candidate h = inl (refl, tt)
apply-commit_limit_at committed (p ∷ ps) candidate h =
    elim (Bool-cases (ltb candidate p.log_index)) [
      | inl c ↦
          let d : leb p.log_index candidate ≡ false = ground arith in
          moved candidate (rw c refl) (inl (rw d refl, ltb→lt candidate p.log_index c))
      | inr c ↦
          let d : leb p.log_index p.log_index ≡ true = ground arith in
          moved p.log_index (rw c refl)
            (inr (p, ps, refl, refl, rw d (apply_pending-later p.log_index p.configuration ps h.0)))
    ]
  where
    whole : Transition
    whole = record { committed = committed; pending = p ∷ ps }

    moved :
        (i : ℕ)
        → commit_limit whole candidate ≡ i
        → OneStep whole i (apply whole i)
        → OneStep whole (commit_limit whole candidate) (apply whole (commit_limit whole candidate))
    moved i e o = subst (λ k. OneStep whole k (apply whole k)) (sym e) o

-- A commit to the commit limit of any candidate passes no pending configuration, or exactly the first:
-- that becomes the committed one, at its own index; for pending configurations in ascending order of their
-- log indices.
pub apply-commit_limit :
    (t : Transition) (candidate : ℕ)
    → Ascending t.pending
    → OneStep t (commit_limit t candidate) (apply t (commit_limit t candidate))
apply-commit_limit t candidate h = apply-commit_limit_at t.committed t.pending candidate h

Ascending-append :
    (p : Pending) (ps : List Pending) (low : ℕ)
    → Ascending ps
    → IsAfter low ps
    → last_log_index low ps < p.log_index
    → Ascending (ps ++ p ∷ []) × IsAfter low (ps ++ p ∷ [])
unfolding Ascending IsAfter last_log_index
Ascending-append p [] low h a k = ((tt, tt), k)
Ascending-append p (q ∷ ps) low h a k =
    let r = Ascending-append p ps q.log_index h.1 h.0 k in ((r.1, r.0), a)

staged_Ascending :
    (p : Pending) (ps : List Pending)
    → Ascending ps
    → (length ps ≡ 0) ⊎ (last_log_index 0 ps < p.log_index)
    → Ascending (ps ++ p ∷ [])
unfolding Ascending IsAfter last_log_index
staged_Ascending p [] a k = (tt, tt)
staged_Ascending p (q ∷ ps) a (inl z) = absurd (omega arith)
staged_Ascending p (q ∷ ps) a (inr k) =
    let r = Ascending-append p ps q.log_index a.1 a.0 k in (r.1, r.0)

-- What staging keeps.
pub record IsStaged (t : Transition) : Type 0 where
  pub ascending : Ascending t.pending
  pub bounded : length t.pending ≤ max_pending

stage_new-IsStaged :
    (t after : Transition) (configuration : Conf) (log_index : ℕ)
    → IsStaged t
    → stage_new t configuration log_index ≡ ok after
    → IsStaged after
unfolding stage_new
stage_new-IsStaged t after configuration log_index h e =
    let shape : after.pending
        ≡ t.pending ++ record { configuration = configuration; log_index = log_index } ∷ [] =
      ground arith in
    let later : (length t.pending ≡ 0) ⊎ (last_log_index 0 t.pending < log_index) = ground arith in
    let room : (length t.pending == max_pending) ≡ false = ground arith in
    let new : Pending = record { configuration = configuration; log_index = log_index } in
    record {
      ascending = subst Ascending (sym shape) (staged_Ascending new t.pending h.ascending later);
      bounded =
          subst (λ ps. length ps ≤ max_pending) (sym shape)
            (ground (arith, length-append t.pending (new ∷ [])));
    }

-- Staging a configuration keeps the pending ones in ascending order of their log indices, and at most two.
pub stage-IsStaged :
    (t after : Transition) (configuration : Conf) (log_index : ℕ)
    → IsStaged t
    → stage t configuration log_index ≡ ok after
    → IsStaged after
unfolding stage
stage-IsStaged t after configuration log_index h e =
    ground (arith, stage_new-IsStaged t after configuration log_index h)
