-- ===== src/Core/Commit/Rule.antt =====
-- The commit rule of `tr_update_commit` in src/core/raft_core.c.
use turboraft.Prelude.{
  ℕ, zero, suc, ◌-◌, ◌≤◌, ◌<◌, ◌≡◌, ◌≢◌, ◌↔◌, true, false, Bool, not, ltb, leb, ◌==◌, if◌then◌else◌,
  ==_iff, leb→le, leb_false→lt, le_or_lt, inl, inr, subst, refl, arith, List, [], ◌∷◌, length,
  get_elem?, Option-cases, Bool-cases,
}
use turboraft.Conf.{Conf, old_voter, new_voter, add64}
use turboraft.Transition.{Pending, commit_limit}
use turboraft.Log.{last_index, get}
use turboraft.Log.Held.{HoldsOf}
use turboraft.Log.Reconcile.{term_of}
use turboraft.Core.{Core}
use turboraft.Core.Peers.{core_match_quorum}
use turboraft.Core.Commit.{commit_search, commit_target}
use turboraft.Core.Commit.Reached.{IsLeading, MostReached, core_match_quorum-MostReached}

-- What the search tests at a candidate.
record IsPassing (core : Core) (i : ℕ) : Type 0 where
  pub own_term : term_of (get core.log i) ≡ core.term
  pub quorum : core_match_quorum core i ≡ true

-- `r` is the commit index, or the greatest passing index above it and up to `limit`.
record IsFound (core : Core) (limit r : ℕ) : Type 0 where
  pub not_below : core.commit_index ≤ r
  pub moved_to : core.commit_index < r → (r ≤ limit) × IsPassing core r
  pub greatest : (i : ℕ) → r < i → i ≤ limit → ¬ IsPassing core i

-- No index above the commit index is left.
stays_IsFound :
    (core : Core) (limit : ℕ) → limit ≤ core.commit_index → IsFound core limit core.commit_index
stays_IsFound core limit h = record {
  not_below = omega arith;
  moved_to = λ lt. absurd (omega arith);
  greatest = λ i lt le. absurd (omega arith);
}

-- An index that is not committable is passed over.
passed_IsFound :
    (core : Core) (candidate r : ℕ)
    → core.commit_index < candidate
    → ¬ IsPassing core candidate
    → IsFound core (candidate - 1) r
    → IsFound core candidate r
passed_IsFound core candidate r above unfit t = record {
  not_below = t.not_below;
  moved_to = λ lt. (omega (arith, (t.moved_to lt).0), (t.moved_to lt).1);
  greatest = λ i lt h c. elim (le_or_lt candidate i) [
    | inl ge ↦ unfit (subst (IsPassing core) (omega arith) c)
    | inr below ↦ t.greatest i lt (omega arith) c
  ];
}

search_IsFound :
    (core : Core) (candidate rest : ℕ) (below own quorum : Bool)
    → leb candidate core.commit_index ≡ below
    → (term_of (get core.log candidate) == core.term) ≡ own
    → core_match_quorum core candidate ≡ quorum
    → IsFound core (candidate - 1) rest
    → IsFound core candidate (
        if below
        then core.commit_index
        else if not own
        then rest
        else if quorum
        then candidate
        else rest)
search_IsFound core candidate rest true own quorum b o q t =
    stays_IsFound core candidate (leb→le candidate core.commit_index b)
search_IsFound core candidate rest false false quorum b o q t =
    passed_IsFound core candidate rest (leb_false→lt candidate core.commit_index b)
      (λ c. absurd (ground (arith, c.own_term, o))) t
search_IsFound core candidate rest false true false b o q t =
    passed_IsFound core candidate rest (leb_false→lt candidate core.commit_index b)
      (λ c. absurd (ground (arith, c.quorum, q))) t
search_IsFound core candidate rest false true true b o q t = record {
  not_below = omega (arith, leb_false→lt candidate core.commit_index b);
  moved_to = λ lt. (
    omega arith,
    record { own_term = (==_iff (term_of (get core.log candidate)) core.term).0 o; quorum = q },
  );
  greatest = λ i lt le. absurd (omega arith);
}

commit_search-IsFound :
    (fuel : ℕ) (core : Core) (candidate : ℕ)
    → candidate - core.commit_index ≤ fuel
    → IsFound core candidate (commit_search fuel core candidate)
unfolding commit_search
commit_search-IsFound zero core candidate h = stays_IsFound core candidate (omega arith)
commit_search-IsFound (suc fuel) core candidate h =
    search_IsFound core candidate (commit_search fuel core (candidate - 1))
      (leb candidate core.commit_index) (term_of (get core.log candidate) == core.term)
      (core_match_quorum core candidate) refl refl refl
      (commit_search-IsFound fuel core (candidate - 1) (omega arith))

-- An entry of the leader's own term that most old voters and most new voters have.
pub record IsCommittable (core : Core) (i : ℕ) : Type 0 where
  pub own_term : HoldsOf core.log i core.term
  pub old_voters : MostReached old_voter core i
  pub new_voters : MostReached new_voter core i

-- An index in the log and not past the first pending configuration.
unfoldable pub NotPast : ℕ → List Pending → Type 0
NotPast i [] = Unit
NotPast i (p ∷ ps) = i ≤ p.log_index

abbrev pub Allowed : Core → ℕ → Type 0
Allowed core i =
    (i ≤ add64 core.log.base_index (length core.log.entries))
    × NotPast i core.membership_transition.pending

-- `r` is the commit index, or the greatest index above it that may be committed.
pub record IsTarget (core : Core) (r : ℕ) : Type 0 where
  pub not_below : core.commit_index ≤ r
  pub moved_to : core.commit_index < r → Allowed core r × IsCommittable core r
  pub greatest : (i : ℕ) → r < i → Allowed core i → ¬ IsCommittable core i

-- The limit of the search is the greatest index that is allowed.
commit_limit-Allowed :
    (committed : Conf) (pending : List Pending) (last i : ℕ)
    → (i ≤ commit_limit (record { committed = committed; pending = pending }) last)
      ↔ ((i ≤ last) × NotPast i pending)
unfolding commit_limit NotPast
commit_limit-Allowed committed [] last i = ((λ h. (h, tt)), λ h. h.0)
commit_limit-Allowed committed (p ∷ ps) last i = elim (Bool-cases (ltb last p.log_index)) [
  | inl c ↦ rw c ((λ h. (h, ground (arith, h, c))), λ h. h.0)
  | inr c ↦ rw c ((λ h. (ground (arith, h, c), h)), λ h. h.1)
]

IsPassing-IsCommittable :
    (core : Core) (i : ℕ)
    → i ≢ 0
    → i ≤ add64 core.log.base_index (length core.log.entries)
    → IsLeading core
    → IsPassing core i ↔ IsCommittable core i
unfolding get last_index
IsPassing-IsCommittable core i nz le v = (
  (λ p.
      let q = (core_match_quorum-MostReached core i nz v).0 p.quorum in
      record { own_term = holds p.own_term; old_voters = q.0; new_voters = q.1 }),
  λ c.
      let (above, e, at, t) = c.own_term in
      record {
        own_term = ground (arith, above, at, t, le);
        quorum = (core_match_quorum-MostReached core i nz v).1 (c.old_voters, c.new_voters);
      },
)
  where
    holds : term_of (get core.log i) ≡ core.term → HoldsOf core.log i core.term
    holds t = elim (Option-cases (get_elem? core.log.entries (i - core.log.base_index - 1))) [
      | inl miss ↦ absurd (ground (arith, t, miss, v.term_set))
      | inr (e, at) ↦ (ground (arith, t, v.term_set), e, at, ground (arith, t, at, v.term_set, le))
    ]

-- A leader, whose peers rise and whose membership is within bounds, moves its commit index to the
-- greatest index above it that is in its log and not past the first pending configuration, at which it
-- holds an entry of its own term, and that the match indices of more than half of the old voters and of
-- more than half of the new voters have reached; where there is none, the commit index stays.
pub commit_target-IsTarget : (core : Core) → IsLeading core → IsTarget core (commit_target core)
unfolding commit_target last_index
commit_target-IsTarget core v =
    let found =
      commit_search-IsFound
        (commit_limit core.membership_transition (last_index core.log) - core.commit_index) core
        (commit_limit core.membership_transition (last_index core.log)) (omega arith) in
    let allowed = λ (i : ℕ).
      commit_limit-Allowed core.membership_transition.committed core.membership_transition.pending
        (last_index core.log) i in
    record {
      not_below = found.not_below;
      moved_to = λ lt.
          let (le, p) = found.moved_to lt in
          let a = (allowed (commit_target core)).0 le in
          (a, (IsPassing-IsCommittable core (commit_target core) (omega (arith, lt)) a.0 v).0 p);
      greatest = λ i lt a c.
          found.greatest i lt ((allowed i).1 a)
            ((IsPassing-IsCommittable core i (omega (arith, lt)) a.0 v).1 c);
    }
