-- ===== src/Core/Follow/Commits.antt =====
-- How far a follower commits, in `tr_step_heartbeat_request` of src/core/raft_core.c.
use turboraft.Prelude.{
  ℕ, ◌+◌, ◌≤◌, ◌<◌, ◌≡◌, ◌⊎◌, inl, inr, refl, arith, List, [], ◌∷◌, length, ltb, min, subst, sym,
  Bool-cases, ltb_false→le,
}
use turboraft.Conf.{Conf}
use turboraft.Transition.{Pending, commit_limit}
use turboraft.Log.{last_index}
use turboraft.Core.{Core, Message}
use turboraft.Core.Follow.{commit_candidate, committing}

-- The first pending configuration is above the commit index.
unfoldable pub IsAbove : ℕ → List Pending → Type 0
IsAbove i [] = Unit
IsAbove i (p ∷ ps) = i < p.log_index

-- How far a follower commits on a request: as far as both the leader and its own log reach, or only to
-- the first pending configuration, where that is not beyond.
pub record IsFollowed (request : Message) (before after : Core) : Type 0 where
  pub not_lowered : before.commit_index ≤ after.commit_index
  pub known_committed : after.commit_index ≤ request.leader_commit
  pub in_log : after.commit_index ≤ last_index before.log
  pub at_pending :
      ((after.commit_index ≡ min request.leader_commit (last_index before.log))
        × IsAbove after.commit_index before.membership_transition.pending)
      ⊎ ((p : Pending) × (ps : List Pending) × (before.membership_transition.pending ≡ p ∷ ps)
          × (after.commit_index ≡ p.log_index))

commit_limit-cases :
    (committed : Conf) (pending : List Pending) (candidate low : ℕ)
    → IsAbove low pending
    → low ≤ candidate
    → (low ≤ commit_limit (record { committed = committed; pending = pending }) candidate)
      × (commit_limit (record { committed = committed; pending = pending }) candidate ≤ candidate)
      × (((commit_limit (record { committed = committed; pending = pending }) candidate ≡ candidate)
            × IsAbove candidate pending)
          ⊎ ((p : Pending) × (ps : List Pending) × (pending ≡ p ∷ ps)
              × (commit_limit (record { committed = committed; pending = pending }) candidate
                  ≡ p.log_index)))
unfolding commit_limit IsAbove
commit_limit-cases committed [] candidate low a h = (h, omega arith, inl (refl, tt))
commit_limit-cases committed (p ∷ ps) candidate low a h =
    elim (Bool-cases (ltb candidate p.log_index)) [
      | inl c ↦ rw c (h, omega arith, inl (refl, ground (arith, c)))
      | inr c ↦
          rw c (omega (arith, a), ltb_false→le candidate p.log_index c, inr (p, ps, refl, refl))
    ]

-- A follower that moves its commit index for a request, from one in its log and below the leader's and
-- below its first pending configuration, commits as far as both the leader and its own log reach, or,
-- where that configuration is not beyond this, exactly to it.
pub committing-IsFollowed :
    (request : Message) (core : Core)
    → IsAbove core.commit_index core.membership_transition.pending
    → core.commit_index < request.leader_commit
    → core.commit_index ≤ last_index core.log
    → IsFollowed request core (committing request core)
unfolding committing commit_candidate
committing-IsFollowed request core a h k =
    let c =
      commit_limit-cases core.membership_transition.committed core.membership_transition.pending
        (commit_candidate request core) core.commit_index a (ground arith) in
    record {
      not_lowered = c.0;
      known_committed = ground (arith, c.1);
      in_log = ground (arith, c.1);
      at_pending = elim c.2 [
        | inl (e, a) ↦
            inl (
              ground (arith, e),
              subst (λ i. IsAbove i core.membership_transition.pending) (sym e) a,
            )
        | inr p ↦ inr p
      ];
    }

-- With no configuration pending, a follower commits past the last entry that the request has shown to
-- match, where the leader's commit index and the follower's log both reach past it.
pub committing_beyond :
    (request : Message) (core : Core)
    → core.membership_transition.pending ≡ []
    → request.previous_log_index + length request.entries < request.leader_commit
    → request.previous_log_index + length request.entries < last_index core.log
    → request.previous_log_index + length request.entries < (committing request core).commit_index
unfolding committing commit_candidate commit_limit
committing_beyond request core none_pending h k = rw none_pending (ground arith)
