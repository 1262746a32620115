-- ===== src/Core/Election/Safety.antt =====
-- Terms and votes in src/core/raft_core.c: the election handlers.
use turboraft.Prelude.{
  ℕ, ◌≤◌, ◌<◌, ◌≡◌, ◌≢◌, refl, true, false, Bool, ◌∙◌, ltb, ◌==◌, if◌then◌else◌, ◌||◌, not, arith,
  test_bit, set_bit,
}
use turboraft.Conf.{u64_max}
use turboraft.Core.{Core, Call, Message, pre_candidate, candidate, follower}
use turboraft.Core.Peers.{core_has_quorum}
use turboraft.Core.Emit.{same_role}
use turboraft.Core.Reads.{read_reset_all, read_clear_active}
use turboraft.Core.Leader.{step_timeout_now}
use turboraft.Core.Election.{
  become_follower, follow, vote, grants_vote, start_election, stand, step_vote_request,
  step_vote_response, step_pre_vote_request, step_pre_vote_response,
}
use turboraft.Core.Election.Frames.{Same, become_leader-Same, start_election-Same}

-- The hard state only moves on: the term does not sink, and a vote cast in a term stays.
pub record Keeps (before after : Core) : Type 0 where
  pub term_le : before.term ≤ after.term
  pub vote_stays :
      before.term ≡ after.term → before.voted_for ≢ 0 → after.voted_for ≡ before.voted_for

pub Keeps-refl : (a : Core) → Keeps a a
Keeps-refl a = record { term_le = omega arith; vote_stays = λ e nz. refl }

pub Same-Keeps : {a b : Core} → Same a b → Keeps a b
Same-Keeps h = record { term_le = omega (arith, h.same_term); vote_stays = λ e nz. h.same_vote }

pub Keeps-trans : {a b c : Core} → Keeps a b → Keeps b c → Keeps a c
Keeps-trans {a} {b} {c} h k = record {
  term_le = omega (arith, h.term_le, k.term_le);
  vote_stays = λ e nz.
      let x = h.vote_stays (omega (arith, h.term_le, k.term_le, e)) nz in
      k.vote_stays (omega (arith, h.term_le, k.term_le, e)) (λ z. nz (omega (arith, x, z))) ∙ x;
}

pub Keeps-if :
    (before : Core) (b : Bool) (x y : Call)
    → (b ≡ true → Keeps before x.core)
    → (b ≡ false → Keeps before y.core)
    → Keeps before (if b then x else y).core
Keeps-if before true x y h k = h refl
Keeps-if before false x y h k = k refl

pub become_follower-Keeps : (term : ℕ) (core : Core) → Keeps core (become_follower term core)
unfolding become_follower follow read_reset_all read_clear_active
become_follower-Keeps term core = record {
  term_le = ground arith;
  vote_stays = λ e nz. ground arith;
}

vote-Keeps : (core : Core) (request : Message) → Keeps core (vote core request)
unfolding vote grants_vote become_follower follow read_reset_all read_clear_active
vote-Keeps core request = record { term_le = ground arith; vote_stays = λ e nz. ground arith }

-- An election for a later term.
start_election-Keeps :
    (before : Core) (call : Call)
    → before.term < call.core.campaign_term
    → Keeps before (start_election call).core
unfolding stand
start_election-Keeps before call h =
    let s = start_election-Same call in
    record {
      term_le = omega (arith, s.same_term);
      vote_stays = λ e nz. absurd (omega (arith, s.same_term));
    }

pub step_vote_response-Keeps :
    (response : Message) (i : ℕ) (call : Call)
    → Keeps call.core (step_vote_response response i call).core
unfolding step_vote_response
step_vote_response-Keeps response i call =
    let core = call.core in
    let counted : Core = record core { votes = set_bit core.votes i } in
    let won = become_leader-Same (record call { core = counted }) in
    Keeps-if core (ltb core.term response.term) _ _ (λ _. become_follower-Keeps response.term core)
      (λ _.
        Keeps-if core
          (not (same_role core.role candidate)
            || not (response.term == core.term)
            || not response.granted
            || test_bit core.votes i)
          _ _ (λ _. Keeps-refl core)
          (λ _.
            Keeps-if core (core_has_quorum counted counted.votes) _ _
              (λ _. Same-Keeps (record { same_term = won.same_term; same_vote = won.same_vote }))
              (λ _. record { term_le = omega arith; vote_stays = λ e nz. refl })))

-- A pre-candidate that still has its campaign term campaigns for a later term.
unfoldable pub IsAhead : Core → Type 0
IsAhead core =
    same_role core.role pre_candidate ≡ true
    → core.campaign_term ≢ 0
    → core.term < core.campaign_term

pub step_pre_vote_response-Keeps :
    (response : Message) (i : ℕ) (call : Call)
    → IsAhead call.core
    → (response.granted ≡ true → response.campaign_term ≢ 0)
    → Keeps call.core (step_pre_vote_response response i call).core
unfolding step_pre_vote_response IsAhead
step_pre_vote_response-Keeps response i call ahead named =
    let core = call.core in
    let counted : Core = record core { pre_votes = set_bit core.pre_votes i } in
    Keeps-if core (ltb core.term response.term) _ _ (λ _. become_follower-Keeps response.term core)
      (λ _.
        Keeps-if core
          (not (same_role core.role pre_candidate)
            || not (response.campaign_term == core.campaign_term)
            || not response.granted
            || test_bit core.pre_votes i)
          _ _ (λ _. Keeps-refl core)
          (λ admitted.
            Keeps-if core (core_has_quorum counted counted.pre_votes) _ _
              (λ _.
                start_election-Keeps core (record call { core = counted })
                  (ahead (ground arith) (λ z. named (ground arith) (ground arith))))
              (λ _. record { term_le = omega arith; vote_stays = λ e nz. refl })))

pub step_timeout_now-Keeps :
    (request : Message) (call : Call)
    → call.core.term ≤ u64_max
    → Keeps call.core (step_timeout_now request call).core
unfolding step_timeout_now
step_timeout_now-Keeps request call h =
    Keeps-if call.core
      (not call.core.self_is_voter
        || not (same_role call.core.role follower)
        || not (request.term == call.core.term)
        || not (call.core.leader_id == request.from)
        || call.core.term == u64_max)
      _ _ (λ _. Keeps-refl call.core) (λ admitted. start_election-Keeps call.core _ (ground arith))

pub step_vote_request-Keeps :
    (request : Message) (call : Call) → Keeps call.core (step_vote_request request call).core
unfolding step_vote_request
step_vote_request-Keeps request call = vote-Keeps call.core request

pub step_pre_vote_request-Keeps :
    (request : Message) (call : Call) → Keeps call.core (step_pre_vote_request request call).core
unfolding step_pre_vote_request
step_pre_vote_request-Keeps request call = record {
  term_le = omega arith;
  vote_stays = λ e nz. refl;
}
