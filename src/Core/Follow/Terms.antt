-- ===== src/Core/Follow/Terms.antt =====
-- What a leader's request does to the term and the vote of a core of src/core/raft_core.c.
use turboraft.Prelude.{true, false, Bool, inl, inr, ltb, if◌then◌else◌, ◌&&◌, arith}
use turboraft.Status.{Result, ok, err, Error, crashed, Result-cases}
use turboraft.Vec.{Vec}
use turboraft.Transition.{Transition}
use turboraft.Log.{Log}
use turboraft.Log.Reconcile.{Reconciled, Outcome, undefined, returns, reconcile}
use turboraft.Core.{Core, Call, Message}
use turboraft.Core.Outcome.{OnOk, OnOk-weaken, OnOk-if}
use turboraft.Core.Peers.{build_peer_set, refresh_peers}
use turboraft.Core.Reads.{read_reset_all, read_clear_active}
use turboraft.Core.Election.{become_follower, follow}
use turboraft.Core.Election.Frames.{Same, Same-refl, Same-trans, refresh_peers-Same}
use turboraft.Core.Election.Safety.{
  Keeps, Keeps-refl, Same-Keeps, Keeps-trans, become_follower-Keeps,
}
use turboraft.Core.Sync.{sync_membership, update_voter}
use turboraft.Core.Follow.{
  accept_log, follow_leader, adopt_transition, advance_commit, committing, step_heartbeat_request,
  refuse_stale, rebuilt_transition,
}

update_voter-Same : (core : Core) → Same core (update_voter core)
unfolding update_voter become_follower follow read_reset_all read_clear_active
update_voter-Same core = record { same_term = ground arith; same_vote = ground arith }

pub sync_membership-Same : (core : Core) → OnOk (Same core) (sync_membership core)
unfolding sync_membership OnOk
sync_membership-Same core = elim (Result-cases (build_peer_set core.membership_transition)) [
  | inl (e, h) ↦ rw h tt
  | inr (peers, h) ↦
      rw h
        (Same-trans (refresh_peers-Same core peers) (update_voter-Same (refresh_peers core peers)))
]

adopt_transition-Same :
    (matched : Bool) (rebuilt : Transition) (core : Core)
    → OnOk (Same core) (adopt_transition matched rebuilt core)
unfolding adopt_transition OnOk
adopt_transition-Same false rebuilt core = Same-refl core
adopt_transition-Same true rebuilt core = elim (Result-cases (build_peer_set rebuilt)) [
  | inl (e, h) ↦ rw (OnOk, h) tt
  | inr (peers, h) ↦
      rw (OnOk, h)
        (let s = refresh_peers-Same (record core { membership_transition = rebuilt }) peers in
          record { same_term = s.same_term; same_vote = s.same_vote })
]

OnOk-here : (c : Core) → OnOk (Same c) (ok c)
unfolding OnOk
OnOk-here c = Same-refl c

advance_commit-Same :
    (matched : Bool) (request : Message) (core : Core)
    → OnOk (Same core) (advance_commit matched request core)
unfolding advance_commit committing
advance_commit-Same matched request core =
    OnOk-if (Same core) (matched && ltb core.commit_index request.leader_commit) _ _
      (OnOk-weaken (Same (committing request core)) (Same core)
        (sync_membership (committing request core))
        (λ c s. record { same_term = s.same_term; same_vote = s.same_vote })
        (sync_membership-Same (committing request core)))
      (OnOk-here core)

follow_leader-Keeps :
    (request : Message) (log : Log) (core : Core) → Keeps core (follow_leader request log core)
unfolding follow_leader
follow_leader-Keeps request log core =
    let k = become_follower-Keeps request.term (record core { log = log }) in
    record { term_le = k.term_le; vote_stays = λ e nz. k.vote_stays e nz }

-- The core that a call returns, where each outcome of a step keeps the hard state.
pub after_elim-Keeps :
    (before : Core) (r : Result Core) (f : Error → Result (Unit {0}) × Call)
    (g : Core → Result (Unit {0}) × Call)
    → OnOk (Keeps before) r
    → ((e : Error) → Keeps before (f e).1.core)
    → ((c : Core) → Keeps before c → Keeps before (g c).1.core)
    → Keeps before (elim r as (λ _. Result (Unit {0}) × Call) [ err e ↦ f e | ok c ↦ g c ]).1.core
unfolding OnOk
after_elim-Keeps before (ok c) f g h k l = l c h
after_elim-Keeps before (err e) f g h k l = k e

committing-Keeps :
    (request : Message) (before core : Core)
    → Keeps before core
    → Keeps before (committing request core)
unfolding committing
committing-Keeps request before core a = record {
  term_le = a.term_le;
  vote_stays = λ q nz. a.vote_stays q nz;
}

accept_log-Keeps :
    (request : Message) (rebuilt : Transition) (r : Reconciled) (log : Log) (call : Call)
    → Keeps call.core (accept_log request rebuilt r log call).1.core
unfolding accept_log
accept_log-Keeps request rebuilt r log call =
    let core = call.core in
    let followed = follow_leader request log core in
    let k : Keeps core followed = follow_leader-Keeps request log core in
    after_elim-Keeps core (adopt_transition r.matched rebuilt followed) _ _
      (OnOk-weaken (Same followed) (Keeps core) _ (λ c s. Keeps-trans k (Same-Keeps s))
        (adopt_transition-Same r.matched rebuilt followed))
      (λ e. record { term_le = k.term_le; vote_stays = λ q nz. k.vote_stays q nz })
      (λ adopted a.
        after_elim-Keeps core (advance_commit r.matched request adopted) _ _
          (OnOk-weaken (Same adopted) (Keeps core) _ (λ c s. Keeps-trans a (Same-Keeps s))
            (advance_commit-Same r.matched request adopted))
          (λ e. committing-Keeps request core adopted a) (λ c b. b))

reconciled : Message → Transition → Call → Outcome → Result (Unit {0}) × Call
reconciled request rebuilt call o = elim o [
  | undefined ↦ (err crashed, call)
  | returns (err e) ↦ (err e, call)
  | returns (ok (r, log)) ↦ accept_log request rebuilt r log call
]

reconciled-Keeps :
    (request : Message) (rebuilt : Transition) (call : Call) (o : Outcome)
    → Keeps call.core (reconciled request rebuilt call o).1.core
unfolding reconciled
reconciled-Keeps request rebuilt call undefined = Keeps-refl call.core
reconciled-Keeps request rebuilt call (returns (err e)) = Keeps-refl call.core
reconciled-Keeps request rebuilt call (returns (ok (r, log))) =
    accept_log-Keeps request rebuilt r log call

rebuilt_Keeps :
    (before : Core) (r : Result Transition) (f : Error → Result (Unit {0}) × Call)
    (g : Transition → Result (Unit {0}) × Call)
    → ((e : Error) → Keeps before (f e).1.core)
    → ((t : Transition) → Keeps before (g t).1.core)
    → Keeps before (elim r as (λ _. Result (Unit {0}) × Call) [ err e ↦ f e | ok t ↦ g t ]).1.core
rebuilt_Keeps before (err e) f g h k = h e
rebuilt_Keeps before (ok t) f g h k = k t

pub branch_Keeps :
    (before : Core) (b : Bool) (x y : Result (Unit {0}) × Call)
    → Keeps before x.1.core
    → Keeps before y.1.core
    → Keeps before (if b then x else y).1.core
branch_Keeps before true x y h k = h
branch_Keeps before false x y h k = k

pub step_heartbeat_request-Keeps :
    (v : Vec) (request : Message) (call : Call)
    → Keeps call.core (step_heartbeat_request v request call).1.core
unfolding step_heartbeat_request refuse_stale reconciled
step_heartbeat_request-Keeps v request call =
    branch_Keeps call.core (ltb request.term call.core.term) _ _ (Keeps-refl call.core) (
      rebuilt_Keeps call.core (rebuilt_transition request call.core) _ _ (λ e. Keeps-refl call.core)
        (λ rebuilt. reconciled-Keeps request rebuilt call (
          reconcile v call.core.log request.previous_log_index request.previous_log_term
            request.entries call.core.commit_index)))
