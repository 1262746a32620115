-- ===== src/Core/Election/Ballot.antt =====
-- Votes and pre-votes in src/core/raft_core.c: to whom a node grants.
use turboraft.Prelude.{
  ℕ, ◌≤◌, ◌<◌, ◌≡◌, ◌≢◌, ◌⊎◌, ◌↔◌, inl, inr, refl, sym, ap, ◌∙◌, true, false, List, [], ◌∷◌, ◌++◌,
  ◌==◌, ltb, length, if◌then◌else◌, arith, Bool-cases,
}
use turboraft.Conf.{add64}
use turboraft.Entry.{Entry}
use turboraft.Log.{Log, last_term, last_term_of, last_index}
use turboraft.Core.{Core, Call, Message}
use turboraft.Core.Peers.{log_is_up_to_date}
use turboraft.Core.Reads.{read_reset_all, read_clear_active}
use turboraft.Core.Election.{
  become_follower, follow, vote, grants_vote, caught_up, step_pre_vote_request,
  step_pre_vote_response,
}
use turboraft.Core.Election.Safety.{Keeps}

-- What the response to a vote request says.
unfoldable pub Granted : Core → Message → Type 0
Granted core request = grants_vote (caught_up core request) request ≡ true

-- The term of the last entry of a log, or of its base where the log is empty.
abbrev pub LastTerm : Log → ℕ → Type 0
LastTerm log term =
    ((log.entries ≡ []) × (term ≡ log.base_term))
    ⊎ ((before : List Entry) × (e : Entry) × (log.entries ≡ before ++ e ∷ []) × (term ≡ e.term))

-- A candidate's log, by the index and term of its last entry, is not behind a log: its last term is
-- later, or it is the same and its log is at least as long.
abbrev pub UpToDate : Log → ℕ → ℕ → Type 0
UpToDate log index term =
    (own : ℕ) × LastTerm log own
    × ((own < term) ⊎ ((term ≡ own) × (add64 log.base_index (length log.entries) ≤ index)))

-- When a node may vote for the sender of a request.
pub record IsGrantable (core : Core) (request : Message) : Type 0 where
  pub voter : core.self_is_voter ≡ true
  pub not_stale : core.term ≤ request.term
  pub no_other : core.term ≡ request.term → core.voted_for ≢ 0 → core.voted_for ≡ request.from
  pub complete : UpToDate core.log request.last_log_index request.last_log_term

-- What a vote request comes to: whether it is granted, and the term and the vote then, with and without a
-- grant.
pub record IsBallot (core : Core) (request : Message) : Type 0 where
  pub granted : Granted core request ↔ IsGrantable core request
  pub votes_for :
      Granted core request
      → ((vote core request).term ≡ request.term) × ((vote core request).voted_for ≡ request.from)
  pub passes :
      ¬ Granted core request
      → ((vote core request).term
          ≡ (if ltb core.term request.term then request.term else core.term))
        × ((vote core request).voted_for
            ≡ (if ltb core.term request.term then 0 else core.voted_for))

last_term_of-append :
    (base : ℕ) (entries : List Entry) (e : Entry) → last_term_of base (entries ++ e ∷ []) ≡ e.term
unfolding last_term_of
last_term_of-append base [] e = refl
last_term_of-append base (x ∷ entries) e = last_term_of-append x.term entries e

last_term_of-LastTerm :
    (log : Log) (term : ℕ) → LastTerm log term → term ≡ last_term_of log.base_term log.entries
unfolding last_term_of
last_term_of-LastTerm log term (inl (e, t)) = t ∙ ap (last_term_of log.base_term) (sym e)
last_term_of-LastTerm log term (inr (before, e, split, t)) =
    t
    ∙ sym (last_term_of-append log.base_term before e)
    ∙ ap (last_term_of log.base_term) (sym split)

LastTerm-last_term_of :
    (max base_index base : ℕ) (entries : List Entry)
    → LastTerm
        (record { entries = entries; max_entries = max; base_index = base_index; base_term = base })
        (last_term_of base entries)
unfolding last_term_of
LastTerm-last_term_of max base_index base [] = inl (refl, refl)
LastTerm-last_term_of max base_index base (x ∷ entries) =
    elim (LastTerm-last_term_of max base_index x.term entries) [
      | inl (e, t) ↦ inr ([], x, ap (◌∷◌ x) e, t)
      | inr (before, e, split, t) ↦ inr (x ∷ before, e, ap (◌∷◌ x) split, t)
    ]

-- `tr_log_is_up_to_date`
log_is_up_to_date-UpToDate :
    (core : Core) (request : Message)
    → (log_is_up_to_date core request ≡ true)
      ↔ UpToDate core.log request.last_log_index request.last_log_term
unfolding log_is_up_to_date last_term last_index
log_is_up_to_date-UpToDate core request = (
  (λ h. (
    last_term_of core.log.base_term core.log.entries,
    LastTerm-last_term_of core.log.max_entries core.log.base_index core.log.base_term
        core.log.entries,
    later h,
  )),
  λ (own, t, h). let e = last_term_of-LastTerm core.log own t in ground (arith, e, h),
)
  where
    later :
        log_is_up_to_date core request ≡ true
        → (last_term_of core.log.base_term core.log.entries < request.last_log_term)
          ⊎ ((request.last_log_term ≡ last_term_of core.log.base_term core.log.entries)
              × (add64 core.log.base_index (length core.log.entries) ≤ request.last_log_index))
    later h =
        elim (Bool-cases
          (request.last_log_term == last_term_of core.log.base_term core.log.entries)) [
            | inl q ↦ inr (ground (arith, q), ground (arith, h, q))
            | inr q ↦ inl (ground (arith, h, q))
          ]

-- Catching up with a term leaves the log.
log_is_up_to_date-caught_up :
    (core : Core) (request : Message)
    → log_is_up_to_date (caught_up core request) request ≡ log_is_up_to_date core request
unfolding log_is_up_to_date become_follower follow read_reset_all read_clear_active
log_is_up_to_date-caught_up core request = ground arith

-- What may be granted is what the code grants.
grants_vote-IsGrantable :
    (core : Core) (request : Message) → Granted core request ↔ IsGrantable core request
unfolding Granted grants_vote become_follower follow read_reset_all read_clear_active
grants_vote-IsGrantable core request = elim (Bool-cases (ltb core.term request.term)) [
  | inl newer ↦ (
    λ h. record {
      voter = ground (arith, h, newer);
      not_stale = ground (arith, newer);
      no_other = λ e nz. ground (arith, newer, e);
      complete =
          (log_is_up_to_date-UpToDate core request).0
            (sym (log_is_up_to_date-caught_up core request) ∙ ground (arith, h));
    },
    λ g.
        let u =
          log_is_up_to_date-caught_up core request
          ∙ (log_is_up_to_date-UpToDate core request).1 g.complete in
        ground (arith, newer, g.voter, u),
  )
  | inr older ↦ (
    λ h. record {
      voter = ground (arith, h, older);
      not_stale = ground (arith, h, older);
      no_other = λ e nz. ground (arith, h, older, e, nz);
      complete = (log_is_up_to_date-UpToDate core request).0 (ground (arith, h, older));
    },
    λ g.
        let u = (log_is_up_to_date-UpToDate core request).1 g.complete in
        ground (arith, older, g.voter, g.not_stale, g.no_other, u),
  )
]

-- A node grants a vote request exactly where it is a voter, its term is not later than the request's, it
-- has no vote for another in that term, and the sender's last entry is of a later term than its own last
-- entry, or of the same and no earlier index. It then votes for the sender in the request's term;
-- otherwise it takes over a later term, with no vote in it, and keeps its term and vote in the same one.
pub grants_vote-IsBallot : (core : Core) (request : Message) → IsBallot core request
unfolding Granted vote grants_vote become_follower follow read_reset_all read_clear_active
grants_vote-IsBallot core request = record {
  granted = grants_vote-IsGrantable core request;
  votes_for = λ h. (ground (arith, h), ground (arith, h));
  passes = λ h. (ground (arith, h), ground (arith, h));
}

-- A node grants two vote requests of one term only to the same candidate: where in between its term
-- does not sink and a vote cast in it stays, and the first candidate's id is not 0.
pub vote_once :
    (core : Core) (first : Message) (later : Core) (second : Message)
    → Granted core first
    → Keeps (vote core first) later
    → Granted later second
    → second.term ≡ first.term
    → first.from ≢ 0
    → second.from ≡ first.from
vote_once core first later second g k h e nz =
    let a = (grants_vote-IsBallot core first).votes_for g in
    let b = (grants_vote-IsGrantable later second).0 h in
    let stays =
      k.vote_stays (omega (arith, a.0, k.term_le, b.not_stale, e))
        (λ z. nz (omega (arith, a.1, z))) in
    let other =
      b.no_other (omega (arith, a.0, k.term_le, b.not_stale, e))
        (λ z. nz (omega (arith, a.1, stays, z))) in
    omega (arith, a.1, stays, other)

-- After a pre-vote request, a pre-vote response with a campaign term, of no later term than the
-- node's, changes nothing: a pre-candidate that answers a pre-vote request cannot win its own.
pub step_pre_vote_request_forgets :
    (request response : Message) (i : ℕ) (call : Call)
    → response.term ≤ call.core.term
    → response.campaign_term ≢ 0
    → step_pre_vote_response response i (step_pre_vote_request request call)
      ≡ step_pre_vote_request request call
unfolding step_pre_vote_response step_pre_vote_request
step_pre_vote_request_forgets request response i call h nz =
    let a : ltb call.core.term response.term ≡ false = ground arith in
    let b : (response.campaign_term == 0) ≡ false = ground arith in rw (a, b) (ground arith)
