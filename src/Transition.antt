-- ===== src/Transition.antt =====
-- src/core/raft_membership_transition.c: the committed membership, and the configurations in the log
-- that are not committed yet.
pub mod Steps
use turboraft.Prelude.{
  ℕ, zero, suc, ◌-◌, Bool, true, false, ◌||◌, ◌&&◌, not, Option, none, some, List, [], ◌∷◌, ◌++◌,
  map, ltb, leb, ◌==◌, if◌then◌else◌, length, test_bit,
}
use turboraft.Status.{einval, eproto, ebusy, Result, ok, err, ◌>>=◌, ◌>>◌}
use turboraft.Conf.{Member, Conf, joint_phase, final_phase, old_voter, validate, is_ok}
use turboraft.Entry.{Entry, entry_decode}
use turboraft.Membership.{stable}
use turboraft.Membership.Change.{joint, final}
use turboraft.Membership.Vote.{is_voter}
use turboraft.PeerSet.{max_sources, build}

abbrev pub max_pending : ℕ
max_pending = 2

-- An element of `pending`, with that of `pending_indices`.
pub record Pending : Type 0 where
  pub configuration : Conf
  pub log_index : ℕ

-- `pending_count` is the length of the list.
pub record Transition : Type 0 where
  pub committed : Conf
  pub pending : List Pending

unfoldable pub members_equal : List Member → List Member → Bool
members_equal [] [] = true
members_equal [] (b ∷ bs) = false
members_equal (a ∷ as') [] = false
members_equal (a ∷ as') (b ∷ bs) =
    if not (a.node_id == b.node_id) || not (a.roles == b.roles) then false else members_equal as' bs

unfoldable pub membership_equal : Conf → Conf → Bool
unfolding members_equal
membership_equal left right =
    if not (left.phase == right.phase) || not (left.transition_id == right.transition_id)
    then false
    else members_equal left.members right.members

-- The two skipping loops of `tr_raft_joint_old_voters_match`.
unfoldable pub skip_nonvoters : Conf → List Member → List Member
skip_nonvoters stable [] = []
skip_nonvoters stable (m ∷ ms) =
    if not (is_voter stable m.node_id) then skip_nonvoters stable ms else m ∷ ms

unfoldable pub skip_not_old : List Member → List Member
skip_not_old [] = []
skip_not_old (m ∷ ms) = if not (test_bit m.roles old_voter) then skip_not_old ms else m ∷ ms

-- The outer loop; a round takes a member off both sides.
unfoldable pub old_voters_loop : ℕ → Conf → List Member → List Member → Bool
old_voters_loop zero stable olds joints = false
old_voters_loop (suc fuel) stable olds joints = elim (skip_nonvoters stable olds) [
  | [] ↦ length (skip_not_old joints) == 0
  | s ∷ olds' ↦ elim (skip_not_old joints) [
    | [] ↦ false
    | j ∷ joints' ↦
        if s.node_id == j.node_id then old_voters_loop fuel stable olds' joints' else false
  ]
]

unfoldable pub old_voters_match : Conf → Conf → Bool
unfolding old_voters_loop
old_voters_match stable joint =
    old_voters_loop (suc (length stable.members)) stable stable.members joint.members

unfoldable pub last_pending : Conf → List Pending → Conf
last_pending committed [] = committed
last_pending committed (p ∷ ps) = last_pending p.configuration ps

abbrev pub configurations : List Pending → List Conf
configurations = map (λ (p : Pending). p.configuration)

unfoldable pub validate_next : Transition → Conf → Result (Unit {0})
unfolding last_pending
validate_next t configuration =
    let base = last_pending t.committed t.pending in
    if not (is_ok (validate configuration))
    then err eproto
    else if ltb (max_sources - 2) (length t.pending)
    then err eproto
    else elim (build (t.committed ∷ (configurations t.pending ++ configuration ∷ []))) [
      | err _ ↦ err eproto
      | ok _ ↦
          if configuration.phase == joint_phase
          then (if not (length t.pending == 0)
                || not (t.committed.phase == final_phase)
                || not (old_voters_match t.committed configuration)
              then err eproto
              else ok tt)
          else if configuration.phase == final_phase && base.phase == joint_phase
          then (elim (final base) [
            | err _ ↦ err eproto
            | ok expected ↦ if membership_equal expected configuration then ok tt else err eproto
          ])
          else err eproto
    ]

unfoldable pub init : List ℕ → List ℕ → Result Transition
init voters learners = do
  committed ← stable voters learners
  ok (record { committed = committed; pending = [] })

unfoldable pub init_configuration : Conf → Result Transition
init_configuration configuration =
    if not (is_ok (validate configuration))
    then err einval
    else ok (record { committed = configuration; pending = [] })

unfoldable pub propose : Transition → List ℕ → List ℕ → ℕ → Result Conf
propose t voters learners transition_id =
    if not (t.committed.phase == final_phase) || not (length t.pending == 0)
    then err ebusy
    else joint t.committed voters learners transition_id

-- The loop of `tr_raft_membership_transition_stage` that looks for the index.
unfoldable pub find_pending : ℕ → List Pending → Option Conf
find_pending log_index [] = none
find_pending log_index (p ∷ ps) =
    if p.log_index == log_index then some p.configuration else find_pending log_index ps

unfoldable pub last_log_index : ℕ → List Pending → ℕ
last_log_index previous [] = previous
last_log_index previous (p ∷ ps) = last_log_index p.log_index ps

-- The part of `tr_raft_membership_transition_stage` behind that loop.
unfoldable pub stage_new : Transition → Conf → ℕ → Result Transition
unfolding last_log_index
stage_new t configuration log_index =
    if length t.pending == max_pending
      || (not (length t.pending == 0) && leb log_index (last_log_index 0 t.pending))
    then err eproto
    else (do
      validate_next t configuration
      ok (record t {
        pending = t.pending ++ record { configuration = configuration; log_index = log_index } ∷ [];
      }))

unfoldable pub stage : Transition → Conf → ℕ → Result Transition
unfolding find_pending
stage t configuration log_index =
    if log_index == 0
    then err einval
    else if ltb max_pending (length t.pending)
    then err eproto
    else elim (find_pending log_index t.pending) [
      | some staged ↦ if membership_equal staged configuration then ok t else err eproto
      | none ↦ stage_new t configuration log_index
    ]

unfoldable pub stage_entry : Transition → Entry → Result Transition
stage_entry t entry = do configuration ← entry_decode entry; stage t configuration entry.index

unfoldable pub commit_limit : Transition → ℕ → ℕ
commit_limit t candidate = elim t.pending [
  | [] ↦ candidate
  | p ∷ _ ↦ if ltb candidate p.log_index then candidate else p.log_index
]

-- The loop of `tr_raft_membership_transition_apply`.
unfoldable pub apply_pending : ℕ → Conf → List Pending → Transition
apply_pending commit_index committed [] = record { committed = committed; pending = [] }
apply_pending commit_index committed (p ∷ ps) =
    if leb p.log_index commit_index
    then apply_pending commit_index p.configuration ps
    else record { committed = committed; pending = p ∷ ps }

unfoldable pub apply : Transition → ℕ → Transition
unfolding apply_pending
apply t commit_index = apply_pending commit_index t.committed t.pending

unfoldable pub needs_final : Transition → Bool
needs_final t = t.committed.phase == joint_phase && length t.pending == 0

unfoldable pub final_membership : Transition → Result Conf
unfolding needs_final
final_membership t = if not (needs_final t) then err einval else final t.committed
