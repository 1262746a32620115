-- ===== src/Membership/Change.antt =====
-- src/core/raft_membership.c: the joint membership of a change, and the final one that ends it.
use turboraft.Prelude.{
  ℕ, zero, suc, ◌+◌, Bool, false, ◌||◌, ◌&&◌, not, List, [], ◌∷◌, ltb, ◌==◌, if◌then◌else◌, length,
  test_bit, set_bit,
}
use turboraft.Status.{einval, enospc, Result, ok, err}
use turboraft.Conf.{
  Member, Conf, u64_max, max_members, joint_phase, final_phase, old_voter, new_voter, learner,
  voter_roles, learner_roles, validate, is_ok,
}
use turboraft.Membership.{set_valid, stable_valid}

-- `if (position < count && ids[position] < next) next = ids[position]`, on what is left of a list.
unfoldable pub lower : ℕ → List ℕ → ℕ
lower next [] = next
lower next (id ∷ ids) = if ltb id next then id else next

unfoldable pub lower_member : ℕ → List Member → ℕ
lower_member next [] = next
lower_member next (m ∷ ms) = if ltb m.node_id next then m.node_id else next

-- `position < count && ids[position] == next`
unfoldable pub head_is : ℕ → List ℕ → Bool
head_is next [] = false
head_is next (id ∷ ids) = id == next

unfoldable pub member_is : ℕ → List Member → Bool
member_is next [] = false
member_is next (m ∷ ms) = m.node_id == next

-- `if (... == next) ++position`
unfoldable pub skip : ℕ → List ℕ → List ℕ
skip next [] = []
skip next (id ∷ ids) = if id == next then ids else id ∷ ids

unfoldable pub skip_member : ℕ → List Member → List Member
skip_member next [] = []
skip_member next (m ∷ ms) = if m.node_id == next then ms else m ∷ ms

abbrev pub exhausted : List Member → List ℕ → List ℕ → Bool
exhausted current voters learners =
    length current == 0 && length voters == 0 && length learners == 0

unfoldable pub next_id : List Member → List ℕ → List ℕ → ℕ
unfolding lower lower_member
next_id current voters learners = lower (lower (lower_member u64_max current) voters) learners

-- `tr_raft_membership_union_count`, with as much fuel as there are ids.
unfoldable pub union_loop : ℕ → List Member → List ℕ → List ℕ → ℕ
union_loop zero current voters learners = 0
union_loop (suc fuel) current voters learners =
    let next = next_id current voters learners in
    let rest = union_loop fuel (skip_member next current) (skip next voters) (skip next learners) in
    if exhausted current voters learners then 0 else suc rest

abbrev pub total : List Member → List ℕ → List ℕ → ℕ
total current voters learners = length current + length voters + length learners

unfoldable pub union_count : List Member → List ℕ → List ℕ → ℕ
unfolding union_loop
union_count current voters learners =
    union_loop (total current voters learners) current voters learners

-- The inner loop of `tr_raft_membership_joint`.
unfoldable pub skip_learners : List Member → List Member
skip_learners [] = []
skip_learners (m ∷ ms) = if m.roles == learner_roles then skip_learners ms else m ∷ ms

abbrev pub mark : Bool → ℕ → ℕ → ℕ
mark test bit roles = if test then set_bit roles bit else roles

unfoldable pub joint_roles : ℕ → List Member → List ℕ → List ℕ → ℕ
joint_roles next current voters learners =
    mark (head_is next learners) learner
      (mark (head_is next voters) new_voter (mark (member_is next current) old_voter 0))

-- The outer loop, from the state behind the inner one.
abbrev pub joint_member : Bool → ℕ → ℕ → List Member → List Member
joint_member current_voter next roles rest =
    if current_voter || not (roles == 0)
    then record { node_id = next; roles = roles } ∷ rest
    else rest

unfoldable pub joint_loop : ℕ → List Member → List ℕ → List ℕ → List Member
joint_loop zero current voters learners = []
joint_loop (suc fuel) current voters learners =
    let voting = skip_learners current in
    let next = next_id voting voters learners in
    let rest = joint_loop fuel (skip_member next voting) (skip next voters) (skip next learners) in
    if exhausted current voters learners
    then []
    else if next == u64_max
    then []
    else joint_member (member_is next voting) next (joint_roles next voting voters learners) rest

unfoldable pub joint_conf : Conf → List ℕ → List ℕ → ℕ → Conf
joint_conf current voters learners transition_id = record {
  phase = joint_phase;
  transition_id = transition_id;
  members = joint_loop (total current.members voters learners) current.members voters learners;
}

unfoldable pub joint : Conf → List ℕ → List ℕ → ℕ → Result Conf
joint current voters learners transition_id =
    if transition_id == 0 || not (stable_valid current) || not (set_valid voters learners)
    then err einval
    else if ltb max_members (union_count current.members voters learners)
    then err enospc
    else if is_ok (validate (joint_conf current voters learners transition_id))
    then ok (joint_conf current voters learners transition_id)
    else err einval

-- The loop of `tr_raft_membership_final`.
abbrev pub final_roles : ℕ → ℕ
final_roles roles = if test_bit roles new_voter then voter_roles else learner_roles

unfoldable pub final_members : List Member → List Member
final_members [] = []
final_members (m ∷ ms) =
    if not (test_bit m.roles new_voter) && not (test_bit m.roles learner)
    then final_members ms
    else record { node_id = m.node_id; roles = final_roles m.roles } ∷ final_members ms

unfoldable pub final_conf : Conf → Conf
unfolding final_members
final_conf source = record {
  phase = final_phase;
  transition_id = source.transition_id;
  members = final_members source.members;
}

-- `*final_membership` is written also where the last check fails; no caller reads it then.
unfoldable pub final : Conf → Result Conf
final source =
    if not (source.phase == joint_phase) || not (is_ok (validate source))
    then err einval
    else if is_ok (validate (final_conf source))
    then ok (final_conf source)
    else err einval
