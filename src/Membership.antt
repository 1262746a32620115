-- ===== src/Membership.antt =====
-- src/core/raft_membership.c: cluster memberships. A pair of a pointer and a count is a list; the
-- checks for null pointers are left out. The memberships for a joint transition are in
-- `Membership.Change`, votes and quorums in `Membership.Vote`.
pub mod Change
pub mod Vote
pub mod Quorum
pub mod Match
use turboraft.Prelude.{
  ℕ, ◌+◌, ◌-◌, Bool, true, false, ◌||◌, ◌&&◌, not, Option, none, some, List, [], ◌∷◌, ◌++◌, ltb,
  leb, ◌==◌, if◌then◌else◌, length, test_bit,
}
use turboraft.Status.{einval, Result, ok, err}
use turboraft.Conf.{Member, Conf, max_members, final_phase, voter_roles, learner_roles, zero_conf}

-- The loops of `tr_raft_membership_validate_set` over one set. `previous` is the id before.
unfoldable pub ids_ascend : ℕ → List ℕ → Bool
ids_ascend previous [] = true
ids_ascend previous (id ∷ ids) = if id == 0 || leb id previous then false else ids_ascend id ids

-- The loop over both sets: whether an id is met in both.
unfoldable pub overlap : List ℕ → List ℕ → Bool
overlap [] learners = false
overlap (v ∷ voters) [] = false
overlap (v ∷ voters) (l ∷ learners) = elim (v == l) [
  | true ↦ true
  | false ↦ elim (ltb v l) [
    | true ↦ overlap voters (l ∷ learners)
    | false ↦ overlap (v ∷ voters) learners
  ]
]

-- `tr_raft_membership_validate_set` returns SALTS_OK.
unfoldable pub set_valid : List ℕ → List ℕ → Bool
set_valid voters learners =
    if length voters == 0
      || ltb max_members (length voters)
      || ltb (max_members - length voters) (length learners)
    then false
    else if not (ids_ascend 0 voters)
    then false
    else if not (ids_ascend 0 learners)
    then false
    else not (overlap voters learners)

-- The loop of `tr_raft_membership_stable_valid`: the number of voters, if no member is refused.
unfoldable pub stable_members : ℕ → ℕ → List Member → Option ℕ
stable_members previous voter_count [] = some voter_count
stable_members previous voter_count (m ∷ ms) =
    if m.node_id == 0
      || leb m.node_id previous
      || (not (m.roles == voter_roles) && not (m.roles == learner_roles))
    then none
    else stable_members m.node_id (if m.roles == voter_roles then voter_count + 1 else voter_count)
        ms

unfoldable pub stable_valid : Conf → Bool
stable_valid membership =
    if not (membership.phase == final_phase)
      || length membership.members == 0
      || ltb max_members (length membership.members)
    then false
    else elim (stable_members 0 0 membership.members) [
      | none ↦ false
      | some voter_count ↦ not (voter_count == 0)
    ]

abbrev pub voter_member : ℕ → Member
voter_member id = record { node_id = id; roles = voter_roles }

abbrev pub learner_member : ℕ → Member
learner_member id = record { node_id = id; roles = learner_roles }

-- The loop of `tr_raft_membership_stable`.
unfoldable pub merge_sets : List ℕ → List ℕ → List Member
merge_sets [] [] = []
merge_sets [] (l ∷ learners) = learner_member l ∷ merge_sets [] learners
merge_sets (v ∷ voters) [] = voter_member v ∷ merge_sets voters []
merge_sets (v ∷ voters) (l ∷ learners) = elim (ltb v l) [
  | true ↦ voter_member v ∷ merge_sets voters (l ∷ learners)
  | false ↦ learner_member l ∷ merge_sets (v ∷ voters) learners
]

unfoldable pub stable : List ℕ → List ℕ → Result Conf
stable voters learners =
    if not (set_valid voters learners)
    then err einval
    else ok
        (record { phase = final_phase; transition_id = 0; members = merge_sets voters learners })
