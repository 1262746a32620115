-- ===== src/Tests/Changes.antt =====
-- Membership changes at concrete inputs.
use turboraft.Prelude.{◌≡◌, refl, [], ◌∷◌, arith, test_bit}
use turboraft.Status.{ok}
use turboraft.Conf.{Conf, joint_phase, validate, validate_members, roles_valid, is_ok}
use turboraft.Membership.Vote.{is_voter, roles, index, index_from}
use turboraft.PeerSet
use turboraft.Transition.{
  Transition, commit_limit, apply, stage, stage_new, find_pending, validate_next, last_log_index,
  last_pending, old_voters_match, old_voters_loop, skip_nonvoters, skip_not_old,
}
use turboraft.Transition.Steps.{
  IsAfter, Ascending, OneStep, apply-commit_limit, IsStaged, stage-IsStaged,
}
use turboraft.Tests.Nodes.{three}

-- Node 4 takes the place of node 1.
abbrev replacing : Conf
replacing = record {
  phase = joint_phase;
  transition_id = 2;
  members =
      record { node_id = 1; roles = 1 }
      ∷ record { node_id = 2; roles = 3 }
      ∷ record { node_id = 3; roles = 3 }
      ∷ record { node_id = 4; roles = 2 }
      ∷ [];
}

abbrev settled : Transition
settled = record { committed = three; pending = [] }

abbrev changing : Transition
changing = record {
  committed = three;
  pending = record { configuration = replacing; log_index = 5 } ∷ [];
}

settled-IsStaged : IsStaged settled
unfolding Ascending
settled-IsStaged = record { ascending = tt; bounded = omega arith }

stage-replacing : stage settled replacing 5 ≡ ok changing
unfolding stage find_pending stage_new last_log_index validate_next last_pending is_ok validate
    validate_members roles_valid test_bit old_voters_match old_voters_loop skip_nonvoters
    skip_not_old is_voter roles index index_from PeerSet.build PeerSet.build_loop PeerSet.scan
    PeerSet.advance PeerSet.all_valid PeerSet.membership_valid PeerSet.members_ascend
stage-replacing = refl

stage-IsStaged_example : IsStaged changing
stage-IsStaged_example =
    stage-IsStaged settled changing replacing 5 settled-IsStaged stage-replacing

changing-Ascending : Ascending changing.pending
unfolding Ascending IsAfter
changing-Ascending = (tt, tt)

apply-commit_limit_example :
    OneStep changing (commit_limit changing 7) (apply changing (commit_limit changing 7))
apply-commit_limit_example = apply-commit_limit changing 7 changing-Ascending
