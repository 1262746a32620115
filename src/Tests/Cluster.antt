-- ===== src/Tests/Cluster.antt =====
-- Configurations, memberships and quorums at concrete inputs.
use turboraft.Prelude.{
  ℕ, ◌≡◌, refl, ◌↔◌, ◌≢◌, ◌+◌, ◌≤◌, true, List, [], ◌∷◌, length, test_bit, set_bit, arith,
}
use turboraft.Status.{ok}
use turboraft.Conf.{
  Conf, joint_phase, old_voter, new_voter, validate, validate_members, roles_valid, is_ok,
}
use turboraft.Conf.Codec.{
  encode, decode, encode_bytes, put_u64, encode_members, has_magic, decode_conf, get_u64,
  decode_members,
}
use turboraft.Conf.Valid.{IsCanonical, validate-IsCanonical}
use turboraft.Conf.RoundTrip.{decode-encode}
use turboraft.Conf.Wire.{encode-decode}
use turboraft.Membership.Vote.{has_quorum, match_quorum, tally, match_acks}
use turboraft.Membership.Quorum.{Majority, Common, has_quorum-Majority, has_quorum_intersect}
use turboraft.Membership.Match.{reached, match_quorum-Majority, match_quorum-has_quorum}

-- Voters 1 and 2 go, 4 comes in, 3 stays, 5 learns.
abbrev moving : Conf
moving = record {
  phase = joint_phase;
  transition_id = 7;
  members =
      record { node_id = 1; roles = 1 }
      ∷ record { node_id = 2; roles = 1 }
      ∷ record { node_id = 3; roles = 3 }
      ∷ record { node_id = 4; roles = 2 }
      ∷ record { node_id = 5; roles = 4 }
      ∷ [];
}

validate-moving : validate moving ≡ ok tt
unfolding validate validate_members roles_valid test_bit
validate-moving = refl

validate-IsCanonical_example : (validate moving ≡ ok tt) ↔ IsCanonical moving
validate-IsCanonical_example = validate-IsCanonical moving

abbrev wire : List ℕ
wire =
    b'T' ∷ b'R' ∷ b'C' ∷ b'F' ∷ 1 ∷ 1 ∷ 1 ∷ 0 ∷ 0 ∷ 0 ∷ 0 ∷ 0 ∷ 0 ∷ 0 ∷ 0 ∷ 9 ∷ 0 ∷ 0 ∷ 0 ∷ 0 ∷ 0
    ∷ 0 ∷ 1 ∷ 2 ∷ 3 ∷ []

abbrev single : Conf
single = record {
  phase = joint_phase;
  transition_id = 9;
  members = record { node_id = 258; roles = 3 } ∷ [];
}

encode-single : (encode single 25).1 ≡ ok wire
unfolding encode is_ok validate validate_members roles_valid test_bit encode_bytes put_u64
    encode_members
encode-single = refl

decode-wire : decode wire ≡ ok single
unfolding decode has_magic is_ok validate decode_conf get_u64 decode_members validate_members
    roles_valid test_bit
decode-wire = refl

decode-encode_example : decode wire ≡ ok single
decode-encode_example = decode-encode single 25 (omega arith) encode-single

encode-decode_example : encode single 25 ≡ (25, ok wire)
encode-decode_example = encode-decode wire 25 (omega arith) decode-wire (omega arith)

-- Nodes 1, 3 and 4, and nodes 2, 3 and 4.
has_quorum-moving : (has_quorum moving 13 ≡ true) × (has_quorum moving 14 ≡ true)
unfolding has_quorum tally test_bit
has_quorum-moving = (refl, refl)

has_quorum-Majority_example : (has_quorum moving 13 ≡ true) ↔ (
    (length moving.members ≤ 31)
    × Majority old_voter (test_bit 13) moving.members
    × Majority new_voter (test_bit 13) moving.members)
has_quorum-Majority_example = has_quorum-Majority moving 13

has_quorum_intersect_example :
    Common old_voter (test_bit 13) (test_bit 14) 0 moving.members
    × Common new_voter (test_bit 13) (test_bit 14) 0 moving.members
has_quorum_intersect_example =
    has_quorum_intersect moving 13 14 has_quorum-moving.0 has_quorum-moving.1

abbrev progress : ℕ → ℕ
progress i = 10 + i

match_quorum-moving : match_quorum moving progress 11 ≡ true
unfolding match_quorum match_acks has_quorum tally test_bit set_bit
match_quorum-moving = refl

match_quorum-Majority_example : (match_quorum moving progress 11 ≡ true) ↔ (
    (◌≢◌ {A = ℕ} 11 0)
    × (length moving.members ≤ 31)
    × Majority old_voter (reached progress 11) moving.members
    × Majority new_voter (reached progress 11) moving.members)
match_quorum-Majority_example = match_quorum-Majority moving progress 11

match_quorum-has_quorum_example :
    Common old_voter (reached progress 11) (test_bit 13) 0 moving.members
    × Common new_voter (reached progress 11) (test_bit 13) 0 moving.members
match_quorum-has_quorum_example =
    match_quorum-has_quorum moving progress 11 13 match_quorum-moving has_quorum-moving.0
