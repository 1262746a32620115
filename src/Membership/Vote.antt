-- ===== src/Membership/Vote.antt =====
-- src/core/raft_membership.c: looking a member up, and quorums. A member index is an `Option`, with
-- `none` for -1; `matches` is an array that is read below the member count.
use turboraft.Prelude.{
  ℕ, ◌+◌, ◌/◌, Bool, false, ◌||◌, ◌&&◌, not, Option, none, some, List, [], ◌∷◌, ltb, leb, ◌==◌,
  if◌then◌else◌, length, get_elem?, test_bit, set_bit,
}
use turboraft.Conf.{Member, Conf, max_members, old_voter, new_voter, count_bit}

unfoldable pub index_from : ℕ → ℕ → List Member → Option ℕ
index_from i node_id [] = none
index_from i node_id (m ∷ ms) =
    if m.node_id == node_id
    then some i
    else if ltb node_id m.node_id
    then none
    else index_from (i + 1) node_id ms

unfoldable pub index : Conf → ℕ → Option ℕ
unfolding index_from
index membership node_id = if node_id == 0 then none else index_from 0 node_id membership.members

abbrev pub roles_at : Option Member → ℕ
roles_at none = 0
roles_at (some m) = m.roles

unfoldable pub roles : Conf → ℕ → ℕ
unfolding index
roles membership node_id = elim (index membership node_id) [
  | none ↦ 0
  | some i ↦ roles_at (get_elem? membership.members i)
]

unfoldable pub is_voter : Conf → ℕ → Bool
unfolding roles
is_voter membership node_id =
    test_bit (roles membership node_id) old_voter || test_bit (roles membership node_id) new_voter

pub record Tally : Type 0 where
  pub old_count : ℕ
  pub old_acks : ℕ
  pub new_count : ℕ
  pub new_acks : ℕ

abbrev pub no_votes : Tally
no_votes = record { old_count = 0; old_acks = 0; new_count = 0; new_acks = 0 }

abbrev pub ack_bit : ℕ → ℕ → Bool → ℕ
ack_bit roles role acknowledged = if test_bit roles role && acknowledged then 1 else 0

-- The loop of `tr_raft_membership_has_quorum`.
unfoldable pub tally : ℕ → ℕ → Tally → List Member → Tally
tally acknowledgements i t [] = t
tally acknowledgements i t (m ∷ ms) =
    tally acknowledgements (i + 1)
      (record {
        old_count = t.old_count + count_bit m.roles old_voter;
        old_acks = t.old_acks + ack_bit m.roles old_voter (test_bit acknowledgements i);
        new_count = t.new_count + count_bit m.roles new_voter;
        new_acks = t.new_acks + ack_bit m.roles new_voter (test_bit acknowledgements i);
      })
      ms

unfoldable pub carries : Tally → Bool
carries t =
    not (t.old_count == 0)
    && not (t.new_count == 0)
    && leb (t.old_count / 2 + 1) t.old_acks
    && leb (t.new_count / 2 + 1) t.new_acks

unfoldable pub has_quorum : Conf → ℕ → Bool
unfolding carries
has_quorum membership acknowledgements =
    if length membership.members == 0 || ltb max_members (length membership.members)
    then false
    else carries (tally acknowledgements 0 no_votes membership.members)

-- The loop of `tr_raft_membership_match_quorum`.
unfoldable pub match_acks : (ℕ → ℕ) → ℕ → ℕ → ℕ → List Member → ℕ
match_acks matches candidate i acknowledgements [] = acknowledgements
match_acks matches candidate i acknowledgements (m ∷ ms) =
    match_acks matches candidate (i + 1)
      (if leb candidate (matches i) then set_bit acknowledgements i else acknowledgements) ms

unfoldable pub match_quorum : Conf → (ℕ → ℕ) → ℕ → Bool
match_quorum membership matches candidate =
    if candidate == 0 || ltb max_members (length membership.members)
    then false
    else has_quorum membership (match_acks matches candidate 0 0 membership.members)
