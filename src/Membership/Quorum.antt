-- ===== src/Membership/Quorum.antt =====
-- Quorums of `tr_raft_membership_has_quorum` and `tr_raft_membership_match_quorum`.
use turboraft.Prelude.{
  ℕ, suc, ◌+◌, ◌*◌, ◌≤◌, ◌<◌, ◌≡◌, ◌≢◌, ◌↔◌, refl, Bool, true, ◌&&◌, inl, inr, some, List, [], ◌∷◌,
  length, get_elem?, test_bit, arith, Bool-cases, ap,
}
use turboraft.Conf.{Member, Conf, max_members, old_voter, new_voter, count_bit}
use turboraft.Conf.Valid.{count_role, count_role-le-length}
use turboraft.Membership.Vote.{Tally, no_votes, ack_bit, tally, carries, has_quorum}

-- The members with a role whose index, counted from `i`, a set acknowledges.
unfoldable pub acks_role : ℕ → (ℕ → Bool) → ℕ → List Member → ℕ
acks_role role acked i [] = 0
acks_role role acked i (m ∷ ms) = ack_bit m.roles role (acked i) + acks_role role acked (i + 1) ms

-- More than half of the members with a role, and at least one.
abbrev pub Majority : ℕ → (ℕ → Bool) → List Member → Type 0
Majority role acked ms =
    (count_role role ms ≢ 0) × (count_role role ms < 2 * acks_role role acked 0 ms)

tally_lem :
    (a i : ℕ) (t : Tally) (ms : List Member)
    → tally a i t ms ≡ record {
      old_count = t.old_count + count_role old_voter ms;
      old_acks = t.old_acks + acks_role old_voter (test_bit a) i ms;
      new_count = t.new_count + count_role new_voter ms;
      new_acks = t.new_acks + acks_role new_voter (test_bit a) i ms;
    }
unfolding tally count_role acks_role
tally_lem a i t [] = ground arith
tally_lem a i t (m ∷ ms) = ground (
  arith,
  tally_lem a (i + 1)
      (record {
        old_count = t.old_count + count_bit m.roles old_voter;
        old_acks = t.old_acks + ack_bit m.roles old_voter (test_bit a i);
        new_count = t.new_count + count_bit m.roles new_voter;
        new_acks = t.new_acks + ack_bit m.roles new_voter (test_bit a i);
      })
      ms,
)

abbrev totals : ℕ → List Member → Tally
totals a ms = record {
  old_count = count_role old_voter ms;
  old_acks = acks_role old_voter (test_bit a) 0 ms;
  new_count = count_role new_voter ms;
  new_acks = acks_role new_voter (test_bit a) 0 ms;
}

tally-totals : (a : ℕ) (ms : List Member) → tally a 0 no_votes ms ≡ totals a ms
tally-totals a ms = ground (arith, tally_lem a 0 no_votes ms)

carries_iff :
    (t : Tally)
    → (carries t ≡ true) ↔ (
        (t.old_count ≢ 0)
        × (t.old_count < 2 * t.old_acks)
        × (t.new_count ≢ 0)
        × (t.new_count < 2 * t.new_acks))
unfolding carries
carries_iff t =
    (λ h. ((λ z. ground arith), ground arith, (λ z. ground arith), ground arith), λ h. ground arith)

-- `tr_raft_membership_has_quorum` holds exactly for a membership within bounds where a majority of
-- the old voters and a majority of the new voters acknowledge.
pub has_quorum-Majority :
    (c : Conf) (a : ℕ)
    → (has_quorum c a ≡ true) ↔ (
        (length c.members ≤ max_members)
        × Majority old_voter (test_bit a) c.members
        × Majority new_voter (test_bit a) c.members)
unfolding has_quorum
has_quorum-Majority c a = (holds, λ h. follows h)
  where
    law : carries (tally a 0 no_votes c.members) ≡ carries (totals a c.members)
    law = ap carries (tally-totals a c.members)

    holds :
        has_quorum c a ≡ true
        → (length c.members ≤ max_members)
          × Majority old_voter (test_bit a) c.members
          × Majority new_voter (test_bit a) c.members
    holds h =
        let t = (carries_iff (totals a c.members)).0 (ground (arith, law)) in
        (ground arith, (t.0, t.1), (t.2, t.3))

    follows :
        (length c.members ≤ max_members)
          × Majority old_voter (test_bit a) c.members
          × Majority new_voter (test_bit a) c.members
        → has_quorum c a ≡ true
    follows h =
        let t = (carries_iff (totals a c.members)).1 (h.1.0, h.1.1, h.2.0, h.2.1) in
        ground (arith, t, law, count_role-le-length old_voter c.members)

-- A member with a role that both sets acknowledge.
abbrev pub Common : ℕ → (ℕ → Bool) → (ℕ → Bool) → ℕ → List Member → Type 0
Common role p q i ms =
    (j : ℕ) × (m : Member) × (get_elem? ms j ≡ some m)
    × (test_bit m.roles role ≡ true)
    × (p (i + j) ≡ true)
    × (q (i + j) ≡ true)

Common-suc :
    (role : ℕ) (p q : ℕ → Bool) (i : ℕ) (m : Member) (ms : List Member)
    → Common role p q (i + 1) ms
    → Common role p q i (m ∷ ms)
Common-suc role p q i m ms (j, n, e, r, hp, hq) =
    let k : i + 1 + j ≡ i + suc j = omega arith in (suc j, n, e, r, rw k at hp, rw k at hq)

-- Two sets that together acknowledge more than all members with a role share one of these.
pub acks_role_pigeonhole :
    (role : ℕ) (p q : ℕ → Bool) (i : ℕ) (ms : List Member)
    → count_role role ms < acks_role role p i ms + acks_role role q i ms
    → Common role p q i ms
unfolding count_role acks_role
acks_role_pigeonhole role p q i [] h = absurd (omega arith)
acks_role_pigeonhole role p q i (m ∷ ms) h =
    elim (Bool-cases (test_bit m.roles role && p i && q i)) [
      | inl both ↦
          let z : i + 0 ≡ i = omega arith in
          (0, m, refl, ground arith, rw z (ground arith), rw z (ground arith))
      | inr one ↦
          Common-suc role p q i m ms (acks_role_pigeonhole role p q (i + 1) ms (ground arith))
    ]

-- Any two quorums of one membership share an old voter, and they share a new voter.
pub has_quorum_intersect :
    (c : Conf) (a b : ℕ)
    → has_quorum c a ≡ true
    → has_quorum c b ≡ true
    → Common old_voter (test_bit a) (test_bit b) 0 c.members
      × Common new_voter (test_bit a) (test_bit b) 0 c.members
has_quorum_intersect c a b ha hb =
    let x = (has_quorum-Majority c a).0 ha in
    let y = (has_quorum-Majority c b).0 hb in
    (
      acks_role_pigeonhole old_voter (test_bit a) (test_bit b) 0 c.members (omega arith),
      acks_role_pigeonhole new_voter (test_bit a) (test_bit b) 0 c.members (omega arith),
    )
