-- ===== src/Membership/Match.antt =====
-- The commit rule of `tr_raft_membership_match_quorum`.
use turboraft.Prelude.{
  ℕ, ◌+◌, ◌≤◌, ◌<◌, ◌≡◌, ◌≢◌, ◌↔◌, refl, Bool, true, false, ◌∙◌, List, [], ◌∷◌, leb, ◌==◌,
  if◌then◌else◌, length, test_bit, set_bit, arith, test_bit-set_bit, test_bit-zero_word,
}
use turboraft.Conf.{Member, Conf, max_members, old_voter, new_voter}
use turboraft.Membership.Vote.{has_quorum, match_acks, match_quorum}
use turboraft.Membership.Quorum.{
  acks_role, Majority, has_quorum-Majority, Common, acks_role_pigeonhole,
}

abbrev marked : (ℕ → ℕ) → ℕ → ℕ → ℕ → ℕ
marked matches candidate i a = if leb candidate (matches i) then set_bit a i else a

test_bit-marked :
    (matches : ℕ → ℕ) (candidate i a j : ℕ)
    → test_bit (marked matches candidate i a) j ≡ (
        if i == j then (if leb candidate (matches i) then true else test_bit a j) else test_bit a j)
test_bit-marked matches candidate i a j = ground (arith, test_bit-set_bit a i j)

-- Bits below the loop's index stay.
test_bit-match_acks :
    (matches : ℕ → ℕ) (candidate i a j : ℕ) (ms : List Member)
    → j < i
    → test_bit (match_acks matches candidate i a ms) j ≡ test_bit a j
unfolding match_acks
test_bit-match_acks matches candidate i a j [] h = refl
test_bit-match_acks matches candidate i a j (m ∷ ms) h =
    test_bit-match_acks matches candidate (i + 1) (marked matches candidate i a) j ms (omega arith)
    ∙ (test_bit-marked matches candidate i a j ∙ ground arith)

abbrev pub reached : (ℕ → ℕ) → ℕ → ℕ → Bool
reached matches candidate i = leb candidate (matches i)

acks_role-match_acks :
    (role : ℕ) (matches : ℕ → ℕ) (candidate i a : ℕ) (ms : List Member)
    → ((k : ℕ) → i ≤ k → test_bit a k ≡ false)
    → acks_role role (test_bit (match_acks matches candidate i a ms)) i ms
      ≡ acks_role role (reached matches candidate) i ms
unfolding match_acks acks_role
acks_role-match_acks role matches candidate i a [] clear = refl
acks_role-match_acks role matches candidate i a (m ∷ ms) clear =
    let a' : ℕ = marked matches candidate i a in
    let below = test_bit-match_acks matches candidate (i + 1) a' i ms (omega arith) in
    let head = test_bit-marked matches candidate i a i in
    let rest =
      acks_role-match_acks role matches candidate (i + 1) a' ms
        (λ k h. test_bit-marked matches candidate i a k ∙ ground (arith, clear k)) in
    ground (arith, below, head, rest, clear i)

-- `tr_raft_membership_match_quorum` holds exactly for a candidate above 0 that a majority of the
-- old voters and a majority of the new voters have reached, in a membership within bounds.
pub match_quorum-Majority :
    (c : Conf) (matches : ℕ → ℕ) (candidate : ℕ)
    → (match_quorum c matches candidate ≡ true) ↔ (
        (candidate ≢ 0)
        × (length c.members ≤ max_members)
        × Majority old_voter (reached matches candidate) c.members
        × Majority new_voter (reached matches candidate) c.members)
unfolding match_quorum
match_quorum-Majority c matches candidate = (holds, λ h. follows h)
  where
    mask : ℕ
    mask = match_acks matches candidate 0 0 c.members

    same :
        (role : ℕ)
        → acks_role role (test_bit mask) 0 c.members
          ≡ acks_role role (reached matches candidate) 0 c.members
    same role =
        acks_role-match_acks role matches candidate 0 0 c.members (λ k h. test_bit-zero_word k)

    holds :
        match_quorum c matches candidate ≡ true
        → (candidate ≢ 0)
          × (length c.members ≤ max_members)
          × Majority old_voter (reached matches candidate) c.members
          × Majority new_voter (reached matches candidate) c.members
    holds h =
        let q = (has_quorum-Majority c mask).0 (ground arith) in
        (
          (λ z. ground arith),
          q.0,
          (q.1.0, omega (arith, same old_voter, q)),
          (q.2.0, omega (arith, same new_voter, q)),
        )

    follows :
        (candidate ≢ 0)
          × (length c.members ≤ max_members)
          × Majority old_voter (reached matches candidate) c.members
          × Majority new_voter (reached matches candidate) c.members
        → match_quorum c matches candidate ≡ true
    follows h =
        let q = (has_quorum-Majority c mask).1 (
          h.1,
          (h.2.0, omega (arith, same old_voter, h)),
          (h.3.0, omega (arith, same new_voter, h)),
        ) in
        ground arith

-- A commit quorum and a vote quorum of one membership share an old voter and a new voter: each has
-- reached the committed index, and has voted.
pub match_quorum-has_quorum :
    (c : Conf) (matches : ℕ → ℕ) (candidate votes : ℕ)
    → match_quorum c matches candidate ≡ true
    → has_quorum c votes ≡ true
    → Common old_voter (reached matches candidate) (test_bit votes) 0 c.members
      × Common new_voter (reached matches candidate) (test_bit votes) 0 c.members
match_quorum-has_quorum c matches candidate votes hm hv =
    let x = (match_quorum-Majority c matches candidate).0 hm in
    let y = (has_quorum-Majority c votes).0 hv in
    (
      acks_role_pigeonhole old_voter (reached matches candidate) (test_bit votes) 0 c.members
          (omega arith),
      acks_role_pigeonhole new_voter (reached matches candidate) (test_bit votes) 0 c.members
          (omega arith),
    )
