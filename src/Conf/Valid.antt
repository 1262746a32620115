-- ===== src/Conf/Valid.antt =====
-- What `tr_raft_conf_validate` accepts.
use turboraft.Prelude.{
  ℕ, ◌+◌, ◌≤◌, ◌<◌, ◌≡◌, ◌≢◌, ◌⊎◌, ◌↔◌, inl, inr, true, some, List, [], ◌∷◌, arith, length,
  Option-cases, test_bit, zero, suc, if◌then◌else◌,
}
use turboraft.Status.{ok}
use turboraft.Conf.{
  Member, Conf, max_members, joint_phase, final_phase, old_voter, new_voter, count_bit, roles_valid,
  validate_members, validate,
}

-- Node ids rise strictly from `previous`.
abbrev pub Ascending : ℕ → List Member → Type 0
Ascending previous [] = Unit
Ascending previous (m ∷ ms) = (previous < m.node_id) × Ascending m.node_id ms

-- The roles of a member, as the bits of the old voter (1), the new voter (2) and the learner (4). In a
-- final configuration a member is a voter of both sets or a learner; in a joint one it may also be a voter
-- of one set, and an old voter may become a learner, but no member is both a new voter and a learner.
abbrev pub RoleFits : ℕ → ℕ → Type 0
RoleFits phase roles =
    ((phase ≡ final_phase) × ((roles ≡ 3) ⊎ (roles ≡ 4)))
    ⊎ ((phase ≡ joint_phase)
        × ((roles ≡ 1) ⊎ (roles ≡ 2) ⊎ (roles ≡ 3) ⊎ (roles ≡ 4) ⊎ (roles ≡ 5)))

abbrev pub RolesFit : ℕ → List Member → Type 0
RolesFit phase [] = Unit
RolesFit phase (m ∷ ms) = RoleFits phase m.roles × RolesFit phase ms

roles_valid-RoleFits : (phase roles : ℕ) → (roles_valid phase roles ≡ true) ↔ RoleFits phase roles
unfolding roles_valid test_bit
roles_valid-RoleFits phase zero =
    ((λ e. absurd (ground (arith, e))), λ h. absurd (ground (arith, h)))
roles_valid-RoleFits phase (suc zero) = ((λ e. ground (arith, e)), λ h. ground (arith, h))
roles_valid-RoleFits phase (suc (suc zero)) = ((λ e. ground (arith, e)), λ h. ground (arith, h))
roles_valid-RoleFits phase (suc (suc (suc zero))) =
    ((λ e. ground (arith, e)), λ h. ground (arith, h))
roles_valid-RoleFits phase (suc (suc (suc (suc zero)))) =
    ((λ e. ground (arith, e)), λ h. ground (arith, h))
roles_valid-RoleFits phase (suc (suc (suc (suc (suc zero))))) =
    ((λ e. ground (arith, e)), λ h. ground (arith, h))
roles_valid-RoleFits phase (suc (suc (suc (suc (suc (suc zero)))))) =
    ((λ e. absurd (ground (arith, e))), λ h. absurd (ground (arith, h)))
roles_valid-RoleFits phase (suc (suc (suc (suc (suc (suc (suc zero))))))) =
    ((λ e. absurd (ground (arith, e))), λ h. absurd (ground (arith, h)))
roles_valid-RoleFits phase (suc (suc (suc (suc (suc (suc (suc (suc n)))))))) =
    ((λ e. absurd (ground (arith, e))), λ h. absurd (ground (arith, h)))

-- The members whose roles have a bit.
unfoldable pub count_role : ℕ → List Member → ℕ
count_role i [] = 0
count_role i (m ∷ ms) = (if test_bit m.roles i then 1 else 0) + count_role i ms

-- Canonical form: strictly ascending non-zero ids, roles that fit the phase, a voter on both sides.
pub record IsCanonical (c : Conf) : Type 0 where
  pub phase_known : (c.phase ≡ joint_phase) ⊎ (c.phase ≡ final_phase)
  pub joint_identified : c.phase ≡ joint_phase → c.transition_id ≢ 0
  pub bounded : length c.members ≤ max_members
  pub ascending : Ascending 0 c.members
  pub roles_fit : RolesFit c.phase c.members
  pub has_old_voter : count_role old_voter c.members ≢ 0
  pub has_new_voter : count_role new_voter c.members ≢ 0

validate_members-some :
    (phase previous o n : ℕ) (ms : List Member)
    → Ascending previous ms
    → RolesFit phase ms
    → validate_members phase previous o n ms
      ≡ some (o + count_role old_voter ms, n + count_role new_voter ms)
unfolding validate_members count_role
validate_members-some phase previous o n [] a r = ground arith
validate_members-some phase previous o n (m ∷ ms) a r = ground (
  arith,
  (roles_valid-RoleFits phase m.roles).1 r.0,
  validate_members-some phase m.node_id (o + count_bit m.roles old_voter)
      (n + count_bit m.roles new_voter) ms a.1 r.1,
)

validate_members_sound :
    (phase previous o n : ℕ) (ms : List Member) (p : ℕ × ℕ)
    → validate_members phase previous o n ms ≡ some p
    → Ascending previous ms × RolesFit phase ms
unfolding validate_members
validate_members_sound phase previous o n [] p e = (tt, tt)
validate_members_sound phase previous o n (m ∷ ms) p e =
    let ascends : previous < m.node_id = ground (arith, e) in
    let valid : roles_valid phase m.roles ≡ true = ground (arith, e) in
    let rest =
      validate_members_sound phase m.node_id (o + count_bit m.roles old_voter)
        (n + count_bit m.roles new_voter) ms p (ground (arith, e)) in
    ((ascends, rest.0), ((roles_valid-RoleFits phase m.roles).0 valid, rest.1))

pub count_role-le-length : (i : ℕ) (ms : List Member) → count_role i ms ≤ length ms
unfolding count_role
count_role-le-length i [] = omega arith
count_role-le-length i (m ∷ ms) = ground (arith, count_role-le-length i ms)

validate_header :
    (c : Conf)
    → validate c ≡ ok tt
    → ((c.phase ≡ joint_phase) ⊎ (c.phase ≡ final_phase))
      × (c.phase ≡ joint_phase → c.transition_id ≢ 0)
      × (length c.members ≤ max_members)
unfolding validate
validate_header c e = (ground arith, λ j z. ground arith, ground arith)

validate_accepts :
    (c : Conf)
    → validate c ≡ ok tt
    → (p : ℕ × ℕ) × (validate_members c.phase 0 0 0 c.members ≡ some p) × (p.0 ≢ 0) × (p.1 ≢ 0)
unfolding validate
validate_accepts c e = elim (Option-cases (validate_members c.phase 0 0 0 c.members)) [
  | inl n ↦ absurd (ground arith)
  | inr (p, h) ↦ (p, h, (λ z. ground arith), (λ z. ground arith))
]

validate_canonical : (c : Conf) → IsCanonical c → validate c ≡ ok tt
unfolding validate
validate_canonical c v =
    ground (
      arith,
      validate_members-some c.phase 0 0 0 c.members,
      count_role-le-length old_voter c.members,
    )

-- `tr_raft_conf_validate` returns SALTS_OK exactly for a canonical configuration.
pub validate-IsCanonical : (c : Conf) → (validate c ≡ ok tt) ↔ IsCanonical c
validate-IsCanonical c = (accepted, validate_canonical c)
  where
    accepted : validate c ≡ ok tt → IsCanonical c
    accepted e =
        let h = validate_header c e in
        let (p, q, po, pn) = validate_accepts c e in
        let (asc, fit) = validate_members_sound c.phase 0 0 0 c.members p q in
        let counts = validate_members-some c.phase 0 0 0 c.members asc fit in
        record {
          phase_known = h.0;
          joint_identified = h.1;
          bounded = h.2;
          ascending = asc;
          roles_fit = fit;
          has_old_voter = λ z. ground (arith, counts);
          has_new_voter = λ z. ground (arith, counts);
        }
