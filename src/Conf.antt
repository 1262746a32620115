-- ===== src/Conf.antt =====
-- src/core/raft_configuration.c with the types of include/turboraft/raft_core.h: a cluster
-- configuration and its validation. The wire form is in `Conf.Codec`.
pub mod Codec
pub mod Words
pub mod Valid
pub mod RoundTrip
pub mod Wire
use turboraft.Prelude.{
  ℕ, ◌≡◌, ◌⊎◌, inl, inr, refl, ◌+◌, ◌-◌, ◌%◌, ◌^◌, Bool, true, false, ◌&&◌, ◌||◌, not, Option, none,
  some, List, [], ◌∷◌, ltb, leb, ◌==◌, if◌then◌else◌, length, test_bit,
}
use turboraft.Status.{einval, Result, ok, err}

abbrev pub u64_max : ℕ
u64_max = 2 ^ 64 - 1

-- Addition on `uint64_t` wraps.
abbrev pub add64 : ℕ → ℕ → ℕ
add64 a b = (a + b) % 2 ^ 64

abbrev pub max_members : ℕ
max_members = 31

-- `tr_raft_conf_phase_t`: 1 and 2, but a cleared or decoded configuration holds any byte.
abbrev pub joint_phase : ℕ
joint_phase = 1

abbrev pub final_phase : ℕ
final_phase = 2

-- `tr_raft_conf_role_t` as bit positions of `roles`, and the sets of bits that the code compares.
abbrev pub old_voter : ℕ
old_voter = 0

abbrev pub new_voter : ℕ
new_voter = 1

abbrev pub learner : ℕ
learner = 2

abbrev pub voter_roles : ℕ
voter_roles = 3

abbrev pub learner_roles : ℕ
learner_roles = 4

pub record Member : Type 0 where
  pub node_id : ℕ
  pub roles : ℕ

-- `member_count` is the length of the list.
pub record Conf : Type 0 where
  pub phase : ℕ
  pub transition_id : ℕ
  pub members : List Member

-- What `memset` leaves.
abbrev pub zero_conf : Conf
zero_conf = record { phase = 0; transition_id = 0; members = [] }

unfoldable pub roles_valid : ℕ → ℕ → Bool
roles_valid phase roles =
    if roles == 0 || ltb 7 roles || (test_bit roles new_voter && test_bit roles learner)
    then false
    else if phase == final_phase
    then roles == voter_roles || roles == learner_roles
    else phase == joint_phase

abbrev pub count_bit : ℕ → ℕ → ℕ
count_bit roles i = if test_bit roles i then 1 else 0

-- The loop of `tr_raft_conf_validate`: the numbers of old and new voters, or `none` at a member that
-- is refused. `previous` is the node id of the member before, and 0 before the first.
unfoldable pub validate_members : ℕ → ℕ → ℕ → ℕ → List Member → Option (ℕ × ℕ)
validate_members phase previous old_count new_count [] = some (old_count, new_count)
validate_members phase previous old_count new_count (m ∷ ms) =
    if m.node_id == 0 || leb m.node_id previous || not (roles_valid phase m.roles)
    then none
    else validate_members phase m.node_id (old_count + count_bit m.roles old_voter)
        (new_count + count_bit m.roles new_voter) ms

-- The end of `tr_raft_conf_validate`.
unfoldable pub voters_present : Option (ℕ × ℕ) → Result (Unit {0})
voters_present none = err einval
voters_present (some (old_count, new_count)) =
    if old_count == 0 || new_count == 0 then err einval else ok tt

unfoldable pub validate : Conf → Result (Unit {0})
unfolding voters_present
validate c =
    if (c.phase == joint_phase && c.transition_id == 0)
      || length c.members == 0
      || ltb max_members (length c.members)
      || (not (c.phase == joint_phase) && not (c.phase == final_phase))
    then err einval
    else voters_present (validate_members c.phase 0 0 0 c.members)

unfoldable pub is_ok : Result (Unit {0}) → Bool
is_ok (ok _) = true
is_ok (err _) = false

pub is_ok-cases : (r : Result (Unit {0})) → (r ≡ ok tt) ⊎ (is_ok r ≡ false)
unfolding is_ok
is_ok-cases (ok tt) = inl refl
is_ok-cases (err e) = inr refl
