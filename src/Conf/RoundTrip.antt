-- ===== src/Conf/RoundTrip.antt =====
-- A configuration goes to the wire and back.
use turboraft.Prelude.{
  ℕ, ◌*◌, ◌%◌, ◌^◌, ◌<◌, ◌≡◌, refl, true, inl, inr, List, [], ◌∷◌, ◌++◌, arith, length, drop,
}
use turboraft.Status.{ok}
use turboraft.Conf.{Member, Conf, validate, is_ok, is_ok-cases, old_voter}
use turboraft.Conf.Codec.{
  byte, codec_version, member_size, put_u64, encode_members, encode_bytes, encode, required,
  decode_members, has_magic, decode_conf, decode,
}
use turboraft.Conf.Words.{get_u64-put_u64}
use turboraft.Conf.Valid.{IsCanonical, validate-IsCanonical, count_role-le-length}

-- The values fit the fields of the C structures.
abbrev pub MembersFit : List Member → Type 0
MembersFit [] = Unit
MembersFit (m ∷ ms) = (m.node_id < 2 ^ 64) × (m.roles < 256) × MembersFit ms

abbrev pub Fits : Conf → Type 0
Fits c = (c.transition_id < 2 ^ 64) × MembersFit c.members

length-encode_members : (ms : List Member) → length (encode_members ms) ≡ member_size * length ms
unfolding encode_members put_u64
length-encode_members [] = refl
length-encode_members (m ∷ ms) = omega (arith, length-encode_members ms)

drop-put_u64 : (v : ℕ) (r : ℕ) (rest : List ℕ) → drop 9 (put_u64 v ++ r ∷ rest) ≡ rest
unfolding put_u64
drop-put_u64 v r rest = refl

roles-put_u64 : (v : ℕ) (r : ℕ) (rest : List ℕ) → byte (put_u64 v ++ r ∷ rest) 8 ≡ r
unfolding put_u64
roles-put_u64 v r rest = refl

decode_members-encode_members :
    (ms : List Member) → MembersFit ms → decode_members (length ms) (encode_members ms) ≡ ms
unfolding decode_members encode_members
decode_members-encode_members [] h = refl
decode_members-encode_members (m ∷ ms) h = rw (
  get_u64-put_u64 m.node_id (m.roles ∷ encode_members ms) h.0,
  drop-put_u64,
  roles-put_u64,
  decode_members-encode_members ms h.2,
)

drop-header : (v : ℕ) (rest : List ℕ) → drop 8 (put_u64 v ++ rest) ≡ rest
unfolding put_u64
drop-header v rest = refl

decode_conf-encode_bytes : (c : Conf) → IsCanonical c → Fits c → decode_conf (encode_bytes c) ≡ c
unfolding decode_conf encode_bytes
decode_conf-encode_bytes c v h =
    let p : c.phase % 256 ≡ c.phase = ground arith in
    let n : length c.members % 256 ≡ length c.members = omega arith in
    rw (
      p,
      n,
      get_u64-put_u64 c.transition_id (encode_members c.members) h.0,
      drop-header,
      decode_members-encode_members c.members h.1,
    )

length-encode_bytes : (c : Conf) → length (encode_bytes c) ≡ required c
unfolding encode_bytes put_u64
length-encode_bytes c = omega (arith, length-encode_members c.members)

header-encode_bytes :
    (c : Conf)
    → (has_magic (encode_bytes c) ≡ true)
      × (byte (encode_bytes c) 4 ≡ codec_version)
      × (byte (encode_bytes c) 6 ≡ length c.members % 256)
      × (byte (encode_bytes c) 7 ≡ 0)
unfolding encode_bytes has_magic
header-encode_bytes c = (refl, refl, refl, refl)

decode-encode_bytes : (c : Conf) → validate c ≡ ok tt → Fits c → decode (encode_bytes c) ≡ ok c
unfolding decode is_ok
decode-encode_bytes c e h =
    let v : IsCanonical c = (validate-IsCanonical c).0 e in
    ground (
      arith,
      e,
      v.bounded,
      v.has_old_voter,
      count_role-le-length old_voter c.members,
      header-encode_bytes c,
      length-encode_bytes c,
      decode_conf-encode_bytes c v h,
    )

-- What `tr_raft_conf_encode` writes for a configuration that it accepts, `tr_raft_conf_decode` reads
-- back as the same configuration.
pub decode-encode :
    (c : Conf) (capacity : ℕ) {bytes : List ℕ}
    → Fits c
    → (encode c capacity).1 ≡ ok bytes
    → decode bytes ≡ ok c
unfolding encode is_ok
decode-encode c capacity h e = elim (is_ok-cases (validate c)) [
  | inl v ↦ ground (arith, decode-encode_bytes c v h)
  | inr n ↦ absurd (ground arith)
]
