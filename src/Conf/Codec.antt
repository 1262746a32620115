-- ===== src/Conf/Codec.antt =====
-- The wire form of a configuration: `tr_raft_conf_encode` and `tr_raft_conf_decode` of
-- src/core/raft_configuration.c. A byte is a number below 256.
use turboraft.Prelude.{
  ℕ, zero, suc, ◌+◌, ◌*◌, ◌/◌, ◌%◌, ◌^◌, Bool, ◌&&◌, ◌||◌, not, List, [], ◌∷◌, ◌++◌, ltb, ◌==◌,
  if◌then◌else◌, length, drop, get_or,
}
use turboraft.Status.{einval, enospc, eproto, Result, ok, err}
use turboraft.Conf.{Member, Conf, max_members, validate, is_ok}

abbrev pub codec_version : ℕ
codec_version = 1

abbrev pub header_size : ℕ
header_size = 16

abbrev pub member_size : ℕ
member_size = 9

-- "TRCF"
abbrev pub magic : List ℕ
magic = b'T' ∷ b'R' ∷ b'C' ∷ b'F' ∷ []

-- The loop of `tr_raft_conf_put_u64`: the last byte is written first.
unfoldable pub put_bytes : ℕ → ℕ → List ℕ → List ℕ
put_bytes zero value written = written
put_bytes (suc n) value written = put_bytes n (value / 256) (value % 256 ∷ written)

unfoldable pub put_u64 : ℕ → List ℕ
unfolding put_bytes
put_u64 value = put_bytes 8 value []

-- The loop of `tr_raft_conf_get_u64`. Where the input ends early the code reads past it; the callers
-- have checked the length.
unfoldable pub get_bytes : ℕ → ℕ → List ℕ → ℕ
get_bytes zero value input = value
get_bytes (suc n) value [] = value
get_bytes (suc n) value (b ∷ input) = get_bytes n (value * 256 % 2 ^ 64 + b) input

unfoldable pub get_u64 : List ℕ → ℕ
unfolding get_bytes
get_u64 input = get_bytes 8 0 input

unfoldable pub encode_members : List Member → List ℕ
encode_members [] = []
encode_members (m ∷ ms) = put_u64 m.node_id ++ m.roles ∷ encode_members ms

abbrev pub required : Conf → ℕ
required c = header_size + member_size * length c.members

unfoldable pub encode_bytes : Conf → List ℕ
encode_bytes c =
    magic
    ++ (codec_version ∷ c.phase % 256 ∷ length c.members % 256 ∷ 0 ∷ [])
    ++ put_u64 c.transition_id
    ++ encode_members c.members

-- `*output_length`, and the bytes written to `output`.
unfoldable pub encode : Conf → ℕ → ℕ × Result (List ℕ)
encode c capacity =
    if not (is_ok (validate c))
    then (0, err einval)
    else if ltb capacity (required c)
    then (required c, err enospc)
    else (required c, ok (encode_bytes c))

abbrev pub byte : List ℕ → ℕ → ℕ
byte input i = get_or input i 0

-- The loop of `tr_raft_conf_decode`, at `input + offset`.
unfoldable pub decode_members : ℕ → List ℕ → List Member
decode_members zero input = []
decode_members (suc n) input =
    record { node_id = get_u64 input; roles = byte input 8 }
    ∷ decode_members n (drop member_size input)

-- `memcmp(input, tr_raft_conf_magic, 4) == 0`
unfoldable pub has_magic : List ℕ → Bool
has_magic input =
    byte input 0 == b'T' && byte input 1 == b'R' && byte input 2 == b'C' && byte input 3 == b'F'

unfoldable pub decode_conf : List ℕ → Conf
decode_conf input = record {
  phase = byte input 5;
  transition_id = get_u64 (drop 8 input);
  members = decode_members (byte input 6) (drop header_size input);
}

unfoldable pub decode : List ℕ → Result Conf
decode input =
    if ltb (length input) header_size
      || not (has_magic input)
      || not (byte input 4 == codec_version)
      || not (byte input 7 == 0)
    then err eproto
    else if byte input 6 == 0 || ltb max_members (byte input 6)
    then err eproto
    else if not (length input == header_size + member_size * byte input 6)
    then err eproto
    else if is_ok (validate (decode_conf input))
    then ok (decode_conf input)
    else err eproto
