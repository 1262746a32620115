-- ===== src/Conf/Wire.antt =====
-- The wire form is canonical: a byte sequence that decodes is the one that its configuration encodes to.
use turboraft.Prelude.{
  ℕ, zero, suc, ◌+◌, ◌*◌, ◌%◌, ◌≤◌, ◌<◌, ◌≡◌, refl, ap, true, List, [], ◌∷◌, arith, length, drop,
}
use turboraft.Status.{ok}
use turboraft.Conf.{Conf, validate, is_ok}
use turboraft.Conf.Codec.{
  header_size, member_size, byte, magic, codec_version, encode_members, encode_bytes, encode,
  required, decode_members, has_magic, decode_conf, decode,
}
use turboraft.Conf.Words.{put_u64-get_u64}

-- A value of `uint8_t`.
abbrev pub Bytes : List ℕ → Type 0
Bytes [] = Unit
Bytes (b ∷ bs) = (b < 256) × Bytes bs

length-decode_members : (n : ℕ) (input : List ℕ) → length (decode_members n input) ≡ n
unfolding decode_members
length-decode_members zero input = refl
length-decode_members (suc n) input = ap suc (length-decode_members n (drop member_size input))

encode_members-decode_members :
    (n : ℕ) (input : List ℕ)
    → length input ≡ member_size * n
    → Bytes input
    → encode_members (decode_members n input) ≡ input
unfolding encode_members decode_members
encode_members-decode_members zero [] e b = refl
encode_members-decode_members (suc n) (b0 ∷ b1 ∷ b2 ∷ b3 ∷ b4 ∷ b5 ∷ b6 ∷ b7 ∷ r ∷ rest) e
      (h0, (h1, (h2, (h3, (h4, (h5, (h6, (h7, (hr, hs))))))))) =
    rw (
      put_u64-get_u64 b0 b1 b2 b3 b4 b5 b6 b7 (r ∷ rest) h0 h1 h2 h3 h4 h5 h6 h7,
      encode_members-decode_members n rest (omega arith) hs,
    )
encode_members-decode_members _ input e b = absurd (omega arith)

encode_bytes-decode_conf :
    (input : List ℕ)
    → Bytes input
    → has_magic input ≡ true
    → byte input 4 ≡ codec_version
    → byte input 7 ≡ 0
    → length input ≡ header_size + member_size * byte input 6
    → encode_bytes (decode_conf input) ≡ input
unfolding has_magic encode_bytes decode_conf
encode_bytes-decode_conf
      (m0 ∷ m1 ∷ m2 ∷ m3 ∷ version ∷ phase ∷ count ∷ reserved ∷ b0 ∷ b1 ∷ b2 ∷ b3 ∷ b4 ∷ b5 ∷ b6
        ∷ b7 ∷ rest)
      (_, (_, (_, (_, (_, (hp, (hc, (_, (h0, (h1, (h2, (h3, (h4, (h5, (h6, (h7, hs))))))))))))))))
      mg v z n =
    let pm : phase % 256 ≡ phase = omega arith in
    let cm : count % 256 ≡ count = omega arith in
    let m : magic ≡ m0 ∷ m1 ∷ m2 ∷ m3 ∷ [] = ground arith in
    rw
      (
        length-decode_members count rest,
        pm,
        cm,
        put_u64-get_u64 b0 b1 b2 b3 b4 b5 b6 b7 rest h0 h1 h2 h3 h4 h5 h6 h7,
        encode_members-decode_members count rest (omega arith) hs,
        v,
        z,
      )
      (cc)
encode_bytes-decode_conf input b mg v z n = absurd (omega arith)

decode_accepts :
    (input : List ℕ) {c : Conf}
    → decode input ≡ ok c
    → (c ≡ decode_conf input)
      × (is_ok (validate (decode_conf input)) ≡ true)
      × (has_magic input ≡ true)
      × (byte input 4 ≡ codec_version)
      × (byte input 7 ≡ 0)
      × (length input ≡ header_size + member_size * byte input 6)
unfolding decode
decode_accepts input e =
    (ground arith, ground arith, ground arith, ground arith, ground arith, ground arith)

length-decode_conf : (input : List ℕ) → length (decode_conf input).members ≡ byte input 6
unfolding decode_conf
length-decode_conf input = length-decode_members (byte input 6) (drop header_size input)

encode_at :
    (c : Conf) (capacity : ℕ)
    → is_ok (validate c) ≡ true
    → required c ≤ capacity
    → encode c capacity ≡ (required c, ok (encode_bytes c))
unfolding encode
encode_at c capacity e h = rw e (ground arith)

-- Every byte sequence that `tr_raft_conf_decode` accepts is the one that `tr_raft_conf_encode` writes
-- for the configuration read, at any capacity that holds it.
pub encode-decode :
    (input : List ℕ) (capacity : ℕ) {c : Conf}
    → Bytes input
    → decode input ≡ ok c
    → length input ≤ capacity
    → encode c capacity ≡ (length input, ok input)
encode-decode input capacity b e fits =
    let (same, valid, m, v, z, n) = decode_accepts input e in
    let size = length-decode_conf input in
    let bytes = encode_bytes-decode_conf input b m v z n in
    rw (same, encode_at (decode_conf input) capacity valid (omega arith), bytes) (ground arith)
