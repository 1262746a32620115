-- ===== src/Entry.antt =====
-- `tr_raft_entry_t` of include/turboraft/raft_core.h, and the log entry that carries a configuration
-- (the `tr_raft_conf_entry_` functions of src/core/raft_configuration.c).
use turboraft.Prelude.{
  ℕ, zero, suc, Bool, not, ◌||◌, List, [], ◌∷◌, ltb, ◌==◌, if◌then◌else◌, length,
}
use turboraft.Status.{einval, enoent, eproto, Result, ok, err, ◌>>=◌}
use turboraft.Conf.{Conf}
use turboraft.Conf.Codec.{encode, decode}

abbrev pub max_entry_bytes : ℕ
max_entry_bytes = 512

-- `payload` lists the bytes of the array `data` up to the last one written; the array's other bytes are 0.
pub record Entry : Type 0 where
  pub index : ℕ
  pub term : ℕ
  pub command_id : ℕ
  pub data_length : ℕ
  pub payload : List ℕ

-- The first bytes of a zero-initialised array.
unfoldable pub read_bytes : ℕ → List ℕ → List ℕ
read_bytes zero bytes = []
read_bytes (suc n) [] = 0 ∷ read_bytes n []
read_bytes (suc n) (b ∷ bytes) = b ∷ read_bytes n bytes

unfoldable pub is_configuration : Entry → Bool
is_configuration entry = entry.command_id == 0

unfoldable pub entry_encode : Conf → ℕ → ℕ → Result Entry
entry_encode configuration index term = if index == 0 || term == 0 then err einval else (do
  bytes ← (encode configuration max_entry_bytes).1
  ok (record {
    index = index;
    term = term;
    command_id = 0;
    data_length = length bytes;
    payload = bytes;
  }))

unfoldable pub entry_decode : Entry → Result Conf
unfolding is_configuration
entry_decode entry =
    if not (is_configuration entry)
    then err enoent
    else if entry.index == 0 || entry.term == 0 || ltb max_entry_bytes entry.data_length
    then err eproto
    else decode (read_bytes entry.data_length entry.payload)
