-- ===== src/Tests/Snapshots.antt =====
-- A receiver of snapshots, with a digest that is the bytes themselves.
use turboraft.Prelude.{
  ℕ, ◌≡◌, refl, ap, sym, ◌∙◌, true, false, [], ◌∷◌, ◌++◌, List, arith, test_bit,
}
use turboraft.Calls.{Ends}
use turboraft.Conf.{validate, validate_members, roles_valid}
use turboraft.Status.{ok}
use turboraft.Snapshot.{Chunk}
use turboraft.Snapshot.Receiver.{Sha, Sink, handle, install}
use turboraft.Snapshot.Receiver.Sound.{Hashes, Quits}
use turboraft.Snapshot.Receiver.Install.{Answered, handle-Answered}
use turboraft.Snapshot.Receiver.Create.{ReceiverConfig, created, created-IsSound}
use turboraft.Tests.Nodes.{three}

abbrev plain_sha : Sha (List ℕ)
plain_sha = record {
  reset = λ s. (ok tt, []);
  update = λ more s. (ok tt, s ++ more);
  finish = λ s. (ok s, s);
}

abbrev Is : List ℕ → List ℕ → Type 0
Is s bytes = s ≡ bytes

plain_hashes : Hashes plain_sha Is (λ bytes. bytes)
plain_hashes = record {
  reset_empty = λ s e. refl;
  update_more = λ s bytes more h e. ap (λ t. t ++ more) h;
  finish_hash = λ s bytes digest h e. sym (of e) ∙ h;
}
  where
    of : {s digest : List ℕ} → ok s ≡ ok digest → s ≡ digest
    of e = ground (arith, e)

abbrev buffering : Sink (List ℕ)
buffering = record {
  streams = false;
  malloc_ok = λ n. true;
  size_max = 1000;
  sha = plain_sha;
  answer = λ history effect. ok tt;
}

abbrev pub receiver_config : ReceiverConfig
receiver_config = record {
  self_id = 2;
  max_snapshot_bytes = 100;
  max_buffered_snapshot_bytes = 100;
  has_install = true;
  has_begin = false;
  has_write = false;
  has_commit = false;
  has_abort = false;
}

-- A snapshot of three bytes in one chunk.
abbrev only_chunk : Chunk
only_chunk = record {
  from = 1;
  to = 2;
  term = 4;
  snapshot_index = 9;
  snapshot_term = 3;
  snapshot_offset = 0;
  snapshot_size = 3;
  snapshot_digest = 7 ∷ 8 ∷ 9 ∷ [];
  has_configuration = true;
  configuration = three;
  bytes = 7 ∷ 8 ∷ 9 ∷ [];
  is_done = true;
}

installs_chunk : (handle buffering only_chunk (created receiver_config []) []).1.installed ≡ true
unfolding handle created validate validate_members roles_valid test_bit
installs_chunk = refl

installs_bytes :
    (handle buffering only_chunk (created receiver_config []) []).1.history
    ≡ (install 4 9 3 three (7 ∷ 8 ∷ 9 ∷ []), ok tt) ∷ []
unfolding handle created validate validate_members roles_valid test_bit
installs_bytes = refl

handle-Answered_example :
    Ends
      (Answered Is buffering (λ bytes. bytes) plain_hashes (only_chunk ∷ []) only_chunk)
      (Quits Is (only_chunk ∷ []))
      (handle buffering only_chunk (created receiver_config []) [])
handle-Answered_example =
    handle-Answered Is buffering (λ bytes. bytes) plain_hashes [] only_chunk
      (created receiver_config []) [] (created-IsSound Is receiver_config [] [])
