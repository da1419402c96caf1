-- ===== src/Archive/Transfer/Complete.antt =====
-- `startTar` and its readers in pkg/fileutils/tarxfer.go, on a transfer that the host completes.
use container_builder_shim.Common.{
  append_nil, Bool, true, false, ◌||◌, none, some, List, [], ◌∷◌, ◌++◌, ◌≡◌, refl, ap,
}
use container_builder_shim.Common.Bytes.{Bytes}
use container_builder_shim.Common.Fallible.{Fallible, value, ◌>>=◌}
use container_builder_shim.Archive.Tree.{Error}
use container_builder_shim.Archive.Transfer.{
  Received, build_transfer, Sent, sent_data, sent_error, closed, TarStreamHeader, start_tar,
  tar_turn, handle_build_transfer, read_tar_stream_header, read_tar_header, read_tar_body,
  FileCalls, read_tar,
}

-- The packets of a transfer: the digest, then chunks, the last of them complete.
abbrev pub chunks_of : List Bytes → Bytes → List Received
chunks_of [] last = build_transfer none none last true ∷ []
chunks_of (d ∷ ds) last = build_transfer none none d false ∷ chunks_of ds last

abbrev pub transfer_of : Bytes → List Bytes → Bytes → List Received
transfer_of checksum ds last = build_transfer none (some checksum) [] false ∷ chunks_of ds last

abbrev pub joined : List Bytes → Bytes → Bytes
joined [] last = last
joined (d ∷ ds) last = d ++ joined ds last

-- What of the sends is data.
abbrev sends : List Bytes → Bytes → List Sent
sends [] last = sent_data last ∷ sent_error none ∷ closed ∷ []
sends (d ∷ ds) last = sent_data d ∷ sends ds last

start_tar-chunks_of :
    (ds : List Bytes) (last : Bytes) → start_tar (chunks_of ds last) ≡ sends ds last
unfolding start_tar tar_turn handle_build_transfer
start_tar-chunks_of [] last = refl
start_tar-chunks_of (d ∷ ds) last = ap (λ s. sent_data d ∷ s) (start_tar-chunks_of ds last)

read_tar_body-sends :
    (ds : List Bytes) (last : Bytes) → read_tar_body (sends ds last) ≡ value (joined ds last)
unfolding read_tar_body
read_tar_body-sends [] last = ap value (append_nil last)
read_tar_body-sends (d ∷ ds) last = rw (read_tar_body-sends ds last) refl

-- A reading of the whole transfer: its header, and its bytes.
abbrev pub read_all : FileCalls → Bool → List Received → Fallible Error (TarStreamHeader × Bytes)
read_all files cached packets = do
  (h, sent) ← read_tar_stream_header (start_tar packets)
  tar ← read_tar files cached sent
  value (h, tar)

read_tar-sends :
    (files : FileCalls) (cached : Bool) (ds : List Bytes) (last : Bytes)
    → (cached || files.writes_tar) ≡ true
    → (cached || files.appends) ≡ true
    → read_tar files cached (sends ds last) ≡ value (joined ds last)
unfolding read_tar read_tar_header read_tar_body
read_tar-sends files cached [] last w a = rw (w, a) (ap value (append_nil last))
read_tar-sends files cached (d ∷ ds) last w a = rw (w, a, read_tar_body-sends ds last) refl

-- A transfer that the host completes is read to its end: where the files can be written, or the
-- context is cached, the receiver gets the checksum and the chunks, joined in their order.
pub read_all-transfer_of :
    (files : FileCalls) (cached : Bool) (checksum : Bytes) (ds : List Bytes) (last : Bytes)
    → (cached || files.writes_tar) ≡ true
    → (cached || files.appends) ≡ true
    → read_all files cached (transfer_of checksum ds last)
      ≡ value (record { checksum = checksum; complete = false }, joined ds last)
unfolding start_tar tar_turn handle_build_transfer read_tar_stream_header
read_all-transfer_of files cached checksum ds last w a =
    rw (start_tar-chunks_of ds last, read_tar-sends files cached ds last w a) refl
