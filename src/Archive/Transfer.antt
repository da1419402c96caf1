-- ===== src/Archive/Transfer.antt =====
-- pkg/fileutils/tarxfer.go: the receiver of an archive, from the packets of the host to the slot of
-- the cache.
-- What `startTar` sends on its three channels is one list, in the order of the sends; the receiver
-- takes each before the next. Without a further packet both wait, until the context ends.
-- The hash, the reader of the archive and the answers of the operating system are arguments.
pub mod Verified
pub mod Complete
use container_builder_shim.Common.{
  Bool, true, false, ◌||◌, Option, none, some, List, [], ◌∷◌, ◌++◌, if◌then◌else◌, ◌==◌, bytes_eq,
}
use container_builder_shim.Common.Bytes.{Bytes}
use container_builder_shim.Common.Fallible.{Fallible, value, failure, ◌>>=◌}
use container_builder_shim.Archive.Tree.{
  Error, call_failed, invalid_digest, not_cached, digest_mismatch, stream_ended, server_error,
  unexpected_packet, cancelled, receive_failed,
}
use container_builder_shim.Archive.Unpack.{Header}
use container_builder_shim.Archive.Cache.{
  validate_context_digest, Slot, check_cache, Calls, Outcome, State, publish_tar,
}

-- What the demultiplexer hands over: of a transfer the entries `error` and `hash` of its metadata,
-- its data and `Complete`.
pub data Received : Type 0 where
  build_transfer : (error hash : Option Bytes) (payload : Bytes) (complete : Bool) → Received
  image_transfer : (error : Option Bytes) (payload : Bytes) (complete : Bool) → Received
  other_packet : Received
  ended_early : Received
  receive_error : Received

pub record TarStreamHeader : Type 0 where
  pub checksum : Bytes
  pub complete : Bool

-- One send, or the closing of the channels.
pub data Sent : Type 0 where
  sent_error : Option Error → Sent
  sent_header : TarStreamHeader → Sent
  sent_data : Bytes → Sent
  closed : Sent

abbrev pub completion : Bool → List Sent
completion true = sent_error none ∷ []
completion false = []

abbrev pub header_or_data : Option Bytes → Bytes → Bool → Sent
header_or_data (some hash) payload complete =
    sent_header (record { checksum = hash; complete = complete })
header_or_data none payload complete = sent_data payload

-- `handleBuildTransfer`: what it sends, and whether it is the last.
unfoldable pub handle_build_transfer : Option Bytes → Option Bytes → Bytes → Bool → List Sent × Bool
handle_build_transfer (some message) hash payload complete =
    (sent_error (some server_error) ∷ [], true)
handle_build_transfer none hash payload complete =
    (header_or_data hash payload complete ∷ completion complete, complete)

-- `handleImageTransfer`
unfoldable pub handle_image_transfer : Option Bytes → Bytes → Bool → List Sent × Bool
handle_image_transfer (some message) payload complete = (sent_error (some server_error) ∷ [], true)
handle_image_transfer none payload complete = (sent_data payload ∷ completion complete, complete)

-- One turn of the loop of `startTar`, with `normalizeTarReceiveError`.
unfoldable pub tar_turn : Received → List Sent × Bool
unfolding handle_build_transfer handle_image_transfer
tar_turn (build_transfer error hash payload complete) =
    handle_build_transfer error hash payload complete
tar_turn (image_transfer error payload complete) = handle_image_transfer error payload complete
tar_turn other_packet = (sent_error (some unexpected_packet) ∷ [], false)
tar_turn ended_early = (sent_error (some stream_ended) ∷ [], true)
tar_turn receive_error = (sent_error (some receive_failed) ∷ [], true)

abbrev pub then_more : List Sent × Bool → List Sent → List Sent
then_more (sent, true) more = sent ++ closed ∷ []
then_more (sent, false) more = sent ++ more

-- `startTar`
unfoldable pub start_tar : List Received → List Sent
unfolding tar_turn
start_tar [] = []
start_tar (p ∷ packets) = then_more (tar_turn p) (start_tar packets)

-- `readTarStreamHeader`; nobody takes data yet.
unfoldable pub read_tar_stream_header : List Sent → Fallible Error (TarStreamHeader × List Sent)
read_tar_stream_header [] = failure cancelled
read_tar_stream_header (sent_header h ∷ rest) = value (h, rest)
read_tar_stream_header (sent_error (some e) ∷ rest) = failure e
read_tar_stream_header (sent_error none ∷ rest) = read_tar_stream_header rest
read_tar_stream_header (sent_data d ∷ rest) = failure cancelled
read_tar_stream_header (closed ∷ rest) = failure stream_ended

-- `readTarHeader`; a further header stays in its channel.
unfoldable pub read_tar_header : List Sent → Fallible Error (Bytes × List Sent)
read_tar_header [] = failure cancelled
read_tar_header (sent_data d ∷ rest) = value (d, rest)
read_tar_header (sent_error (some e) ∷ rest) = failure e
read_tar_header (sent_error none ∷ rest) = value ([], rest)
read_tar_header (sent_header h ∷ rest) = read_tar_header rest
read_tar_header (closed ∷ rest) = failure stream_ended

-- `readTarBody`: the data after the first.
unfoldable pub read_tar_body : List Sent → Fallible Error Bytes
read_tar_body [] = failure cancelled
read_tar_body (sent_data d ∷ rest) = do more ← read_tar_body rest; value (d ++ more)
read_tar_body (sent_error (some e) ∷ rest) = failure e
read_tar_body (sent_error none ∷ rest) = read_tar_body rest
read_tar_body (sent_header h ∷ rest) = read_tar_body rest
read_tar_body (closed ∷ rest) = value []

-- The calls of `Receive` on files, apart from those of `publishTar`.
pub record FileCalls : Type 0 where
  pub makes_base : Bool
  pub writes_tar : Bool
  pub appends : Bool
  pub reads_back : Bool

abbrev pub unchanged : Error → List State × Fallible Error Bytes
unchanged e = ([], failure e)

-- What `Receive` returns after publishing.
abbrev pub after_publish : Bytes → Outcome → List State × Fallible Error Bytes
after_publish checksum (states, some e) = (states, failure e)
after_publish checksum (states, none) = (states, value checksum)

abbrev pub checked : Bool → Error → Fallible Error (Unit {0})
checked true e = value tt
checked false e = failure e

-- The archive's bytes as they come, without a cached context written to a file.
unfoldable pub read_tar : FileCalls → Bool → List Sent → Fallible Error Bytes
unfolding read_tar_header read_tar_body
read_tar files cached sent = do
  (first, rest) ← read_tar_header sent
  _ ← checked (cached || files.writes_tar) call_failed
  _ ← checked (cached || files.appends) call_failed
  more ← read_tar_body rest
  value (first ++ more)

module _ (hash_of : Bytes → Bytes) (headers_of : Bytes → List (Option Header)) where
  -- `verifyTarHash`
  unfoldable pub verify_tar_hash : Bool → Bytes → Bytes → Fallible Error (Unit {0})
  unfolding bytes_eq
  verify_tar_hash false tar checksum = failure call_failed
  verify_tar_hash true tar checksum =
      if hash_of tar == checksum then value tt else failure digest_mismatch

  -- The archive's bytes, complete, go to the slot where their hash is right.
  unfoldable pub store :
      FileCalls → Calls → Slot → Bytes → Bytes → List State × Fallible Error Bytes
  unfolding verify_tar_hash publish_tar
  store files calls slot checksum tar = elim (verify_tar_hash files.reads_back tar checksum) [
    | failure e ↦ unchanged e
    | value _ ↦ after_publish checksum (publish_tar calls slot (headers_of tar))
  ]

  -- `Receive` from the check of the cache on.
  unfoldable pub receive_for :
      FileCalls
      → Calls
      → Slot
      → TarStreamHeader
      → List Sent
      → Bool
      → List State × Fallible Error Bytes
  unfolding read_tar store
  receive_for files calls slot h sent cached =
      if h.complete
      then (if cached then ([], value h.checksum) else unchanged not_cached)
      else elim (read_tar files cached sent) [
        | failure e ↦ unchanged e
        | value tar ↦
            if cached then ([], value h.checksum) else store files calls slot h.checksum tar
      ]

  -- `Receive` up to the walk of the cached context: the states of the cache, the last one first, and
  -- the checksum.
  unfoldable pub receive :
      FileCalls → Calls → (Bytes → Slot) → List Received → List State × Fallible Error Bytes
  unfolding start_tar read_tar_stream_header validate_context_digest check_cache receive_for
  receive files calls slots packets = elim (read_tar_stream_header (start_tar packets)) [
    | failure e ↦ unchanged e
    | value (h, sent) ↦
        if validate_context_digest h.checksum
        then elim (checked files.makes_base call_failed) [
          | failure e ↦ unchanged e
          | value _ ↦ elim (check_cache (slots h.checksum)) [
            | failure e ↦ unchanged e
            | value cached ↦ receive_for files calls (slots h.checksum) h sent cached
          ]
        ]
        else unchanged invalid_digest
  ]
