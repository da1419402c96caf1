-- ===== src/Content.antt =====
-- pkg/content: the content store's filter and request, and `readerAt`, the reader of one blob.
-- The host at the other end of the stream is a parameter: for an offset and a length its answer.
pub mod Reading
pub mod Info
mod Tests
use container_builder_shim.Common.{
  ℕ, zero, suc, ◌+◌, ◌-◌, ◌*◌, Bool, true, false, Option, none, some, List, [], ◌∷◌, ◌++◌,
  if◌then◌else◌, ◌==◌, nat_eq, bytes_eq, length, take, drop,
}
use container_builder_shim.Common.Int.{ℤ, pos, negsuc, pos_part, ltb_ℤ, i64, ◌+ℤ◌}
use container_builder_shim.Common.Bytes.{Bytes, codes}
use container_builder_shim.Common.Dict.{Dict, lookup}
use container_builder_shim.Prefetch.Reader.{Answer, answered, Error, eof, other}

-- What the store reads of an `ImageTransfer`.
pub record ImageTransfer : Type 0 where
  pub metadata : Dict Bytes Bytes
  pub payload : Bytes

-- `Filter`: the packet's image transfer, if it is one, names this stage.
unfoldable pub is_for_store : Option ImageTransfer → Bool
unfolding lookup bytes_eq
is_for_store none = false
is_for_store (some it) = elim (lookup (codes "stage") it.metadata) [
  | some stage ↦ stage == codes "content-store"
  | none ↦ false
]

-- `request`: an answer that is no image transfer is an error.
unfoldable pub received_transfer : Option (Option ImageTransfer) → Option ImageTransfer
received_transfer none = none
received_transfer (some none) = none
received_transfer (some (some it)) = some it

pub record BlobReader : Type 0 where
  pub index : ℤ
  pub size : ℤ

-- The host: the answer to a request of so many bytes at an offset, none where the request fails.
abbrev pub Host : Type 0
Host = ℤ → ℕ → Option (Option ImageTransfer)

-- What a read returns: its bytes and its error.
abbrev pub BlobRead : Type 0
BlobRead = Bytes × Option Error

-- The answer's metadata has an error.
unfoldable pub has_error : ImageTransfer → Bool
unfolding lookup bytes_eq
has_error it = elim (lookup (codes "error") it.metadata) [ some _ ↦ true | none ↦ false ]

-- `ReadAt`; the bytes are those that it copies into the buffer.
unfoldable pub read_blob_at : Host → ℕ → ℤ → BlobRead
unfolding received_transfer has_error take nat_eq
read_blob_at host want off = elim (received_transfer (host off want)) [
  | none ↦ ([], some other)
  | some it ↦
      let copied = take want it.payload in
      if has_error it
      then ([], some other)
      else if length copied == 0
      then ([], some eof)
      else (copied, none)
]

-- What `Read` does with what `ReadAt` returned.
unfoldable pub advance : BlobReader → BlobRead → BlobReader × BlobRead
advance r (bytes, some x) = (r, (bytes, some x))
advance r (bytes, none) = (record r { index = r.index +ℤ pos (length bytes) }, (bytes, none))

-- `Read`
unfoldable pub read_blob : Host → ℕ → BlobReader → BlobReader × BlobRead
unfolding read_blob_at advance
read_blob host want r = advance r (read_blob_at host want r.index)

pub data Whence : Type 0 where
  seek_start seek_current seek_end seek_invalid : Whence

-- `Seek`, with the position that the offset asks for.
unfoldable pub seek_to : ℤ → BlobReader → BlobReader × Option ℤ
seek_to position r =
    if ltb_ℤ position (pos 0)
    then (r, none)
    else if ltb_ℤ r.size position
    then (r, none)
    else (record r { index = position }, some position)

unfoldable pub seek : ℤ → Whence → BlobReader → BlobReader × Option ℤ
unfolding seek_to
seek offset seek_start r = seek_to offset r
seek offset seek_current r = seek_to (r.index +ℤ offset) r
seek offset seek_end r = seek_to (r.size +ℤ offset) r
seek offset seek_invalid r = (r, none)

-- The bytes of a read and of those after it; an error ends them.
unfoldable pub joined : BlobRead → BlobRead → BlobRead
joined (bytes, some x) more = (bytes, some x)
joined (bytes, none) (more, last) = (bytes ++ more, last)

-- `Read` until it returns an error, `want` bytes at a time, as `io.ReadAll` does.
unfoldable pub read_all : Host → ℕ → ℕ → BlobReader → BlobRead
unfolding read_blob joined
read_all host want zero r = ([], none)
read_all host want (suc fuel) r =
    let (r', got) = read_blob host want r in joined got (read_all host want fuel r')

abbrev pub zeros : ℕ → Bytes
zeros zero = []
zeros (suc n) = 0 ∷ zeros n

-- The attempt of the prefetcher to read a chunk of a size into a new buffer; the offset is an int64.
unfoldable pub attempt_of : Host → ℕ → ℕ → Answer
unfolding read_blob_at i64
attempt_of host want index =
    let (bytes, e) = read_blob_at host want (i64 (index * want)) in
    answered (bytes ++ zeros (want - length bytes)) (length bytes) e
