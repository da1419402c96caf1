-- ===== src/Fssync/Sender.antt =====
-- pkg/fssync/diffcopy.go: the sender, which announces the entries of the walk and sends the files that
-- BuildKit asks for.
-- The goroutines of `run` share the table of files and the channel of handles: a step relation. A
-- worker's file is one function, from what reading it gives.
pub mod Once
pub mod Contents
use container_builder_shim.Common.{
  ℕ, ◌+◌, ◌/◌, ◌%◌, ◌^◌, ◌<◌, ◌≡◌, Bool, true, false, ◌&&◌, ◌||◌, Option, none, some, List, [], ◌∷◌,
  ◌++◌, if◌then◌else◌, ◌==◌, nat_eq, length,
}
use container_builder_shim.Common.Bytes.{Bytes}
use container_builder_shim.Common.Dict.{Dict, lookup, insert, erase}
use container_builder_shim.Common.Path.{path_eq}
use container_builder_shim.Fssync.Walk.{Proxy, staged_dockerfile, staged_dockerignore}

-- What of a `types.Stat` the sender reads.
pub record Stat : Type 0 where
  pub names : List Bytes
  pub mode : ℕ

pub data Packet : Type 0 where
  packet_stat : Option Stat → Packet
  packet_data : ℕ → Bytes → Packet

-- `fileCanRequestData`: none of the bits of `os.ModeType`.
unfoldable pub file_can_request_data : ℕ → Bool
unfolding nat_eq
file_can_request_data m =
    m / 2147483648 % 2 == 0
    && m / 134217728 % 2 == 0
    && m / 67108864 % 2 == 0
    && m / 33554432 % 2 == 0
    && m / 16777216 % 2 == 0
    && m / 2097152 % 2 == 0
    && m / 524288 % 2 == 0

pub record SendHandle : Type 0 where
  pub id : ℕ
  pub names : List Bytes

-- The table, the channel, and what was done: the entries walked, in their order, and the handles that
-- workers took. The next id is the number of entries walked, a uint32.
pub record Sender : Type 0 where
  pub files : Dict ℕ (List Bytes)
  pub pipeline : List SendHandle
  pub walked : List Stat
  pub taken : List SendHandle

abbrev pub next_id : Sender → ℕ
next_id s = length s.walked % 4294967296

-- The callback of `walk`: an entry is announced, and a regular file is put in the table.
unfoldable pub walk_stat : Stat → Sender → Sender
unfolding file_can_request_data insert nat_eq
walk_stat st s = record s {
  files = if file_can_request_data st.mode then insert (next_id s) st.names s.files else s.files;
  walked = s.walked ++ st ∷ [];
}

abbrev pub queue_at : ℕ → Sender → Option (List Bytes) → Option Sender
queue_at id s none = none
queue_at id s (some names) = some (record s {
  files = erase id s.files;
  pipeline = s.pipeline ++ record { id = id; names = names } ∷ [];
})

-- `queue`: an id that is not in the table is an error.
unfoldable pub queue : ℕ → Sender → Option Sender
unfolding lookup nat_eq
queue id s = queue_at id s (lookup id s.files)

-- The sender that `DiffCopy` makes.
abbrev pub new_sender : Sender
new_sender = record { files = []; pipeline = []; walked = []; taken = [] }

-- The steps of `run`: the walk's, a request's, and a worker's that takes a handle.
pub data Step : Sender → Sender → Type 0 where
  walks : (s : Sender) (st : Stat) → Step s (walk_stat st s)
  queues : (s s' : Sender) (id : ℕ) → queue id s ≡ some s' → Step s s'
  takes :
      (s : Sender) (h : SendHandle) (rest : List SendHandle)
      → s.pipeline ≡ h ∷ rest
      → Step s (record s { pipeline = rest; taken = s.taken ++ h ∷ [] })

pub data Reaches : Sender → Type 0 where
  starts : Reaches new_sender
  steps : (s s' : Sender) → Reaches s → Step s s' → Reaches s'

-- `fileSender.Write` for each of the reads: an empty one sends nothing.
unfoldable pub copy_buffer : ℕ → List Bytes → List Packet
copy_buffer id [] = []
copy_buffer id ([] ∷ reads) = copy_buffer id reads
copy_buffer id ((c ∷ d) ∷ reads) = packet_data id (c ∷ d) ∷ copy_buffer id reads

-- What the proxy has of a path, where the path is a Dockerfile input.
unfoldable pub from_proxy : Option Proxy → List Bytes → Option Bytes
unfolding path_eq
from_proxy none names = none
from_proxy (some p) names =
    if names == staged_dockerfile
    then some p.dockerfile
    else if names == staged_dockerignore
    then some p.dockerignore
    else none

-- A file that is read: its reads, and whether the last was the end of the file.
abbrev pub Opened : Type 0
Opened = List Bytes × Bool

-- The packets of a copy, and whether all was sent.
abbrev pub sent_from : ℕ → Opened → List Packet × Bool
sent_from id (reads, true) = (copy_buffer id reads ++ packet_data id [] ∷ [], true)
sent_from id (reads, false) = (copy_buffer id reads, false)

-- `sendFile`, where the connection takes every packet; a file that cannot be opened is `none`.
unfoldable pub send_file :
    Option Proxy → (List Bytes → Option Opened) → SendHandle → List Packet × Bool
unfolding from_proxy copy_buffer
send_file proxy open_file h = elim (from_proxy proxy h.names) [
  | some contents ↦ sent_from h.id (contents ∷ [], true)
  | none ↦ elim (open_file h.names) [ none ↦ ([], false) | some opened ↦ sent_from h.id opened ]
]

-- `walk`: every entry, and the packet without one.
unfoldable pub walk_packets : List Stat → List Packet
walk_packets [] = packet_stat none ∷ []
walk_packets (st ∷ stats) = packet_stat (some st) ∷ walk_packets stats
