-- ===== src/Stream.antt =====
-- pkg/stream: filters, the dispatch of a packet to a stage, and the handlers of a stage.
-- A channel is the list of what it holds. Goroutines that share a stage act in atomic steps: a
-- relation on the demultiplexers that were made and the table of them.
pub mod Dispatch
pub mod Handlers
pub mod Order
mod Tests
use container_builder_shim.Common.{
  ℕ, ◌<◌, ◌≡◌, Bool, true, false, Option, none, some, List, [], ◌∷◌, ◌++◌, if◌then◌else◌, ◌==◌,
  bytes_eq, nat_eq, length,
}
use container_builder_shim.Common.Bytes.{Bytes}
use container_builder_shim.Common.Dict.{Dict, lookup, insert, erase}

pub data Error : Type 0 where
  ignore_packet uninitialized_stage send_stream_blocked cancelled other : Error

-- The field `PacketType` of a packet from the client, with the id of the transfer.
pub data PacketType : Type 0 where
  image_transfer : Bytes → PacketType
  build_transfer : Bytes → PacketType
  command : Bytes → PacketType
  other_packet : PacketType

pub record Packet : Type 0 where
  pub build_id : Bytes
  pub packet_type : PacketType

-- A nil error is `none`.
abbrev pub FilterFn : Type 0
FilterFn = Packet → Option Error

-- `filterImpl.Filter`, for a function or nil.
unfoldable pub filter_impl : Option FilterFn → FilterFn
filter_impl none c = some uninitialized_stage
filter_impl (some f) c = f c

unfoldable pub filter_chain : List FilterFn → FilterFn
filter_chain [] c = none
filter_chain (f ∷ fs) c = elim (f c) [ some e ↦ some e | none ↦ filter_chain fs c ]

abbrev pub nil_if : Bool → Option Error
nil_if true = none
nil_if false = some ignore_packet

unfoldable pub filter_by_build_id : Bytes → FilterFn
filter_by_build_id id c = nil_if (c.build_id == id)

unfoldable pub filter_by_image_transfer_id : Bytes → FilterFn
filter_by_image_transfer_id id c = elim c.packet_type [
  | image_transfer i ↦ nil_if (i == id)
  | build_transfer _ ↦ some ignore_packet
  | command _ ↦ some ignore_packet
  | other_packet ↦ some ignore_packet
]

unfoldable pub filter_by_build_transfer_id : Bytes → FilterFn
filter_by_build_transfer_id id c = elim c.packet_type [
  | build_transfer i ↦ nil_if (i == id)
  | image_transfer _ ↦ some ignore_packet
  | command _ ↦ some ignore_packet
  | other_packet ↦ some ignore_packet
]

unfoldable pub filter_by_command_id : Bytes → FilterFn
filter_by_command_id id c = elim c.packet_type [
  | command i ↦ nil_if (i == id)
  | image_transfer _ ↦ some ignore_packet
  | build_transfer _ ↦ some ignore_packet
  | other_packet ↦ some ignore_packet
]

-- A stage as the pipeline sees it: its filter and its channel `recvCh`.
pub record Inlet : Type 0 where
  pub filter : FilterFn
  pub recv : List Packet

-- `dispatch`: the stages after it, and whether one of them took the packet.
unfoldable pub dispatch : Packet → List Inlet → List Inlet × Bool
dispatch c [] = ([], false)
dispatch c (stage ∷ stages) =
    let (later, taken) = dispatch c stages in
    elim (stage.filter c) [
      | none ↦ ((record stage { recv = stage.recv ++ c ∷ [] }) ∷ stages, true)
      | some _ ↦ (stage ∷ later, taken)
    ]

-- `Demultiplexer`: `queue` is its channel, `closed` whether its context is done, `deletes` whether
-- its `closeFn` is the table's `Delete` or does nothing.
pub record Handler : Type 0 where
  pub id : Bytes
  pub filter : FilterFn
  pub queue : List Packet
  pub closed : Bool
  pub deletes : Bool

abbrev pub channel_size : ℕ
channel_size = 32

-- `NewDemuxWithContext`
unfoldable pub new_demux : Bytes → FilterFn → Bool → Handler
new_demux id filter deletes = record {
  id = id;
  filter = filter;
  queue = [];
  closed = false;
  deletes = deletes;
}

-- `closeFn` on the table.
unfoldable pub close_fn : Handler → Dict Bytes ℕ → Dict Bytes ℕ
close_fn h demux = if h.deletes then erase h.id demux else demux

-- How far the goroutine of `Run` is: it waits, it has the handler of a packet from the table, it
-- has found that handler open, or its context has ended.
pub data Runner : Type 0 where
  idle : Runner
  loaded : ℕ → Packet → Runner
  checked : ℕ → Packet → Runner
  stopping : Runner

-- `UnimplementedBaseStage`: all demultiplexers that were made, each under a number of its own that
-- stands for the pointer; the table `demux`, of pointers; and the goroutine of `Run`.
pub record BaseStage : Type 0 where
  pub heap : Dict ℕ Handler
  pub demux : Dict Bytes ℕ
  pub runner : Runner

-- What a step of a stage does with a packet, and in which demultiplexer's channel.
pub data Event : Type 0 where
  dropped : Packet → Event
  enqueued : ℕ → Packet → Event
  delivered : ℕ → Packet → Event
  quiet : Event

-- The steps of all goroutines on one stage: `Run`, `Recv`, `Request`, and the contexts. `Load`,
-- `Store` and `Delete` of the table are steps of their own. A test whether a context is done is one
-- step with what follows where it is done, since it stays done.
pub data Step : BaseStage → Event → BaseStage → Type 0 where
  -- `Run`: `Load` finds no handler for a packet.
  unknown :
      (s : BaseStage) (c : Packet)
      → s.runner ≡ idle
      → lookup c.build_id s.demux ≡ none
      → Step s (dropped c) s
  -- `Run`: `Load` finds one.
  loads :
      (s : BaseStage) (c : Packet) (r : ℕ)
      → s.runner ≡ idle
      → lookup c.build_id s.demux ≡ some r
      → Step s quiet (record s { runner = loaded r c })
  -- `Run`: the handler is closed.
  closed_handler :
      (s : BaseStage) (c : Packet) (r : ℕ) (h : Handler)
      → s.runner ≡ loaded r c
      → lookup r s.heap ≡ some h
      → h.closed ≡ true
      → Step s (dropped c) (record s { demux = erase h.id s.demux; runner = idle })
  -- `Run`: the handler is not closed.
  passes :
      (s : BaseStage) (c : Packet) (r : ℕ) (h : Handler)
      → s.runner ≡ loaded r c
      → lookup r s.heap ≡ some h
      → h.closed ≡ false
      → Step s quiet (record s { runner = checked r c })
  -- `Accept`: the filter refuses.
  refused :
      (s : BaseStage) (c : Packet) (r : ℕ) (h : Handler) (e : Error)
      → s.runner ≡ checked r c
      → lookup r s.heap ≡ some h
      → h.filter c ≡ some e
      → Step s (dropped c) (record s { runner = idle })
  -- `Accept`: the context is done.
  abandoned :
      (s : BaseStage) (c : Packet) (r : ℕ) (h : Handler)
      → s.runner ≡ checked r c
      → lookup r s.heap ≡ some h
      → h.filter c ≡ none
      → h.closed ≡ true
      → Step s (dropped c) (record s { demux = close_fn h s.demux; runner = idle })
  -- `Accept`: there is room in the channel.
  accepted :
      (s : BaseStage) (c : Packet) (r : ℕ) (h : Handler)
      → s.runner ≡ checked r c
      → lookup r s.heap ≡ some h
      → h.filter c ≡ none
      → length h.queue < channel_size
      → Step s (enqueued r c) (record s {
        heap = insert r (record h { queue = h.queue ++ c ∷ [] }) s.heap;
        runner = idle;
      })
  -- `Recv`, by any goroutine that has the demultiplexer.
  received :
      (s : BaseStage) (r : ℕ) (c : Packet) (rest : List Packet) (h : Handler)
      → lookup r s.heap ≡ some h
      → h.queue ≡ c ∷ rest
      → Step s (delivered r c) (record s { heap = insert r (record h { queue = rest }) s.heap })
  -- `Recv`: the context is done.
  recv_cancelled :
      (s : BaseStage) (r : ℕ) (h : Handler)
      → lookup r s.heap ≡ some h
      → h.closed ≡ true
      → Step s quiet (record s { demux = close_fn h s.demux })
  -- `RegisterDemux` of a new demultiplexer, over any that the table has.
  registered :
      (s : BaseStage) (r : ℕ) (id : Bytes) (filter : FilterFn) (deletes : Bool)
      → lookup r s.heap ≡ none
      → Step s quiet (record s {
        heap = insert r (new_demux id filter deletes) s.heap;
        demux = insert id r s.demux;
      })
  -- `Request`: the send is blocked.
  unsent : (s : BaseStage) (id : Bytes) → Step s quiet (record s { demux = erase id s.demux })
  -- The context of a demultiplexer ends.
  context_done :
      (s : BaseStage) (r : ℕ) (h : Handler)
      → lookup r s.heap ≡ some h
      → Step s quiet (record s { heap = insert r (record h { closed = true }) s.heap })
  -- `Run`: the context of the stage ends, and then `Range` deletes one key after another.
  stops : (s : BaseStage) → s.runner ≡ idle → Step s quiet (record s { runner = stopping })
  sweeps :
      (s : BaseStage) (id : Bytes)
      → s.runner ≡ stopping
      → Step s quiet (record s { demux = erase id s.demux })

pub data Run : BaseStage → List Event → BaseStage → Type 0 where
  done : (s : BaseStage) → Run s [] s
  steps :
      (s t u : BaseStage) (e : Event) (es : List Event) → Step s e t → Run t es u → Run s (e ∷ es) u
