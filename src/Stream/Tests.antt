-- ===== src/Stream/Tests.antt =====
-- Runs of a stage with one build.
use container_builder_shim.Common.{
  refl, sym, subst, true, false, List, [], ◌∷◌, ◌++◌, bytes_eq, nat_eq, arith, inl, inr,
}
use container_builder_shim.Common.Bytes.{Bytes, codes}
use container_builder_shim.Common.Dict.{lookup, insert, lookup-insert_cases}
use container_builder_shim.Stream.{
  Packet, command, FilterFn, filter_by_build_id, filter_by_command_id, Inlet, dispatch, Handler,
  BaseStage, idle, checked, new_demux, Step, Run, received, accepted, delivered, enqueued, done,
  steps,
}
use container_builder_shim.Stream.Dispatch.{Dispatched, dispatch-Dispatched}
use container_builder_shim.Stream.Handlers.{IsValid, PointsTo, IsConsistent, Step-IsConsistent}
use container_builder_shim.Stream.Order.{all_put, all_got, Follows, Run-queue}

abbrev packet : Bytes → Packet
packet id = record { build_id = codes "b"; packet_type = command id }

abbrev of_build : FilterFn
of_build = filter_by_build_id (codes "b")

abbrev of_command : FilterFn
of_command = filter_by_command_id (codes "x")

abbrev two_stages : List Inlet
two_stages =
    record { filter = of_command; recv = [] } ∷ record { filter = of_build; recv = [] } ∷ []

dispatch-Dispatched_example :
    Dispatched
      (packet (codes "y"))
      two_stages
      (dispatch (packet (codes "y")) two_stages).0
      (dispatch (packet (codes "y")) two_stages).1
dispatch-Dispatched_example = dispatch-Dispatched (packet (codes "y")) two_stages

-- A demultiplexer of the build with two packets; the table has had another one registered over it.
abbrev waiting : Handler
waiting = record {
  id = codes "b";
  filter = of_build;
  queue = packet (codes "x") ∷ packet (codes "y") ∷ [];
  closed = false;
  deletes = true;
}

abbrev replaced : BaseStage
replaced = record {
  heap = (0, waiting) ∷ (1, new_demux (codes "b") of_build false) ∷ [];
  demux = (codes "b", 1) ∷ [];
  runner = idle;
}

abbrev one_taken : BaseStage
one_taken = record replaced {
  heap = insert 0 (record waiting { queue = packet (codes "y") ∷ [] }) replaced.heap;
}

take_one : Run replaced (delivered 0 (packet (codes "x")) ∷ []) one_taken
unfolding lookup nat_eq
take_one =
    steps replaced one_taken one_taken (delivered 0 (packet (codes "x"))) []
      (received replaced 0 (packet (codes "x")) (packet (codes "y") ∷ []) waiting refl refl)
      (done one_taken)

Run-queue_example :
    Follows one_taken.heap 0
      (all_got 0 (delivered 0 (packet (codes "x")) ∷ []))
      (waiting.queue ++ all_put 0 (delivered 0 (packet (codes "x")) ∷ []))
unfolding lookup nat_eq
Run-queue_example =
    Run-queue 0 replaced one_taken (delivered 0 (packet (codes "x")) ∷ []) waiting take_one refl

-- A stage whose `Run` has found the handler of a packet open.
abbrev open_handler : Handler
open_handler = new_demux (codes "b") of_build true

abbrev about_to_accept : BaseStage
about_to_accept = record {
  heap = (0, open_handler) ∷ [];
  demux = (codes "b", 0) ∷ [];
  runner = checked 0 (packet (codes "x"));
}

abbrev has_accepted : BaseStage
has_accepted = record about_to_accept {
  heap =
      insert 0 (record open_handler { queue = open_handler.queue ++ packet (codes "x") ∷ [] })
        about_to_accept.heap;
  runner = idle;
}

accept_one : Step about_to_accept (enqueued 0 (packet (codes "x"))) has_accepted
unfolding lookup nat_eq bytes_eq filter_by_build_id new_demux
accept_one =
    accepted about_to_accept (packet (codes "x")) 0 open_handler refl refl refl (omega arith)

about_to_accept-IsConsistent : IsConsistent about_to_accept
unfolding lookup nat_eq bytes_eq new_demux insert
about_to_accept-IsConsistent = record {
  listed = λ id r e. elim (lookup-insert_cases id (codes "b") 0 r [] e) [
    | inl (same, at) ↦
        subst (λ k. PointsTo about_to_accept.heap k id) at (open_handler, refl, sym same)
    | inr bad ↦ absurd cc
  ];
  valid = λ r h e. elim (lookup-insert_cases r 0 open_handler h [] e) [
    | inl (_, same) ↦ subst IsValid same (record { room = omega arith; own = tt; filtered = tt })
    | inr bad ↦ absurd cc
  ];
  held = (open_handler, refl, refl);
}

Step-IsConsistent_example : IsConsistent has_accepted
Step-IsConsistent_example = Step-IsConsistent accept_one about_to_accept-IsConsistent
