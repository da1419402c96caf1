-- ===== src/Fssync/Context/Whole.antt =====
-- `FS.Walk` of pkg/fssync/walk.go, from the cached context to the visits of BuildKit's callback.
use container_builder_shim.Common.{List, ◌≡◌, sym, subst, Option, All, map}
use container_builder_shim.Common.Fallible.{value}
use container_builder_shim.Fssync.Walk.{
  Visit, Proxy, Stop, visit_of, visit_each, requested_synthetic_dockerfile_paths,
}
use container_builder_shim.Fssync.Walk.Merge.{Interleaves, merged}
use container_builder_shim.Fssync.Walk.Order.{Ordered, IsApart, merged_staged-Ordered}
use container_builder_shim.Fssync.Context.{WalkMetadata, follow_paths_for, Found, fs_walk}
use container_builder_shim.Fssync.Context.Walked.{readable, visits_of, IsKept, whole-visit_each}
use container_builder_shim.Fssync.Context.Listed.{Lists, Lists-visits_of}
use container_builder_shim.Fssync.Context.Inputs.{Inputs, entries_for, Inputs-eq}

module _ {S E : Type 0} (fn : Visit → S → S × Option (Stop E)) where
  -- For a callback that never returns `fs.SkipDir` or `fs.SkipAll`: where every entry of the cached
  -- context can be read, and the visits of the context are in order and have a first name that
  -- differs from the staging directory's at a byte that both have, `Walk` gives the callback one list,
  -- up to its first error, and returns that error. The list is in order and consists of the visits of
  -- the context, which are all entries but its root, the completion marker and what is no file,
  -- directory or link, and of the Dockerfile inputs that are asked for and not empty, after the
  -- staging directory; each of the two in its order.
  pub fs_walk-Ordered :
      ((v : Visit) (s : S) → IsKept (fn v s).1)
      → (md : WalkMetadata) (proxy : Option Proxy) (found : List Found) (visits inputs : List Visit)
        (s : S)
      → Lists found visits
      → Inputs md proxy inputs
      → Ordered visits
      → All IsApart visits
      → (out : List Visit) × Interleaves inputs visits out
        × Ordered out
        × (fs_walk fn md proxy (value (readable found)) s ≡ visit_each fn out s)
  unfolding fs_walk
  fs_walk-Ordered kept md proxy found visits inputs s lists ins sorted apart =
      let same = Lists-visits_of lists in
      let requested = requested_synthetic_dockerfile_paths (follow_paths_for md proxy) in
      let (mixed, ordered) =
        merged_staged-Ordered proxy requested (visits_of found) (subst Ordered same sorted)
          (subst (All IsApart) same apart) in
      let out = merged (visits_of found) (entries_for md proxy) in
      (
        out,
        subst (λ i. Interleaves i visits out) (sym (Inputs-eq ins))
            (subst (λ v. Interleaves (map visit_of (entries_for md proxy)) v out) (sym same) mixed),
        ordered,
        whole-visit_each fn kept found (entries_for md proxy) s,
      )
