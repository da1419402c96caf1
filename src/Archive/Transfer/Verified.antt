-- ===== src/Archive/Transfer/Verified.antt =====
-- `Receive` of pkg/fileutils/tarxfer.go: what a checksum that it returns stands for.
use container_builder_shim.Common.{
  Bool, true, false, Bool-cases, if-cases, Option, none, some, List, [], ◌≡◌, refl, sym, subst, ◌⊎◌,
  inl, inr, ◌==◌, bytes_eq, equal_of,
}
use container_builder_shim.Common.Bytes.{Bytes}
use container_builder_shim.Common.Fallible.{Fallible, value, failure, Fallible-cases}
use container_builder_shim.Archive.Tree.{Error}
use container_builder_shim.Archive.Unpack.{Header}
use container_builder_shim.Archive.Cache.{
  validate_context_digest, Slot, check_cache, Calls, Outcome, State, publish_tar, settled,
}
use container_builder_shim.Archive.Cache.Publish.{IsWhole, Succeeds, publish_tar-Succeeds}
use container_builder_shim.Archive.Transfer.{
  Received, Sent, TarStreamHeader, start_tar, read_tar_stream_header, FileCalls, verify_tar_hash,
  after_publish, store, read_tar, receive_for, receive,
}

module _ (hash_of : Bytes → Bytes) (headers_of : Bytes → List (Option Header)) where
  -- The slot was complete and is as it was; or bytes with this hash are an archive that it holds whole.
  abbrev pub IsStored : Bytes → Slot → List State → Type 0
  IsStored checksum slot states =
      ((check_cache slot ≡ value true) × (states ≡ []))
      ⊎ ((tar : Bytes) × (hash_of tar ≡ checksum)
          × IsWhole (headers_of tar) (settled slot states).slot)

  abbrev Returns : Bytes → Slot → List State × Fallible Error Bytes → Type 0
  Returns checksum slot r =
      (c : Bytes) → r.1 ≡ value c → (c ≡ checksum) × IsStored checksum slot r.0

  after_publish-Returns :
      (checksum tar : Bytes) (slot : Slot) (o : Outcome)
      → hash_of tar ≡ checksum
      → Succeeds (headers_of tar) slot o
      → Returns checksum slot (after_publish checksum o)
  after_publish-Returns checksum tar slot (states, some e) same h c f = absurd cc
  after_publish-Returns checksum tar slot (states, none) same h c f = elim (h refl) [
    | inl (there, kept) ↦ (cc, inl (there, kept))
    | inr whole ↦ (cc, inr (tar, same, whole))
  ]

  verified :
      (reads : Bool) (tar checksum : Bytes) (u : Unit)
      → verify_tar_hash hash_of headers_of reads tar checksum ≡ value u
      → hash_of tar ≡ checksum
  unfolding verify_tar_hash bytes_eq
  verified false tar checksum u e = absurd cc
  verified true tar checksum u e =
      elim (if-cases (hash_of tar == checksum) (value tt) (failure _) e) [
        | inl (same, _) ↦ equal_of (hash_of tar) checksum same
        | inr (_, bad) ↦ absurd cc
      ]

  store-Returns :
      (files : FileCalls) (calls : Calls) (slot : Slot) (checksum tar : Bytes)
      → Returns checksum slot (store hash_of headers_of files calls slot checksum tar)
  unfolding store
  store-Returns files calls slot checksum tar =
      elim (Fallible-cases (verify_tar_hash hash_of headers_of files.reads_back tar checksum)) [
        | inr (e, failed) ↦ rw (failed, store) (λ c f. absurd cc)
        | inl (u, passed) ↦
            rw (passed, store)
              (after_publish-Returns checksum tar slot (publish_tar calls slot (headers_of tar))
                (verified files.reads_back tar checksum u passed)
                (publish_tar-Succeeds calls slot (headers_of tar)))
      ]

  receive_for-Returns :
      (files : FileCalls) (calls : Calls) (slot : Slot) (h : TarStreamHeader) (sent : List Sent)
      (cached : Bool)
      → check_cache slot ≡ value cached
      → Returns h.checksum slot (receive_for hash_of headers_of files calls slot h sent cached)
  unfolding receive_for
  receive_for-Returns files calls slot h sent true at = elim (Bool-cases h.complete) [
    | inl e ↦ rw e (λ c f. (cc, inl (at, refl)))
    | inr e ↦ rw e (elim (Fallible-cases (read_tar files true sent)) [
      | inl (tar, got) ↦ rw got (λ c f. (cc, inl (at, refl)))
      | inr (x, failed) ↦ rw failed (λ c f. absurd cc)
    ])
  ]
  receive_for-Returns files calls slot h sent false at = elim (Bool-cases h.complete) [
    | inl e ↦ rw e (λ c f. absurd cc)
    | inr e ↦ rw e (elim (Fallible-cases (read_tar files false sent)) [
      | inl (tar, got) ↦ rw got (store-Returns files calls slot h.checksum tar)
      | inr (x, failed) ↦ rw failed (λ c f. absurd cc)
    ])
  ]

  -- If `Receive` gets as far as the walk, with a checksum, then the checksum is a digest, and either
  -- the context of that name was complete before and the cache is unchanged, or bytes whose hash is
  -- the checksum are an archive that the context's slot now holds whole, unpacked, with the marker.
  pub receive-IsStored :
      (files : FileCalls) (calls : Calls) (slots : Bytes → Slot) (packets : List Received)
      (checksum : Bytes)
      → (receive hash_of headers_of files calls slots packets).1 ≡ value checksum
      → (validate_context_digest checksum ≡ true)
        × IsStored checksum
            (slots checksum)
            (receive hash_of headers_of files calls slots packets).0
  unfolding receive
  receive-IsStored files calls slots packets checksum =
      elim (Fallible-cases (read_tar_stream_header (start_tar packets))) [
        | inr (e, failed) ↦ rw (failed, receive) (λ f. absurd cc)
        | inl ((h, sent), got) ↦
            rw (got, receive)
              (elim (Bool-cases (validate_context_digest h.checksum)) [
                | inr bad ↦ rw bad (λ f. absurd cc)
                | inl good ↦ rw good (elim (Bool-cases files.makes_base) [
                  | inr no_base ↦ rw no_base (λ f. absurd cc)
                  | inl base ↦ rw base (elim (Fallible-cases (check_cache (slots h.checksum))) [
                    | inr (e, failed) ↦ rw failed (λ f. absurd cc)
                    | inl (cached, at) ↦ rw at (λ f.
                        let (same, stored) =
                          receive_for-Returns files calls (slots h.checksum) h sent cached at
                            checksum f in
                        (
                          subst (λ c. validate_context_digest c ≡ true) (sym same) good,
                          subst
                              (λ c.
                                IsStored c (slots c)
                                  (receive_for hash_of headers_of files calls (slots h.checksum) h
                                    sent cached).0)
                              (sym same) stored,
                        ))
                  ])
                ])
              ])
      ]
