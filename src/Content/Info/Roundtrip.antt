-- ===== src/Content/Info/Roundtrip.antt =====
-- `TransformIntoContentInfo` of pkg/content/info.go reads what `TransformFromContentInfo` writes.
use container_builder_shim.Common.{
  ◌<◌, ◌≤◌, some, [], ◌∷◌, ◌≡◌, ◌≢◌, refl, ◌∙◌, bytes_eq, bytes_discrete,
}
use container_builder_shim.Common.Int.{ℤ, pos_part, neg_part, i64_half}
use container_builder_shim.Common.Bytes.{Bytes, codes}
use container_builder_shim.Common.Decimal.{parse_int-format_int}
use container_builder_shim.Common.Dict.{lookup}
use container_builder_shim.Common.Text.{has_prefix}
use container_builder_shim.Content.Info.{
  Clock, get, transform_size, transform_labels, add_labels, Info, parse_or_zero,
  transform_timestamp, transform_into_content_info, fixed_metadata, transform_from_content_info,
}
use container_builder_shim.Content.Info.Labels.{
  lookup-transform_labels, lookup-add_labels, lookup-add_labels_plain,
}

module _ (clock : Clock) where
  -- The format gives a text, and parsing it gives the time: so for whole seconds.
  abbrev pub IsExact : clock.Time → Type 0
  IsExact t = (clock.format_time t ≢ []) × (clock.parse_time (clock.format_time t) ≡ some t)

  -- The number of bytes is an int64.
  abbrev pub IsWord : ℤ → Type 0
  IsWord n = (pos_part n < i64_half) × (neg_part n ≤ i64_half)

  parse_exact :
      (s : Bytes) (t : clock.Time)
      → s ≢ []
      → clock.parse_time s ≡ some t
      → parse_or_zero clock s ≡ some t
  parse_exact [] t h e = absurd (h refl)
  parse_exact (c ∷ s) t h e = e

  size_kept :
      (info : Info clock)
      → IsWord info.size
      → transform_size (transform_from_content_info clock info).metadata ≡ some info.size
  unfolding transform_size transform_from_content_info get has_prefix
  size_kept info word =
      rw (lookup-add_labels_plain (codes "size") info.labels (fixed_metadata clock info) refl, get)
        (parse_int-format_int info.size word.0 word.1)

  created_kept :
      (info : Info clock)
      → IsExact info.created_at
      → transform_timestamp clock
          (codes "created_at")
          (transform_from_content_info clock info).metadata
        ≡ some info.created_at
  unfolding transform_timestamp transform_from_content_info get has_prefix
  created_kept info (text, exact) =
      rw
        (
          lookup-add_labels_plain (codes "created_at") info.labels (fixed_metadata clock info) refl,
          get,
          transform_timestamp,
        )
        (parse_exact (clock.format_time info.created_at) info.created_at text exact)

  updated_kept :
      (info : Info clock)
      → IsExact info.updated_at
      → transform_timestamp clock
          (codes "updated_at")
          (transform_from_content_info clock info).metadata
        ≡ some info.updated_at
  unfolding transform_timestamp transform_from_content_info get has_prefix
  updated_kept info (text, exact) =
      rw
        (
          lookup-add_labels_plain (codes "updated_at") info.labels (fixed_metadata clock info) refl,
          get,
          transform_timestamp,
        )
        (parse_exact (clock.format_time info.updated_at) info.updated_at text exact)

  label_kept :
      (info : Info clock) (k : Bytes)
      → lookup k (transform_labels (transform_from_content_info clock info).metadata)
        ≡ lookup k info.labels
  unfolding transform_from_content_info lookup bytes_eq bytes_discrete
  label_kept info k =
      lookup-transform_labels k (add_labels info.labels (fixed_metadata clock info))
      ∙ lookup-add_labels k info.labels (fixed_metadata clock info) refl

  digest_kept : (info : Info clock) → (transform_from_content_info clock info).tag ≡ info.digest
  unfolding transform_from_content_info
  digest_kept info = refl

  -- If a description's size is an int64 and its times are read back from their format, then reading
  -- the transfer that is made of it gives its digest, its size and its times, and each key has the
  -- label that it had, or none.
  pub transform_into-transform_from :
      (info : Info clock)
      → IsWord info.size
      → IsExact info.created_at
      → IsExact info.updated_at
      → (out : Info clock) × (transform_into_content_info clock
            (transform_from_content_info clock info)
          ≡ some out)
        × (out.digest ≡ info.digest)
        × (out.size ≡ info.size)
        × (out.created_at ≡ info.created_at)
        × (out.updated_at ≡ info.updated_at)
        × ((k : Bytes) → lookup k out.labels ≡ lookup k info.labels)
  unfolding transform_into_content_info
  transform_into-transform_from info word created updated =
      let it = transform_from_content_info clock info in
      let out : Info clock = record {
        digest = it.tag;
        size = info.size;
        created_at = info.created_at;
        updated_at = info.updated_at;
        labels = transform_labels it.metadata;
      } in
      (
        out,
        rw
            (
              size_kept info word,
              created_kept info created,
              updated_kept info updated,
              transform_into_content_info,
            )
            refl,
        digest_kept info,
        refl,
        refl,
        refl,
        label_kept info,
      )
