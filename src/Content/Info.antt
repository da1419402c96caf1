-- ===== src/Content/Info.antt =====
-- pkg/content/info.go, update.go and delete.go: the description of a blob as the metadata of a transfer.
-- Formatting and parsing a time are arguments. A map's entries are taken in the order of the list; the
-- last that is taken is the first of the list.
pub mod Labels
pub mod Roundtrip
use container_builder_shim.Common.{
  Bool, true, false, Option, none, some, List, [], ◌∷◌, ◌++◌, if◌then◌else◌, ◌==◌, bytes_eq,
}
use container_builder_shim.Common.Int.{ℤ}
use container_builder_shim.Common.Bytes.{Bytes, codes}
use container_builder_shim.Common.Decimal.{format_int, parse_int}
use container_builder_shim.Common.Dict.{Dict, lookup, insert}
use container_builder_shim.Common.Text.{join, has_prefix, trim_prefix}
use container_builder_shim.Common.Path.{comma}

abbrev pub label_prefix : Bytes
label_prefix = codes "__label:"

-- The times of package time: the zero time, and the format RFC3339.
pub record Clock : Type 1 where
  pub Time : Type 0
  pub zero_time : Time
  pub format_time : Time → Bytes
  pub parse_time : Bytes → Option Time

-- An `ImageTransfer` that describes a blob.
pub record Description : Type 0 where
  pub tag : Bytes
  pub metadata : Dict Bytes Bytes

abbrev or_empty : Option Bytes → Bytes
or_empty none = []
or_empty (some v) = v

-- `metadata[key]`
unfoldable pub get : Bytes → Dict Bytes Bytes → Bytes
unfolding lookup bytes_eq
get key m = or_empty (lookup key m)

-- `TransformSize`
unfoldable pub transform_size : Dict Bytes Bytes → Option ℤ
unfolding get parse_int
transform_size m = parse_int (get (codes "size") m)

-- `TransformLabels`
unfoldable pub transform_labels : Dict Bytes Bytes → Dict Bytes Bytes
transform_labels [] = []
transform_labels ((k, v) ∷ m) =
    let rest = transform_labels m in
    if has_prefix label_prefix k then insert (trim_prefix label_prefix k) v rest else rest

-- The labels are put into the metadata.
unfoldable pub add_labels : Dict Bytes Bytes → Dict Bytes Bytes → Dict Bytes Bytes
unfolding insert bytes_eq
add_labels [] m = m
add_labels ((k, v) ∷ labels) m = insert (label_prefix ++ k) v (add_labels labels m)

module _ (clock : Clock) where
  pub record Info : Type 0 where
    pub digest : Bytes
    pub size : ℤ
    pub created_at : clock.Time
    pub updated_at : clock.Time
    pub labels : Dict Bytes Bytes

  abbrev parse_or_zero : Bytes → Option clock.Time
  parse_or_zero [] = some clock.zero_time
  parse_or_zero (c ∷ s) = clock.parse_time (c ∷ s)

  -- `TransformCreatedTimestamp` and `TransformUpdatedTimestamp`, with their key.
  unfoldable pub transform_timestamp : Bytes → Dict Bytes Bytes → Option clock.Time
  unfolding get
  transform_timestamp key m = parse_or_zero (get key m)

  -- `TransformIntoContentInfo`
  unfoldable pub transform_into_content_info : Description → Option Info
  unfolding transform_size transform_timestamp transform_labels
  transform_into_content_info it = elim (transform_size it.metadata) [
    | none ↦ none
    | some size ↦ elim (transform_timestamp (codes "created_at") it.metadata) [
      | none ↦ none
      | some created ↦ elim (transform_timestamp (codes "updated_at") it.metadata) [
        | none ↦ none
        | some updated ↦ some (record {
          digest = it.tag;
          size = size;
          created_at = created;
          updated_at = updated;
          labels = transform_labels it.metadata;
        })
      ]
    ]
  ]

  -- The entries before the labels.
  abbrev pub fixed_metadata : Info → Dict Bytes Bytes
  fixed_metadata info =
      (codes "os", codes "linux")
      ∷ (codes "size", format_int info.size)
      ∷ (codes "created_at", clock.format_time info.created_at)
      ∷ (codes "updated_at", clock.format_time info.updated_at)
      ∷ []

  -- `TransformFromContentInfo`
  unfoldable pub transform_from_content_info : Info → Description
  unfolding add_labels format_int
  transform_from_content_info info = record {
    tag = info.digest;
    metadata = add_labels info.labels (fixed_metadata info);
  }

  -- The answer to `Info` and to `Update`: an error in the metadata comes first.
  unfoldable pub described : Option Description → Option Info
  unfolding lookup bytes_eq transform_into_content_info
  described none = none
  described (some it) = elim (lookup (codes "error") it.metadata) [
    | some _ ↦ none
    | none ↦ transform_into_content_info it
  ]

  -- The request of `Update`.
  unfoldable pub update_request : Info → List Bytes → Description
  unfolding transform_from_content_info insert bytes_eq join
  update_request info fieldpaths =
      let it = transform_from_content_info info in
      record it {
        metadata = insert (codes "fieldpaths") (join (comma ∷ []) fieldpaths) (
            insert (codes "method") (codes "/containerd.services.content.v1.Content/Update") (
              insert (codes "stage") (codes "content-store")
                (insert (codes "os") (codes "linux") it.metadata)));
      }

-- The request of `Info` and of `Delete`, with its method.
unfoldable pub digest_request : Bytes → Bytes → Description
digest_request method dgst = record {
  tag = dgst;
  metadata =
      (codes "os", codes "linux")
      ∷ (codes "stage", codes "content-store")
      ∷ (codes "method", method)
      ∷ [];
}

-- `Delete`: whether it returns no error.
unfoldable pub deleted : Option Description → Bool
unfolding lookup bytes_eq
deleted none = false
deleted (some it) = elim (lookup (codes "error") it.metadata) [ some _ ↦ false | none ↦ true ]
