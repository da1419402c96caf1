-- ===== src/Build/Export.antt =====
-- pkg/build/build.go: the outputs of a build, and the options of the solve.
-- The temporary file that buffers an archive is a flag: whether it is left behind. Paths under
-- `GlobalExportPath` are for a build id that is a clean path element.
pub mod Outputs
pub mod Configured
use container_builder_shim.Common.{
  ℕ, Bool, true, false, not, ◌||◌, Option, none, some, List, [], ◌∷◌, ◌++◌, map, if◌then◌else◌,
  ◌==◌, bytes_eq, length, ltb,
}
use container_builder_shim.Common.Bytes.{Bytes, codes}
use container_builder_shim.Common.Text.{cut, trim_space, to_lower, join, equals_sign}
use container_builder_shim.Common.Dict.{Dict, lookup, insert}
use container_builder_shim.Common.Fallible.{Fallible, value, failure, ◌>>=◌}
use container_builder_shim.Build.{
  Error, invalid_field, missing_type, unsupported_type, Strings, Externals, Platform, AgentConfig,
}
use container_builder_shim.Build.Request.{member, is_empty}

pub record ExportEntry : Type 0 where
  pub kind : Bytes
  pub attrs : Strings
  pub output_dir : Bytes
  -- `Output` is set: the entry writes to the buffer of the archive.
  pub output : Bool

abbrev pub empty_entry : ExportEntry
empty_entry = record { kind = []; attrs = []; output_dir = []; output = false }

unfoldable pub parse_field : ExportEntry → Bytes → Fallible Error ExportEntry
unfolding cut trim_space to_lower insert
parse_field entry field =
    let (before, after, found) = cut equals_sign field in
    let key = to_lower (trim_space before) in
    let text = trim_space after in
    if not found
    then failure invalid_field
    else if key == codes "type"
    then value (record entry { kind = text })
    else value (record entry { attrs = insert key text entry.attrs })

unfoldable pub parse_fields : ExportEntry → List Bytes → Fallible Error ExportEntry
unfolding parse_field
parse_fields entry [] = value entry
parse_fields entry (f ∷ fs) = do e ← parse_field entry f; parse_fields e fs

abbrev pub supported_types : List Bytes
supported_types = codes "oci" ∷ codes "tar" ∷ codes "local" ∷ []

unfoldable pub check_type : ExportEntry → Fallible Error ExportEntry
check_type entry =
    if is_empty entry.kind
    then failure missing_type
    else if member entry.kind supported_types
    then value entry
    else failure unsupported_type

-- `attributes[key] = tag` where the key is missing.
unfoldable pub set_absent : Bytes → Bytes → Strings → Strings
unfolding lookup insert
set_absent key tag attrs = elim (lookup key attrs) [ some _ ↦ attrs | none ↦ insert key tag attrs ]

abbrev pub image_name_annotation : Bytes
image_name_annotation = codes "annotation-index-descriptor.com.apple.containerization.image.name"

unfoldable pub set_default_export_attributes : Bytes → Strings → Strings
unfolding set_absent
set_default_export_attributes tag attrs =
    set_absent image_name_annotation tag (set_absent (codes "name") tag attrs)

abbrev pub export_path : Bytes → Bytes → Bytes
export_path build_id name =
    codes "/var/lib/container-builder-shim/exports/" ++ build_id ++ codes "/" ++ name

-- What the file system answers.
pub record FileSystem : Type 0 where
  pub create_temp : Option Error
  pub mkdir_all : Bytes → Option Error

abbrev pub is_local : ExportEntry → Bool
is_local e = e.kind == codes "local"

-- The part of `configureExport` for an entry that writes to the archive.
unfoldable pub to_archive : Bytes → ExportEntry → ExportEntry
unfolding insert
to_archive build_id e = record e {
  output = true;
  attrs = insert (codes "output") (export_path build_id (codes "out.tar")) e.attrs;
}

-- The part for a local directory.
unfoldable pub to_directory : Bytes → ExportEntry → ExportEntry
unfolding insert
to_directory build_id e =
    let dest = export_path build_id (codes "local") in
    record e {
      output_dir = if is_empty e.output_dir then dest else e.output_dir;
      attrs = insert (codes "dest") dest e.attrs;
    }

-- The last step of `configureExport`.
unfoldable pub with_defaults : Bytes → ExportEntry → ExportEntry
unfolding set_default_export_attributes
with_defaults tag e = record e { attrs = set_default_export_attributes tag e.attrs }

unfoldable pub configure_export :
    FileSystem → Bytes → Bytes → ExportEntry → Fallible Error ExportEntry
unfolding to_archive to_directory with_defaults bytes_eq
configure_export fs build_id tag e =
    if is_local e
    then elim (fs.mkdir_all (export_path build_id (codes "local"))) [
      | some x ↦ failure x
      | none ↦ value (with_defaults tag (to_directory build_id e))
    ]
    else value (with_defaults tag (to_archive build_id e))

unfoldable pub configure_all :
    FileSystem → Bytes → Bytes → List ExportEntry → Fallible Error (List ExportEntry)
unfolding configure_export
configure_all fs build_id tag [] = value []
configure_all fs build_id tag (e ∷ es) = do
  e' ← configure_export fs build_id tag e
  es' ← configure_all fs build_id tag es
  value (e' ∷ es')

-- `exportWriter` makes a temporary file: some entry is not local.
unfoldable pub needs_writer : List ExportEntry → Bool
unfolding bytes_eq
needs_writer [] = false
needs_writer (e ∷ es) = not (is_local e) || needs_writer es

-- The options of a build that its exports depend on.
pub record ExportOptions : Type 0 where
  pub check : Bool
  pub outputs : List Bytes
  pub build_id : Bytes
  pub tag : Bytes

-- The default export, an OCI archive.
unfoldable pub or_oci : List ExportEntry → List ExportEntry
or_oci [] = (record empty_entry { kind = codes "oci" }) ∷ []
or_oci (e ∷ es) = e ∷ es

-- `discardExportWriter` after an error.
unfoldable pub keep_or_discard :
    Bool → Fallible Error (List ExportEntry) → Fallible Error (List ExportEntry) × Bool
keep_or_discard made (value es) = (value es, made)
keep_or_discard made (failure x) = (failure x, false)

module _ (ext : Externals) where
  unfoldable pub parse_output_csv : Bytes → Fallible Error ExportEntry
  unfolding parse_fields check_type
  parse_output_csv output = do
    fields ← ext.csv_fields output
    entry ← parse_fields empty_entry fields
    check_type entry

  unfoldable pub parse_output : List Bytes → Fallible Error (List ExportEntry)
  unfolding parse_output_csv
  parse_output [] = value []
  parse_output (o ∷ os) = do e ← parse_output_csv o; es ← parse_output os; value (e ∷ es)

  -- `exportWriter` and the loop over the exports.
  unfoldable pub write_exports :
      FileSystem → Bytes → Bytes → List ExportEntry → Fallible Error (List ExportEntry) × Bool
  unfolding needs_writer configure_all keep_or_discard
  write_exports fs build_id tag es =
      let configured = configure_all fs build_id tag es in
      if needs_writer es
      then elim fs.create_temp [
        | some x ↦ (failure x, false)
        | none ↦ keep_or_discard true configured
      ]
      else (configured, false)

  -- `configuredExports`, with whether the temporary file is there after it.
  unfoldable pub configured_exports :
      FileSystem → ExportOptions → Fallible Error (List ExportEntry) × Bool
  unfolding parse_output or_oci write_exports
  configured_exports fs opts =
      if opts.check then (value [], false) else elim (parse_output opts.outputs) [
        | failure x ↦ (failure x, false)
        | value es ↦ write_exports fs opts.build_id opts.tag (or_oci es)
      ]
