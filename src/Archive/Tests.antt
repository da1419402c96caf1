-- ===== src/Archive/Tests.antt =====
-- An archive with a directory, a file, a symbolic link and a hard link.
use container_builder_shim.Common.{
  true, false, ◌≡◌, ◌≢◌, refl, Option, none, some, List, [], ◌∷◌, ◌↔◌, All, length,
}
use container_builder_shim.Common.Bytes.{Bytes, codes}
use container_builder_shim.Common.Text.{to_lower}
use container_builder_shim.Common.Fallible.{value, failure}
use container_builder_shim.Archive.Tree.{Tree, directory, regular, symlink, follows_symlink}
use container_builder_shim.Archive.Unpack.{
  Header, Typeflag, type_dir, type_reg, type_symlink, type_link, unpack,
}
use container_builder_shim.Archive.Unpack.Written.{
  HasEntries, IsArchive, unpack-follows_nothing, unpack-HasEntries, unpack-IsArchive,
}
use container_builder_shim.Archive.Cache.{
  decodes, validate_context_digest, vacant, holds, Calls, locked, publish_tar,
}
use container_builder_shim.Archive.Cache.Digest.{IsDigit, validate_context_digest-IsDigit}
use container_builder_shim.Archive.Cache.Publish.{
  Trusted, IsSettled, publish_tar-All, publish_tar-IsSettled,
}
use container_builder_shim.Archive.Transfer.{Received, FileCalls, receive}
use container_builder_shim.Archive.Transfer.Verified.{IsStored, receive-IsStored}
use container_builder_shim.Archive.Transfer.Complete.{transfer_of, read_all, read_all-transfer_of}

abbrev entry_of : Typeflag → Bytes → Bytes → Option Header
entry_of typeflag name linkname = some (record {
  name = name;
  typeflag = typeflag;
  mode = 420;
  linkname = linkname;
  data_of = some (codes "x");
})

abbrev archive : List (Option Header)
archive =
    entry_of type_reg (codes "./a//f") []
    ∷ entry_of type_dir (codes "a") []
    ∷ entry_of type_symlink (codes "l") (codes "/etc")
    ∷ entry_of type_link (codes "h") (codes "a/f")
    ∷ []

abbrev unpacked : Tree
unpacked =
    (codes "a" ∷ [], directory)
    ∷ (codes "f" ∷ codes "a" ∷ [], regular (codes "x") 420)
    ∷ (codes "l" ∷ [], symlink (codes "/etc"))
    ∷ (codes "h" ∷ [], regular (codes "x") 420)
    ∷ []

unpacks : unpack [] archive ≡ value unpacked
unfolding unpack
unpacks = refl

-- An archive that asks for a file below its own symbolic link.
abbrev crossing : List (Option Header)
crossing =
    entry_of type_symlink (codes "l") (codes "/etc") ∷ entry_of type_reg (codes "l/passwd") [] ∷ []

unpack-follows_nothing_example : unpack [] crossing ≢ failure follows_symlink
unpack-follows_nothing_example = unpack-follows_nothing crossing

unpack-HasEntries_example : HasEntries archive unpacked
unpack-HasEntries_example = unpack-HasEntries archive unpacked unpacks

unpack-IsArchive_example : IsArchive unpacked
unpack-IsArchive_example = unpack-IsArchive archive unpacked unpacks

abbrev digest : Bytes
digest = codes "0123456789abcdef0123456789abcdef0123456789abcdef0123456789abcdef"

validate_context_digest-IsDigit_example :
    (validate_context_digest digest ≡ true) ↔ ((length digest ≡ 64) × All IsDigit digest)
validate_context_digest-IsDigit_example = validate_context_digest-IsDigit digest

abbrev calls : Calls
calls = record {
  lock = locked;
  removal = none;
  makes_temp = true;
  writes_marker = true;
  renames = true;
}

publish_tar-All_example : All (Trusted archive) (publish_tar calls (holds []) archive).0
publish_tar-All_example = publish_tar-All calls (holds []) archive (λ left e. absurd cc)

publish_tar-IsSettled_example : IsSettled (holds []) (publish_tar calls (holds []) archive)
publish_tar-IsSettled_example = publish_tar-IsSettled calls (holds []) archive

abbrev files : FileCalls
files = record { makes_base = true; writes_tar = true; appends = true; reads_back = true }

abbrev hash_of : Bytes → Bytes
hash_of tar = digest

abbrev headers_of : Bytes → List (Option Header)
headers_of tar = archive

abbrev sent : List Received
sent = transfer_of digest (codes "ta" ∷ []) (codes "r")

receives : (receive hash_of headers_of files calls (λ _. vacant) sent).1 ≡ value digest
unfolding receive to_lower decodes
receives = refl

receive-IsStored_example :
    (validate_context_digest digest ≡ true)
    × IsStored hash_of headers_of digest vacant
        (receive hash_of headers_of files calls (λ _. vacant) sent).0
receive-IsStored_example =
    receive-IsStored hash_of headers_of files calls (λ _. vacant) sent digest receives

read_all-transfer_of_example :
    read_all files false sent ≡ value (record { checksum = digest; complete = false }, codes "tar")
read_all-transfer_of_example =
    read_all-transfer_of files false digest (codes "ta" ∷ []) (codes "r") refl refl
