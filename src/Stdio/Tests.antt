-- ===== src/Stdio/Tests.antt =====
-- Writes to a buffer of four bytes.
use container_builder_shim.Common.{◌≡◌, true, some, arith, length}
use container_builder_shim.Common.Bytes.{Bytes, codes}
use container_builder_shim.Stdio.{wrote, write}
use container_builder_shim.Stdio.Output.{write-sends}

abbrev buffer : Bytes
buffer = codes "...."

write-sends_example :
    ((write true buffer (codes "ab")).1 ≡ some (codes "ab"))
    × ((write true buffer (codes "ab")).2 ≡ wrote 2)
    × (length (write true buffer (codes "ab")).0 ≡ 4)
write-sends_example = write-sends true buffer (codes "ab") (omega arith)
