-- ===== src/Fssync/Sender/Contents.antt =====
-- `sendFile` of pkg/fssync/diffcopy.go: the packets of one file.
use container_builder_shim.Common.{
  ℕ, true, false, Option, none, some, List, [], ◌∷◌, ◌++◌, ◌≡◌, ◌≢◌, refl, ap, subst, append_nil,
  All, arith,
}
use container_builder_shim.Common.Bytes.{Bytes, codes}
use container_builder_shim.Fssync.Walk.{Proxy}
use container_builder_shim.Fssync.Sender.{
  Packet, packet_stat, packet_data, SendHandle, copy_buffer, from_proxy, Opened, sent_from,
  send_file,
}

-- A data packet of the file, with data.
abbrev pub IsPart : ℕ → Packet → Type 0
IsPart id (packet_stat st) = ⊥
IsPart id (packet_data j contents) = (j ≡ id) × (contents ≢ [])

abbrev pub data_of : List Packet → Bytes
data_of [] = []
data_of (packet_stat st ∷ packets) = data_of packets
data_of (packet_data id contents ∷ packets) = contents ++ data_of packets

abbrev pub concat : List Bytes → Bytes
concat [] = []
concat (d ∷ reads) = d ++ concat reads

-- Parts of the file that together are its contents, then one packet without data.
abbrev pub Sends : ℕ → Bytes → List Packet → Type 0
Sends id contents packets =
    (parts : List Packet) × (packets ≡ parts ++ packet_data id [] ∷ [])
    × All (IsPart id) parts
    × (data_of parts ≡ contents)

copy_buffer-All : (id : ℕ) (reads : List Bytes) → All (IsPart id) (copy_buffer id reads)
unfolding copy_buffer
copy_buffer-All id [] = tt
copy_buffer-All id ([] ∷ reads) = copy_buffer-All id reads
copy_buffer-All id ((c ∷ d) ∷ reads) = ((refl, λ e. cc), copy_buffer-All id reads)

data_of-copy_buffer : (id : ℕ) (reads : List Bytes) → data_of (copy_buffer id reads) ≡ concat reads
unfolding copy_buffer
data_of-copy_buffer id [] = refl
data_of-copy_buffer id ([] ∷ reads) = data_of-copy_buffer id reads
data_of-copy_buffer id ((c ∷ d) ∷ reads) = ap (λ s. (c ∷ d) ++ s) (data_of-copy_buffer id reads)

sent_from-Sends :
    (id : ℕ) (o : Opened) → (sent_from id o).1 ≡ true → Sends id (concat o.0) (sent_from id o).0
sent_from-Sends id (reads, true) h =
    (copy_buffer id reads, refl, copy_buffer-All id reads, data_of-copy_buffer id reads)
sent_from-Sends id (reads, false) h = absurd cc

-- The names of the two Dockerfile inputs.
abbrev pub the_dockerfile : List Bytes
the_dockerfile = codes ".com.apple.container" ∷ codes "Dockerfile" ∷ []

abbrev pub the_dockerignore : List Bytes
the_dockerignore = codes ".com.apple.container" ∷ codes "Dockerfile.dockerignore" ∷ []

-- What a path contains: with a proxy, the Dockerfile inputs of the request at their two paths; at any
-- other path, and without a proxy, what the file there reads.
pub data Contains (open_file : List Bytes → Option Opened)
    : Option Proxy → List Bytes → Bytes → Type 0 where
  dockerfile_of : (p : Proxy) → Contains open_file (some p) the_dockerfile p.dockerfile
  dockerignore_of : (p : Proxy) → Contains open_file (some p) the_dockerignore p.dockerignore
  file_of :
      (p : Proxy) (names : List Bytes) (o : Opened)
      → names ≢ the_dockerfile
      → names ≢ the_dockerignore
      → open_file names ≡ some o
      → Contains open_file (some p) names (concat o.0)
  file_without :
      (names : List Bytes) (o : Opened)
      → open_file names ≡ some o
      → Contains open_file none names (concat o.0)

from_dockerfile : (p : Proxy) → from_proxy (some p) the_dockerfile ≡ some p.dockerfile
unfolding from_proxy
from_dockerfile p = refl

from_dockerignore : (p : Proxy) → from_proxy (some p) the_dockerignore ≡ some p.dockerignore
unfolding from_proxy
from_dockerignore p = refl

from_neither :
    (p : Proxy) (names : List Bytes)
    → names ≢ the_dockerfile
    → names ≢ the_dockerignore
    → from_proxy (some p) names ≡ none
unfolding from_proxy
from_neither p names f g = ground arith

from_none : (names : List Bytes) → from_proxy none names ≡ none
unfolding from_proxy
from_none names = refl

input_sent :
    (proxy : Option Proxy) (open_file : List Bytes → Option Opened) (h : SendHandle)
    (contents : Bytes)
    → from_proxy proxy h.names ≡ some contents
    → Sends h.id contents (send_file proxy open_file h).0
unfolding send_file
input_sent proxy open_file h contents e =
    rw (e, send_file)
      (subst (λ c. Sends h.id c (sent_from h.id (contents ∷ [], true)).0) (append_nil contents)
        (sent_from-Sends h.id (contents ∷ [], true) refl))

file_sent :
    (proxy : Option Proxy) (open_file : List Bytes → Option Opened) (h : SendHandle) (o : Opened)
    → from_proxy proxy h.names ≡ none
    → open_file h.names ≡ some o
    → (send_file proxy open_file h).1 ≡ true
    → Sends h.id (concat o.0) (send_file proxy open_file h).0
unfolding send_file
file_sent proxy open_file h o e f = rw (e, send_file) (rw f (sent_from-Sends h.id o))

-- If `sendFile` returns no error for a path with these contents, it sent packets with data, all with
-- the file's id, which joined in their order are the contents; and then one packet without data,
-- which ends the file. At their two paths the contents are the request's Dockerfile and
-- dockerignore, and at any other path what the file there reads.
pub send_file-Sends :
    (open_file : List Bytes → Option Opened) (proxy : Option Proxy) (id : ℕ) (names : List Bytes)
    (contents : Bytes)
    → Contains open_file proxy names contents
    → (send_file proxy open_file (record { id = id; names = names })).1 ≡ true
    → Sends id contents (send_file proxy open_file (record { id = id; names = names })).0
send_file-Sends open_file _ id _ _ (dockerfile_of p) done =
    input_sent (some p) open_file (record { id = id; names = the_dockerfile }) p.dockerfile
      (from_dockerfile p)
send_file-Sends open_file _ id _ _ (dockerignore_of p) done =
    input_sent (some p) open_file (record { id = id; names = the_dockerignore }) p.dockerignore
      (from_dockerignore p)
send_file-Sends open_file _ id _ _ (file_of p names o f g e) done =
    file_sent (some p) open_file (record { id = id; names = names }) o (from_neither p names f g) e
      done
send_file-Sends open_file _ id _ _ (file_without names o e) done =
    file_sent none open_file (record { id = id; names = names }) o (from_none names) e done
