-- ===== src/Content/Tests.antt =====
-- Runs of the reader on a content of five bytes.
use container_builder_shim.Common.Dict.{lookup}
use container_builder_shim.Common.Decimal.{digits, parse_digits, parse_onto}
use container_builder_shim.Content.Info.{
  Clock, Info, transform_into_content_info, transform_from_content_info, update_request,
}
use container_builder_shim.Content.Info.Roundtrip.{IsExact, transform_into-transform_from}
use container_builder_shim.Common.{
  inr, ℕ, suc, ◌∷◌, ◌≡◌, refl, true, some, [], arith, take, drop, bytes_eq,
}
use container_builder_shim.Common.Int.{ℤ, pos, negsuc, pos_part}
use container_builder_shim.Common.Bytes.{Bytes, codes}
use container_builder_shim.Prefetch.Reader.{Flight, acquired, eof}
use container_builder_shim.Prefetch.Reader.Sound.{IsHonest}
use container_builder_shim.Content.{
  ImageTransfer, Host, BlobReader, has_error, read_all, attempt_of, received_transfer,
}
use container_builder_shim.Content.Reading.{IsServing, read_all-content, attempt_of-IsHonest}

abbrev blob : Bytes
blob = codes "01234"

abbrev answer : ℤ → ℕ → ImageTransfer
answer off want = record { metadata = []; payload = take want (drop (pos_part off) blob) }

abbrev host : Host
host off want = some (some (answer off want))

host-IsServing : IsServing blob host
unfolding has_error
host-IsServing off want = (answer (pos off) want, refl, refl, refl)

read_all-content_example :
    read_all host 2 6 (record { index = pos 0; size = pos 5 }) ≡ (blob, some eof)
read_all-content_example = read_all-content blob host host-IsServing 2 (omega arith) (omega arith)

abbrev flight_of : ℕ → Flight
flight_of index = record {
  slot = acquired;
  answer = λ _. attempt_of host 4 index;
  wait = λ _. true;
  now = 0;
}

attempt_of-IsHonest_example : IsHonest blob 4 1 (flight_of 1)
unfolding received_transfer has_error
attempt_of-IsHonest_example =
    attempt_of-IsHonest blob (λ _. host) 4 1 (flight_of 1) (omega arith)
      (λ attempt. inr (answer (pos 4) 4, refl, inr refl)) (λ attempt. refl)

abbrev at_start : BlobReader
at_start = record { index = pos 0; size = pos 5 }

-- Times are numbers of seconds, as decimal text.
abbrev clock : Clock
clock = record {
  Time = ℕ;
  zero_time = 0;
  format_time = λ t. digits (suc t) t;
  parse_time = parse_digits;
}

abbrev info : Info clock
info = record {
  digest = codes "sha256:00";
  size = negsuc 0;
  created_at = 5;
  updated_at = 12;
  labels = (codes "a", codes "1") ∷ [];
}

exact : IsExact clock 5 × IsExact clock 12
unfolding digits parse_digits parse_onto
exact = (((λ e. cc), refl), ((λ e. cc), refl))

transform_into-transform_from_example :
    (out : Info clock) × (transform_into_content_info clock (transform_from_content_info clock info)
      ≡ some out)
    × (out.digest ≡ info.digest)
    × (out.size ≡ info.size)
    × (out.created_at ≡ info.created_at)
    × (out.updated_at ≡ info.updated_at)
    × ((k : Bytes) → lookup k out.labels ≡ lookup k info.labels)
transform_into-transform_from_example =
    transform_into-transform_from clock info (omega arith, omega arith) exact.0 exact.1

-- What `Update` sends, and an answer with an error.
updates :
    (update_request clock info (codes "labels" ∷ [])).metadata
    ≡ (codes "os", codes "linux")
      ∷ (codes "size", codes "-1")
      ∷ (codes "created_at", codes "5")
      ∷ (codes "updated_at", codes "12")
      ∷ (codes "__label:a", codes "1")
      ∷ (codes "stage", codes "content-store")
      ∷ (codes "method", codes "/containerd.services.content.v1.Content/Update")
      ∷ (codes "fieldpaths", codes "labels")
      ∷ []
unfolding update_request digits
updates = refl
