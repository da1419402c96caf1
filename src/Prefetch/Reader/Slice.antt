-- ===== src/Prefetch/Reader/Slice.antt =====
-- The content behind the reader, cut into chunks.
use Prim.Native.Nat.{min}
use container_builder_shim.Common.{
  ℕ, suc, ◌+◌, ◌-◌, ◌*◌, ◌≤◌, ◌<◌, ◌≡◌, sym, ap, ◌∙◌, ◌≡⟨◌⟩◌, ◌∎, dec_le, arith, length, take, drop,
  length-take, length-drop, take-take, drop-take, drop-drop, drop_of_length-le,
}
use container_builder_shim.Common.Bytes.{Bytes}

-- The bytes of a chunk in the content.
abbrev pub chunk_of : Bytes → ℕ → ℕ → Bytes
chunk_of content size index = take size (drop (index * size) content)

-- What a buffer that holds a chunk gives from an offset on is what the content gives there.
pub take-drop-chunk :
    (content bytes : Bytes) (size index offset have count : ℕ)
    → have ≤ size
    → take have bytes ≡ chunk_of content size index
    → count ≤ have - offset
    → take count (drop offset bytes) ≡ take count (drop (index * size + offset) content)
take-drop-chunk content bytes size index offset have count h e le =
    take count (drop offset bytes)
    ≡⟨ ap (λ k. take k (drop offset bytes)) (omega arith) ⟩
      take (min count (have - offset)) (drop offset bytes)
    ≡⟨ sym (take-take count (have - offset) (drop offset bytes)) ⟩
      take count (take (have - offset) (drop offset bytes))
    ≡⟨ ap (take count) (sym (drop-take offset have bytes)) ⟩
      take count (drop offset (take have bytes))
    ≡⟨ ap (λ b. take count (drop offset b)) e ⟩
      take count (drop offset (take size (drop (index * size) content)))
    ≡⟨ ap (take count) (drop-take offset size (drop (index * size) content)) ⟩
      take count (take (size - offset) (drop offset (drop (index * size) content)))
    ≡⟨ take-take count (size - offset) (drop offset (drop (index * size) content)) ⟩
      take (min count (size - offset)) (drop offset (drop (index * size) content))
    ≡⟨ ap (λ k. take k (drop offset (drop (index * size) content))) (omega arith) ⟩
      take count (drop offset (drop (index * size) content))
    ≡⟨ ap (take count) (drop-drop offset (index * size) content) ⟩
      take count (drop (index * size + offset) content) ∎

-- Past a chunk's last byte the next chunk begins, or the content ends.
pub drop_next_chunk :
    (content : Bytes) (size index offset have : ℕ)
    → have ≡ length (chunk_of content size index)
    → offset < have
    → drop (suc index * size + 0) content
      ≡ drop (have - offset) (drop (index * size + offset) content)
drop_next_chunk content size index offset have e h =
    let measured : length (chunk_of content size index) ≡ min size (length content - index * size) =
      length-take size _ ∙ ap (min size) (length-drop (index * size) content) in
    let joined = drop-drop (have - offset) (index * size + offset) content in
    elim (dec_le size have) [
      | yes full ↦ ap (λ k. drop k content) (omega arith) ∙ sym joined
      | no short ↦
          drop_of_length-le (suc index * size + 0) content (omega arith)
          ∙ sym (
              joined
              ∙ drop_of_length-le (index * size + offset + (have - offset)) content (omega arith))
    ]

-- The bytes of a chunk are as many as fit.
pub length-chunk_of :
    (content : Bytes) (size index : ℕ)
    → length (chunk_of content size index) ≡ min size (length content - index * size)
length-chunk_of content size index =
    length-take size _ ∙ ap (min size) (length-drop (index * size) content)
