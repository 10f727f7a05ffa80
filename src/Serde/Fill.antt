-- ===== src/Serde/Fill.antt =====
-- The header writer of base_packet_serializer.hpp, and buffers that are written from end to end.
use kb_networking_cpp.Prelude.{
  ℕ, suc, ◌≤◌, ◌≡◌, refl, ap, ◌∙◌, [], ◌∷◌, ◌++◌, arith, length, drop, set,
}
use native.Mathlib.Numerals.{add-one}
use kb_networking_cpp.Packet.Bytes.{Bytes, write_bytes}
use kb_networking_cpp.Packet.Header.{InternalPacketHeader, header_of}
use kb_networking_cpp.Packet.Layout.{layout}
use kb_networking_cpp.Serde.Base.{write_internal_packet_header}

write_bytes-cons :
    (x c : ℕ) (buffer bs : Bytes)
    → write_bytes (x ∷ buffer) (suc c) bs ≡ x ∷ write_bytes buffer c bs
unfolding write_bytes
write_bytes-cons x c buffer [] = refl
write_bytes-cons x c buffer (b ∷ bs) = simp add-one (write_bytes-cons x (suc c) (set buffer c b) bs)

pub write_bytes_all : (buffer bs : Bytes) → length buffer ≡ length bs → write_bytes buffer 0 bs ≡ bs
unfolding write_bytes
write_bytes_all [] [] h = refl
write_bytes_all [] (b ∷ bs) h = absurd (omega arith)
write_bytes_all (x ∷ buffer) [] h = absurd (omega arith)
write_bytes_all (x ∷ buffer) (b ∷ bs) h =
    write_bytes-cons b 0 buffer bs ∙ ap (λ r. b ∷ r) (write_bytes_all buffer bs (omega arith))

-- Behind what stands before the cursor, the rest of the buffer is replaced.
pub write_bytes_rest :
    (front buffer bs : Bytes)
    → length buffer ≡ length bs
    → write_bytes (front ++ buffer) (length front) bs ≡ front ++ bs
write_bytes_rest [] buffer bs h = write_bytes_all buffer bs h
write_bytes_rest (x ∷ front) buffer bs h =
    write_bytes-cons x (length front) (front ++ buffer) bs
    ∙ ap (λ r. x ∷ r) (write_bytes_rest front buffer bs h)

-- In a buffer of eight bytes or more the header writer overwrites the first eight with the header
-- as it lies in memory, leaves the rest, and returns a cursor of eight.
pub write_internal_packet_header_lem :
    (buffer : Bytes) (h : InternalPacketHeader)
    → 8 ≤ length buffer
    → write_internal_packet_header buffer h
      ≡ (layout (header_of h.serde_type h.packet_type) ++ drop 8 buffer, 8)
unfolding write_internal_packet_header
write_internal_packet_header_lem (a ∷ b ∷ c ∷ d ∷ e ∷ f ∷ g ∷ i ∷ buffer) h l = ground arith
write_internal_packet_header_lem buffer h l = absurd (omega arith)
