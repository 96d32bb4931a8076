-- ===== src/Net/Framing.antt =====
-- crates/thicket-net/src/framing.rs. A stream is the bytes that are still to be read; the text of an
-- input error is a parameter.
use thicket_ai.Base.{
  ℕ, ◌+◌, ◌*◌, ◌/◌, ◌%◌, ◌≤◌, ◌<◌, ◌≡◌, ◌↔◌, ◌≢◌, String, Option, none, some, [], ◌∷◌, ◌++◌, Result,
  ok, ◌>>◌, reject_if, map_err, Bytes, length, take, drop, ltb, arith, length-append, take-append,
  drop-append,
}
use thicket_ai.Net.{Error, io, codec, frame_too_large}

abbrev pub max_frame : ℕ
max_frame = 16777216

-- `u32::to_be_bytes` and `u32::from_be_bytes`
unfoldable pub to_be_bytes : ℕ → Bytes
to_be_bytes n = n / 16777216 % 256 ∷ n / 65536 % 256 ∷ n / 256 % 256 ∷ n % 256 ∷ []

unfoldable pub from_be_bytes : ℕ → ℕ → ℕ → ℕ → ℕ
from_be_bytes a b c d = a * 16777216 + b * 65536 + c * 256 + d

-- `write_frame`: the bytes that go on the stream
unfoldable pub write_frame : Bytes → Result Error Bytes
write_frame payload = do
  reject_if (ltb max_frame (length payload)) frame_too_large
  ok (to_be_bytes (length payload % 4294967296) ++ payload)

-- `to_cbor` and `from_cbor`, of the encoder at a type
unfoldable pub frame_to_cbor : {T : Type 0} → (T → Result String Bytes) → T → Result Error Bytes
frame_to_cbor into_writer value = map_err codec (into_writer value)

unfoldable pub frame_from_cbor : {T : Type 0} → (Bytes → Result String T) → Bytes → Result Error T
frame_from_cbor from_reader bytes = map_err codec (from_reader bytes)

module _ (eof : String) where
  -- the frame's body, and what is left of the stream
  unfoldable pub read_body : ℕ → Bytes → Result Error (Option (Bytes × Bytes))
  read_body len stream = do
    reject_if (ltb max_frame len) frame_too_large
    reject_if (ltb (length stream) len) (io eof)
    ok (some (take len stream, drop len stream))

  -- `read_frame`; a stream that ends before the length is complete is the end of the stream
  unfoldable pub read_frame : Bytes → Result Error (Option (Bytes × Bytes))
  unfolding from_be_bytes
  read_frame (a ∷ b ∷ c ∷ d ∷ stream) = read_body (from_be_bytes a b c d) stream
  read_frame _ = ok none

pub be_bytes_lem :
    (n : ℕ)
    → n < 4294967296
    → from_be_bytes (n / 16777216 % 256) (n / 65536 % 256) (n / 256 % 256) (n % 256) ≡ n
unfolding from_be_bytes
be_bytes_lem n h = omega arith

module _ (eof : String) where
  read_whole_body :
      (payload rest : Bytes)
      → length payload ≤ max_frame
      → read_body eof (length payload) (payload ++ rest) ≡ ok (some (payload, rest))
  unfolding read_body
  read_whole_body payload rest h =
      ground (arith, take-append payload rest, drop-append payload rest, length-append payload rest)

  -- A frame that is written is read back, and leaves the stream at what follows it; a payload above
  -- the bound is not written.
  pub read_frame-write_frame :
      (payload rest frame : Bytes)
      → write_frame payload ≡ ok frame
      → (length payload ≤ max_frame) × (read_frame eof (frame ++ rest) ≡ ok (some (payload, rest)))
  unfolding write_frame read_frame to_be_bytes
  read_frame-write_frame payload rest frame h = (small, rw made whole)
    where
      small : length payload ≤ max_frame
      small = ground arith

      made : frame ≡ to_be_bytes (length payload % 4294967296) ++ payload
      made = ground arith

      same : length payload % 4294967296 ≡ length payload
      same = omega (arith, small)

      whole :
          read_frame eof ((to_be_bytes (length payload % 4294967296) ++ payload) ++ rest)
          ≡ ok (some (payload, rest))
      whole =
          rw (same, be_bytes_lem (length payload) (omega (arith, small)))
            (read_whole_body payload rest small)

  read_body-ne-end : (len : ℕ) (stream : Bytes) → read_body eof len stream ≢ ok none
  unfolding read_body
  read_body-ne-end len stream h = ground arith

  -- Reading answers "end of the stream" exactly when fewer than four bytes are left, be it none or
  -- a part of a length.
  pub read_frame_end : (stream : Bytes) → (read_frame eof stream ≡ ok none) ↔ (length stream < 4)
  unfolding read_frame read_body
  read_frame_end [] = ground arith
  read_frame_end (a ∷ []) = ground arith
  read_frame_end (a ∷ b ∷ []) = ground arith
  read_frame_end (a ∷ b ∷ c ∷ []) = ground arith
  read_frame_end (a ∷ b ∷ c ∷ d ∷ stream) = (
    (λ h. absurd (read_body-ne-end (from_be_bytes a b c d) stream h)),
    (λ h. absurd (omega arith)),
  )
