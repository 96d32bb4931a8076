-- ===== src/Net/Sealing.antt =====
-- `encrypt_frame` and `decrypt_frame` of crates/thicket-net/src/secure.rs. The Noise transport
-- (`snow`) is a parameter: a call that succeeds gives the message and the next state. `pos` is
-- passed on as the part of the frame that starts there.
pub mod Opening
use thicket_ai.Base.{
  ℕ, zero, suc, ◌+◌, ◌*◌, ◌/◌, ◌%◌, String, List, [], ◌∷◌, ◌++◌, Result, ok, err, ◌>>=◌, ◌>>◌,
  reject_if, map_err, Bytes, length, take, drop, ltb,
}
use thicket_ai.Net.{Error, crypto}
use thicket_ai.Net.Framing.{to_be_bytes, from_be_bytes}

pub record Transport : Type 1 where
  pub State : Type 0
  pub write_message : State → Bytes → Result String (Bytes × State)
  pub read_message : State → Bytes → Result String (Bytes × State)

-- `NOISE_MAX_PAYLOAD`
abbrev pub noise_max_payload : ℕ
noise_max_payload = 65519

-- `slice::chunks`, with the length of the slice as the number of rounds
unfoldable pub chunks_from : ℕ → ℕ → Bytes → List Bytes
chunks_from zero size b = []
chunks_from (suc rounds) size [] = []
chunks_from (suc rounds) size (x ∷ xs) =
    take size (x ∷ xs) ∷ chunks_from rounds size (drop size (x ∷ xs))

unfoldable pub chunks : ℕ → Bytes → List Bytes
chunks size b = chunks_from (length b) size b

-- `u16::to_be_bytes`
unfoldable pub to_be_bytes_16 : ℕ → Bytes
to_be_bytes_16 n = n / 256 % 256 ∷ n % 256 ∷ []

module _ (t : Transport) where
  unfoldable pub seal_chunks : t.State → List Bytes → Result Error (Bytes × t.State)
  unfolding to_be_bytes_16
  seal_chunks s [] = ok ([], s)
  seal_chunks s (c ∷ cs) = do
    sealed ← map_err crypto (t.write_message s c)
    rest ← seal_chunks sealed.1 cs
    ok (to_be_bytes_16 (length sealed.0 % 65536) ++ (sealed.0 ++ rest.0), rest.1)

  unfoldable pub encrypt_frame : t.State → Bytes → Result Error (Bytes × t.State)
  encrypt_frame s plaintext = do
    rest ← seal_chunks s (chunks noise_max_payload plaintext)
    ok (to_be_bytes (length (chunks noise_max_payload plaintext) % 4294967296) ++ rest.0, rest.1)

  -- the loop of `decrypt_frame`, with the rounds that are left
  unfoldable pub open_chunks : ℕ → t.State → Bytes → Result Error (Bytes × t.State)
  open_chunks zero s frame = ok ([], s)
  open_chunks (suc n) s (a ∷ b ∷ frame) = do
    reject_if (ltb (length frame) (a * 256 + b)) (crypto "truncated chunk")
    opened ← map_err crypto (t.read_message s (take (a * 256 + b) frame))
    rest ← open_chunks n opened.1 (drop (a * 256 + b) frame)
    ok (opened.0 ++ rest.0, rest.1)
  open_chunks (suc n) s _ = err (crypto "truncated chunk header")

  unfoldable pub decrypt_frame : t.State → Bytes → Result Error (Bytes × t.State)
  unfolding from_be_bytes
  decrypt_frame s (a ∷ b ∷ c ∷ d ∷ frame) = open_chunks (from_be_bytes a b c d) s frame
  decrypt_frame s _ = err (crypto "short frame")
