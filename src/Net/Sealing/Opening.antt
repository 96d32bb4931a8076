-- ===== src/Net/Sealing/Opening.antt =====
-- Sealed frames are opened again, and what a frame may claim.
use thicket_ai.Base.{
  ℕ, zero, suc, ◌+◌, ◌*◌, ◌/◌, ◌%◌, ◌≤◌, ◌<◌, ◌≡◌, refl, ap, ◌∙◌, List, [], ◌∷◌, ◌++◌, ok, Bytes,
  length, take, drop, arith, length-append, take-append, drop-append, take-append-drop, length-drop,
  Result-cases, inl, inr,
}
use mathlib.Core.List.{append_assoc}
use thicket_ai.Net.Framing.{to_be_bytes, from_be_bytes, be_bytes_lem}
use thicket_ai.Net.Sealing.{
  Transport, noise_max_payload, chunks_from, chunks, to_be_bytes_16, seal_chunks, encrypt_frame,
  open_chunks, decrypt_frame,
}

abbrev pub concat : List Bytes → Bytes
concat [] = []
concat (c ∷ cs) = c ++ concat cs

module _ (size : ℕ) where
  chunks_from_lem :
      (rounds : ℕ) (b : Bytes)
      → 0 < size
      → length b ≤ rounds
      → concat (chunks_from rounds size b) ≡ b
  unfolding chunks_from
  chunks_from_lem zero [] h e = refl
  chunks_from_lem zero (x ∷ xs) h e = absurd (omega arith)
  chunks_from_lem (suc rounds) [] h e = refl
  chunks_from_lem (suc rounds) (x ∷ xs) h e =
      ap (λ r. take size (x ∷ xs) ++ r)
        (chunks_from_lem rounds (drop size (x ∷ xs)) h (omega (arith, length-drop size (x ∷ xs))))
      ∙ take-append-drop size (x ∷ xs)

  -- no more chunks than bytes
  length-chunks_from : (rounds : ℕ) (b : Bytes) → length (chunks_from rounds size b) ≤ rounds
  unfolding chunks_from
  length-chunks_from zero b = omega arith
  length-chunks_from (suc rounds) [] = omega arith
  length-chunks_from (suc rounds) (x ∷ xs) =
      omega (arith, length-chunks_from rounds (drop size (x ∷ xs)))

concat-chunks : (b : Bytes) → concat (chunks noise_max_payload b) ≡ b
unfolding chunks
concat-chunks b = chunks_from_lem noise_max_payload (length b) b (omega arith) (omega arith)

length-chunks : (b : Bytes) → length (chunks noise_max_payload b) ≤ length b
unfolding chunks
length-chunks b = length-chunks_from noise_max_payload (length b) b

-- What the code relies on of a Noise transport: while the sending side of one state and the
-- receiving side of another agree, what one writes fits in two bytes of length, the other reads
-- it as it was, and they agree again.
pub record TransportLaws (t : Transport) : Type 1 where
  pub Synced : t.State → t.State → Type 0
  pub fits :
      (w r w' : t.State) (m c : Bytes)
      → Synced w r
      → t.write_message w m ≡ ok (c, w')
      → length c < 65536
  pub reads :
      (w r w' : t.State) (m c : Bytes)
      → Synced w r
      → t.write_message w m ≡ ok (c, w')
      → (r' : t.State) × (t.read_message r c ≡ ok (m, r')) × Synced w' r'

be_bytes_16_lem : (n : ℕ) → n < 65536 → n / 256 % 256 * 256 + n % 256 ≡ n
be_bytes_16_lem n h = omega arith

module _ (t : Transport) where
  -- one round of the loop, on a chunk that was sealed
  open_sealed :
      (n : ℕ) (r r' : t.State) (c m rest : Bytes)
      → length c < 65536
      → t.read_message r c ≡ ok (m, r')
      → (x : Bytes × t.State) → open_chunks t n r' rest ≡ ok x
      → open_chunks t (suc n) r (to_be_bytes_16 (length c % 65536) ++ (c ++ rest))
        ≡ ok (m ++ x.0, x.1)
  unfolding open_chunks to_be_bytes_16
  open_sealed n r r' c m rest fit read x more =
      let len : length c % 65536 / 256 % 256 * 256 + length c % 65536 % 256 ≡ length c =
        omega (arith, fit) in
      rw (len, take-append c rest, drop-append c rest, read, more, length-append c rest)
        (ground arith)

  open_none : (s : t.State) (b : Bytes) → open_chunks t zero s b ≡ ok ([], s)
  unfolding open_chunks
  open_none s b = refl

  module _ (laws : TransportLaws t) where
    open_chunks-seal_chunks :
        (cs : List Bytes) (w r w' : t.State) (sealed tail : Bytes)
        → laws.Synced w r
        → seal_chunks t w cs ≡ ok (sealed, w')
        → (r' : t.State) × (open_chunks t (length cs) r (sealed ++ tail) ≡ ok (concat cs, r'))
          × laws.Synced w' r'
    unfolding seal_chunks open_chunks
    open_chunks-seal_chunks [] w r w' sealed tail s h =
        let same : w ≡ w' = ground arith in (r, open_none r (sealed ++ tail), rw (← same) s)
    open_chunks-seal_chunks (c ∷ cs) w r w' sealed tail s h =
        elim (Result-cases (t.write_message w c)) [
          | inl (e, failed) ↦ absurd (ground arith)
          | inr ((ct, w1), wrote) ↦ elim (Result-cases (seal_chunks t w1 cs)) [
            | inl (e, failed) ↦ absurd (ground arith)
            | inr ((rest, w2), more) ↦
                let read = laws.reads w r w1 c ct s wrote in
                let same : w2 ≡ w' = ground arith in
                let made : sealed ≡ to_be_bytes_16 (length ct % 65536) ++ (ct ++ rest) =
                  ground arith in
                let ih = open_chunks-seal_chunks cs w1 read.0 w2 rest tail read.2 more in
                let one =
                  open_sealed (length cs) r read.0 ct c (rest ++ tail)
                    (laws.fits w r w1 c ct s wrote) read.1 (concat cs, ih.0) ih.1 in
                (ih.0, rw (made, append_assoc) one, rw (← same) ih.2)
          ]
        ]

    pub decrypt_sealed :
        (w r w' : t.State) (plaintext frame tail : Bytes)
        → laws.Synced w r
        → length (chunks noise_max_payload plaintext) < 4294967296
        → encrypt_frame t w plaintext ≡ ok (frame, w')
        → (r' : t.State) × (decrypt_frame t r (frame ++ tail) ≡ ok (plaintext, r'))
          × laws.Synced w' r'
    unfolding encrypt_frame decrypt_frame to_be_bytes
    decrypt_sealed w r w' plaintext frame tail s n h =
        let cs = chunks noise_max_payload plaintext in
        elim (Result-cases (seal_chunks t w cs)) [
          | inl (e, failed) ↦ absurd (ground arith)
          | inr ((rest, w1), done) ↦
              let o = open_chunks-seal_chunks cs w r w1 rest tail s done in
              let same : w1 ≡ w' = ground arith in
              let made : frame ≡ to_be_bytes (length cs % 4294967296) ++ rest = ground arith in
              let e : length cs % 4294967296 ≡ length cs = omega (arith, n) in
              (
                o.0,
                rw (made, e, be_bytes_lem (length cs) n)
                    (o.1 ∙ ap (λ p. ok (p, o.0)) (concat-chunks plaintext)),
                rw (← same) o.2,
              )
        ]

    -- A frame of less than 2^32 bytes that one end seals is opened by the other end as it was,
    -- whatever bytes are appended to it on the way, and the two ends agree for the next frame.
    pub decrypt_frame-encrypt_frame :
        (w r w' : t.State) (plaintext frame tail : Bytes)
        → laws.Synced w r
        → length plaintext < 4294967296
        → encrypt_frame t w plaintext ≡ ok (frame, w')
        → (r' : t.State) × (decrypt_frame t r (frame ++ tail) ≡ ok (plaintext, r'))
          × laws.Synced w' r'
    decrypt_frame-encrypt_frame w r w' plaintext frame tail s small h =
        decrypt_sealed w r w' plaintext frame tail s (omega (arith, length-chunks plaintext)) h

  seal_chunks_bound :
      (cs : List Bytes) (w : t.State) (x : Bytes × t.State)
      → seal_chunks t w cs ≡ ok x
      → 2 * length cs ≤ length x.0
  unfolding seal_chunks to_be_bytes_16
  seal_chunks_bound [] w x h = omega arith
  seal_chunks_bound (c ∷ cs) w x h = elim (Result-cases (t.write_message w c)) [
    | inl (e, failed) ↦ absurd (ground arith)
    | inr ((ct, w1), wrote) ↦ elim (Result-cases (seal_chunks t w1 cs)) [
      | inl (e, failed) ↦ absurd (ground arith)
      | inr (rest, more) ↦
          let made : x.0 ≡ to_be_bytes_16 (length ct % 65536) ++ (ct ++ rest.0) = ground arith in
          rw made (omega (arith, seal_chunks_bound cs w1 rest more, length-append ct rest.0))
    ]
  ]

  -- a frame has room for its chunks
  pub encrypt_frame_bound :
      (w : t.State) (plaintext : Bytes) (x : Bytes × t.State)
      → encrypt_frame t w plaintext ≡ ok x
      → 2 * length (chunks noise_max_payload plaintext) ≤ length x.0
  unfolding encrypt_frame to_be_bytes
  encrypt_frame_bound w plaintext x h =
      let cs = chunks noise_max_payload plaintext in
      elim (Result-cases (seal_chunks t w cs)) [
        | inl (e, failed) ↦ absurd (ground arith)
        | inr (rest, done) ↦
            let made : x.0 ≡ to_be_bytes (length cs % 4294967296) ++ rest.0 = ground arith in
            rw made (omega (arith, seal_chunks_bound cs w rest done))
      ]

  open_chunks_bound :
      (n : ℕ) (s : t.State) (b : Bytes) (x : Bytes × t.State)
      → open_chunks t n s b ≡ ok x
      → 2 * n ≤ length b
  unfolding open_chunks
  open_chunks_bound zero s b x h = omega arith
  open_chunks_bound (suc n) s [] x h = absurd (ground arith)
  open_chunks_bound (suc n) s (a ∷ []) x h = absurd (ground arith)
  open_chunks_bound (suc n) s (a ∷ b ∷ rest) x h =
      elim (Result-cases (t.read_message s (take (a * 256 + b) rest))) [
        | inl (e, failed) ↦ absurd (ground arith)
        | inr (m, read) ↦ elim (Result-cases (open_chunks t n m.1 (drop (a * 256 + b) rest))) [
          | inl (e, failed) ↦ absurd (ground arith)
          | inr (y, more) ↦ omega (
            arith,
            open_chunks_bound n m.1 (drop (a * 256 + b) rest) y more,
            length-drop (a * 256 + b) rest,
          )
        ]
      ]

  -- A frame that claims more chunks than it has room for is refused: where a frame is opened, two
  -- bytes of it stand for every chunk that its head claims.
  pub decrypt_frame_bound :
      (s : t.State) (a b c d : ℕ) (rest : Bytes) (x : Bytes × t.State)
      → decrypt_frame t s (a ∷ b ∷ c ∷ d ∷ rest) ≡ ok x
      → 2 * from_be_bytes a b c d ≤ length rest
  unfolding decrypt_frame
  decrypt_frame_bound s a b c d rest x h = open_chunks_bound (from_be_bytes a b c d) s rest x h
