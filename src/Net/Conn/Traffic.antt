-- ===== src/Net/Conn/Traffic.antt =====
-- From the queue of one end to the tables of the other.
use thicket_ai.Base.{
  ℕ, ◌≡◌, ◌≤◌, refl, inl, inr, true, false, some, List, [], ◌∷◌, ◌++◌, ⊤, ok, Bytes, length, arith,
  Result-cases,
}
use mathlib.Core.List.{append_assoc, append-nil}
use thicket_ai.Core.{ResourceId_eq, id_eq_iff}
use thicket_ai.Interconnect.{Fabric}
use thicket_ai.Interconnect.Data.{SignedEnvelope}
use thicket_ai.Net.{VerifiedPeer}
use thicket_ai.Net.Framing.{max_frame, write_frame, read_frame-write_frame}
use thicket_ai.Net.Sealing.{Transport, encrypt_frame, decrypt_frame}
use thicket_ai.Net.Sealing.Opening.{TransportLaws, decrypt_sealed, encrypt_frame_bound}
use thicket_ai.Net.Routing.{Channels, Tables, route}
use thicket_ai.Net.Routing.Delivery.{route_all}
use thicket_ai.Net.Conn.{Codec, peer_key_fresh, accept, read_one, reader, writer}
use thicket_ai.Net.Conn.Reading.{Trusted}

-- The frames are the envelopes, as the codec writes and reads them, and each envelope is one that the
-- other end trusts at the time at which it reads it.
abbrev pub Carries :
    (f : Fabric) (c : Codec) → VerifiedPeer → List SignedEnvelope → List Bytes → List ℕ → Type 0
Carries f c peer [] [] [] = ⊤
Carries f c peer (env ∷ envs) (frame ∷ frames) (now ∷ clock) =
    (c.to_cbor env ≡ ok frame)
    × (c.from_cbor frame ≡ ok env)
    × Trusted f peer now env
    × Carries f c peer envs frames clock
Carries f c peer _ _ _ = ⊥

module _ (f : Fabric) (t : Transport) (ch : Channels) (c : Codec) (peer : VerifiedPeer) where
  accept_of-Trusted :
      (now : ℕ) (env : SignedEnvelope) (plaintext : Bytes) (tables : Tables ch)
      → c.from_cbor plaintext ≡ ok env
      → Trusted f peer now env
      → accept f t ch c peer plaintext tables ≡ route ch env tables
  unfolding accept
  accept_of-Trusted now env plaintext tables read trusted =
      let own = (id_eq_iff env.payload.from peer.id).1 trusted.sender in
      rw (read, own, trusted.signed, accept) refl

  -- one round of the reader on what one round of the writer made
  read_sealed :
      (laws : TransportLaws t) (now : ℕ) (env : SignedEnvelope) (frame bytes : Bytes)
      (w r w' : t.State) (tables : Tables ch)
      → c.from_cbor frame ≡ ok env
      → Trusted f peer now env
      → laws.Synced w r
      → encrypt_frame t w frame ≡ ok (bytes, w')
      → length bytes ≤ max_frame
      → (r' : t.State) × (read_one f t ch c peer now bytes tables r
          ≡ some (route ch env tables, r'))
        × laws.Synced w' r'
  unfolding read_one peer_key_fresh
  read_sealed laws now env frame bytes w r w' tables read trusted s sealed small =
      let o =
        decrypt_sealed t laws w r w' frame bytes [] s
          (omega (arith, encrypt_frame_bound t w frame (bytes, w') sealed, small)) sealed in
      let opened : decrypt_frame t r bytes ≡ ok (frame, o.0) = rw (← append-nil bytes) o.1 in
      let fresh = trusted.fresh in
      (o.0, rw (opened, accept_of-Trusted now env frame tables read trusted) (ground arith), o.2)

  -- What one end sends arrives at the other: where the writer has put the frames of some envelopes
  -- on the wire, which the codec reads back, and the reader trusts each envelope at the time it
  -- reads it, the reader's tables
  -- are those after routing exactly these envelopes in their order, whatever follows on the wire.
  -- The two ends of the cipher, which agree to begin with, agree again, and the
  -- reader still runs.
  pub reader-writer :
      (laws : TransportLaws t) (envs : List SignedEnvelope) (frames : List Bytes) (clock : List ℕ)
      (w w' r : t.State) (wire rest : Bytes) (tables : Tables ch)
      → laws.Synced w r
      → Carries f c peer envs frames clock
      → writer f t ch c frames w ≡ (wire, w', true)
      → ((reader f t ch c peer clock (wire ++ rest) tables r).0 ≡ route_all ch envs tables)
        × laws.Synced w' (reader f t ch c peer clock (wire ++ rest) tables r).1
        × ((reader f t ch c peer clock (wire ++ rest) tables r).2 ≡ false)
  unfolding reader writer
  reader-writer laws [] [] [] w w' r wire rest tables s h q = (refl, ground arith, refl)
  reader-writer laws [] [] (now ∷ clock) w w' r wire rest tables s h q = elim h [ ]
  reader-writer laws [] (frame ∷ frames) clock w w' r wire rest tables s h q = elim h [ ]
  reader-writer laws (env ∷ envs) [] clock w w' r wire rest tables s h q = elim h [ ]
  reader-writer laws (env ∷ envs) (frame ∷ frames) [] w w' r wire rest tables s h q = elim h [ ]
  reader-writer laws (env ∷ envs) (frame ∷ frames) (now ∷ clock) w w' r wire rest tables s
        (coded, back, trusted, more) q =
      elim (Result-cases (encrypt_frame t w frame)) [
        | inl (e, failed) ↦ absurd (ground arith)
        | inr ((bytes, w1), sealed) ↦ elim (Result-cases (write_frame bytes)) [
          | inl (e, failed) ↦ absurd (ground arith)
          | inr (written, framed) ↦
              let others = writer f t ch c frames w1 in
              let made : wire ≡ written ++ others.0 = ground arith in
              let same : others.1 ≡ w' = ground arith in
              let runs : others.2 ≡ true = ground arith in
              let got = read_frame-write_frame c.eof bytes (others.0 ++ rest) written framed in
              let one =
                read_sealed laws now env frame bytes w r w1 tables back trusted s sealed got.0 in
              rw (made, append_assoc written others.0 rest, got.1, one.1, reader)
                (reader-writer laws envs frames clock w1 w' one.0 others.0 rest
                  (route ch env tables) one.2 more (rw (← same, ← runs) refl))
        ]
      ]
