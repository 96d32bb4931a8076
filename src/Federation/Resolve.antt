-- ===== src/Federation/Resolve.antt =====
-- Resolving through peers and the cache.
use thicket_ai.Base.{
  ℕ, ◌≡◌, ◌<◌, ◌⊎◌, inl, inr, refl, ap, sym, ◌∙◌, true, none, some, List, All, All-Has, All-of_Has,
  [], ◌∷◌, Has, ok, is_ok, ltb, arith, Bool-cases, Option-cases, Result-cases, Result, err,
}
use thicket_ai.Base.Float.{Float}
use thicket_ai.Base.Dict
use thicket_ai.Base.Dict.{get-Has, Has-insert}
use thicket_ai.Core.{Kernel, ResourceId, ResourceId_eq, SignedRecord}
use thicket_ai.Core.Identity.{no_revocations}
use thicket_ai.Core.Record.{verify_record}
use thicket_ai.Registry
use thicket_ai.Registry.{Embedder, Registry, id_of}
use thicket_ai.Registry.Publishing.{resolve_sound}
use thicket_ai.Registry.Invariant.{IsConsistent, Reach, Reach-IsConsistent}
use thicket_ai.Federation.{Peer, Federation, registry_peer, remember, ask, federated_resolve}

pub is_ok-eq : {E A : Type 0} (r : Result E A) → is_ok r ≡ true → (a : A) × (r ≡ ok a)
is_ok-eq (ok a) h = (a, refl)
is_ok-eq (err e) h = ground arith

module _ (k : Kernel) {fl : Float} (embedder : Embedder fl) where
  -- Where an answer comes from: a peer gave it, and it verifies.
  pub record FromPeer (peers : List Peer) (id : ResourceId) (now : ℕ) (r : SignedRecord)
      : Type 0 where
    pub peer : Peer
    pub member : Has peer peers
    pub given : peer.peer_resolve id now ≡ some r
    pub verified : verify_record k r now no_revocations ≡ ok tt

  ask_step :
      (fed : Federation fl) (id : ResourceId) (now : ℕ) (p : Peer) (ps : List Peer)
      (r : SignedRecord)
      → ((ask k embedder fed id now ps).0 ≡ some r → FromPeer ps id now r)
      → (ask k embedder fed id now (p ∷ ps)).0 ≡ some r
      → FromPeer (p ∷ ps) id now r
  unfolding ask
  ask_step fed id now p ps r ih h = elim (Option-cases (p.peer_resolve id now)) [
    | inl silent ↦ later (ih (ground arith))
    | inr (x, given) ↦ elim (Bool-cases (is_ok (verify_record k x now no_revocations))) [
      | inl good ↦
          let same : x ≡ r = ground arith in
          record {
            peer = p;
            member = inl refl;
            given = given ∙ ap some same;
            verified = rw (← same) (is_ok-eq (verify_record k x now no_revocations) good).1;
          }
      | inr bad ↦ later (ih (ground arith))
    ]
  ]
    where
      later : FromPeer ps id now r → FromPeer (p ∷ ps) id now r
      later f = record {
        peer = f.peer;
        member = inr f.member;
        given = f.given;
        verified = f.verified;
      }

  ask_sound :
      (fed : Federation fl) (id : ResourceId) (now : ℕ) (ps : List Peer) (r : SignedRecord)
      → (ask k embedder fed id now ps).0 ≡ some r
      → FromPeer ps id now r
  unfolding ask
  ask_sound fed id now [] r h = absurd (ground arith)
  ask_sound fed id now (p ∷ ps) r h = ask_step fed id now p ps r (ask_sound fed id now ps r) h

  ask_remembers :
      (fed : Federation fl) (id : ResourceId) (now : ℕ) (ps : List Peer) (r : SignedRecord)
      → (ask k embedder fed id now ps).0 ≡ some r
      → (ask k embedder fed id now ps).1 ≡ remember k embedder fed id r now
  unfolding ask
  ask_remembers fed id now [] r h = absurd (ground arith)
  ask_remembers fed id now (p ∷ ps) r h = ground (arith, ask_remembers fed id now ps r)

  -- What resolves is a cached record that is still fresh, or a verified answer of a peer, which is
  -- then in the cache.
  pub federated_resolve_sound :
      (fed : Federation fl) (id : ResourceId) (now : ℕ) (r : SignedRecord)
      → (federated_resolve k embedder fed id now).0 ≡ some r
      → ((expires : ℕ) × (Dict.get id fed.cache ≡ some (r, expires)) × (now < expires))
        ⊎ (FromPeer fed.peers id now r
            × ((federated_resolve k embedder fed id now).1 ≡ remember k embedder fed id r now))
  unfolding federated_resolve
  federated_resolve_sound fed id now r h = elim (Option-cases (Dict.get id fed.cache)) [
    | inl absent ↦ inr (
      ask_sound fed id now fed.peers r (ground arith),
      ground (arith, ask_remembers fed id now fed.peers r),
    )
    | inr ((x, expires), found) ↦ elim (Bool-cases (ltb now expires)) [
      | inl fresh ↦ inl (expires, ground arith, ground arith)
      | inr old ↦ inr (
        ask_sound fed id now fed.peers r (ground arith),
        ground (arith, ask_remembers fed id now fed.peers r),
      )
    ]
  ]

  pub first_answer :
      (fed : Federation fl) (id : ResourceId) (now : ℕ) (p : Peer) (rest : List Peer)
      (r : SignedRecord)
      → fed.peers ≡ p ∷ rest
      → Dict.get id fed.cache ≡ none
      → p.peer_resolve id now ≡ some r
      → verify_record k r now no_revocations ≡ ok tt
      → federated_resolve k embedder fed id now ≡ (some r, remember k embedder fed id r now)
  unfolding federated_resolve ask
  first_answer fed id now p rest r ps absent given good = ground arith

  registry_peer_bound :
      (reg : Registry fl) (id : ResourceId) (now : ℕ) (r : SignedRecord)
      → IsConsistent reg
      → (registry_peer k embedder reg).peer_resolve id now ≡ some r
      → id_of r ≡ id
  unfolding registry_peer
  registry_peer_bound reg id now r c h =
      elim (Result-cases (Registry.resolve k embedder reg id now)) [
        | inl (e, failed) ↦ absurd (ground arith)
        | inr (x, done) ↦
            let same : x ≡ r = ground arith in
            let s = resolve_sound k embedder reg id now x done in
            ap id_of (sym (s.2 ∙ same)) ∙ c.keyed id s.0 (get-Has id s.0 reg.store s.1)
      ]

  ask_keeps :
      (fed : Federation fl) (id : ResourceId) (now : ℕ) (ps : List Peer)
      → (ask k embedder fed id now ps).0 ≡ none
      → (ask k embedder fed id now ps).1 ≡ fed
  unfolding ask
  ask_keeps fed id now [] h = refl
  ask_keeps fed id now (p ∷ ps) h = ground (arith, ask_keeps fed id now ps)

  ask_cases :
      (fed : Federation fl) (id : ResourceId) (now : ℕ) (ps : List Peer)
      → ((ask k embedder fed id now ps).1 ≡ fed)
        ⊎ ((r : SignedRecord) × FromPeer ps id now r
            × ((ask k embedder fed id now ps).1 ≡ remember k embedder fed id r now))
  ask_cases fed id now ps = elim (Option-cases (ask k embedder fed id now ps).0) [
    | inl nothing ↦ inl (ask_keeps fed id now ps nothing)
    | inr (r, answered) ↦
        inr (r, ask_sound fed id now ps r answered, ask_remembers fed id now ps r answered)
  ]

  -- A resolution leaves the federation as it is, or caches the answer of a peer, which it returns.
  resolve_cases :
      (fed : Federation fl) (id : ResourceId) (now : ℕ)
      → ((federated_resolve k embedder fed id now).1 ≡ fed)
        ⊎ ((r : SignedRecord) × FromPeer fed.peers id now r
            × ((federated_resolve k embedder fed id now).1 ≡ remember k embedder fed id r now))
  unfolding federated_resolve
  resolve_cases fed id now = elim (Option-cases (Dict.get id fed.cache)) [
    | inl absent ↦ elim (ask_cases fed id now fed.peers) [
      | inl kept ↦ inl (ground arith)
      | inr (r, f, made) ↦ inr (r, f, ground arith)
    ]
    | inr ((x, expires), found) ↦ elim (Bool-cases (ltb now expires)) [
      | inl fresh ↦ inl (ground arith)
      | inr old ↦ elim (ask_cases fed id now fed.peers) [
        | inl kept ↦ inl (ground arith)
        | inr (r, f, made) ↦ inr (r, f, ground arith)
      ]
    ]
  ]

  -- What the cache holds under an id is a record of that id.
  abbrev pub Filed : Federation fl → Type 0
  Filed fed = All (λ (e : ResourceId × (SignedRecord × ℕ)). id_of e.1.0 ≡ e.0) fed.cache

  FromPeer-bound :
      (fed : Federation fl) (id : ResourceId) (now : ℕ) (r : SignedRecord)
      → ((p : Peer)
          → Has p fed.peers
          → (reg : Registry fl) × Reach k embedder reg × (p ≡ registry_peer k embedder reg))
      → FromPeer fed.peers id now r
      → id_of r ≡ id
  FromPeer-bound fed id now r honest f =
      let g = honest f.peer f.member in
      registry_peer_bound g.0 id now r (Reach-IsConsistent k embedder g.1) (rw g.2 at f.given)

  -- Where every peer is a registry that any operations have led to, and the cache holds records of
  -- the ids that they stand under, a resolution keeps the cache so, and returns nothing or a record
  -- of the id that was asked for.
  pub federated_resolve_bound :
      (fed : Federation fl) (id : ResourceId) (now : ℕ)
      → ((p : Peer)
          → Has p fed.peers
          → (reg : Registry fl) × Reach k embedder reg × (p ≡ registry_peer k embedder reg))
      → Filed fed
      → Filed (federated_resolve k embedder fed id now).1
        × (((federated_resolve k embedder fed id now).0 ≡ none)
            ⊎ ((r : SignedRecord) × ((federated_resolve k embedder fed id now).0 ≡ some r)
                × (id_of r ≡ id)))
  unfolding remember
  federated_resolve_bound fed id now honest filed = (
    elim (resolve_cases fed id now) [
      | inl same ↦ rw same filed
      | inr (r, f, made) ↦ rw made (
          All-of_Has _ _ (λ e m. elim (Has-insert id _ fed.cache e m) [
            | inl q ↦ rw q (FromPeer-bound fed id now r honest f)
            | inr n ↦ All-Has _ fed.cache e filed n
          ]))
    ],
    elim (Option-cases (federated_resolve k embedder fed id now).0) [
      | inl nothing ↦ inl nothing
      | inr (r, found) ↦ inr (
        r,
        found,
        elim (federated_resolve_sound fed id now r found) [
          | inl c ↦ All-Has _ fed.cache _ filed (get-Has id (r, c.0) fed.cache c.1)
          | inr f ↦ FromPeer-bound fed id now r honest f.0
        ],
      )
    ],
  )
