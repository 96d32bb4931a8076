-- ===== src/Federation/Search.antt =====
-- What a federated search returns.
use mathlib.Core.List.{Permᴰ}
use mathlib.Core.List.Permᴰ
use thicket_ai.Base.{
  ℕ, ◌≤◌, ◌≡◌, ◌≢◌, refl, inl, inr, ap, sym, ◌∙◌, some, List, [], ◌∷◌, map, Has, All-of_Has, ok,
  arith, length, length-take, Has-take, Has-map_inv,
}
use thicket_ai.Base.Float.{Float}
use thicket_ai.Base.Sorting.{SortLaws, Has-Perm, Pairwise, Pairwise-Perm, Pairwise-take}
use thicket_ai.Base.Dict
use thicket_ai.Base.Dict.{Unique, Has-get}
use thicket_ai.Core.{Kernel, ResourceId, ResourceId_eq, SignedRecord}
use thicket_ai.Core.Identity.{no_revocations}
use thicket_ai.Core.Record.{verify_record}
use thicket_ai.Registry.{Need, Embedder, id_of}
use thicket_ai.Federation.{
  Federation, at, answers, gather, select_peers, by_record_score, federated_search,
}
use thicket_ai.Federation.Gathering.{Best, IsVerified, gather-IsVerified, gather-Covers}

module _ (k : Kernel) {fl : Float} (embedder : Embedder fl) (now : ℕ) where
  module _ (fed : Federation fl) (need : Need) where
    abbrev collected : Best
    collected = gather k embedder fed need now (select_peers k embedder fed need.intent_text) []

    collected-IsVerified : IsVerified k embedder now collected
    collected-IsVerified =
        gather-IsVerified k embedder now fed need (select_peers k embedder fed need.intent_text) []
          (record { unique = tt; kept = λ id r m. absurd m })

    abbrev Apart : SignedRecord → SignedRecord → Type 0
    Apart r r' = id_of r ≢ id_of r'

    abbrev values : Best → List SignedRecord
    values best = map (λ (e : ResourceId × SignedRecord). e.1) best

    -- What has one entry for each id, under that id, has no two records of one identity.
    values-Apart :
        (best : Best)
        → Unique best
        → ((id : ResourceId) (r : SignedRecord) → Has (id, r) best → id_of r ≡ id)
        → Pairwise Apart (values best)
    values-Apart [] u keyed = tt
    values-Apart ((id, r) ∷ best) u keyed = (
      All-of_Has (Apart r) (values best) (λ x m same.
          let b = Has-map_inv (λ (e : ResourceId × SignedRecord). e.1) best x m in
          let key : b.0.0 ≡ id =
            sym (keyed b.0.0 b.0.1 (inr b.1))
            ∙ (ap id_of (sym b.2) ∙ (sym same ∙ keyed id r (inl refl))) in
          let found : Dict.get id best ≡ some b.0.1 =
            rw (← key) (Has-get b.0.0 b.0.1 best u.1 b.1) in
          ground (arith, u.0, found)),
      values-Apart best u.1 (λ i x m. keyed i x (inr m)),
    )

    module _ (laws : SortLaws fl) where
      abbrev sorted : List SignedRecord
      sorted =
          fl.sort_by (by_record_score k embedder (embedder.embed need.intent_text))
            (values collected)

      sorted-Perm : Permᴰ sorted (values collected)
      sorted-Perm =
          laws.permutes (by_record_score k embedder (embedder.embed need.intent_text))
            (values collected)

      Has-result :
          (r : SignedRecord)
          → Has r (federated_search k embedder fed need now)
          → (Dict.get (id_of r) collected ≡ some r) × (verify_record k r now no_revocations ≡ ok tt)
      unfolding federated_search
      Has-result r m =
          let a = Has-Perm r sorted-Perm (Has-take need.top_k sorted r m) in
          let b = Has-map_inv (λ (e : ResourceId × SignedRecord). e.1) collected r a in
          let w = collected-IsVerified.kept b.0.0 b.0.1 b.1 in
          let key : id_of r ≡ b.0.0 = ap id_of b.2 ∙ w.0 in
          (
            ap (λ j. Dict.get j collected) key
                ∙ (Has-get b.0.0 b.0.1 collected collected-IsVerified.unique b.1
                    ∙ ap some (sym b.2)),
            rw b.2 w.1,
          )

      results-Apart : Pairwise Apart (federated_search k embedder fed need now)
      unfolding federated_search
      results-Apart = Pairwise-take Apart need.top_k sorted (
          Pairwise-Perm Apart (λ a b n q. n (sym q)) (Permᴰ.symm sorted-Perm)
            (values-Apart collected collected-IsVerified.unique
              (λ id r m. (collected-IsVerified.kept id r m).0)))

      -- A federated search returns at most `top_k` records, and no two of them, at different places
      -- of the answer, are of one identity. Each verifies, and none is older than a verified record
      -- of its identity in the answer of a selected peer.
      pub federated_search_sound :
          (length (federated_search k embedder fed need now) ≤ need.top_k)
          × Pairwise (λ r r'. id_of r ≢ id_of r') (federated_search k embedder fed need now)
          × ((r : SignedRecord)
              → Has r (federated_search k embedder fed need now)
              → (verify_record k r now no_revocations ≡ ok tt)
                × ((i : ℕ) (x : SignedRecord)
                    → Has i (select_peers k embedder fed need.intent_text)
                    → Has x (answers k embedder (at fed.peers i) need now)
                    → verify_record k x now no_revocations ≡ ok tt
                    → id_of x ≡ id_of r
                    → x.payload.version ≤ r.payload.version))
      unfolding federated_search
      federated_search_sound = (
        omega (arith, length-take need.top_k sorted),
        results-Apart,
        (λ r m.
            let a = Has-result r m in
            (
              a.1,
              (λ i x sel ans good same.
                  let c =
                    gather-Covers k embedder now fed need
                      (select_peers k embedder fed need.intent_text) [] i x sel ans good in
                  let q : some c.0 ≡ some r =
                    sym c.1 ∙ (ap (λ j. Dict.get j collected) same ∙ a.0) in
                  ground arith),
            )),
      )
