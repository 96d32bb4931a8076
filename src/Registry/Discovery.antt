-- ===== src/Registry/Discovery.antt =====
-- Searching.
use Prim.Native.Nat.{Ordering}
use mathlib.Core.List.{Permᴰ}
use mathlib.Core.List.Permᴰ
use thicket_ai.Base.{
  ℕ, String, Bool-cases, ◌≤◌, ◌≡◌, ◌≢◌, ◌⊎◌, ◌↔◌, inl, inr, refl, ap, ◌∙◌, true, false, not, none,
  some, Option, List, ◌++◌, map, min, arith, take, drop, length, Has, All, Some, any, contains,
  any_iff, all_iff, contains_iff, All-Has, All-of_Has, ltb, ◌==◌, String_eq, ◌||◌, Has-filter,
  Has-filter_keep, Has-take, Has-map, Has-map_inv, length-map, length-take, take_of_length-le,
}
use thicket_ai.Base.Float.{Float}
use thicket_ai.Base.Sorting.{
  SortLaws, Has-Perm, length-Perm, Pairwise, Pairwise-weaken, take-append-drop,
}
use thicket_ai.Core.{Kernel, ResourceId, Visibility, SignedRecord, Capability, Lease}
use thicket_ai.Registry.{
  Need, Embedder, lease_expired, is_public, kind_matches, tags_match, Stored, Registry,
  best_capability_score, by_score, candidates, search,
}
use thicket_ai.Registry.Scores.{NumberOrder, by_score-NotAbove, by_score-IsOrder}

-- The record has not run out.
abbrev pub Live : Option Lease → ℕ → Type 0
Live none now = Unit
Live (some l) now = now ≤ l.expires_at

-- The record, or one of its capabilities, is of the kind, where one is asked for.
abbrev pub FitsKind : Option String → SignedRecord → Type 0
FitsKind none r = Unit
FitsKind (some kind) r =
    (r.payload.kind ≡ kind) ⊎ Some (λ (c : Capability). c.kind ≡ kind) r.payload.capabilities

-- Each tag stands on some capability of the record.
abbrev pub HasTags : List String → SignedRecord → Type 0
HasTags tags r = All (λ t. Some (λ (c : Capability). Has t c.tags) r.payload.capabilities) tags

lease_expired_iff :
    (r : SignedRecord) (now : ℕ) → (lease_expired r now ≡ false) ↔ Live r.payload.lease now
unfolding lease_expired
lease_expired_iff r now = go r.payload.lease
  where
    go :
        (lease : Option Lease)
        → (elim lease [ none ↦ false | some l ↦ ltb l.expires_at now ] ≡ false) ↔ Live lease now
    go none = ((λ h. tt), (λ h. refl))
    go (some l) = ground arith

kind_matches_iff :
    (r : SignedRecord) (need : Need) → (kind_matches r need ≡ true) ↔ FitsKind need.kind r
unfolding kind_matches
kind_matches_iff r need = go need.kind
  where
    go :
        (wanted : Option String)
        → (elim wanted [
          | none ↦ true
          | some k ↦ r.payload.kind == k || any (λ c. c.kind == k) r.payload.capabilities
        ]
            ≡ true)
          ↔ FitsKind wanted r
    go none = ((λ h. tt), (λ h. refl))
    go (some k) =
        let own = String_eq.same_iff r.payload.kind k in
        let other =
          any_iff (λ (c : Capability). c.kind == k) (λ c. c.kind ≡ k)
            (λ c. String_eq.same_iff c.kind k) r.payload.capabilities in
        (
          (λ h. elim (Bool-cases (r.payload.kind == k)) [
            | inl same ↦ inl (own.0 same)
            | inr differs ↦ inr (other.0 (ground arith))
          ]),
          (λ h. elim h [
            | inl q ↦ let same = own.1 q in ground arith
            | inr m ↦ let found = other.1 m in ground arith
          ]),
        )

tags_match_iff : (r : SignedRecord) (need : Need) → (tags_match r need ≡ true) ↔ HasTags need.tags r
unfolding tags_match
tags_match_iff r need =
    let each =
      all_iff (λ t. any (λ (c : Capability). contains c.tags t) r.payload.capabilities)
        (λ t. Some (λ (c : Capability). Has t c.tags) r.payload.capabilities)
        (λ t.
          any_iff (λ (c : Capability). contains c.tags t) (λ c. Has t c.tags)
            (λ c. contains_iff c.tags t) r.payload.capabilities)
        need.tags in
    ((λ h. All-of_Has _ need.tags (each.0 h)), (λ h. each.1 (λ t m. All-Has _ need.tags t h m)))

module _ (k : Kernel) {fl : Float} (embedder : Embedder fl) where
  -- The entry `s` stands in the store, is public and has not run out, is of the wanted kind or has
  -- a capability that is, and has each wanted tag on some capability.
  pub record Qualifies (reg : Registry fl) (need : Need) (now : ℕ) (s : Stored fl) : Type 0 where
    pub id : ResourceId
    pub stored : Has (id, s) reg.store
    pub open_to_all : s.entry.payload.visibility ≡ Visibility.public
    pub live : Live s.entry.payload.lease now
    pub fits_kind : FitsKind need.kind s.entry
    pub tagged : HasTags need.tags s.entry

  visibility_public : (v : Visibility) → is_public v ≡ true → v ≡ Visibility.public
  visibility_public Visibility.public h = refl
  visibility_public Visibility.unlisted h = ground arith
  visibility_public Visibility.private h = ground arith

  candidates_sound :
      (reg : Registry fl) (need : Need) (now : ℕ) (s : Stored fl)
      → Has s (candidates k embedder reg need now)
      → Qualifies reg need now s
  unfolding candidates
  candidates_sound reg need now s m =
      let a = Has-filter (λ s. tags_match s.entry need) _ s m in
      let b = Has-filter (λ s. kind_matches s.entry need) _ s a.0 in
      let c = Has-filter (λ s. not (lease_expired s.entry now)) _ s b.0 in
      let d = Has-filter (λ s. is_public s.entry.payload.visibility) _ s c.0 in
      let e = Has-map_inv (λ e. e.1) reg.store s d.0 in
      record {
        id = e.0.0;
        stored = rw e.2 e.1;
        open_to_all = visibility_public _ d.1;
        live = (lease_expired_iff s.entry now).0 (ground arith);
        fits_kind = (kind_matches_iff s.entry need).0 b.1;
        tagged = (tags_match_iff s.entry need).0 a.1;
      }

  candidates_complete :
      (reg : Registry fl) (need : Need) (now : ℕ) (s : Stored fl)
      → Qualifies reg need now s
      → Has s (candidates k embedder reg need now)
  unfolding candidates
  candidates_complete reg need now s q =
      Has-filter_keep (λ s. tags_match s.entry need) _ s
        (Has-filter_keep (λ s. kind_matches s.entry need) _ s
          (Has-filter_keep (λ s. not (lease_expired s.entry now)) _ s
            (Has-filter_keep (λ s. is_public s.entry.payload.visibility) _ s
              (Has-map (λ e. e.1) reg.store (q.id, s) q.stored) (ap is_public q.open_to_all))
            (ap not ((lease_expired_iff s.entry now).1 q.live)))
          ((kind_matches_iff s.entry need).1 q.fits_kind))
        ((tags_match_iff s.entry need).1 q.tagged)

  abbrev pub match_score : Need → Stored fl → fl.F32
  match_score need s = best_capability_score fl (embedder.embed need.intent_text) s

  abbrev with_score : Need → Stored fl → fl.F32 × Stored fl
  with_score need s = (match_score need s, s)

  abbrev pub scored : Registry fl → Need → ℕ → List (fl.F32 × Stored fl)
  scored reg need now = map (with_score need) (candidates k embedder reg need now)

  abbrev pub record_of : fl.F32 × Stored fl → SignedRecord
  record_of p = p.1.entry

  abbrev sorted : Registry fl → Need → ℕ → List (fl.F32 × Stored fl)
  sorted reg need now = fl.sort_by (by_score fl) (scored reg need now)

  length-scored :
      (reg : Registry fl) (need : Need) (now : ℕ)
      → length (scored reg need now) ≡ length (candidates k embedder reg need now)
  length-scored reg need now = length-map (with_score need) (candidates k embedder reg need now)

  module _ (laws : SortLaws fl) where
    -- Every result of a search is the record of a stored entry that is public and live, is of the
    -- wanted kind or has a capability that is, and has each wanted tag on some capability; and there
    -- are at most `top_k`.
    pub search_sound :
        (reg : Registry fl) (need : Need) (now : ℕ)
        → (length (search k embedder reg need now) ≤ need.top_k)
          × ((r : SignedRecord)
              → Has r (search k embedder reg need now)
              → (s : Stored fl) × Qualifies reg need now s × (r ≡ s.entry))
    unfolding search
    search_sound reg need now = (
      omega (
        arith,
        length-map record_of (take need.top_k (sorted reg need now)),
        length-take need.top_k (sorted reg need now),
      ),
      (λ r m.
          let a = Has-map_inv record_of (take need.top_k (sorted reg need now)) r m in
          let b =
            Has-Perm a.0 (laws.permutes (by_score fl) (scored reg need now))
              (Has-take need.top_k _ a.0 a.1) in
          let c = Has-map_inv (with_score need) (candidates k embedder reg need now) a.0 b in
          (c.0, candidates_sound reg need now c.0 c.1, a.2 ∙ ap record_of c.2)),
    )

    -- A search misses nothing that there is room for: where no more than `top_k` entries pass its
    -- filters, every entry that is public and live, fits the wanted kind and has the wanted tags is
    -- found.
    pub search_complete :
        (reg : Registry fl) (need : Need) (now : ℕ) (s : Stored fl)
        → length (candidates k embedder reg need now) ≤ need.top_k
        → Qualifies reg need now s
        → Has s.entry (search k embedder reg need now)
    unfolding search
    search_complete reg need now s room q =
        let p = laws.permutes (by_score fl) (scored reg need now) in
        let all_taken =
          take_of_length-le need.top_k (sorted reg need now)
            (omega (arith, length-Perm p, length-scored reg need now)) in
        Has-map record_of (take need.top_k (sorted reg need now)) (with_score need s) (
          rw all_taken (
            Has-Perm (with_score need s) (Permᴰ.symm p) (
              Has-map (with_score need) (candidates k embedder reg need now) s
                (candidates_complete reg need now s q))))

    -- Where the scores of the candidates are numbers, a search returns the best: its results are,
    -- in this order, the first of all candidates ranked by their scores, as many as `top_k` and the
    -- candidates allow, and no candidate, returned or not, compares above one that is ranked before
    -- it.
    pub search_ranks :
        (order : NumberOrder fl) (reg : Registry fl) (need : Need) (now : ℕ)
        → All (λ s. order.IsNumber (match_score need s)) (candidates k embedder reg need now)
        → (results cut : List (fl.F32 × Stored fl)) × (search k embedder reg need now
            ≡ map record_of results)
          × (length results ≡ min need.top_k (length (candidates k embedder reg need now)))
          × Permᴰ (results ++ cut) (scored reg need now)
          × Pairwise (λ p q. fl.partial_cmp q.0 p.0 ≢ some Ordering.gt) (results ++ cut)
    unfolding search
    search_ranks order reg need now numbers =
        let p = laws.permutes (by_score fl) (scored reg need now) in
        let whole = take-append-drop need.top_k (sorted reg need now) in
        (
          take need.top_k (sorted reg need now),
          drop need.top_k (sorted reg need now),
          refl,
          omega (
            arith,
            length-take need.top_k (sorted reg need now),
            length-Perm p,
            length-scored reg need now,
          ),
          rw whole p,
          rw whole (
              Pairwise-weaken _ _ (λ a b. by_score-NotAbove fl a b) _
                (laws.sorts (by_score fl) (scored reg need now) (
                  by_score-IsOrder fl order (scored reg need now) (λ a m.
                    let c =
                      Has-map_inv (with_score need) (candidates k embedder reg need now) a m in
                    rw (ap (λ (x : fl.F32 × Stored fl). x.0) c.2)
                      (All-Has _ (candidates k embedder reg need now) c.0 numbers c.1))))),
        )
