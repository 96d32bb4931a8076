-- ===== src/Core/Checkpoint/Positions.antt =====
-- What a run that records each step under its position replays.
use mathlib.Core.List.{foldl}
use text.Mathlib.TextEquality.{eq_iff}
use thicket_ai.Base.{
  ℕ, zero, suc, ◌+◌, ◌<◌, ◌≡◌, ◌≢◌, refl, ap, sym, ◌∙◌, inl, inr, true, false, String, Option, none,
  some, List, [], ◌∷◌, ◌++◌, Bytes, find, length, ◌==◌, String_eq, arith, Bool-cases,
}
use thicket_ai.Base.Decimal.{decimal_injective}
use thicket_ai.Core.Checkpoint.{
  Step, Checkpoint, new_checkpoint, value_of, replay, record_step, position, next_key,
}

-- one step of a run: its value is recorded under the next position
unfoldable pub record_next : Checkpoint → Bytes → Checkpoint
record_next c value = record_step c (next_key c) value

unfoldable pub record_all : Checkpoint → List Bytes → Checkpoint
record_all c values = foldl record_next c values

abbrev pub get_elem? : List Bytes → ℕ → Option Bytes
get_elem? [] i = none
get_elem? (v ∷ vs) zero = some v
get_elem? (v ∷ vs) (suc i) = get_elem? vs i

-- the values, under the positions from `k`
abbrev numbered : ℕ → List Bytes → List Step
numbered k [] = []
numbered k (v ∷ vs) = record { key = position k; value = v } ∷ numbered (suc k) vs

tail_of : String → String
tail_of String.[] = String.[]
tail_of (String.◌∷◌ c s) = s

position_injective : (m n : ℕ) → position m ≡ position n → m ≡ n
unfolding position tail_of
position_injective m n e = decimal_injective m n (ap tail_of e)

position-ne : (m n : ℕ) → m ≢ n → (position m == position n) ≡ false
position-ne m n h = elim (Bool-cases (position m == position n)) [
  | inl e ↦ absurd (h (position_injective m n ((eq_iff (position m) (position n)).0 e)))
  | inr e ↦ e
]

position-eq : (n : ℕ) → (position n == position n) ≡ true
position-eq n = (eq_iff (position n) (position n)).1 refl

before-numbered :
    (i k : ℕ) (vs : List Bytes)
    → i < k
    → value_of (find (λ s. s.key == position i) (numbered k vs)) ≡ none
unfolding value_of
before-numbered i k [] h = refl
before-numbered i k (v ∷ vs) h =
    rw (position-ne k i (λ e. absurd (omega (arith, e, h))))
      (before-numbered i (suc k) vs (omega (arith, h)))

find-numbered :
    (k i j : ℕ) (vs : List Bytes)
    → j ≡ k + i
    → value_of (find (λ s. s.key == position j) (numbered k vs)) ≡ get_elem? vs i
unfolding value_of
find-numbered k i j [] h = refl
find-numbered k zero j (v ∷ vs) h =
    let here : j ≡ k = omega (arith, h) in rw (here, position-eq k) refl
find-numbered k (suc i) j (v ∷ vs) h =
    rw (position-ne k j (λ e. absurd (omega (arith, e, h))))
      (find-numbered (suc k) i j vs (omega (arith, h)))

get_elem?-length : (vs : List Bytes) → get_elem? vs (length vs) ≡ none
get_elem?-length [] = refl
get_elem?-length (v ∷ vs) = get_elem?-length vs

length-numbered : (k : ℕ) (vs : List Bytes) → length (numbered k vs) ≡ length vs
length-numbered k [] = refl
length-numbered k (v ∷ vs) = ap suc (length-numbered (suc k) vs)

numbered-append :
    (k n : ℕ) (vs : List Bytes) (v : Bytes)
    → n ≡ k + length vs
    → numbered k (vs ++ (v ∷ [])) ≡ numbered k vs ++ (record { key = position n; value = v } ∷ [])
numbered-append k n [] v h = let here : n ≡ k = omega (arith, h) in rw here refl
numbered-append k n (w ∷ vs) v h =
    ap (λ l. record { key = position k; value = w } ∷ l)
      (numbered-append (suc k) n vs v (omega (arith, h)))

append_assoc_one :
    (vs : List Bytes) (v : Bytes) (ws : List Bytes) → (vs ++ (v ∷ [])) ++ ws ≡ vs ++ (v ∷ ws)
append_assoc_one [] v ws = refl
append_assoc_one (x ∷ vs) v ws = ap (λ l. x ∷ l) (append_assoc_one vs v ws)

append-nil : (vs : List Bytes) → vs ++ [] ≡ vs
append-nil [] = refl
append-nil (v ∷ vs) = ap (λ l. v ∷ l) (append-nil vs)

record_step_fresh :
    (c : Checkpoint) (key : String) (v : Bytes)
    → replay c key ≡ none
    → record_step c key v ≡ record c { steps = c.steps ++ (record { key = key; value = v } ∷ []) }
unfolding record_step
record_step_fresh c key v h = rw (record_step, h) refl

record_next-numbered :
    (run : Bytes) (vs : List Bytes) (v : Bytes)
    → record_next (record { run_id = run; steps = numbered 0 vs }) v
      ≡ record { run_id = run; steps = numbered 0 (vs ++ (v ∷ [])) }
unfolding record_next next_key
record_next-numbered run vs v =
    let fresh : replay (record { run_id = run; steps = numbered 0 vs }) (position (length vs))
        ≡ none =
      unfold replay in
      find-numbered 0 (length vs) (length vs) vs (omega arith) ∙ get_elem?-length vs in
    ap (λ n. record_step (record { run_id = run; steps = numbered 0 vs }) (position n) v)
      (length-numbered 0 vs)
    ∙ record_step_fresh (record { run_id = run; steps = numbered 0 vs }) (position (length vs)) v
        fresh
    ∙ (ap (λ l. record { run_id = run; steps = l })
        (sym (numbered-append 0 (length vs) vs v (omega arith))))

record_all-numbered :
    (run : Bytes) (vs ws : List Bytes)
    → record_all (record { run_id = run; steps = numbered 0 vs }) ws
      ≡ record { run_id = run; steps = numbered 0 (vs ++ ws) }
unfolding record_all
record_all-numbered run vs [] =
    ap (λ l. record { run_id = run; steps = numbered 0 l }) (sym (append-nil vs))
record_all-numbered run vs (w ∷ ws) =
    ap (λ c. foldl record_next c ws) (record_next-numbered run vs w)
    ∙ record_all-numbered run (vs ++ (w ∷ [])) ws
    ∙ ap (λ l. record { run_id = run; steps = numbered 0 l }) (append_assoc_one vs w ws)

-- A run that records each value under its next position loses none: position `i` replays the value of
-- step `i`, and a position that the run has not reached replays nothing.
pub replay-record_all :
    (run : Bytes) (values : List Bytes) (i : ℕ)
    → replay (record_all (new_checkpoint run) values) (position i) ≡ get_elem? values i
unfolding new_checkpoint
replay-record_all run values i =
    ap (λ c. replay c (position i)) (record_all-numbered run [] values)
    ∙ (unfold replay in find-numbered 0 i i values (omega arith))
