-- ===== src/Tests/Primitives.antt =====
-- What the primitives that can be run satisfy beyond the laws: a signature fits one message, and the
-- encodings show the nonce and the lease.
use thicket_ai.Base.{
  ℕ, zero, suc, ◌<◌, ◌≡◌, refl, sym, ap, ◌∙◌, true, [], ◌∷◌, ◌++◌, Option, none, some, Bytes,
  list_eq_iff, arith, List_eq, ℕ_eq,
}
use thicket_ai.Core.{Lease, RecordPayload}
use thicket_ai.Interconnect.Data.{ProofView}
use thicket_ai.Tests.World.{doubled, fit, pack, toy_sign, toy, toy_kernel, toy_fabric, lease_bytes}

doubled_positive : (a x : ℕ) → zero < doubled a x
unfolding doubled
doubled_positive zero x = omega arith
doubled_positive (suc a) x = omega (arith, doubled_positive a x)

odd_split : (a b x y : ℕ) → doubled a x ≡ doubled b y → (a ≡ b) × (x ≡ y)
unfolding doubled
odd_split zero zero x y h = (refl, omega arith)
odd_split zero (suc b) x y h = absurd (omega arith)
odd_split (suc a) zero x y h = absurd (omega arith)
odd_split (suc a) (suc b) x y h = let r = odd_split a b x y (omega arith) in (ap suc r.0, r.1)

pack_lem : (m m' : Bytes) → pack m ≡ pack m' → m ≡ m'
unfolding pack
pack_lem [] [] h = refl
pack_lem [] (x ∷ xs) h = absurd (omega (arith, doubled_positive x (pack xs)))
pack_lem (x ∷ xs) [] h = absurd (omega (arith, doubled_positive x (pack xs)))
pack_lem (x ∷ xs) (y ∷ ys) h =
    let s = odd_split x y (pack xs) (pack ys) h in ground (arith, pack_lem xs ys s.1)

head_eq : (x y : ℕ) (xs ys : Bytes) → (x ∷ xs) ≡ (y ∷ ys) → x ≡ y
head_eq x y xs ys h = ground arith

pub toy_once :
    (key sig m m' : Bytes)
    → toy.vk_verify key m sig ≡ true
    → toy.vk_verify key m' sig ≡ true
    → m ≡ m'
unfolding fit
toy_once key sig m m' h h' =
    let a : sig ≡ toy_sign key m = (list_eq_iff sig (toy_sign key m)).0 h in
    let b : sig ≡ toy_sign key m' = (list_eq_iff sig (toy_sign key m')).0 h' in
    pack_lem m m' (head_eq _ _ _ _ (sym a ∙ b))

pub shows_nonce :
    (v w : ProofView) → toy_fabric.write_proof v ≡ toy_fabric.write_proof w → v.nonce ≡ w.nonce
shows_nonce v w h = ground arith

lease_split :
    (l l' : Option Lease) (p q : Bytes) → lease_bytes l ++ p ≡ lease_bytes l' ++ q → l ≡ l'
lease_split none none p q h = refl
lease_split none (some l) p q h = absurd (ground arith)
lease_split (some l) none p q h = absurd (ground arith)
lease_split (some l) (some l') p q h = ground arith

pub shows_lease :
    (p q : RecordPayload)
    → toy_kernel.write_record p ≡ toy_kernel.write_record q
    → p.lease ≡ q.lease
shows_lease p q h =
    lease_split p.lease q.lease (p.version ∷ p.id.as_id_bytes) (q.version ∷ q.id.as_id_bytes)
      (ground arith)
