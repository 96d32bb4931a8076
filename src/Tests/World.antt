-- ===== src/Tests/World.antt =====
-- Primitives that can be run and that meet the laws. A signature is 64 numbers, the first of which
-- codes the whole message.
use thicket_ai.Base.{
  ℕ, zero, suc, ◌+◌, ◌-◌, ◌*◌, ◌≡◌, ◌≢◌, refl, ap, true, false, [], ◌∷◌, ◌++◌, ok, Option, none,
  some, Bytes, as_bytes, length, length-append, take, length-take, ◌==◌, List_eq, ℕ_eq, eq_refl,
  arith,
}
use Prim.Native.Nat.{Ordering}
use thicket_ai.Base.Float.{Float}
use thicket_ai.Base.Sorting.{
  reverse, SortLaws, insertion_sort, insertion_sort-Perm, insertion_sort-Pairwise,
}
use thicket_ai.Core.Identity.{endorse_domain}
use thicket_ai.Core.Record.{record_domain}
use thicket_ai.Registry.{Embedder}
use thicket_ai.Registry.Scores.{NumberOrder}
use thicket_ai.Core.{
  KeyEndorsement, Visibility, SignedRecord, Primitives, PrimitiveLaws, Kernel, RecordPayload, Lease,
  ResourceId, RootKey, WorkingKey,
}
use thicket_ai.Interconnect.{Fabric}

abbrev pub zeros : ℕ → Bytes
zeros zero = []
zeros (suc n) = 0 ∷ zeros n

pub length-zeros : (n : ℕ) → length (zeros n) ≡ n
length-zeros zero = refl
length-zeros (suc n) = ap suc (length-zeros n)

-- `n` numbers: the list, cut or filled with zeros.
unfoldable pub fit : ℕ → Bytes → Bytes
fit n b = take n (b ++ zeros n)

pub length-fit : (n : ℕ) (b : Bytes) → length (fit n b) ≡ n
unfolding fit
length-fit n b =
    omega (arith, length-take n (b ++ zeros n), length-append b (zeros n), length-zeros n)

-- An odd number, doubled `b` times.
unfoldable pub doubled : ℕ → ℕ → ℕ
doubled zero n = 2 * n + 1
doubled (suc b) n = 2 * doubled b n

-- One number for a list.
unfoldable pub pack : Bytes → ℕ
unfolding doubled
pack [] = 0
pack (b ∷ bs) = doubled b (pack bs)

abbrev pub toy_sign : Bytes → Bytes → Bytes
toy_sign key msg = fit 64 (pack msg ∷ key)

abbrev pub toy : Primitives
toy = record {
  digest = fit 32;
  is_point = λ b. true;
  vk_verify = λ key msg sig. sig == toy_sign key msg;
  verifying_key = fit 32;
  signing_key_sign = λ seed msg. toy_sign (fit 32 seed) msg;
}

pub toy_laws : PrimitiveLaws toy
toy_laws = record {
  length-digest = length-fit 32;
  length-verifying_key = length-fit 32;
  length-sign = λ s m. length-fit 64 _;
  is_point-verifying_key = λ s. refl;
  verify-sign = λ s m. eq_refl (toy_sign (fit 32 s) m);
}

abbrev pub lease_bytes : Option Lease → Bytes
lease_bytes none = 0 ∷ []
lease_bytes (some l) = 1 ∷ l.ttl ∷ l.issued_at ∷ l.expires_at ∷ []

abbrev pub toy_kernel : Kernel
toy_kernel = record {
  crypto = toy;
  write_endorsement = λ v. ok (v.not_before ∷ v.not_after ∷ v.working_pub);
  write_revocation = λ v. ok (v.issued_at ∷ v.working_pub);
  write_record = λ p. ok (lease_bytes p.lease ++ p.version ∷ p.id.as_id_bytes);
}

abbrev pub toy_fabric : Fabric
toy_fabric = record {
  kernel = toy_kernel;
  write_link = λ v. ok (v.caveats.not_after ∷ v.audience_pub);
  write_envelope = λ p. ok (p.v ∷ p.correlation ++ p.body);
  write_proof = λ v. ok v.nonce;
}

abbrev pub root : RootKey
root = record { signing = 1 ∷ 2 ∷ 3 ∷ [] }

abbrev pub worker : WorkingKey
worker = record { signing = 4 ∷ 5 ∷ [] }

abbrev pub delegate : WorkingKey
delegate = record { signing = 6 ∷ [] }

abbrev pub root_key : Bytes
root_key = fit 32 (1 ∷ 2 ∷ 3 ∷ [])

abbrev pub worker_key : Bytes
worker_key = fit 32 (4 ∷ 5 ∷ [])

abbrev pub delegate_key : Bytes
delegate_key = fit 32 (6 ∷ [])

abbrev pub id : ResourceId
id = record { as_id_bytes = root_key }

abbrev pub other_id : ResourceId
other_id = record { as_id_bytes = delegate_key }

abbrev pub endorsement : ℕ → ℕ → KeyEndorsement
endorsement nb na = record {
  working_pub = worker_key;
  not_before = nb;
  not_after = na;
  root_sig = toy_sign root_key (as_bytes endorse_domain ++ 0 ∷ nb ∷ na ∷ worker_key);
}

abbrev pub lease : Lease
lease = record { ttl = 100; issued_at = 10; expires_at = 110 }

abbrev pub entry_payload : ℕ → RecordPayload
entry_payload version = record {
  schema = "record/1";
  id = id;
  root_public_key = root_key;
  keys = endorsement 10 20 ∷ [];
  kind = "agent";
  locators = [];
  capabilities =
      record {
        kind = "chat";
        description = "talks";
        io = none;
        tags = "en" ∷ [];
        modalities = [];
        envelope = [];
      }
      ∷ [];
  profile = [];
  supports = [];
  visibility = Visibility.public;
  lease = some lease;
  version = version;
  ext = [];
}

abbrev pub entry_message : ℕ → Bytes
entry_message version = as_bytes record_domain ++ 0 ∷ 1 ∷ 100 ∷ 10 ∷ 110 ∷ version ∷ root_key

abbrev pub entry : ℕ → SignedRecord
entry version = record {
  payload = entry_payload version;
  signer_pub = worker_key;
  signature = toy_sign worker_key (entry_message version);
}

unfoldable pub compare : ℕ → ℕ → Ordering
compare zero zero = Ordering.eq
compare zero (suc b) = Ordering.lt
compare (suc a) zero = Ordering.gt
compare (suc a) (suc b) = compare a b

pub compare_flip : (a b : ℕ) → compare b a ≡ reverse (compare a b)
unfolding compare
compare_flip zero zero = refl
compare_flip zero (suc b) = refl
compare_flip (suc a) zero = refl
compare_flip (suc a) (suc b) = compare_flip a b

compare_trans :
    (a b c : ℕ) → compare a b ≢ Ordering.gt → compare b c ≢ Ordering.gt → compare a c ≢ Ordering.gt
unfolding compare
compare_trans zero b zero h k q = ground arith
compare_trans zero b (suc c) h k q = ground arith
compare_trans (suc a) zero c h k q = absurd (h refl)
compare_trans (suc a) (suc b) zero h k q = absurd (k refl)
compare_trans (suc a) (suc b) (suc c) h k q = compare_trans a b c h k q

-- Whole numbers in place of floats.
abbrev pub whole : Float
whole = record {
  F32 = ℕ;
  add = λ a b. a + b;
  mul = λ a b. a * b;
  div = λ a b. a - b;
  max = λ a b. a + b;
  sqrt = λ a. a;
  is_zero = λ a. a == 0;
  above = λ a b. false;
  partial_cmp = λ a b. some (compare a b);
  from_u64 = λ n. n;
  zero = 0;
  one = 1;
  half = 0;
  lowest = 0;
  sort_by = λ cmp xs. insertion_sort cmp xs;
}

abbrev pub by_length : Embedder whole
by_length = record { dim = 1; embed = λ s. length (as_bytes s) ∷ [] }

pub whole_sorts : SortLaws whole
whole_sorts = record {
  permutes = λ cmp xs. insertion_sort-Perm cmp xs;
  sorts = λ cmp xs o. insertion_sort-Pairwise cmp xs o;
}

pub compare_trans_some :
    (a b c : ℕ)
    → whole.partial_cmp a b ≢ some Ordering.gt
    → whole.partial_cmp b c ≢ some Ordering.gt
    → whole.partial_cmp a c ≢ some Ordering.gt
compare_trans_some a b c h k e =
    compare_trans a b c (λ x. h (ap some x)) (λ x. k (ap some x)) (ground arith)

abbrev pub whole_order : NumberOrder whole
whole_order = record {
  IsNumber = λ a. Unit;
  flips = λ a b p q. (compare a b, refl, ap some (compare_flip a b));
  trans = λ a b c p q r h l. compare_trans_some a b c h l;
}
