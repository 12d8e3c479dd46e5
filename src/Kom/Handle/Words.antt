-- ===== src/Kom/Handle/Words.antt =====
-- handle.cpp: the fields of a handle word, and the order on sets of rights.
use singularity.Common.{
  ℕ, ◌+◌, ◌*◌, ◌^◌, ◌<◌, ◌≡◌, true, arith, bit_and, bit_or, ==_iff, sym, ap, ◌∙◌,
}
use singularity.Common.Bits.{bit_or_disjoint, bit_and_self, bit_and_assoc}
use singularity.Kom.Handle.{pack, handle_idx, handle_gen, handle_caps, has_caps}

-- The fields of a handle do not overlap: the disjunction is a sum.
pub pack-eq-sum :
    (caps gen idx : ℕ)
    → gen < 2 ^ 16
    → idx < 2 ^ 32
    → pack caps gen idx ≡ caps * 2 ^ 48 + gen * 2 ^ 32 + idx
unfolding pack
pack-eq-sum caps gen idx g i = omega (
  arith,
  ap (bit_or (caps * 2 ^ 48)) (bit_or_disjoint 32 gen idx i),
  bit_or_disjoint 48 caps (gen * 2 ^ 32 + idx) (omega arith),
)

pub pack_fields :
    (caps gen idx : ℕ)
    → caps < 2 ^ 16
    → gen < 2 ^ 16
    → idx < 2 ^ 32
    → (handle_caps (pack caps gen idx) ≡ caps)
      × (handle_gen (pack caps gen idx) ≡ gen)
      × (handle_idx (pack caps gen idx) ≡ idx)
pack_fields caps gen idx c g i = omega (arith, pack-eq-sum caps gen idx g i)

pub has_caps_self : (caps : ℕ) → has_caps caps caps ≡ true
unfolding has_caps
has_caps_self caps = (==_iff _ _).1 (bit_and_self caps)

pub has_caps_trans : (a b c : ℕ) → has_caps a b ≡ true → has_caps b c ≡ true → has_caps a c ≡ true
unfolding has_caps
has_caps_trans a b c p q =
    let ab = (==_iff _ _).0 p in
    let bc = (==_iff _ _).0 q in
    (==_iff _ _).1
      (ap (bit_and a) (sym bc) ∙ sym (bit_and_assoc a b c) ∙ ap (λ x. bit_and x c) ab ∙ bc)
