-- ===== src/Memory/Slab/GivenBack.antt =====
-- kheap_slab.cpp: a slab to which `free` gives an object back, and the others.
use singularity.Common.{
  ℕ, ◌+◌, ◌-◌, ◌%◌, ◌^◌, ◌<◌, ◌≡◌, ◌≢◌, refl, arith, List, [], ◌∷◌, All, All-zip, All-map, ap, sym,
  subst, ◌∙◌,
}
use singularity.Memory.Words.{Memory, load, store, load-store, load-Agree, store-Agree}
use singularity.Memory.Slab.{Slab, slab_of, to_u16}
use singularity.Memory.Slab.Sound.{IsSlot, Chain, IsSlab}

-- A write to the first word of one object leaves those of the others.
load-other :
    (obj_size : ℕ) (m : Memory) (s ptr w y : ℕ)
    → IsSlot obj_size s y
    → ptr % 8 ≡ 0
    → y ≢ ptr
    → load (store m ptr w) y ≡ load m y
load-other obj_size m s ptr w y slot a ne =
    load-Agree m (store m ptr w) y (store-Agree m ptr w y 8 (ground (arith, slot.aligned)))

Chain-frame :
    (m m' : Memory) (h : ℕ) (xs : List ℕ)
    → All (λ y. load m' y ≡ load m y) xs
    → Chain m h xs
    → Chain m' h xs
Chain-frame m m' h [] same chain = chain
Chain-frame m m' h (x ∷ xs) same chain = (
  chain.0,
  subst (λ w. Chain m' w xs) (sym same.0) (Chain-frame m m' (load m x) xs same.1 chain.1),
)

head-word :
    (obj_size : ℕ) (m : Memory) (s h : ℕ) (xs : List ℕ)
    → Chain m h xs
    → All (IsSlot obj_size s) xs
    → h < 2 ^ 64
head-word obj_size m s h [] chain slots = omega (arith, chain)
head-word obj_size m s h (x ∷ xs) chain slots = omega (arith, chain.0, slots.0.word)

-- Objects of different slabs are different.
slot-ne :
    (obj_size s k y ptr : ℕ) → IsSlot obj_size s y → slab_of obj_size ptr ≡ k → s ≢ k → y ≢ ptr
slot-ne obj_size s k y ptr slot e ne same = ne (sym slot.inside ∙ ap (slab_of obj_size) same ∙ e)

-- A slab that the written object is not of is as it was.
pub IsSlab-other :
    (obj_size : ℕ) (m : Memory) (slab : Slab) (s ptr w y : ℕ) (xs : List ℕ)
    → slab_of obj_size ptr ≡ s
    → ptr % 8 ≡ 0
    → y ≢ s
    → IsSlab obj_size m slab y xs
    → IsSlab obj_size (store m ptr w) slab y xs
IsSlab-other obj_size m slab s ptr w y xs inside a ne v = record {
  pages = v.pages;
  counted = v.counted;
  positive = v.positive;
  bounded = v.bounded;
  chain =
      Chain-frame m (store m ptr w) slab.free_list xs
        (All-map xs
          (λ (z : ℕ) (slot : IsSlot obj_size y z).
            load-other obj_size m y ptr w z slot a (slot-ne obj_size y s z ptr slot inside ne))
          v.slots)
        v.chain;
  slots = v.slots;
  distinct = v.distinct;
}

-- The slab after an object is given back to it.
abbrev pub given_back : Slab → ℕ → Slab
given_back slab ptr = record slab {
  free_list = ptr;
  used_count = to_u16 (slab.used_count + 2 ^ 16 - 1);
}

pub IsSlab-given_back :
    (obj_size : ℕ) (m : Memory) (slab : Slab) (s ptr : ℕ) (xs : List ℕ)
    → IsSlab obj_size m slab s xs
    → IsSlot obj_size s ptr
    → 0 < slab.used_count
    → All (λ y. y ≢ ptr) xs
    → IsSlab obj_size (store m ptr slab.free_list) (given_back slab ptr) s (ptr ∷ xs)
IsSlab-given_back obj_size m slab s ptr xs v slot used fresh =
    let head = head-word obj_size m s slab.free_list xs v.chain v.slots in
    let m' = store m ptr slab.free_list in
    let same =
      All-zip xs
        (λ (y : ℕ) (k : IsSlot obj_size s y) (ne : y ≢ ptr).
          load-other obj_size m s ptr slab.free_list y k slot.aligned ne)
        v.slots fresh in
    record {
      pages = v.pages;
      counted = omega (arith, v.counted, v.bounded);
      positive = v.positive;
      bounded = v.bounded;
      chain = (
        refl,
        subst (λ h. Chain m' h xs) (sym (load-store m ptr slab.free_list head))
            (Chain-frame m m' slab.free_list xs same v.chain),
      );
      slots = (slot, v.slots);
      distinct = (fresh, v.distinct);
    }
