-- ===== src/Memory/Slab/Create.antt =====
-- kheap_slab.cpp: the slab that `createSlab` makes.
use singularity.Common.{
  ℕ, zero, suc, ◌+◌, ◌-◌, ◌*◌, ◌/◌, ◌%◌, ◌^◌, ◌≤◌, ◌<◌, ◌≡◌, ◌≢◌, refl, true, some, arith, List, [],
  ◌∷◌, length, All, Distinct, ap, sym, subst, inl, ◌∙◌, bit_and,
}
use native.Mathlib.Nat.{div-add-mod}
use singularity.Common.Bits.{bit_and_step, bit_and-low_mask}
use singularity.Memory.Arena.{align_up, page_size, to_u64}
use singularity.Memory.Words.{Memory, load, store, fill, Agree, load-store, load-Agree, store-Agree}
use singularity.Memory.Slab.{
  Slab, Store, slab_pages, slab_of, thread, create_slab, slab_header, to_u16,
}
use singularity.Memory.Slab.Sound.{IsSlot, Chain, IsSlab}

-- The `n` objects from an address on.
abbrev pub objects : ℕ → ℕ → ℕ → List ℕ
objects obj_size zero p = []
objects obj_size (suc n) p = p ∷ objects obj_size n (p + obj_size)

thread-Agree :
    (obj_size n : ℕ) (m : Memory) (p b len : ℕ)
    → b + len ≤ p
    → Agree m (thread obj_size n m p) b len
unfolding thread
thread-Agree obj_size zero m p b len before x lo hi = store-Agree m p 0 b len (inl before) x lo hi
thread-Agree obj_size (suc n) m p b len before x lo hi =
    thread-Agree obj_size n (store m p (p + obj_size)) (p + obj_size) b len (omega arith) x lo hi
    ∙ store-Agree m p (p + obj_size) b len (inl before) x lo hi

-- The loop links the objects in order.
thread-Chain :
    (obj_size n : ℕ) (m : Memory) (p : ℕ)
    → 8 ≤ obj_size
    → p + n * obj_size < 2 ^ 64
    → Chain (thread obj_size n m p) p (objects obj_size (suc n) p)
unfolding thread
thread-Chain obj_size zero m p wide fits = (refl, load-store m p 0 (omega arith))
thread-Chain obj_size (suc n) m p wide fits =
    let next = p + obj_size in
    let m1 = store m p next in
    let m2 = thread obj_size n m1 next in
    let total : suc n * obj_size ≡ obj_size + n * obj_size = grind arith in
    let link : load m2 p ≡ next =
      load-Agree m1 m2 p (thread-Agree obj_size n m1 next p 8 (omega arith))
      ∙ load-store m p next (omega (arith, fits, total)) in
    let rest = thread-Chain obj_size n m1 next wide (omega (arith, fits, total)) in
    (refl, subst (λ h. Chain m2 h (objects obj_size (suc n) next)) (sym link) rest)

-- All objects lie in the slab, and are different.
objects-above : (obj_size n p q : ℕ) → p < q → All (λ y. y ≢ p) (objects obj_size n q)
objects-above obj_size zero p q h = tt
objects-above obj_size (suc n) p q h =
    (λ e. omega (arith, e), objects-above obj_size n p (q + obj_size) (omega arith))

objects-Distinct : (obj_size n p : ℕ) → 0 < obj_size → Distinct (objects obj_size n p)
objects-Distinct obj_size zero p h = tt
objects-Distinct obj_size (suc n) p h = (
  objects-above obj_size n p (p + obj_size) (omega arith),
  objects-Distinct obj_size n (p + obj_size) h,
)

length-objects : (obj_size n p : ℕ) → length (objects obj_size n p) ≡ n
length-objects obj_size zero p = refl
length-objects obj_size (suc n) p = ap suc (length-objects obj_size n (p + obj_size))

inside-IsSlot :
    (obj_size s x : ℕ)
    → s % (slab_pages obj_size * page_size) ≡ 0
    → s ≤ x
    → x < s + slab_pages obj_size * page_size
    → x % 8 ≡ 0
    → 0 < x
    → x < 2 ^ 64
    → IsSlot obj_size s x
unfolding slab_of slab_pages
inside-IsSlot obj_size s x a lo hi al pos word = record {
  inside = ground arith;
  aligned = al;
  not_null = pos;
  word = word;
}

objects-IsSlot :
    (obj_size s n p : ℕ)
    → s % (slab_pages obj_size * page_size) ≡ 0
    → obj_size % 8 ≡ 0
    → p % 8 ≡ 0
    → s ≤ p
    → 0 < p
    → p + n * obj_size ≤ s + slab_pages obj_size * page_size
    → s + slab_pages obj_size * page_size ≤ 2 ^ 64
    → 0 < obj_size
    → All (IsSlot obj_size s) (objects obj_size n p)
objects-IsSlot obj_size s zero p a o al lo pos hi word size = tt
objects-IsSlot obj_size s (suc n) p a o al lo pos hi word size =
    let total : suc n * obj_size ≡ obj_size + n * obj_size = grind arith in
    (
      inside-IsSlot obj_size s p a lo (omega (arith, total, hi)) al pos
          (omega (arith, total, hi, word)),
      objects-IsSlot obj_size s n (p + obj_size) a o (omega arith) (omega arith) (omega arith)
          (omega (arith, total, hi)) word size,
    )

align_16 : (x : ℕ) → x % 16 ≡ 0 → x + 16 ≤ 2 ^ 64 → align_up x 16 ≡ x
unfolding align_up
align_16 x h fits =
    let y : ℕ = x + 15 in
    let m : ℕ = 2 ^ 64 - 16 in
    let word : to_u64 (x + 15) ≡ x + 15 = omega arith in
    omega (
      arith,
      ap (λ z. bit_and z (2 ^ 64 - 16)) word,
      bit_and_step y m,
      bit_and_step (y / 2) (m / 2),
      bit_and_step (y / 2 / 2) (m / 2 / 2),
      bit_and_step (y / 2 / 2 / 2) (m / 2 / 2 / 2),
      bit_and-low_mask 60 (y / 2 / 2 / 2 / 2) (omega arith),
    )

abbrev new_slab : ℕ → ℕ → ℕ → Slab
new_slab obj_size ds total = record {
  free_list = ds;
  used_count = 0;
  total_count = to_u16 total;
  page_count = slab_pages obj_size;
}

created :
    (t t' : Store) (page : ℕ)
    → create_slab true t ≡ (some page, t')
    → let size = t.cache.obj_size in
      let bytes = slab_pages size * page_size in
      let ds = align_up (page + slab_header) 16 in
      let total = (bytes - (ds - page)) / size in
      (0 < page)
      × (t'.slabs page ≡ new_slab size ds total)
      × (t'.memory ≡ thread size (to_u16 total - 1) (fill t.memory page 0 bytes) ds)
unfolding create_slab
created t t' page e = ground arith

-- How many objects of a size have a place.
share :
    (avail size : ℕ)
    → 16 ≤ size
    → size ≤ avail
    → avail < 2 ^ 14
    → let total = avail / size in
      (0 < total) × (total < 2 ^ 16) × (total * size ≤ avail) × (avail < suc total * size)
share avail size lo hi few =
    let split = div-add-mod avail size in
    let rest : avail % size < size = grind arith in
    let more : suc (avail / size) * size ≡ size + avail / size * size = grind arith in
    let most : avail / size * 16 ≤ avail / size * size = grind arith in
    let whole : avail / size * size ≤ avail = grind (arith, split) in
    let beyond : avail < suc (avail / size) * size = grind (arith, split, rest, more) in
    let some_total : 0 < avail / size = grind (arith, beyond, hi) in
    (some_total, omega (arith, most, whole, few), whole, beyond)

page_mod : (obj_size page : ℕ) → page % (slab_pages obj_size * page_size) ≡ 0 → page % 16 ≡ 0
unfolding slab_pages
page_mod obj_size page a = ground arith

bytes_few : (obj_size : ℕ) → slab_pages obj_size * page_size ≤ 8192
unfolding slab_pages
bytes_few obj_size = ground arith

-- When `createSlab` is given an aligned page and frames, and an object with the slab's header fits into
-- it, it makes a slab of as many objects as fit, all free, different, aligned and inside the slab, and
-- linked in order.
pub create_slab-IsSlab :
    (t t' : Store) (page : ℕ)
    → create_slab true t ≡ (some page, t')
    → page % (slab_pages t.cache.obj_size * page_size) ≡ 0
    → page + slab_pages t.cache.obj_size * page_size + 16 ≤ 2 ^ 64
    → t.cache.obj_size % 16 ≡ 0
    → 0 < t.cache.obj_size
    → t.cache.obj_size + slab_header ≤ slab_pages t.cache.obj_size * page_size
    → (total : ℕ) × IsSlab t.cache.obj_size t'.memory
        (t'.slabs page)
        page
        (objects t.cache.obj_size total (page + slab_header))
      × ((t'.slabs page).used_count ≡ 0)
      × (total * t.cache.obj_size + slab_header ≤ slab_pages t.cache.obj_size * page_size)
      × (slab_pages t.cache.obj_size * page_size < suc total * t.cache.obj_size + slab_header)
create_slab-IsSlab t t' page e a word even pos fits =
    let size = t.cache.obj_size in
    let bytes = slab_pages size * page_size in
    let avail = bytes - slab_header in
    let total = avail / size in
    let few = bytes_few size in
    let sixteen = page_mod size page a in
    let ds : align_up (page + slab_header) 16 ≡ page + slab_header =
      align_16 (page + slab_header) (omega (arith, sixteen)) (omega (arith, word, fits)) in
    let (some_page, slab, memory) = created t t' page e in
    let (some_total, small, whole, beyond) =
      share avail size (omega (arith, even, pos)) (omega (arith, fits)) (omega (arith, few)) in
    let gap : align_up (page + slab_header) 16 - page ≡ slab_header = omega (arith, ds) in
    let same_total : to_u16 total ≡ total = omega (arith, small) in
    let last : suc (total - 1) ≡ total = omega (arith, some_total) in
    let filled = fill t.memory page 0 bytes in
    let slab' : t'.slabs page ≡ new_slab size (page + slab_header) total =
      slab
      ∙ ap (λ d. new_slab size d ((bytes - (d - page)) / size)) ds
      ∙ ap (λ g. new_slab size (page + slab_header) ((bytes - g) / size)) (omega arith) in
    let memory' : t'.memory ≡ thread size (total - 1) filled (page + slab_header) =
      memory
      ∙ ap (λ d. thread size (to_u16 ((bytes - (d - page)) / size) - 1) filled d) ds
      ∙ ap (λ g. thread size (to_u16 ((bytes - g) / size) - 1) filled (page + slab_header))
          (omega arith)
      ∙ ap (λ n. thread size (n - 1) filled (page + slab_header)) same_total in
    let extent : (total - 1) * size ≤ total * size = grind arith in
    let chain =
      thread-Chain size (total - 1) filled (page + slab_header) (omega (arith, even, pos))
        (omega (arith, extent, whole, word, fits)) in
    let slab_good : IsSlab size (thread size (total - 1) filled (page + slab_header))
        (new_slab size (page + slab_header) total) page (objects size total (page + slab_header)) =
      record {
        pages = refl;
        counted = omega (arith, length-objects size total (page + slab_header), same_total);
        positive = omega (arith, some_total, same_total);
        bounded = omega (arith, small, same_total);
        chain =
            subst
              (λ n.
                Chain (thread size (total - 1) filled (page + slab_header)) (page + slab_header)
                  (objects size n (page + slab_header)))
              last chain;
        slots =
            objects-IsSlot size page total (page + slab_header) a (omega (arith, even))
              (omega (arith, sixteen)) (omega arith) (omega arith) (omega (arith, whole, fits))
              (omega (arith, word)) pos;
        distinct = objects-Distinct size total (page + slab_header) pos;
      } in
    (
      total,
      subst (λ m. IsSlab size m (t'.slabs page) page (objects size total (page + slab_header)))
          (sym memory')
          (subst
            (λ b.
              IsSlab size (thread size (total - 1) filled (page + slab_header)) b page
                (objects size total (page + slab_header)))
            (sym slab') slab_good),
      ap (λ (b : Slab). b.used_count) slab',
      omega (arith, whole, fits),
      omega (arith, beyond, fits),
    )
