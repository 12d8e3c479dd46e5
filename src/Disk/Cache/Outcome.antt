-- ===== src/Disk/Cache/Outcome.antt =====
-- cache.cpp: what a call of `writeBlock` leaves on the device, for each of its results.
use singularity.Common.{
  ℕ, zero, suc, ◌≤◌, ◌≡◌, refl, Bool, true, false, arith, if◌then◌else◌, ◌⊎◌, inl, inr, Bool-cases,
  if_elim, ap, ◌∙◌, sym,
}
use singularity.Disk.Cache.{
  World, Env, Sector, Round, failed, moved, nth_lba, put, store, drop_range, bypasses, write_loop,
  write_block, stored_part,
}
use singularity.Disk.Cache.Coherence.{
  IsCoherent, WritesRight, stops, writes, write_round-WritesRight,
}
use singularity.Disk.Cache.Calls.{store_add_one}
use singularity.Disk.Cache.Bypass.{
  disk-drop_range, store_zero, stored_part-le, write_block-IsCoherent,
}

-- `writeBlock` returned 1 and stored its sectors, or returned 0 and stored a first part of them:
-- none when it went through the cache.
abbrev pub IsPrefix : World → ℕ → ℕ → ℕ → (ℕ → Sector) → Bool → Bool × World → Type 0
IsPrefix w dev lba count buffer past (ok, w') =
    ((ok ≡ true) × (w'.disk ≡ store w.disk dev lba count buffer))
    ⊎ ((ok ≡ false)
        × (n : ℕ) × (n ≤ count)
        × ((past ≡ true) ⊎ (n ≡ 0))
        × (w'.disk ≡ store w.disk dev lba n buffer))

write_loop-IsPrefix :
    (env : ℕ → Env) (dev lba ptr count : ℕ) (buffer : ℕ → Sector) (w : World)
    → IsCoherent w
    → count ≤ 1
    → IsPrefix w dev lba count buffer false (write_loop env dev lba ptr count 0 false buffer w)
unfolding write_loop
write_loop-IsPrefix env dev lba ptr zero buffer w c h = inl (refl, store_zero w.disk dev lba buffer)
write_loop-IsPrefix env dev lba ptr (suc (suc n)) buffer w c h = absurd (omega arith)
write_loop-IsPrefix env dev lba ptr (suc zero) buffer w c h =
    go (write_round-WritesRight (env 0) dev lba ptr 0 false (buffer 0) w c)
  where
    go :
        {r : Round}
        → WritesRight w dev (nth_lba lba 0) (buffer 0) r
        → IsPrefix w dev lba 1 buffer false
            (elim r as (λ _. Bool × World) [ failed w' ↦ (false, w') | moved _ b w' ↦ (true, w') ])
    go (stops c' same) =
        inr (refl, 0, omega arith, inr refl, same ∙ store_zero w.disk dev lba buffer)
    go (writes c' wrote) = inl (
      refl,
      wrote
          ∙ ap (λ d. put d dev (nth_lba lba 0) (buffer 0)) (store_zero w.disk dev lba buffer)
          ∙ sym (store_add_one w.disk dev lba 0 buffer),
    )

-- `writeBlock` on a coherent cache keeps it coherent, and either returns 1 and the device stores
-- the `count` sectors of the buffer, or returns 0 and the device stores the first `n` of them, and
-- is otherwise as it was, for some `n` up to `count` that is 0 when the call does not go past the
-- cache.
pub write_block-IsPrefix :
    (env : ℕ → Env) (block_size dev lba count ptr : ℕ) (buffer : ℕ → Sector) (w : World)
    → IsCoherent w
    → IsCoherent (write_block env block_size dev lba count ptr buffer w).1
      × IsPrefix w dev lba count buffer
          (bypasses block_size count ptr)
          (write_block env block_size dev lba count ptr buffer w)
unfolding write_block
write_block-IsPrefix env block_size dev lba count ptr buffer w c = (
  (write_block-IsCoherent env block_size dev lba count ptr buffer w c).0,
  elim (Bool-cases (bypasses block_size count ptr)) [
    | inl e ↦ rw e past_cache
    | inr e ↦ rw e (write_loop-IsPrefix env dev lba ptr count buffer w c (ground arith))
  ],
)
  where
    part : ℕ
    part = stored_part (env 0) count

    same :
        (n : ℕ)
        → store (drop_range dev lba count 0 w).disk dev lba n buffer ≡ store w.disk dev lba n buffer
    same n = ap (λ d. store d dev lba n buffer) (disk-drop_range dev lba count 0 w)

    past_cache : IsPrefix w dev lba count buffer true (
        if (env 0).device_ok
        then (
          true,
          record (drop_range dev lba count 0 w) {
            disk = store (drop_range dev lba count 0 w).disk dev lba count buffer;
          },
        )
        else (
          false,
          record (drop_range dev lba count 0 w) {
            disk = store (drop_range dev lba count 0 w).disk dev lba part buffer;
          },
        ))
    past_cache =
        if_elim (IsPrefix w dev lba count buffer true) (env 0).device_ok (inl (refl, same count))
          (inr (refl, part, stored_part-le (env 0) count, inl refl, same part))
