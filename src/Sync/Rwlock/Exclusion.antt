-- ===== src/Sync/Rwlock/Exclusion.antt =====
-- rwlock.cpp: who holds the lock while tasks use it.
use singularity.Common.{
  ℕ, ◌+◌, ◌-◌, ◌≤◌, ◌<◌, ◌≡◌, refl, Bool, true, false, not, ◌&&◌, Option, none, some, arith, ◌==◌,
  ltb, List, [], ◌∷◌, length, length-append, Bool-cases, inl, inr, ◌⊎◌, ap, sym, subst, to_count,
  ◌∙◌,
}
use singularity.Sync.WaitQueue.{pop-length}
use singularity.Sync.Rwlock.{
  Rwlock, max_readers, rwlock_create, rwlock_acquire_read, rwlock_release_read,
  rwlock_acquire_write, rwlock_release_write, pop_writer,
}

-- The lock, how many tasks hold it for reading, and how many for writing.
pub record Scene : Type 0 where
  pub lock : Rwlock
  pub reading : ℕ
  pub writing : ℕ

-- One round of a method by some task. A task releases only what it holds.
pub data Step (s : Scene) : Scene → Type 0 where
  reads :
      (proc : Option ℕ) (lock' : Rwlock)
      → rwlock_acquire_read proc s.lock ≡ (true, lock')
      → Step s (record { lock = lock'; reading = s.reading + 1; writing = s.writing })
  waits_to_read :
      (proc : Option ℕ) (lock' : Rwlock)
      → rwlock_acquire_read proc s.lock ≡ (false, lock')
      → Step s (record s { lock = lock' })
  ends_reading :
      (is_dead : ℕ → Bool) (woken : List ℕ) (lock' : Rwlock)
      → 0 < s.reading
      → rwlock_release_read is_dead s.lock ≡ some (woken, lock')
      → Step s (record { lock = lock'; reading = s.reading - 1; writing = s.writing })
  writes :
      (proc : Option ℕ) (lock' : Rwlock)
      → rwlock_acquire_write proc s.lock ≡ (true, lock')
      → Step s (record { lock = lock'; reading = s.reading; writing = s.writing + 1 })
  waits_to_write :
      (proc : Option ℕ) (lock' : Rwlock)
      → rwlock_acquire_write proc s.lock ≡ (false, lock')
      → Step s (record s { lock = lock' })
  ends_writing :
      (is_dead : ℕ → Bool) (woken : List ℕ) (lock' : Rwlock)
      → 0 < s.writing
      → rwlock_release_write is_dead s.lock ≡ (woken, lock')
      → Step s (record { lock = lock'; reading = s.reading; writing = s.writing - 1 })

-- The scenes that uses of a new lock lead to.
pub data Reach : Scene → Type 0 where
  created :
      (lock : Rwlock)
      → rwlock_create true ≡ some lock
      → Reach (record { lock = lock; reading = 0; writing = 0 })
  after : {s s' : Scene} → Reach s → Step s s' → Reach s'

-- The lock's fields tell who holds it: as one flag counts the writers, there is at most one. A writer
-- is alone, and the waiting writers are counted.
pub record IsExclusive (s : Scene) : Type 0 where
  pub readers : s.lock.readers ≡ s.reading
  pub writer : to_count s.lock.writer_active ≡ s.writing
  pub alone : (s.writing ≡ 0) ⊎ (s.reading ≡ 0)
  pub bounded : s.reading ≤ max_readers
  pub counted : s.lock.write_waiters ≡ length s.lock.write_q

to_count-le : (b : Bool) → to_count b ≤ 1
to_count-le b = ground arith

pop_writer-counted :
    (is_dead : ℕ → Bool) (lock : Rwlock)
    → lock.write_waiters ≡ length lock.write_q
    → let (_, lock') = pop_writer is_dead lock in
      (lock'.write_waiters ≡ length lock'.write_q)
      × (lock'.readers ≡ lock.readers)
      × (lock'.writer_active ≡ lock.writer_active)
unfolding pop_writer
pop_writer-counted is_dead lock h = ground (arith, pop-length is_dead lock.write_q)

acquire_read-true :
    (proc : Option ℕ) (lock lock' : Rwlock)
    → rwlock_acquire_read proc lock ≡ (true, lock')
    → (lock.writer_active ≡ false)
      × (lock.readers < max_readers)
      × (lock' ≡ record lock { readers = lock.readers + 1 })
unfolding rwlock_acquire_read
acquire_read-true proc lock lock' e = ground arith

acquire_read-false :
    (proc : Option ℕ) (lock lock' : Rwlock)
    → rwlock_acquire_read proc lock ≡ (false, lock')
    → (lock'.readers ≡ lock.readers)
      × (lock'.writer_active ≡ lock.writer_active)
      × (lock'.write_waiters ≡ lock.write_waiters)
      × (lock'.write_q ≡ lock.write_q)
unfolding rwlock_acquire_read
acquire_read-false none lock lock' e = ground arith
acquire_read-false (some t) lock lock' e = ground arith

acquire_write-true :
    (proc : Option ℕ) (lock lock' : Rwlock)
    → rwlock_acquire_write proc lock ≡ (true, lock')
    → (lock.writer_active ≡ false)
      × (lock.readers ≡ 0)
      × (lock' ≡ record lock { writer_active = true })
unfolding rwlock_acquire_write
acquire_write-true proc lock lock' e = ground arith

acquire_write-false :
    (proc : Option ℕ) (lock lock' : Rwlock)
    → lock.write_waiters ≡ length lock.write_q
    → rwlock_acquire_write proc lock ≡ (false, lock')
    → (lock'.readers ≡ lock.readers)
      × (lock'.writer_active ≡ lock.writer_active)
      × (lock'.write_waiters ≡ length lock'.write_q)
unfolding rwlock_acquire_write
acquire_write-false none lock lock' h e = ground arith
acquire_write-false (some t) lock lock' h e = ground (arith, length-append lock.write_q (t ∷ []))

release_read-some :
    (is_dead : ℕ → Bool) (lock lock' : Rwlock) (woken : List ℕ)
    → lock.write_waiters ≡ length lock.write_q
    → rwlock_release_read is_dead lock ≡ some (woken, lock')
    → (lock'.readers ≡ lock.readers - 1)
      × (lock'.writer_active ≡ lock.writer_active)
      × (lock'.write_waiters ≡ length lock'.write_q)
unfolding rwlock_release_read
release_read-some is_dead lock lock' woken h e =
    let spec = pop_writer-counted is_dead (record lock { readers = lock.readers - 1 }) h in
    ground arith

release_write-eq :
    (is_dead : ℕ → Bool) (lock lock' : Rwlock) (woken : List ℕ)
    → lock.write_waiters ≡ length lock.write_q
    → rwlock_release_write is_dead lock ≡ (woken, lock')
    → (lock'.readers ≡ lock.readers)
      × (lock'.writer_active ≡ false)
      × (lock'.write_waiters ≡ length lock'.write_q)
unfolding rwlock_release_write
release_write-eq is_dead lock lock' woken h e =
    let spec = pop_writer-counted is_dead (record lock { writer_active = false }) h in ground arith

Step-IsExclusive : (s s' : Scene) → Step s s' → IsExclusive s → IsExclusive s'
Step-IsExclusive s s' (reads proc lock' e) v =
    let (idle, room, eq) = acquire_read-true proc s.lock lock' e in
    rw eq (record {
      readers = omega (arith, v.readers);
      writer = v.writer;
      alone = inl (sym v.writer ∙ ap to_count idle);
      bounded = omega (arith, v.readers);
      counted = v.counted;
    })
Step-IsExclusive s s' (waits_to_read proc lock' e) v =
    let (r, w, n, q) = acquire_read-false proc s.lock lock' e in
    record {
      readers = r ∙ v.readers;
      writer = ap to_count w ∙ v.writer;
      alone = v.alone;
      bounded = v.bounded;
      counted = n ∙ v.counted ∙ ap length (sym q);
    }
Step-IsExclusive s s' (ends_reading is_dead woken lock' held e) v =
    let (r, w, n) = release_read-some is_dead s.lock lock' woken v.counted e in
    record {
      readers = r ∙ ap (λ k. k - 1) v.readers;
      writer = ap to_count w ∙ v.writer;
      alone = elim v.alone [ inl idle ↦ inl idle | inr none_reads ↦ absurd (omega arith) ];
      bounded = omega (arith, v.bounded);
      counted = n;
    }
Step-IsExclusive s s' (writes proc lock' e) v =
    let (idle, none_reads, eq) = acquire_write-true proc s.lock lock' e in
    rw eq (record {
      readers = v.readers;
      writer = ap (λ n. n + 1) (sym (ap to_count idle) ∙ v.writer);
      alone = inr (sym v.readers ∙ none_reads);
      bounded = v.bounded;
      counted = v.counted;
    })
Step-IsExclusive s s' (waits_to_write proc lock' e) v =
    let (r, w, n) = acquire_write-false proc s.lock lock' v.counted e in
    record {
      readers = r ∙ v.readers;
      writer = ap to_count w ∙ v.writer;
      alone = v.alone;
      bounded = v.bounded;
      counted = n;
    }
Step-IsExclusive s s' (ends_writing is_dead woken lock' held e) v =
    let (r, w, n) = release_write-eq is_dead s.lock lock' woken v.counted e in
    let one : s.writing ≤ 1 = subst (λ k. k ≤ 1) v.writer (to_count-le s.lock.writer_active) in
    record {
      readers = r ∙ v.readers;
      writer = ap to_count w ∙ omega (arith, held, one);
      alone = inl (omega (arith, held, one));
      bounded = v.bounded;
      counted = n;
    }

-- However tasks acquire, wait for and release what they hold of a new lock: it never has two
-- writers or a writer together with a reader, its fields tell how many tasks read and how many write,
-- there are at most 1,024 readers, and `write_waiters` is the number of tasks in the queue of writers.
pub Reach-IsExclusive : (s : Scene) → Reach s → IsExclusive s
unfolding rwlock_create
Reach-IsExclusive s (created lock e) = ground arith
Reach-IsExclusive s' (after {s} r x) = Step-IsExclusive s s' x (Reach-IsExclusive s r)

-- A task that holds the lock for reading can release it: the count of readers never underflows.
pub Reach-release_read :
    (s : Scene) (is_dead : ℕ → Bool)
    → Reach s
    → 0 < s.reading
    → (woken : List ℕ) × (lock' : Rwlock) × (rwlock_release_read is_dead s.lock
        ≡ some (woken, lock'))
      × (lock'.readers ≡ s.reading - 1)
unfolding rwlock_release_read
Reach-release_read s is_dead r held =
    let v = Reach-IsExclusive s r in
    let spec =
      pop_writer-counted is_dead (record s.lock { readers = s.lock.readers - 1 }) v.counted in
    let some_read : not (ltb 0 s.lock.readers) ≡ false = ground (arith, v.readers) in
    rw some_read (elim (Bool-cases (s.lock.readers - 1 == 0 && ltb 0 s.lock.write_waiters)) [
      | inl e ↦ rw e (_, _, refl, omega (arith, spec, v.readers))
      | inr e ↦ rw e (_, _, refl, omega (arith, v.readers))
    ])
