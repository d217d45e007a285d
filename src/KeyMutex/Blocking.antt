-- ===== src/KeyMutex/Blocking.antt =====
-- What callers of the key mutex can rely on, and the wait that never ends.
use mathlib.Core.Path.{subst}
use component_cli.Prelude.{
  ℕ, String, Bool, true, false, ◌≡◌, ◌≢◌, ◌≤◌, ◌<◌, refl, sym, Option, none, some, eq_iff, arith,
}
use component_cli.Prelude.Dict.{lookup, lookup-insert, lookup-remove}
use component_cli.KeyMutex.{
  KeyMutex, returned, blocked, lock, unlock, remove_key, wake, Step, Reach, here, next, locks,
  waits, unlocks, removes, wakes,
}

-- The key's mutex is locked.
abbrev pub held : KeyMutex → String → Bool
held km key = elim (lookup key km.mutexes) [ none ↦ false | some i ↦ km.locked i ]

-- A goroutine waits for a mutex that is locked.
pub record IsStuck (km : KeyMutex) : Type 0 where
  pub on : ℕ
  pub waits_on : km.waiting ≡ some on
  pub taken : km.locked on ≡ true

-- From there no goroutine takes a step any more: no Lock, Unlock or Remove returns, of any key.
pub IsStuck-no-Step : {km km' : KeyMutex} → IsStuck km → ¬ Step km km'
unfolding lock unlock remove_key wake
IsStuck-no-Step s (locks key e) = ground arith
IsStuck-no-Step s (waits key free e) = ground arith
IsStuck-no-Step s (unlocks key e) = ground arith
IsStuck-no-Step s (removes key e) = ground arith
IsStuck-no-Step s (wakes e) = ground arith

-- A Lock of a key that is held, called while nobody waits, blocks and leaves a state in which no
-- goroutine takes a step any more.
pub lock-held_deadlocks :
    (km : KeyMutex) (key : String)
    → km.waiting ≡ none
    → held km key ≡ true
    → (stuck : KeyMutex) × (lock km key ≡ blocked stuck)
      × ((after : KeyMutex) → Reach stuck after → after ≡ stuck)
unfolding lock
lock-held_deadlocks km key free taken = at_mutex (lookup key km.mutexes) refl
  where
    stays :
        (stuck : KeyMutex) → IsStuck stuck → (after : KeyMutex) → Reach stuck after → after ≡ stuck
    stays stuck s after here = refl
    stays stuck s after (next {k = k} r st) =
        absurd (IsStuck-no-Step (subst IsStuck (sym (stays stuck s k r)) s) st)

    at_mutex :
        (o : Option ℕ)
        → lookup key km.mutexes ≡ o
        → (stuck : KeyMutex) × (lock km key ≡ blocked stuck)
          × ((after : KeyMutex) → Reach stuck after → after ≡ stuck)
    at_mutex none e = absurd (ground arith)
    at_mutex (some i) e = (
      record km { waiting = some i },
      ground arith,
      stays (record km { waiting = some i })
          (record { on = i; waits_on = refl; taken = ground arith }),
    )

-- Different keys have different mutexes, which were made before.
pub record IsValid (km : KeyMutex) : Type 0 where
  pub made : (k : String) (i : ℕ) → lookup k km.mutexes ≡ some i → i < km.next
  pub apart :
      (k j : String) (i : ℕ) → lookup k km.mutexes ≡ some i → lookup j km.mutexes ≡ some i → k ≡ j
  pub fresh : (i : ℕ) → km.next ≤ i → km.locked i ≡ false

pub lock-IsValid :
    (km km' : KeyMutex) (key : String) → lock km key ≡ returned km' → IsValid km → IsValid km'
unfolding lock
lock-IsValid km km' key e v = record {
  made = λ k i h. ground (arith, v.made k i, eq_iff key k, lookup-insert key k km.next km.mutexes);
  apart = λ k j i h g. ground (
    arith,
    v.made k i,
    v.made j i,
    v.apart k j i,
    eq_iff key k,
    eq_iff key j,
    lookup-insert key k km.next km.mutexes,
    lookup-insert key j km.next km.mutexes,
  );
  fresh = λ i h. grind (arith, v.fresh i, v.made key);
}

unlock-IsValid :
    (km km' : KeyMutex) (key : String) → unlock km key ≡ returned km' → IsValid km → IsValid km'
unfolding unlock
unlock-IsValid km km' key e v = record {
  made = λ k i h. ground (arith, v.made k i);
  apart = λ k j i h g. ground (arith, v.apart k j i);
  fresh = λ i h. ground (arith, v.fresh i);
}

remove_key-IsValid :
    (km km' : KeyMutex) (key : String) → remove_key km key ≡ returned km' → IsValid km → IsValid km'
unfolding remove_key
remove_key-IsValid km km' key e v = record {
  made = λ k i h. ground (arith, v.made k i, eq_iff key k, lookup-remove key k km.mutexes);
  apart = λ k j i h g. ground (
    arith,
    v.apart k j i,
    eq_iff key k,
    eq_iff key j,
    lookup-remove key k km.mutexes,
    lookup-remove key j km.mutexes,
  );
  fresh = λ i h. ground (arith, v.fresh i);
}

module _ (km km' : KeyMutex) (key : String) (v : IsValid km) where
  -- A Lock that returns found its key free; it holds the key from then on, and no other key changes
  -- hands.
  lock-held :
      lock km key ≡ returned km'
      → (held km key ≡ false)
        × (held km' key ≡ true)
        × ((j : String) → j ≢ key → held km' j ≡ held km j)
  unfolding lock
  lock-held e = (
    ground arith,
    ground (arith, lookup-insert key key km.next km.mutexes, eq_iff key key),
    λ j h.
        grind
          (arith, lookup-insert key j km.next km.mutexes, eq_iff key j, v.made j, v.apart key j),
  )
