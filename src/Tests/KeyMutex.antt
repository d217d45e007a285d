-- ===== src/Tests/KeyMutex.antt =====
-- The key mutex at concrete inputs (ociclient/utils/keymutex).
use component_cli.Prelude.{
  ℕ, String, ◌≡◌, ◌≢◌, refl, Bool, true, false, some, none, [], eq_iff, arith,
}
use component_cli.Prelude.Dict.{lookup, insert}
use component_cli.KeyMutex.{
  KeyMutex, Reach, new, returned, blocked, fatal, mark, lock, unlock, remove_key,
}
use component_cli.KeyMutex.Blocking.{held, IsValid, lock-held_deadlocks, lock-IsValid}

-- After one Lock of "a".
abbrev one : KeyMutex
one = record new { mutexes = insert "a" 0 []; next = 1; locked = mark new.locked 0 true }

lock-one : lock new "a" ≡ returned one
unfolding lock lookup insert
lock-one = refl

held-one : held one "a" ≡ true
unfolding lookup insert
held-one = refl

-- A key that was removed while it was held can be locked again.
abbrev removed : KeyMutex
removed = record one { mutexes = [] }

lock-remove_held : remove_key one "a" ≡ returned removed
unfolding remove_key insert component_cli.Prelude.Dict.remove
lock-remove_held = refl

unlock_unlocked : unlock (record one { locked = new.locked }) "a" ≡ fatal
unfolding unlock lookup insert
unlock_unlocked = refl

new-IsValid : IsValid new
unfolding lookup
new-IsValid = record { made = λ k i h. cc; apart = λ k j i h g. cc; fresh = λ i h. refl }

one-IsValid : IsValid one
one-IsValid = lock-IsValid new one "a" lock-one new-IsValid

lock-held_deadlocks_example :
    (stuck : KeyMutex) × (lock one "a" ≡ blocked stuck)
    × ((after : KeyMutex) → Reach stuck after → after ≡ stuck)
lock-held_deadlocks_example = lock-held_deadlocks one "a" refl held-one

abbrev freed : KeyMutex
freed = record one { locked = mark one.locked 0 false }

unlock-one : unlock one "a" ≡ returned freed
unfolding unlock lookup insert
unlock-one = refl
