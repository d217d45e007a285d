-- ===== src/KeyMutex.antt =====
-- ociclient/utils/keymutex/keymutex.go: one mutex for each key, behind a mutex for the map. Each
-- method runs while it holds the outer mutex, so it is one step, but for a Lock that finds its key
-- taken: that one waits for the key's mutex and still holds the outer one.
pub mod Blocking
use component_cli.Prelude.{
  ℕ, zero, suc, ◌+◌, String, Bool, true, false, ◌≡◌, Option, none, some, List, [], ◌∷◌, nat_eq,
  if◌then◌else◌,
}
use component_cli.Prelude.Dict.{Dict, lookup, insert, remove}

-- A waiting goroutine, by the mutex that it waits for.
pub record KeyMutex : Type 0 where
  pub waiting : Option ℕ
  pub mutexes : Dict ℕ
  pub next : ℕ
  pub locked : ℕ → Bool

abbrev pub new : KeyMutex
new = record { waiting = none; mutexes = []; next = 0; locked = λ _. false }

abbrev pub mark : (ℕ → Bool) → ℕ → Bool → ℕ → Bool
mark f i b j = if nat_eq i j then b else f j

-- What a call does: it returns, it goes to wait, or the runtime stops the program, as it does when a
-- mutex is unlocked that is not locked.
pub data Outcome : Type 0 where
  returned : KeyMutex → Outcome
  blocked : KeyMutex → Outcome
  fatal : Outcome

-- A call that finds the outer mutex taken waits for it.
unfoldable pub enter : KeyMutex → Outcome → Outcome
enter km body = elim km.waiting [ none ↦ body | some i ↦ blocked km ]

unfoldable pub lock : KeyMutex → String → Outcome
unfolding enter
lock km key = enter km (elim (lookup key km.mutexes) [
  | none ↦ returned (record km {
    mutexes = insert key km.next km.mutexes;
    next = suc km.next;
    locked = mark km.locked km.next true;
  })
  | some i ↦
      if km.locked i
      then blocked (record km { waiting = some i })
      else returned (record km { locked = mark km.locked i true })
])

unfoldable pub unlock : KeyMutex → String → Outcome
unfolding enter
unlock km key = enter km (elim (lookup key km.mutexes) [
  | none ↦ returned km
  | some i ↦ if km.locked i then returned (record km { locked = mark km.locked i false }) else fatal
])

-- `Remove`
unfoldable pub remove_key : KeyMutex → String → Outcome
unfolding enter
remove_key km key = enter km (returned (record km { mutexes = remove key km.mutexes }))

-- The waiting goroutine goes on once its mutex is free: it takes it and lets the outer mutex go.
unfoldable pub wake : KeyMutex → Option KeyMutex
wake km = elim km.waiting [
  | none ↦ none
  | some i ↦
      if km.locked i
      then none
      else some (record km { waiting = none; locked = mark km.locked i true })
]

-- Any goroutine may call any method at any time.
pub data Step (km : KeyMutex) : KeyMutex → Type 0 where
  locks : {km' : KeyMutex} (key : String) → lock km key ≡ returned km' → Step km km'
  waits :
      {km' : KeyMutex} (key : String) → km.waiting ≡ none → lock km key ≡ blocked km' → Step km km'
  unlocks : {km' : KeyMutex} (key : String) → unlock km key ≡ returned km' → Step km km'
  removes : {km' : KeyMutex} (key : String) → remove_key km key ≡ returned km' → Step km km'
  wakes : {km' : KeyMutex} → wake km ≡ some km' → Step km km'

pub data Reach (km : KeyMutex) : KeyMutex → Type 0 where
  here : Reach km km
  next : {k k' : KeyMutex} → Reach km k → Step k k' → Reach km k'
