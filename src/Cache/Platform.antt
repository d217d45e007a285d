-- ===== src/Cache/Platform.antt =====
-- What the cache uses and does not implement: the floating point numbers, the virtual file system
-- (github.com/mandelsoft/vfs), and sort.Sort.
use mathlib.Core.List.{Perm}
use component_cli.Prelude.{ℕ, String, ◌≡◌, Bool, true, false, Option, List, [], ◌∷◌, All}
use component_cli.Prelude.Result.{Error, Result}

-- float64: `of_int` converts an int64, `trunc` converts back, and `lit n d` is the literal n / d.
pub record Floats : Type 1 where
  pub Float : Type 0
  pub of_int : ℕ → Float
  pub trunc : Float → ℕ
  pub lit : ℕ → ℕ → Float
  pub add : Float → Float → Float
  pub sub : Float → Float → Float
  pub mul : Float → Float → Float
  pub div : Float → Float → Float
  pub lt : Float → Float → Bool
  pub eq : Float → Float → Bool
  pub is_nan : Float → Bool

pub record FileInfo : Type 0 where
  pub name : String
  pub size : ℕ
  pub mod_time : ℕ

-- A file system. A call that changes it answers with its error and the files that it leaves. `read`
-- opens a file and reads all of it, `write` is io.Copy into a file that Create has opened, and `seek`
-- sets an open file back to its beginning.
pub record Vfs : Type 1 where
  pub Files : Type 0
  pub stat : Files → String → Result FileInfo
  pub read : Files → String → Result (List ℕ)
  pub seek : Files → String → Option Error
  pub read_dir : Files → Result (List FileInfo)
  pub create : Files → String → Option Error × Files
  pub write : Files → String → List ℕ → Option Error × Files
  pub remove : Files → String → Option Error × Files

-- A comparison that sort.Sort's order is defined for.
pub record IsStrictWeak {A : Type 0} (less : A → A → Bool) : Type 0 where
  pub asymm : (a b : A) → less a b ≡ true → less b a ≡ false
  pub trans_false : (a b c : A) → less a b ≡ false → less b c ≡ false → less a c ≡ false

-- No element comes after one that it is less than.
abbrev pub IsSorted : {A : Type 0} → (A → A → Bool) → List A → Type 0
IsSorted less [] = Unit
IsSorted less (x ∷ xs) = All (λ y. less y x ≡ false) xs × IsSorted less xs

-- sort.Sort by a comparison, in whatever order it leaves what the comparison does not tell apart.
pub record Sorting : Type 1 where
  pub sort : (A : Type 0) → (A → A → Bool) → List A → List A
  pub sort-perm : (A : Type 0) (less : A → A → Bool) (l : List A) → Perm (sort A less l) l
  pub sort-IsSorted :
      (A : Type 0) (less : A → A → Bool) (l : List A)
      → IsStrictWeak less
      → IsSorted less (sort A less l)
