-- ===== src/Cache/Index/Sizes.antt =====
-- The sum of the sizes in an index, and what each operation does to it.
use component_cli.Prelude.{
  ℕ, ◌+◌, String, ◌≡◌, refl, inl, inr, [], ◌∷◌, none, eq_iff, arith, Option-cases,
}
use component_cli.Prelude.Dict
use component_cli.Prelude.Dict.{Distinct, lookup, insert, insert-Distinct, remove-Distinct}
use component_cli.Cache.Platform.{Floats}
use component_cli.Cache.Index.{Index, IndexEntry, add, get, remove, hit_entry, hit, reset}

unfoldable pub total : Index → ℕ
total [] = 0
total ((name, e) ∷ i) = e.size + total i

total-insert :
    (i : Index) (name : String) (e : IndexEntry)
    → total (insert name e i) + (get i name).size ≡ total i + e.size
unfolding total insert get lookup
total-insert [] name e = omega arith
total-insert ((j, f) ∷ i) name e = ground (arith, total-insert i name e)

-- Adding a file counts its size, and no longer that of an entry of the same name.
pub total-add :
    (i : Index) (name : String) (size created_at : ℕ)
    → total (add i name size created_at) + (get i name).size ≡ total i + size
unfolding add
total-add i name size created_at = total-insert i name _

pub add-Distinct :
    (i : Index) (name : String) (size created_at : ℕ)
    → Distinct i
    → Distinct (add i name size created_at)
unfolding add
add-Distinct i name size created_at d = insert-Distinct name _ i d

pub hit-Distinct : (i : Index) (name : String) → Distinct i → Distinct (hit i name)
unfolding hit
hit-Distinct i name d = elim (Option-cases (lookup name i)) [
  | inl e ↦ rw (e, hit) d
  | inr (x, e) ↦ rw (e, hit) (insert-Distinct name _ i d)
]

-- Removing a file takes its size away.
pub total-remove :
    (i : Index) (name : String) → Distinct i → total (remove i name) + (get i name).size ≡ total i
unfolding total remove get lookup Dict.remove
total-remove [] name d = omega arith
total-remove ((j, f) ∷ i) name d = ground (arith, total-remove i name d.1, eq_iff j name)

pub total-hit : (i : Index) (name : String) → total (hit i name) ≡ total i
unfolding hit get
total-hit i name = elim (Option-cases (lookup name i)) [
  | inl e ↦ rw (e, hit)
  | inr (x, e) ↦ rw (e, hit) (ground (arith, total-insert i name (hit_entry x)))
]

module _ (fl : Floats) where
  pub total-reset : (i : Index) → total (reset fl i) ≡ total i
  unfolding total reset
  total-reset [] = refl
  total-reset ((name, e) ∷ i) = omega (arith, total-reset i)

  lookup-reset_missing :
      (name : String) (i : Index) → lookup name i ≡ none → lookup name (reset fl i) ≡ none
  unfolding lookup reset
  lookup-reset_missing name [] h = refl
  lookup-reset_missing name ((j, e) ∷ i) h = ground (arith, lookup-reset_missing name i)

  pub reset-Distinct : (i : Index) → Distinct i → Distinct (reset fl i)
  unfolding reset
  reset-Distinct [] d = tt
  reset-Distinct ((name, e) ∷ i) d = (lookup-reset_missing name i d.0, reset-Distinct i d.1)

pub remove_entry-Distinct : (i : Index) (name : String) → Distinct i → Distinct (remove i name)
unfolding remove
remove_entry-Distinct i name d = remove-Distinct name i d
