-- ===== src/Keyring/Index/Segments.antt =====
-- The index by lists of words: `Set` and `Find` walk the words of the path, however the path is cut
-- and joined again on the way, and their fuel is enough.
pub mod Lookup
use mathlib.Core.Path.{fun_ext}
use component_cli.Prelude.{
  ℕ, zero, suc, ◌≤◌, ◌<◌, String, ◌≡◌, refl, sym, ap, ◌∙◌, ◌⊎◌, inl, inr, true, false, Option, none,
  some, List, [], ◌∷◌, ◌++◌, ◌==◌, length, Bool-cases, Option-cases, arith, if◌then◌else◌,
}
use component_cli.Strings.{slash, split, join}
use component_cli.Strings.Split.{tail, split-cons, split-tail}
use component_cli.Keyring.Index.{
  IndexNode, node, addresses, children, is_root, head, find_segment, update_segment, set_fuel,
  find_fuel, fuel, set, find,
}

-- One empty word at the end, which a trailing slash or the empty path leaves, does not count.
abbrev pub trim : List String → List String
trim [] = []
trim (w ∷ []) = if w == "" then [] else w ∷ []
trim (w ∷ v ∷ ws) = w ∷ trim (v ∷ ws)

-- The words that a path stands for.
unfoldable pub key : String → List String
key path = trim (split slash path)

unfoldable pub set_at : List String → IndexNode → List String → IndexNode
set_at [] (node s bs cs) extra = node s (bs ++ extra) cs
set_at (w ∷ ws) (node s bs cs) extra = node s bs (update_segment cs w (λ c. set_at ws c extra))

unfoldable pub find_at : List String → IndexNode → List String
find_at [] n = addresses n
find_at (w ∷ ws) n = elim (find_segment (children n) w) [
  | none ↦ addresses n
  | some c ↦ find_at ws c
]

length-trim-le : (words : List String) → length (trim words) ≤ length words
length-trim-le [] = omega arith
length-trim-le (w ∷ []) = ground arith
length-trim-le (w ∷ v ∷ ws) = omega (arith, length-trim-le (v ∷ ws))

trim_root : (words : List String) → is_root words ≡ true → trim words ≡ []
trim_root [] h = refl
trim_root (w ∷ []) h = rw h
trim_root (w ∷ v ∷ ws) h = cc

trim_below :
    (words : List String) → is_root words ≡ false → trim words ≡ head words ∷ trim (tail words)
trim_below [] h = cc
trim_below (w ∷ []) h = rw h
trim_below (w ∷ v ∷ ws) h = refl

-- The path that `Set` and `Find` pass on stands for the words behind the first.
key-rest :
    (path : String) → key (join slash (tail (split slash path))) ≡ trim (tail (split slash path))
unfolding key
key-rest path = elim (split-tail slash path) [
  | inl e ↦ rw e (unfold join split in refl)
  | inr e ↦ ap trim e
]

module _ (path : String) where
  key_root : is_root (split slash path) ≡ true → key path ≡ []
  unfolding key
  key_root = trim_root (split slash path)

  key_below :
      is_root (split slash path) ≡ false
      → key path ≡ head (split slash path) ∷ key (join slash (tail (split slash path)))
  unfolding key
  key_below h =
      trim_below (split slash path) h ∙ ap (◌∷◌ (head (split slash path))) (sym (key-rest path))

  key-fuel : length (key path) < fuel path
  unfolding key
  key-fuel = omega (arith, length-trim-le (split slash path))

set_fuel-set_at :
    (f : ℕ) (path : String) (n : IndexNode) (extra : List String)
    → length (key path) < f
    → set_fuel f n path extra ≡ set_at (key path) n extra
unfolding set_fuel set_at
set_fuel-set_at zero path n extra h = absurd (omega arith)
set_fuel-set_at (suc f) path (node s bs cs) extra h =
    elim (Bool-cases (is_root (split slash path))) [
      | inl e ↦ rw (e, key_root path e)
      | inr e ↦
          rw (e, key_below path e)
            (ap (λ g. node s bs (update_segment cs (head (split slash path)) g))
              (fun_ext λ c.
                set_fuel-set_at f (join slash (tail (split slash path))) c extra
                  (omega (arith, ap (length {A = String}) (key_below path e)))))
    ]

find_fuel-find_at :
    (f : ℕ) (path : String) (n : IndexNode)
    → length (key path) < f
    → find_fuel f n path ≡ find_at (key path) n
unfolding find_fuel find_at
find_fuel-find_at zero path n h = absurd (omega arith)
find_fuel-find_at (suc f) path n h = elim (Bool-cases (is_root (split slash path))) [
  | inl e ↦ rw (e, key_root path e)
  | inr e ↦
      let shorter : length (key (join slash (tail (split slash path)))) < f =
        omega (arith, ap (length {A = String}) (key_below path e)) in
      rw (e, key_below path e)
        (elim (Option-cases (find_segment (children n) (head (split slash path)))) [
          | inl m ↦ rw (m, find_at)
          | inr (c, m) ↦ rw (m, find_at) (find_fuel-find_at f _ c shorter)
        ])
]

-- `Set` adds the addresses at the node of the path's words.
pub set-set_at :
    (n : IndexNode) (path : String) (extra : List String)
    → set n path extra ≡ set_at (key path) n extra
unfolding set
set-set_at n path extra = set_fuel-set_at (fuel path) path n extra (key-fuel path)

-- `Find` answers with the addresses of the last node on the way along the path's words.
pub find-find_at : (n : IndexNode) (path : String) → find n path ≡ (find_at (key path) n, true)
unfolding find
find-find_at n path = ap (λ l. (l, true)) (find_fuel-find_at (fuel path) path n (key-fuel path))
