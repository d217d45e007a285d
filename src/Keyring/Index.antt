-- ===== src/Keyring/Index.antt =====
-- `IndexNode` of ociclient/credentials/keyring.go: the tree of path segments in which the keyring
-- looks for the addresses that fit a url best.
pub mod Segments
use component_cli.Prelude.{
  ℕ, zero, suc, String, Bool, true, false, Option, none, some, List, [], ◌∷◌, ◌++◌, ◌==◌, length,
  if◌then◌else◌,
}
use component_cli.Strings.{slash, split, join}
use component_cli.Strings.Split.{tail}

mutual
  pub data IndexNode : Type 0 where
    node : String → List String → Children → IndexNode

  pub data Children : Type 0 where
    nil : Children
    cons : IndexNode → Children → Children

abbrev pub segment : IndexNode → String
segment (node s bs cs) = s

abbrev pub addresses : IndexNode → List String
addresses (node s bs cs) = bs

abbrev pub children : IndexNode → Children
children (node s bs cs) = cs

-- `len(splitPath) == 0 || (len(splitPath) == 1 && len(splitPath[0]) == 0)`
abbrev pub is_root : List String → Bool
is_root [] = true
is_root (w ∷ []) = w == ""
is_root (w ∷ v ∷ ws) = false

-- `splitPath[0]`
abbrev pub head : List String → String
head [] = ""
head (w ∷ ws) = w

-- `FindSegment`: the first child with the segment.
unfoldable pub find_segment : Children → String → Option IndexNode
find_segment nil s = none
find_segment (cons c cs) s = if segment c == s then some c else find_segment cs s

-- What `Set` does with the child that `FindSegment` finds, in place; a missing child is appended
-- empty first.
unfoldable pub update_segment : Children → String → (IndexNode → IndexNode) → Children
update_segment nil s f = cons (f (node s [] nil)) nil
update_segment (cons c cs) s f =
    if segment c == s then cons (f c) cs else cons c (update_segment cs s f)

-- `Set` and `Find` call themselves on the path that is left; each call takes one unit of fuel.
unfoldable pub set_fuel : ℕ → IndexNode → String → List String → IndexNode
set_fuel zero n path extra = n
set_fuel (suc f) (node s bs cs) path extra =
    let words = split slash path in
    let below =
      node s bs
        (update_segment cs (head words) (λ c. set_fuel f c (join slash (tail words)) extra)) in
    if is_root words then node s (bs ++ extra) cs else below

unfoldable pub find_fuel : ℕ → IndexNode → String → List String
find_fuel zero n path = []
find_fuel (suc f) n path =
    let words = split slash path in
    let below : List String = elim (find_segment (children n) (head words)) [
      | none ↦ addresses n
      | some c ↦ find_fuel f c (join slash (tail words))
    ] in
    if is_root words then addresses n else below

-- One unit for each word and one for the node at the end of the path are enough.
abbrev pub fuel : String → ℕ
fuel path = suc (length (split slash path))

unfoldable pub set : IndexNode → String → List String → IndexNode
unfolding set_fuel
set n path extra = set_fuel (fuel path) n path extra

-- The second result of `Find` is always true.
unfoldable pub find : IndexNode → String → List String × Bool
unfolding find_fuel
find n path = (find_fuel (fuel path) n path, true)
