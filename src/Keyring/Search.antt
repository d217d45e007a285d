-- ===== src/Keyring/Search.antt =====
-- `Set` and `Find` of the index, read from their paths: Find goes down as far as the index has nodes
-- and answers with the addresses of the last one.
use component_cli.Prelude.{
  String, ◌≡◌, ◌≢◌, refl, ap, ◌∙◌, inl, inr, none, some, List, [], ◌∷◌, ◌++◌, Option-cases, arith,
  if◌then◌else◌,
}
use component_cli.Keyring.Index.{IndexNode, addresses, children, find_segment, set, find}
use component_cli.Keyring.Index.Segments.{key, find_at, set_at, set-set_at, find-find_at}
use component_cli.Keyring.Index.Segments.Lookup.{
  addresses_at, node_at, known, words_eq, words_eq_iff, addresses_at-set_at, find_at-known,
  known-prefix, known_of_node, node_at-set_at, node_at-known,
}

-- After Set the addresses of the path's words end with the new ones, and those of any other words are
-- what they were.
addresses_at-set :
    (n : IndexNode) (path : String) (extra ws : List String)
    → addresses_at ws (set n path extra)
      ≡ (if words_eq (key path) ws then addresses_at ws n ++ extra else addresses_at ws n)
addresses_at-set n path extra ws = rw set-set_at (addresses_at-set_at (key path) ws n extra)

-- Words with a node, with which other words begin, begin the known part of those.
known-longest :
    (ws more : List String) (n : IndexNode)
    → node_at ws n ≢ none
    → (rest : List String) × (known (ws ++ more) n ≡ ws ++ rest)
unfolding node_at known
known-longest [] more n h = (known more n, refl)
known-longest (w ∷ ws) more n h = elim (Option-cases (find_segment (children n) w)) [
  | inl e ↦ absurd (h (rw (e, node_at)))
  | inr (c, e) ↦
      let (rest, p) = known-longest ws more c (rw (e, node_at) at h) in
      (rest, rw (e, known) (ap (◌∷◌ w) p))
]

-- Find answers with the addresses that were set for the longest part of the path's words, from the
-- front, along which the index has nodes: the words begin with that part, the index has a node for it,
-- and any words with a node with which they begin are no longer than it.
pub find-longest :
    (n : IndexNode) (path : String)
    → (best rest : List String) × ((find n path).0 ≡ addresses_at best n)
      × (key path ≡ best ++ rest)
      × (node_at best n ≢ none)
      × ((ws more : List String)
          → key path ≡ ws ++ more
          → node_at ws n ≢ none
          → (tail : List String) × (best ≡ ws ++ tail))
find-longest n path =
    let (rest, cut) = known-prefix (key path) n in
    (
      known (key path) n,
      rest,
      rw find-find_at (find_at-known (key path) n),
      cut,
      node_at-known (key path) n,
      λ ws more e node. rw e (known-longest ws more n node),
    )

-- What was set for a path is found under every path with the same words, behind what was set for
-- these words before.
find-set :
    (n : IndexNode) (path url : String) (extra : List String)
    → key url ≡ key path
    → (find (set n path extra) url).0 ≡ addresses_at (key path) n ++ extra
find-set n path url extra same =
    rw (find-find_at, same, find_at-known, set-set_at)
      (ap (λ (ws : List String). addresses_at ws (set_at (key path) n extra))
          (known_of_node (key path) _ (node_at-set_at (key path) n extra))
        ∙ rw (addresses_at-set_at, (words_eq_iff (key path) (key path)).1 refl))

find_at-stop :
    (w : String) (ws more : List String) (n m : IndexNode)
    → node_at ws n ≡ some m
    → find_segment (children m) w ≡ none
    → find_at (ws ++ w ∷ more) n ≡ addresses m
unfolding node_at find_at
find_at-stop w [] more n m at_ws missing = ground arith
find_at-stop w (v ∷ ws) more n m at_ws missing = elim (Option-cases (find_segment (children n) v)) [
  | inl e ↦ absurd (ground arith)
  | inr (c, e) ↦ rw (e, find_at) (find_at-stop w ws more c m (rw (e, node_at) at at_ws) missing)
]

-- Where the last node on the way has no addresses of its own, Find finds nothing, whatever was set for
-- the shorter paths that the url begins with.
pub find_no_fallback :
    (n m : IndexNode) (path w : String) (ws more : List String)
    → key path ≡ ws ++ w ∷ more
    → node_at ws n ≡ some m
    → find_segment (children m) w ≡ none
    → addresses m ≡ []
    → (find n path).0 ≡ []
find_no_fallback n m path w ws more e at_ws missing bare =
    rw (find-find_at, e) (find_at-stop w ws more n m at_ws missing ∙ bare)
