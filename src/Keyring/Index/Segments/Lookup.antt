-- ===== src/Keyring/Index/Segments/Lookup.antt =====
-- What the index holds after `Set`, read at any list of words, and which node `Find` ends at.
use component_cli.Prelude.{
  String, ◌≡◌, ◌≢◌, ◌↔◌, refl, sym, ap, ◌∙◌, inl, inr, Bool, true, false, ◌&&◌, Option, none, some,
  List, [], ◌∷◌, ◌++◌, ◌==◌, eq_iff, eq_refl, Option-cases, arith, if◌then◌else◌,
}
use component_cli.Keyring.Index.{
  IndexNode, Children, node, nil, cons, segment, addresses, children, find_segment, update_segment,
}
use component_cli.Keyring.Index.Segments.{set_at, find_at}

-- The node at exactly these words, if the index has it.
unfoldable pub node_at : List String → IndexNode → Option IndexNode
node_at [] n = some n
node_at (w ∷ ws) n = elim (find_segment (children n) w) [ none ↦ none | some c ↦ node_at ws c ]

abbrev pub addresses? : Option IndexNode → List String
addresses? none = []
addresses? (some n) = addresses n

-- The addresses that were set for exactly these words.
unfoldable pub addresses_at : List String → IndexNode → List String
unfolding node_at
addresses_at ws n = addresses? (node_at ws n)

unfoldable pub words_eq : List String → List String → Bool
words_eq [] [] = true
words_eq [] (v ∷ vs) = false
words_eq (w ∷ ws) [] = false
words_eq (w ∷ ws) (v ∷ vs) = w == v && words_eq ws vs

pub words_eq_iff : (ws vs : List String) → (words_eq ws vs ≡ true) ↔ (ws ≡ vs)
unfolding words_eq
words_eq_iff [] [] = (λ _. refl, λ _. refl)
words_eq_iff [] (v ∷ vs) = (λ h. cc, λ h. cc)
words_eq_iff (w ∷ ws) [] = (λ h. cc, λ h. cc)
words_eq_iff (w ∷ ws) (v ∷ vs) = ground (arith, eq_iff w v, words_eq_iff ws vs)

-- The child that `Set` goes on with.
abbrev or_new : String → Option IndexNode → IndexNode
or_new s none = node s [] nil
or_new s (some c) = c

find_segment-update :
    (cs : Children) (s t : String) (f : IndexNode → IndexNode)
    → ((c : IndexNode) → segment (f c) ≡ segment c)
    → find_segment (update_segment cs s f) t
      ≡ (if s == t then some (f (or_new s (find_segment cs s))) else find_segment cs t)
unfolding find_segment update_segment
find_segment-update nil s t f keep = ground (arith, eq_iff s t, keep (node s [] nil))
find_segment-update (cons c cs) s t f keep = ground (
  arith,
  eq_iff s t,
  eq_iff (segment c) s,
  eq_iff (segment c) t,
  eq_iff (segment (f c)) t,
  keep c,
  find_segment-update cs s t f keep,
)

addresses_at-new : (ws : List String) (s : String) → addresses_at ws (node s [] nil) ≡ []
unfolding addresses_at find_segment
addresses_at-new [] s = refl
addresses_at-new (w ∷ ws) s = refl

segment-set_at :
    (ws : List String) (n : IndexNode) (extra : List String)
    → segment (set_at ws n extra) ≡ segment n
unfolding set_at
segment-set_at [] (node s bs cs) extra = refl
segment-set_at (w ∷ ws) (node s bs cs) extra = refl

-- The addresses at some words below a child that may be missing.
abbrev below : List String → Option IndexNode → List String
below ws none = []
below ws (some c) = addresses_at ws c

addresses_at-below :
    (w : String) (ws : List String) (n : IndexNode)
    → addresses_at (w ∷ ws) n ≡ below ws (find_segment (children n) w)
unfolding addresses_at
addresses_at-below w ws n = ground arith

addresses_at-or_new :
    (s : String) (ws : List String) (o : Option IndexNode)
    → addresses_at ws (or_new s o) ≡ below ws o
addresses_at-or_new s ws none = addresses_at-new ws s
addresses_at-or_new s ws (some c) = refl

-- Setting at some words adds the addresses there, and changes what is set at no other words.
pub addresses_at-set_at :
    (ps qs : List String) (n : IndexNode) (extra : List String)
    → addresses_at qs (set_at ps n extra)
      ≡ (if words_eq ps qs then addresses_at qs n ++ extra else addresses_at qs n)
unfolding set_at words_eq
addresses_at-set_at [] [] (node s bs cs) extra = unfold addresses_at in refl
addresses_at-set_at [] (q ∷ qs) (node s bs cs) extra = unfold addresses_at in refl
addresses_at-set_at (p ∷ ps) [] (node s bs cs) extra = unfold addresses_at in refl
addresses_at-set_at (p ∷ ps) (q ∷ qs) (node s bs cs) extra =
    let child = or_new p (find_segment cs p) in
    ground (
      arith,
      eq_iff p q,
      find_segment-update cs p q (λ c. set_at ps c extra) (λ c. segment-set_at ps c extra),
      addresses_at-below q qs (node s bs cs),
      addresses_at-below q qs (node s bs (update_segment cs p (λ c. set_at ps c extra))),
      addresses_at-or_new p qs (find_segment cs p),
      addresses_at-set_at ps qs child extra,
    )

-- The longest part of the words, from the front, along which the index has nodes.
unfoldable pub known : List String → IndexNode → List String
known [] n = []
known (w ∷ ws) n = elim (find_segment (children n) w) [ none ↦ [] | some c ↦ w ∷ known ws c ]

-- `Find` answers with what was set for exactly the longest known part of the words, be that nothing.
pub find_at-known : (ws : List String) (n : IndexNode) → find_at ws n ≡ addresses_at (known ws n) n
unfolding find_at known
find_at-known [] n = unfold addresses_at in refl
find_at-known (w ∷ ws) n = elim (Option-cases (find_segment (children n) w)) [
  | inl e ↦ rw (e, find_at, known) (unfold addresses_at in refl)
  | inr (c, e) ↦ rw (e, find_at, known) (find_at-known ws c ∙ sym (rw (addresses_at-below, e)))
]

-- The known part is a part of the words from the front.
pub known-prefix :
    (ws : List String) (n : IndexNode) → (rest : List String) × (ws ≡ known ws n ++ rest)
unfolding known
known-prefix [] n = ([], refl)
known-prefix (w ∷ ws) n = elim (Option-cases (find_segment (children n) w)) [
  | inl e ↦ (w ∷ ws, rw (e, known))
  | inr (c, e) ↦ let (rest, p) = known-prefix ws c in (rest, rw (e, known) (ap (◌∷◌ w) p))
]

-- The index has a node for the known part.
pub node_at-known : (ws : List String) (n : IndexNode) → node_at (known ws n) n ≢ none
unfolding known node_at
node_at-known [] n = λ h. cc
node_at-known (w ∷ ws) n = elim (Option-cases (find_segment (children n) w)) [
  | inl e ↦ λ h. absurd (ground arith)
  | inr (c, e) ↦ λ h. node_at-known ws c (rw (known, e, node_at, e) at h)
]

-- Where the index has a node for the words, the whole of the words is known.
pub known_of_node : (ws : List String) (n : IndexNode) → node_at ws n ≢ none → known ws n ≡ ws
unfolding known node_at
known_of_node [] n h = refl
known_of_node (w ∷ ws) n h = elim (Option-cases (find_segment (children n) w)) [
  | inl e ↦ absurd (h (rw (e, node_at)))
  | inr (c, e) ↦ rw (e, known) (ap (◌∷◌ w) (known_of_node ws c (rw (e, node_at) at h)))
]

-- Setting at some words makes their nodes.
pub node_at-set_at :
    (ws : List String) (n : IndexNode) (extra : List String) → node_at ws (set_at ws n extra) ≢ none
unfolding set_at node_at
node_at-set_at [] (node s bs cs) extra = λ h. cc
node_at-set_at (w ∷ ws) (node s bs cs) extra = λ h.
    let found =
      find_segment-update cs w w (λ c. set_at ws c extra) (λ c. segment-set_at ws c extra) in
    node_at-set_at ws (or_new w (find_segment cs w)) extra (rw (found, eq_refl, node_at) at h)
