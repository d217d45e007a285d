-- ===== src/Strings/Split.antt =====
-- Join after Split gives the text back, and what Split makes of the text behind the first word.
use Prim.Native.String.append as append
use text.Mathlib.TextEquality.{Char-path}
use component_cli.Prelude.{
  Char, code, String, ◌≡◌, refl, sym, ap, ◌∙◌, ◌⊎◌, inl, inr, List, [], ◌∷◌, nat_eq, nat_eq_iff,
  Bool-cases,
}
use component_cli.Strings.{split, join, cons_head}

-- `words[1:]`
abbrev pub tail : List String → List String
tail [] = []
tail (w ∷ ws) = ws

module _ (sep : Char) where
  -- A character put in front of the first word stands in front of the join.
  join-cons_head :
      (c : Char) (w : String) (ws : List String)
      → join sep (cons_head c (w ∷ ws)) ≡ String.◌∷◌ c (join sep (w ∷ ws))
  unfolding join
  join-cons_head c w [] = refl
  join-cons_head c w (v ∷ ws) = append.cons c w _

  join-nil_head :
      (w : String) (ws : List String) → join sep ("" ∷ w ∷ ws) ≡ String.◌∷◌ sep (join sep (w ∷ ws))
  unfolding join
  join-nil_head w ws = append.nil _ ∙ (append.cons sep "" _ ∙ ap (String.◌∷◌ sep) (append.nil _))

  -- Split never answers with the empty list.
  pub split-cons : (s : String) → (w : String) × (ws : List String) × (split sep s ≡ w ∷ ws)
  unfolding split
  split-cons String.[] = ("", [], refl)
  split-cons (String.◌∷◌ c s) =
      let (w, ws, e) = split-cons s in
      elim (Bool-cases (nat_eq (code c) (code sep))) [
        | inl h ↦ ("", split sep s, rw h)
        | inr h ↦ (String.◌∷◌ c w, ws, rw (h, e))
      ]

  pub join-split : (s : String) → join sep (split sep s) ≡ s
  unfolding split
  join-split String.[] = unfold join in refl
  join-split (String.◌∷◌ c s) =
      let (w, ws, e) = split-cons s in
      elim (Bool-cases (nat_eq (code c) (code sep))) [
        | inl h ↦
            rw (h, e)
              (join-nil_head w ws
                ∙ (ap (String.◌∷◌ sep) (rw e at (join-split s))
                    ∙ ap (λ d. String.◌∷◌ d s)
                        (sym (Char-path c sep ((nat_eq_iff (code c) (code sep)).0 h)))))
        | inr h ↦ rw (h, e) (join-cons_head c w ws ∙ ap (String.◌∷◌ c) (rw e at (join-split s)))
      ]

  -- Behind the first word there is either nothing, or the text whose split is the rest.
  pub split-tail :
      (s : String)
      → (tail (split sep s) ≡ []) ⊎ (split sep (join sep (tail (split sep s))) ≡ tail (split sep s))
  unfolding split
  split-tail String.[] = inl refl
  split-tail (String.◌∷◌ c s) =
      let (w, ws, e) = split-cons s in
      elim (Bool-cases (nat_eq (code c) (code sep))) [
        | inl h ↦ inr (rw h (ap (split sep) (join-split s)))
        | inr h ↦ rw (h, e) (rw e at (split-tail s))
      ]
