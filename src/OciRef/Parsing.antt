-- ===== src/OciRef/Parsing.antt =====
-- What the parsing of references keeps of a text, and what a copied reference is.
use component_cli.Prelude.{
  String, ◌≡◌, refl, sym, ap, ◌∙◌, ◌↔◌, ◌⊎◌, inl, inr, some, List, [], ◌∷◌, length, arith,
  Bool-cases, Option-cases,
}
use component_cli.Prelude.Result.{ok}
use Prim.Native.String.{◌++◌ as ◌<>◌}
use Prim.Native.String.append as append
use text.Mathlib.TextLemmas.{append_assoc}
use component_cli.Prelude.{Char}
use component_cli.Strings.{split, join, contains}
use component_cli.Strings.Split.{join-split, split-cons}
use component_cli.OciRef.{Images, RefSpec, parse_image_ref, but_last, last, deep_copy}

module _ (sep : Char) where
  separator-cons : (s : String) → (String.◌∷◌ sep "") <> s ≡ String.◌∷◌ sep s
  separator-cons s = append.cons sep "" s ∙ ap (String.◌∷◌ sep) (append.nil s)

  -- Joining all words but the last, and then the last behind a separator, is joining all.
  join-last :
      (w v : String) (ws : List String)
      → join sep (but_last (w ∷ v ∷ ws)) <> (String.◌∷◌ sep (last (w ∷ v ∷ ws)))
        ≡ join sep (w ∷ v ∷ ws)
  unfolding join but_last last
  join-last w v [] = ap (λ s. w <> s) (sym (separator-cons v))
  join-last w v (u ∷ ws) =
      let rest =
        append_assoc (String.◌∷◌ sep "") (join sep (but_last (v ∷ u ∷ ws))) _
        ∙ ap (λ s. (String.◌∷◌ sep "") <> s) (join-last v u ws) in
      append_assoc w _ _ ∙ ap (λ s. w <> s) rest

  rejoined_words :
      (w : String) (ws : List String) (s : String)
      → join sep (w ∷ ws) ≡ s
      → ((join sep (but_last (w ∷ ws)) <> (String.◌∷◌ sep (last (w ∷ ws))) ≡ s)
          ⊎ ((length (w ∷ ws) ≡ 1) × (join sep (but_last (w ∷ ws)) ≡ "") × (last (w ∷ ws) ≡ s)))
  unfolding join but_last last
  rejoined_words w [] s h = inr (refl, refl, h)
  rejoined_words w (v ∷ ws) s h = inl (join-last w v ws ∙ h)

  rejoined :
      (s : String)
      → ((join sep (but_last (split sep s)) <> (String.◌∷◌ sep (last (split sep s))) ≡ s)
          ⊎ ((length (split sep s) ≡ 1)
              × (join sep (but_last (split sep s)) ≡ "")
              × (last (split sep s) ≡ s)))
  rejoined s =
      let (w, ws, e) = split-cons sep s in
      let joined = rw e at (join-split sep s) in rw e (rejoined_words w ws s joined)

-- The repository and the version that a reference is parsed into give it back, with "@" or ":" between
-- them, unless the repository is empty and the version is the whole reference.
pub parse_image_ref-join :
    (ref repository version : String)
    → parse_image_ref ref ≡ ok (repository, version)
    → (repository <> (String.◌∷◌ "@" version) ≡ ref)
      ⊎ ((repository <> (String.◌∷◌ ":" version) ≡ ref) ⊎ ((repository ≡ "") × (version ≡ ref)))
unfolding parse_image_ref
parse_image_ref-join ref repository version h = elim (Bool-cases (contains "@" ref)) [
  | inl e ↦ inl (ground (arith, rejoined "@" ref))
  | inr e ↦ inr (ground (arith, rejoined ":" ref))
]

module _ (i : Images) where
  digest_kept :
      (r : RefSpec i)
      → ((d : i.Digest) → r.digest ≡ some d → i.from_string (i.text d) ≡ d)
      → (deep_copy i r).digest ≡ r.digest
  unfolding deep_copy
  digest_kept r same = elim (Option-cases r.digest) [
    | inl e ↦ ground arith
    | inr (d, e) ↦ ground (arith, same d e)
  ]

  -- DeepCopy gives the reference back exactly if its digest, where it has one, is the digest of its own
  -- text.
  pub deep_copy-same :
      (r : RefSpec i)
      → (deep_copy i r ≡ r) ↔ ((d : i.Digest) → r.digest ≡ some d → i.from_string (i.text d) ≡ d)
  unfolding deep_copy
  deep_copy-same r = (
    λ e d has. ground (arith, ap (λ (x : RefSpec i). x.digest) e),
    λ same. ap (λ g. record r { digest = g }) (digest_kept r same),
  )
