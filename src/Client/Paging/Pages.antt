-- ===== src/Client/Paging/Pages.antt =====
-- Paging lists all pages, in order, and nothing else (ociclient/client.go).
use mathlib.Core.List.{append-nil, append_assoc}
use component_cli.Prelude.{
  ℕ, zero, suc, String, ◌≡◌, ◌≤◌, refl, sym, ◌∙◌, false, Bool-cases, some, inl, inr, List, [], ◌∷◌,
  ◌++◌, ◌==◌, eq_iff, arith, length,
}
use component_cli.Prelude.Result.{Result, ok, Result-cases}
use component_cli.Oci.{Formats}
use component_cli.Client.{Remotes}
use component_cli.Client.Paging.{Http, next_of, do_request_with_paging}

abbrev pub concat : List (List String) → List String
concat [] = []
concat (p ∷ ps) = p ++ concat ps

module _ {f : Formats} {r : Remotes f} (h : Http r)
    (page : h.Url → Result (List String × String)) where
  -- The pages from a url on: each links to the next, and the last one has no link.
  pub data Pages : h.Url → List (List String) → Type 0 where
    last : (url : h.Url) (items : List String) → page url ≡ ok (items, "") → Pages url (items ∷ [])
    next :
        (url url' : h.Url) (items : List String) (link : String) (ps : List (List String))
        → page url ≡ ok (items, link)
        → (link == "") ≡ false
        → h.parse_url (next_of link) ≡ ok url'
        → Pages url' ps
        → Pages url (items ∷ ps)

  pub do_request_with_paging-lists :
      (n : ℕ) (url : h.Url) (ps : List (List String)) (listed : List String)
      → Pages url ps
      → length ps ≤ n
      → do_request_with_paging h n page url listed ≡ some (ok (listed ++ concat ps))
  unfolding do_request_with_paging
  do_request_with_paging-lists zero url ps listed (last _ items e) enough =
      absurd (omega (arith, enough))
  do_request_with_paging-lists zero url ps listed (next _ url' items link qs e e' e'' rest) enough =
      absurd (omega (arith, enough))
  do_request_with_paging-lists (suc n) url ps listed (last _ items e) enough =
      rw (do_request_with_paging, e, append-nil items) refl
  do_request_with_paging-lists (suc n) url ps listed (next _ url' items link qs e e' e'' rest)
        enough =
      rw (do_request_with_paging, e, e', e'', sym (append_assoc listed items (concat qs)))
        (do_request_with_paging-lists n url' qs (listed ++ items) rest (omega (arith, enough)))

  pub do_request_with_paging-Pages :
      (n : ℕ) (url : h.Url) (listed all : List String)
      → do_request_with_paging h n page url listed ≡ some (ok all)
      → (ps : List (List String)) × Pages url ps × (all ≡ listed ++ concat ps)
  unfolding do_request_with_paging
  do_request_with_paging-Pages zero url listed all h' = absurd (ground arith)
  do_request_with_paging-Pages (suc n) url listed all h' = elim (Result-cases (page url)) [
    | inr (failure, e) ↦ absurd (ground arith)
    | inl ((items, link), e) ↦ elim (Bool-cases (link == "")) [
      | inl e' ↦ (
        items ∷ [],
        last url items (rw ((eq_iff link "").0 e') at e),
        rw (append-nil items) (ground arith),
      )
      | inr e' ↦ elim (Result-cases (h.parse_url (next_of link))) [
        | inr (failure, e'') ↦ absurd (ground arith)
        | inl (url', e'') ↦
            let (ps, pages, same) =
              do_request_with_paging-Pages n url' (listed ++ items) all
                (rw (do_request_with_paging, e, e', e'') at h') in
            (
              items ∷ ps,
              next url url' items link ps e e' e'' pages,
              same ∙ append_assoc listed items (concat ps),
            )
      ]
    ]
  ]
