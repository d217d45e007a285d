-- ===== src/Client/Paging/Lists.antt =====
-- The lists of tags and of repositories hold what the pages hold (ociclient/client.go).
use mathlib.Core.List.{append-nil}
use component_cli.Prelude.{
  Bool, ap, ◌∙◌, sym, ◌++◌, map, if◌then◌else◌, ℕ, String, ◌≡◌, ◌≤◌, refl, false, ◌||◌, Bool-cases,
  some, inl, inr, List, [], ◌∷◌, ◌==◌, arith, length,
}
use component_cli.Prelude.Result.{Result, ok, Result-cases}
use component_cli.OciRef.{RefSpec, name}
use component_cli.Strings.{has_prefix}
use component_cli.Oci.{Formats}
use component_cli.Client.{Remotes}
use component_cli.Client.Paging.{
  Http, do_request, get_page, tags_request, list_tags, named, select_repositories,
  list_repositories, repositories_request,
}
use component_cli.Client.Paging.Pages.{
  concat, Pages, last, next, do_request_with_paging-lists, do_request_with_paging-Pages,
}

abbrev pub keep : (String → Bool) → List String → List String
keep p [] = []
keep p (x ∷ xs) = if p x then x ∷ keep p xs else keep p xs

chosen : (b : Bool) (xs ys : List String) → b ≡ false → (if b then xs else ys) ≡ ys
chosen b xs ys e = rw e refl

module _ {f : Formats} {r : Remotes f} (h : Http r) where
  -- The pages of tags from a url on.
  abbrev pub Tags : r.Transport → h.Url → List (List String) → Type 0
  Tags trp url ps = Pages h (get_page h h.unmarshal_tags (λ tags. tags) trp) url ps

  -- Where the requests of ListTags go from its first url over pages that each link to the next, up to
  -- one without a link, ListTags comes to an end and lists the tags of all of them, in order; and
  -- whatever ListTags lists is the tags of such pages.
  pub list_tags-Pages :
      (ref : String) (trp : r.Transport) (url : h.Url)
      → tags_request h ref ≡ ok (trp, url)
      → ((n : ℕ) (ps : List (List String))
          → Tags trp url ps
          → length ps ≤ n
          → list_tags h n ref ≡ some (ok (concat ps)))
        × ((n : ℕ) (tags : List String)
            → list_tags h n ref ≡ some (ok tags)
            → (ps : List (List String)) × Tags trp url ps × (tags ≡ concat ps))
  unfolding list_tags
  list_tags-Pages ref trp url e =
      let page = get_page h h.unmarshal_tags (λ tags. tags) trp in
      (
        λ n ps pages enough.
            rw (list_tags, e) (do_request_with_paging-lists h page n url ps [] pages enough),
        λ n tags listed.
            do_request_with_paging-Pages h page n url [] tags (rw (list_tags, e) at listed),
      )

  -- The repositories that a reference asks for, among those that a registry has.
  abbrev pub asked_of : RefSpec f.images → List String → List String
  asked_of spec repos =
      map (λ repo. name f.images (record spec { repository = repo }))
        (keep (λ repo. has_prefix repo spec.repository || has_prefix repo (name f.images spec))
          repos)

  named-asked_of :
      (spec : RefSpec f.images) (repos : List String) → named h spec repos ≡ asked_of spec repos
  unfolding named
  named-asked_of spec [] = refl
  named-asked_of spec (repo ∷ repos) =
      elim (Bool-cases (has_prefix repo spec.repository || has_prefix repo (name f.images spec))) [
        | inl e ↦
            rw (named, e)
              (ap (◌∷◌ (name f.images (record spec { repository = repo })))
                (named-asked_of spec repos))
        | inr e ↦ rw (named, e) (named-asked_of spec repos)
      ]

  asked_of-append :
      (spec : RefSpec f.images) (xs ys : List String)
      → asked_of spec (xs ++ ys) ≡ asked_of spec xs ++ asked_of spec ys
  asked_of-append spec [] ys = refl
  asked_of-append spec (repo ∷ xs) ys =
      elim (Bool-cases (has_prefix repo spec.repository || has_prefix repo (name f.images spec))) [
        | inl e ↦ rw e (
            ap (◌∷◌ (name f.images (record spec { repository = repo })))
              (asked_of-append spec xs ys))
        | inr e ↦ rw e (asked_of-append spec xs ys)
      ]

  -- What is listed of a page is selected from all that the page has.
  get_page-selected :
      (unmarshal : List ℕ → Result (List String)) (select : List String → List String)
      (trp : r.Transport) (url : h.Url) (items : List String) (link : String)
      → get_page h unmarshal select trp url ≡ ok (items, link)
      → (all : List String) × (items ≡ select all)
        × (get_page h unmarshal (λ repos. repos) trp url ≡ ok (all, link))
  unfolding get_page
  get_page-selected unmarshal select trp url items link e =
      elim (Result-cases (do_request h trp url)) [
        | inr (failure, e') ↦ absurd (ground arith)
        | inl (resp, e') ↦ elim (Result-cases resp.body) [
          | inr (failure, e'') ↦ absurd (ground arith)
          | inl (bytes, e'') ↦ elim (Result-cases (unmarshal bytes)) [
            | inr (failure, e3) ↦ absurd (ground arith)
            | inl (all, e3) ↦ (all, ground arith, ground arith)
          ]
        ]
      ]

  -- The pages of repositories from a url on, with all that they have.
  abbrev pub Repositories : r.Transport → h.Url → List (List String) → Type 0
  Repositories trp url ps =
      Pages h (get_page h h.unmarshal_repositories (λ repos. repos) trp) url ps

  select_repositories-asked_of :
      (spec : RefSpec f.images) (all : List String)
      → (spec.repository == "") ≡ false
      → select_repositories h spec all ≡ asked_of spec all
  unfolding select_repositories
  select_repositories-asked_of spec all e =
      chosen (spec.repository == "") all (named h spec all) e ∙ named-asked_of spec all

  page-asked_of :
      (spec : RefSpec f.images) (trp : r.Transport) (url : h.Url) (items : List String)
      (link : String)
      → (spec.repository == "") ≡ false
      → get_page h h.unmarshal_repositories (select_repositories h spec) trp url ≡ ok (items, link)
      → (all : List String) × (items ≡ asked_of spec all)
        × (get_page h h.unmarshal_repositories (λ repos. repos) trp url ≡ ok (all, link))
  page-asked_of spec trp url items link e e' =
      let (all, same, page) =
        get_page-selected h.unmarshal_repositories (select_repositories h spec) trp url items link
          e' in
      (all, same ∙ select_repositories-asked_of spec all e, page)

  Pages-asked_of :
      (spec : RefSpec f.images) (trp : r.Transport) (url : h.Url) (ps : List (List String))
      → (spec.repository == "") ≡ false
      → Pages h (get_page h h.unmarshal_repositories (select_repositories h spec) trp) url ps
      → (qs : List (List String)) × Repositories trp url qs
        × (concat ps ≡ asked_of spec (concat qs))
  Pages-asked_of spec trp url ps e (last _ items e') =
      let (all, same, page) = page-asked_of spec trp url items "" e e' in
      (all ∷ [], last url all page, rw (append-nil items, append-nil all) same)
  Pages-asked_of spec trp url ps e (next _ url' items link rest e' e'' e3 pages) =
      let (all, same, page) = page-asked_of spec trp url items link e e' in
      let (qs, whole, same') = Pages-asked_of spec trp url' rest e pages in
      (
        all ∷ qs,
        next url url' all link qs page e'' e3 whole,
        rw (same, same') (sym (asked_of-append spec all (concat qs))),
      )

  -- For a reference with a repository, ListRepositories lists, in order, exactly the names of the
  -- repositories on the registry's pages that start with the reference's repository or with its whole
  -- name, each with the host of the reference; the pages link each to the next, up to one without a
  -- link.
  pub list_repositories-asked_of :
      (n : ℕ) (ref : String) (trp : r.Transport) (url : h.Url) (spec : RefSpec f.images)
      (names : List String)
      → repositories_request h ref ≡ ok (trp, url, spec)
      → (spec.repository == "") ≡ false
      → list_repositories h n ref ≡ some (ok names)
      → (ps : List (List String)) × Repositories trp url ps × (names ≡ asked_of spec (concat ps))
  unfolding list_repositories
  list_repositories-asked_of n ref trp url spec names e e' listed =
      let page = get_page h h.unmarshal_repositories (select_repositories h spec) trp in
      let (ps, pages, same) =
        do_request_with_paging-Pages h page n url [] names (rw (list_repositories, e) at listed) in
      let (qs, whole, same') = Pages-asked_of spec trp url ps e' pages in (qs, whole, same ∙ same')
