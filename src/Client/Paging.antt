-- ===== src/Client/Paging.antt =====
-- Lists of tags and repositories, page by page (ociclient/client.go).
pub mod Pages
pub mod Lists
use component_cli.Prelude.{
  ℕ, zero, suc, Char, code, String, Bool, true, false, ◌||◌, Option, none, some, List, [], ◌∷◌,
  ◌++◌, map, nat_eq, ◌==◌, if◌then◌else◌,
}
use component_cli.Prelude.Result.{Error, invalid, wrap, Result, ok, err, ◌>>=◌, context}
use component_cli.Strings.{split, path_join, has_prefix}
use component_cli.OciRef.{RefSpec, parse_ref, name}
use component_cli.Oci.{Formats}
use component_cli.Client.{Caches, Remotes, pull_scope}
use component_cli.Client.Transport.{find_host, get_ref_parser_options, get_transport_for_ref}

-- An answer: its status, the header "Link" and what reading its body gives.
pub record Response : Type 0 where
  pub status : ℕ
  pub link : String
  pub body : Result (List ℕ)

-- What the lists use of other packages: urls, http, the json of the lists and of errors, whose text it
-- gives, and the name of a reference's registry.
pub record Http {f : Formats} (r : Remotes f) : Type 1 where
  pub Url : Type 0
  pub make_url : String → String → String → String → Url
  pub parse_url : String → Result Url
  pub get : r.Transport → Url → Result Response
  pub unmarshal_tags : List ℕ → Result (List String)
  pub unmarshal_repositories : List ℕ → Result (List String)
  pub unmarshal_error : List ℕ → Result String
  pub registry_str : r.Reference → String

-- `strings.NewReplacer(">", "", "<", "").Replace`
unfoldable pub without_brackets : String → String
without_brackets String.[] = ""
without_brackets (String.◌∷◌ c s) =
    let rest = without_brackets s in
    if nat_eq (code c) (code ">") || nat_eq (code c) (code "<") then rest else String.◌∷◌ c rest

abbrev first : List String → String
first [] = ""
first (w ∷ ws) = w

-- The text of the next url in a header "Link".
unfoldable pub next_of : String → String
unfolding split without_brackets
next_of link = without_brackets (first (split ";" link))

module _ {f : Formats} {r : Remotes f} (h : Http r) where
  -- `doRequest`
  unfoldable pub do_request : r.Transport → h.Url → Result Response
  do_request trp url = do
    resp ← context "unable to get" (h.get trp url)
    if nat_eq resp.status 200 then ok resp else (do
      data' ← context "unable to read response body" resp.body
      message ← context "unable to decode error response" (h.unmarshal_error data')
      err (invalid message))

  -- The paging function of a list: the part of the list in an answer, and the answer's link.
  unfoldable pub get_page :
      (List ℕ → Result (List String))
      → (List String → List String)
      → r.Transport
      → h.Url
      → Result (List String × String)
  unfolding do_request
  get_page unmarshal select trp url = do
    resp ← do_request trp url
    data' ← context "unable to read response body" resp.body
    items ← context "unable to decode list" (unmarshal data')
    ok (select items, resp.link)

  -- `doRequestWithPaging`, on fuel for the pages, with what is listed so far: `none` where the fuel
  -- does not last.
  unfoldable pub do_request_with_paging :
      ℕ
      → (h.Url → Result (List String × String))
      → h.Url
      → List String
      → Option (Result (List String))
  unfolding next_of
  do_request_with_paging zero page url listed = none
  do_request_with_paging (suc n) page url listed = elim (page url) [
    | err e ↦ some (err e)
    | ok (items, link) ↦
        if link == "" then some (ok (listed ++ items)) else elim (h.parse_url (next_of link)) [
          | err e ↦ some (err (wrap "unable to parse next url" e))
          | ok next ↦ do_request_with_paging n page next (listed ++ items)
        ]
  ]

  -- `ListTags` up to the requests: the transport and the first url.
  unfoldable pub tags_request : String → Result (r.Transport × h.Url)
  unfolding parse_ref find_host get_transport_for_ref path_join
  tags_request ref = do
    spec ← context "unable to parse ref" (parse_ref f.images ref)
    host ← find_host f r spec.host
    trp ← context "unable to create transport" (get_transport_for_ref f r ref (pull_scope ∷ []))
    ok (
      trp,
      h.make_url host.scheme host.host
          (path_join (path_join (path_join host.path spec.repository) "tags") "list") "n=1000",
    )

  -- `ListTags`
  unfoldable pub list_tags : ℕ → String → Option (Result (List String))
  unfolding tags_request get_page do_request_with_paging
  list_tags n ref = elim (tags_request ref) [
    | err e ↦ some (err e)
    | ok (trp, url) ↦ do_request_with_paging n (get_page h.unmarshal_tags (λ tags. tags) trp) url []
  ]

  -- `ListRepositories` up to the requests: the transport, the first url and the parsed reference.
  unfoldable pub repositories_request : String → Result (r.Transport × h.Url × RefSpec f.images)
  unfolding get_ref_parser_options find_host path_join parse_ref
  repositories_request ref = do
    insecure ← context "unable to get ref parser options" (get_ref_parser_options f r ref)
    repo ← context "unable to parse ref" (r.parse_reference insecure ref)
    auth ← context "unable to get authentication" (r.authenticate repo)
    trp ←
        context "unable to create transport" (r.new_transport repo auth ("registry:catalog:*" ∷ []))
    host ← find_host f r (h.registry_str repo)
    spec ← context "unable to parse ref" (parse_ref f.images ref)
    ok (trp, h.make_url host.scheme host.host (path_join host.path "_catalog") "n=1000", spec)

  -- The names of the listed repositories that start with the repository of a reference, or with its
  -- name; without a repository, all that are listed.
  unfoldable pub named : RefSpec f.images → List String → List String
  unfolding has_prefix name
  named spec [] = []
  named spec (repo ∷ repos) =
      let rest = named spec repos in
      if has_prefix repo spec.repository || has_prefix repo (name f.images spec)
      then name f.images (record spec { repository = repo }) ∷ rest
      else rest

  unfoldable pub select_repositories : RefSpec f.images → List String → List String
  unfolding named
  select_repositories spec repos = if spec.repository == "" then repos else named spec repos

  -- `ListRepositories`
  unfoldable pub list_repositories : ℕ → String → Option (Result (List String))
  unfolding repositories_request get_page do_request_with_paging select_repositories
  list_repositories n ref = elim (repositories_request ref) [
    | err e ↦ some (err e)
    | ok (trp, url, spec) ↦
        do_request_with_paging n (get_page h.unmarshal_repositories (select_repositories spec) trp)
          url []
  ]
