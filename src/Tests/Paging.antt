-- ===== src/Tests/Paging.antt =====
-- Lists of tags and repositories at concrete pages (ociclient/client.go).
use Prim.Native.String.{◌++◌ as ◌<>◌}
use component_cli.Prelude.{
  ℕ, ◌≤◌, length, ◌==◌, nat_eq, String, ◌≡◌, refl, none, some, List, [], ◌∷◌, if◌then◌else◌,
}
use component_cli.Prelude.Result.{Result, ok}
use component_cli.Strings.{clean}
use component_cli.OciRef.{RefSpec}
use component_cli.Client.Paging.{Http, list_tags, repositories_request, list_repositories}
use component_cli.Client.Paging.Pages.{last, next, concat}
use component_cli.Client.Paging.Lists.{
  Tags, asked_of, Repositories, list_tags-Pages, list_repositories-asked_of,
}
use component_cli.Tests.Instances.{sum}
use component_cli.Tests.Registries.{tests, remotes}

program : Unit {0}
unfolding list_tags list_repositories clean
program = tt

-- The tags of two pages.
abbrev pages : Http remotes
pages = record {
  Url = String;
  make_url = λ scheme host path query. path <> "?" <> query;
  parse_url = λ s. ok s;
  get = λ trp url. ok (record {
    status = 200;
    link = if url == "/page2" then "" else "</page2>; rel=next";
    body = ok ((if url == "/page2" then 2 else 1) ∷ []);
  });
  unmarshal_tags = λ bytes. ok (if nat_eq (sum bytes) 1 then "1.0" ∷ "1.1" ∷ [] else "2.0" ∷ []);
  unmarshal_repositories = λ bytes. ok ("library/a" ∷ "repo" ∷ "repository" ∷ []);
  unmarshal_error = λ bytes. ok "";
  registry_str = λ ref. "host";
}

abbrev listing : Result (List String)
listing = ok ("1.0" ∷ "1.1" ∷ "2.0" ∷ [])

abbrev first_url : String
first_url = "/v2/repo/tags/list?n=1000"

listed : list_tags pages 2 "repo" ≡ some listing
unfolding program
listed = refl

list_tags-Pages_example :
    ((n : ℕ) (ps : List (List String))
      → Tags pages "repo" first_url ps
      → length ps ≤ n
      → list_tags pages n "repo" ≡ some (ok (concat ps)))
    × ((n : ℕ) (tags : List String)
        → list_tags pages n "repo" ≡ some (ok tags)
        → (ps : List (List String)) × Tags pages "repo" first_url ps × (tags ≡ concat ps))
unfolding program
list_tags-Pages_example = list_tags-Pages pages "repo" "repo" first_url refl

-- There are the pages that the example speaks of.
two_pages : Tags pages "repo" first_url (("1.0" ∷ "1.1" ∷ []) ∷ ("2.0" ∷ []) ∷ [])
unfolding program
two_pages =
    next first_url "/page2" ("1.0" ∷ "1.1" ∷ []) "</page2>; rel=next" (("2.0" ∷ []) ∷ []) refl refl
      refl (last "/page2" ("2.0" ∷ []) refl)

abbrev asked : RefSpec tests.images
asked = record { host = "host"; repository = "repo"; tag = some "1"; digest = none }

abbrev repositories : List String
repositories = "host/repo" ∷ "host/repository" ∷ "host/repo" ∷ "host/repository" ∷ []

listed_repositories : list_repositories pages 2 "repo" ≡ some (ok repositories)
unfolding program
listed_repositories = refl

requested : repositories_request pages "repo" ≡ ok ("repo", "/v2/_catalog?n=1000", asked)
unfolding program
requested = refl

list_repositories-asked_of_example :
    (ps : List (List String)) × Repositories pages "repo" "/v2/_catalog?n=1000" ps
    × (repositories ≡ asked_of pages asked (concat ps))
list_repositories-asked_of_example =
    list_repositories-asked_of pages 2 "repo" "repo" "/v2/_catalog?n=1000" asked repositories
      requested refl listed_repositories
