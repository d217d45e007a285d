-- ===== src/Tests/Keyring.antt =====
-- The keyring at concrete inputs (ociclient/credentials/keyring.go).
use component_cli.Prelude.{String, ◌≡◌, ◌≢◌, refl, true, none, some, List, [], ◌∷◌, ◌++◌, All}
use component_cli.Prelude.Result.{ok}
use component_cli.Prelude.Dict.{Distinct, lookup, insert}
use component_cli.Strings.{split, join, path_join}
use component_cli.Keyring.Index.{IndexNode, node, nil, find_segment, update_segment, set, find}
use component_cli.Keyring.Index.Segments.{key, set_at, find_at}
use component_cli.Keyring.Index.Segments.Lookup.{addresses_at, node_at, words_eq}
use component_cli.Keyring.Search.{find-longest, find_no_fallback}
use component_cli.Keyring.{
  AuthConfig, AuthConfigGetter, GeneralOciKeyring, empty, or_else, first_auth, getters_of, get,
  default_auth_config_getter, normalize_host, add_auth_config_getter, merge, is_empty_auth_config,
  get_credentials, from_auth_config, get_resource,
}
use component_cli.Keyring.Getters.{
  IsSole, IsIndexed, get-add_auth_config_getter, add_auth_config_getter-IsIndexed, merge_first_wins,
}
use component_cli.Tests.Instances.{hosts}

program : Unit {0}
unfolding split join path_join find_segment update_segment set find key set_at find_at addresses_at
    node_at words_eq lookup insert first_auth getters_of get default_auth_config_getter
    normalize_host add_auth_config_getter merge is_empty_auth_config get_credentials get_resource
    from_auth_config
program = tt

abbrev registry : IndexNode
registry = set (set (node "" [] nil) "gcr.io" ("gcr.io" ∷ [])) "gcr.io/a/b" ("gcr.io/a/b" ∷ [])

find-registry : find registry "gcr.io/a/b/c" ≡ ("gcr.io/a/b" ∷ [], true)
unfolding program
find-registry = refl

-- The credentials of the host are not found for a path beside the longer one.
find-beside : find registry "gcr.io/a/c" ≡ ([], true)
unfolding program
find-beside = refl

abbrev auth : String → AuthConfig
auth name = record {
  username = name;
  password = "secret";
  auth = "";
  email = "";
  server_address = "";
  identity_token = "";
  registry_token = "";
  metadata = [];
}

abbrev getter : String → AuthConfigGetter
getter name = default_auth_config_getter (auth name)

abbrev first : GeneralOciKeyring
first = (add_auth_config_getter hosts empty "gcr.io" (getter "one")).1

abbrev second : GeneralOciKeyring
second = (add_auth_config_getter hosts empty "gcr.io" (getter "two")).1

normal : normalize_host hosts "gcr.io" ≡ ok "gcr.io"
unfolding program
normal = refl

get-first : get first "gcr.io/repo" ≡ some (auth "one")
unfolding program
get-first = refl

get_credentials-first : get_credentials first "gcr.io" ≡ ("one", "secret")
unfolding program
get_credentials-first = refl

get_resource-first : get_resource hosts first "gcr.io/repo" ≡ some (auth "one")
unfolding program
get_resource-first = refl

find-longest_example :
    (best rest : List String) × ((find registry "gcr.io/a/c").0 ≡ addresses_at best registry)
    × (key "gcr.io/a/c" ≡ best ++ rest)
    × (node_at best registry ≢ none)
    × ((ws more : List String)
        → key "gcr.io/a/c" ≡ ws ++ more
        → node_at ws registry ≢ none
        → (tail : List String) × (best ≡ ws ++ tail))
find-longest_example = find-longest registry "gcr.io/a/c"

same_key : key "gcr.io/" ≡ key "gcr.io"
unfolding program
same_key = refl

abbrev inner : IndexNode
inner = node "a" [] (update_segment nil "b" (λ _. node "b" ("gcr.io/a/b" ∷ []) nil))

find_no_fallback_example : (find registry "gcr.io/a/c/d").0 ≡ []
unfolding program
find_no_fallback_example =
    find_no_fallback registry inner "gcr.io/a/c/d" "c" ("gcr.io" ∷ "a" ∷ []) ("d" ∷ []) refl refl
      refl refl

empty-IsIndexed : IsIndexed empty
unfolding program
empty-IsIndexed = record { indexed = λ a e. refl }

first-IsIndexed : IsIndexed first
first-IsIndexed =
    add_auth_config_getter-IsIndexed hosts empty "gcr.io" "gcr.io" (getter "one") normal
      empty-IsIndexed

first-IsSole : IsSole "gcr.io" first
unfolding program
first-IsSole = (refl, tt)

get-add_auth_config_getter_example :
    get (add_auth_config_getter hosts first "gcr.io" (getter "two")).1 "gcr.io/"
    ≡ or_else
        (first_auth "gcr.io/" (getters_of first.store "gcr.io"))
        (first_auth "gcr.io/" (getter "two" ∷ []))
get-add_auth_config_getter_example =
    get-add_auth_config_getter hosts first "gcr.io" "gcr.io" (getter "two") normal "gcr.io/"
      first-IsIndexed first-IsSole same_key

second-Distinct : Distinct second.store
unfolding program
second-Distinct = (refl, tt)

second-normal : All (λ e. normalize_host hosts e.0 ≡ ok e.0) second.store
unfolding program
second-normal = (refl, tt)

found_first : first_auth "gcr.io" (getters_of first.store "gcr.io") ≡ some (auth "one")
unfolding program
found_first = refl

merge_first_wins_example :
    first_auth "gcr.io" (getters_of (merge hosts first second).1.store "gcr.io") ≡ some (auth "one")
merge_first_wins_example =
    merge_first_wins hosts first second "gcr.io" "gcr.io" (auth "one") second-Distinct second-normal
      found_first
