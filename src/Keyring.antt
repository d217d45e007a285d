-- ===== src/Keyring.antt =====
-- The credentials of OCI registries (ociclient/credentials/keyring.go). Parsing docker references
-- and urls is not part of this code: it enters as `References`.
pub mod Index
pub mod Getters
pub mod Search
use Prim.Native.String.{◌++◌ as ◌<>◌}
use text.Mathlib.Text.{find?}
use component_cli.Prelude.{
  String, Bool, true, false, not, Option, none, some, List, [], ◌∷◌, ◌++◌, ◌==◌, if◌then◌else◌,
}
use component_cli.Prelude.Result.{Error, Result, ok, err, ◌>>=◌}
use component_cli.Prelude.Dict.{Dict, lookup, insert}
use component_cli.Strings.{path_join}
use component_cli.Keyring.Index
use component_cli.Keyring.Index.{IndexNode, node, nil}

abbrev pub docker_hub_domain : String
docker_hub_domain = "docker.io"

abbrev pub docker_hub_legacy_domain : String
docker_hub_legacy_domain = "index.docker.io"

-- A parsed docker reference: `ref.Name()`, `Domain(ref)` and `Path(ref)`.
pub record Named : Type 0 where
  pub name : String
  pub domain : String
  pub path : String

-- The two fields of a parsed url that the code reads.
pub record Url : Type 0 where
  pub host : String
  pub path : String

-- dockerreference.ParseDockerRef and url.Parse.
pub record References : Type 0 where
  pub parse_docker_ref : String → Result Named
  pub parse_url : String → Result Url

pub record AuthConfig : Type 0 where
  pub username : String
  pub password : String
  pub auth : String
  pub email : String
  pub server_address : String
  pub identity_token : String
  pub registry_token : String
  pub metadata : Dict String

-- dockerconfigtypes.AuthConfig, of the docker command line.
pub record DockerAuthConfig : Type 0 where
  pub username : String
  pub password : String
  pub auth : String
  pub identity_token : String
  pub registry_token : String

-- The loop of `FromAuthConfig` over the keys and values, with `prevKey`.
unfoldable pub collect_metadata : String → Dict String → List String → Dict String
collect_metadata prev m [] = m
collect_metadata prev m (v ∷ vs) =
    collect_metadata (if prev == "" then v else "") (if prev == "" then m else insert prev v m) vs

unfoldable pub from_auth_config : DockerAuthConfig → List String → AuthConfig
unfolding collect_metadata
from_auth_config cfg keys_and_values = record {
  username = cfg.username;
  password = cfg.password;
  auth = cfg.auth;
  email = "";
  server_address = "";
  identity_token = cfg.identity_token;
  registry_token = cfg.registry_token;
  metadata = collect_metadata "" [] keys_and_values;
}

abbrev pub AuthConfigGetter : Type 0
AuthConfigGetter = String → Result AuthConfig

unfoldable pub default_auth_config_getter : AuthConfig → AuthConfigGetter
default_auth_config_getter config _ = ok config

pub record GeneralOciKeyring : Type 0 where
  pub index : IndexNode
  pub store : Dict (List AuthConfigGetter)

-- `New`
abbrev pub empty : GeneralOciKeyring
empty = record { index = node "" [] nil; store = [] }

unfoldable pub is_empty_auth_config : AuthConfig → Bool
is_empty_auth_config a =
    if not (a.auth == "") then false else if not (a.username == "") then false else true

-- The inner loop of `get`: an error or an empty config goes on to the next getter.
unfoldable pub first_auth : String → List AuthConfigGetter → Option AuthConfig
first_auth url [] = none
first_auth url (g ∷ gs) = elim (g url) [
  | err e ↦ first_auth url gs
  | ok a ↦ elim (is_empty_auth_config a) [ true ↦ first_auth url gs | false ↦ some a ]
]

abbrev pub or_else {ℓ} : {A : Type ℓ} → Option A → Option A → Option A
or_else none o = o
or_else (some a) o = some a

-- The getters of `store[address]`, none where the key is missing.
unfoldable pub getters_of : Dict (List AuthConfigGetter) → String → List AuthConfigGetter
getters_of store address = elim (lookup address store) [ none ↦ [] | some gs ↦ gs ]

-- The outer loop of `get`, over the addresses that the index gives.
unfoldable pub first_address :
    String → Dict (List AuthConfigGetter) → List String → Option AuthConfig
unfolding getters_of
first_address url store [] = none
first_address url store (a ∷ addrs) =
    or_else (first_auth url (getters_of store a)) (first_address url store addrs)

-- `get`, on a url that is taken as it is.
unfoldable pub get : GeneralOciKeyring → String → Option AuthConfig
unfolding first_address
get o url =
    let (addrs, found) = Index.find o.index url in
    if not found then none else first_address url o.store addrs

-- A method that changes the keyring: its error, and the keyring as it is left. A loop stops at the
-- first error, and what was added before stays.
abbrev pub Outcome : Type 0
Outcome = Option Error × GeneralOciKeyring

abbrev pub and_then : Outcome → (GeneralOciKeyring → Outcome) → Outcome
and_then (none, o) f = f o
and_then (some e, o) f = (some e, o)

module _ (refs : References) where
  open refs use {parse_docker_ref, parse_url}

  -- `Get`
  unfoldable pub get_resource : GeneralOciKeyring → String → Option AuthConfig
  get_resource o resource_url = elim (parse_docker_ref resource_url) [
    | err e ↦ get o resource_url
    | ok ref ↦ or_else (get o ref.name) (
        if ref.domain == docker_hub_domain
        then get o (path_join docker_hub_legacy_domain ref.path)
        else none)
  ]

  unfoldable pub normalize_host : String → Result String
  normalize_host u = do
    host ← parse_url (elim (find? u "://") [ none ↦ "dummy://" <> u | some _ ↦ u ])
    ok (path_join host.host host.path)

  unfoldable pub add_auth_config_getter : GeneralOciKeyring → String → AuthConfigGetter → Outcome
  unfolding getters_of
  add_auth_config_getter o address getter = elim (normalize_host address) [
    | err e ↦ (some e, o)
    | ok a ↦ (
      none,
      record {
        index = Index.set o.index a (a ∷ []);
        store = insert a (getters_of o.store a ++ getter ∷ []) o.store;
      },
    )
  ]

  unfoldable pub add_auth_config : GeneralOciKeyring → String → AuthConfig → Outcome
  unfolding default_auth_config_getter
  add_auth_config o address auth =
      add_auth_config_getter o address (default_auth_config_getter auth)

  -- The loop of `Add` over the addresses of a docker credential store.
  unfoldable pub add_all : GeneralOciKeyring → Dict DockerAuthConfig → Outcome
  add_all o [] = (none, o)
  add_all o ((address, auth) ∷ auths) =
      and_then (add_auth_config o address (from_auth_config auth [])) (λ k. add_all k auths)

  -- `Add`: `get_all` is what the credential store answers.
  unfoldable pub add : GeneralOciKeyring → Result (Dict DockerAuthConfig) → Outcome
  unfolding add_all
  add o get_all = elim get_all [ err e ↦ (some e, o) | ok auths ↦ add_all o auths ]

  -- The inner loop of `Merge`.
  unfoldable pub add_getters : GeneralOciKeyring → String → List AuthConfigGetter → Outcome
  add_getters o address [] = (none, o)
  add_getters o address (g ∷ gs) =
      and_then (add_auth_config_getter o address g) (λ k. add_getters k address gs)

  unfoldable pub merge_store : GeneralOciKeyring → Dict (List AuthConfigGetter) → Outcome
  merge_store k1 [] = (none, k1)
  merge_store k1 ((address, getters) ∷ rest) =
      and_then (add_getters k1 address getters) (λ k. merge_store k rest)

  -- `Merge`, which changes its first keyring.
  unfoldable pub merge : GeneralOciKeyring → GeneralOciKeyring → Outcome
  unfolding merge_store add_getters
  merge k1 k2 = merge_store k1 k2.store

-- `GetCredentials`; the call for the legacy domain is the only one that it makes of itself, since
-- that domain is not the docker hub's.
unfoldable pub get_credentials : GeneralOciKeyring → String → String × String
get_credentials o hostname = elim (get o hostname) [
  | some a ↦ (a.username, a.password)
  | none ↦
      if hostname == docker_hub_domain
      then elim (get o docker_hub_legacy_domain) [
        | some a ↦ (a.username, a.password)
        | none ↦ ("", "")
      ]
      else ("", "")
]
