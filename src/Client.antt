-- ===== src/Client.antt =====
-- The OCI client (ociclient/client.go): its state, its calls as actions that answer with an error or a
-- value and leave a state, and the authenticated transport for a reference.
pub mod Transport
pub mod Actions
pub mod Fetch
pub mod Push
pub mod Copy
pub mod Paging
use component_cli.Prelude.{
  ℕ, String, Bool, true, false, Option, none, some, List, [], ◌∷◌, map, ◌==◌, if◌then◌else◌,
}
use component_cli.Prelude.Result.{Error, invalid, wrap, Result, ok, err}
use component_cli.Oci.{Formats, Descriptor}

-- `cache.Cache`: a cache is a value that its methods change. `content` of `add` is what reading the
-- given reader gives.
pub record Caches (f : Formats) : Type 1 where
  pub Cache : Type 0
  pub new_in_memory : Cache
  pub get : Cache → Descriptor f → Result (List ℕ) × Cache
  pub add : Cache → Descriptor f → Result (List ℕ) → Option Error × Cache

pub record HostConfig : Type 0 where
  pub scheme : String
  pub host : String
  pub path : String

-- How a registry answers to the start of an upload.
pub data Upload : Type 0 where
  exists : Upload
  refused : Error → Upload
  writing : Upload

-- What the client uses of other packages: the configuration of hosts, references and credentials
-- (go-containerregistry), and the resolver of containerd: resolving, fetching, where opening a blob and
-- reading it may fail, the start of an upload, and its end, content.Copy. `Registry` is what is stored
-- in all registries.
pub record Remotes (f : Formats) : Type 1 where
  pub host_config : String → Result (List HostConfig)
  pub Reference : Type 0
  pub parse_reference : Bool → String → Result Reference
  pub Auth : Type 0
  pub authenticate : Reference → Result Auth
  pub scope : Reference → String → String
  pub Transport : Type 0
  pub new_transport : Reference → Auth → List String → Result Transport
  pub Registry : Type 0
  pub resolve : Transport → Registry → String → Result (Descriptor f)
  pub fetcher : Transport → String → Option Error
  pub fetch : Transport → Registry → String → Descriptor f → Result (Result (List ℕ))
  pub pusher : Transport → String → Option Error
  pub push : Transport → Registry → String → Descriptor f → Upload
  pub commit : Transport → Registry → String → Descriptor f → List ℕ → Option Error × Registry

abbrev pub pull_scope : String
pull_scope = "pull"

abbrev pub push_scope : String
push_scope = "push,pull"

module _ (f : Formats) (c : Caches f) (r : Remotes f) where
  -- The state that calls change: the client's cache, which may be missing, the cache in memory that a
  -- push makes where it is, and the registries.
  pub record State : Type 0 where
    pub cache : Option c.Cache
    pub temp : c.Cache
    pub registry : r.Registry

  abbrev pub Action : Type 0 → Type 0
  Action A = State → Result A × State

module _ {f : Formats} {c : Caches f} {r : Remotes f} where
  module _ {A : Type 0} where
    abbrev pub pure : A → Action f c r A
    pure a s = (ok a, s)

    abbrev pub raise : Error → Action f c r A
    raise e s = (err e, s)

    abbrev pub from : Result A → Action f c r A
    from m s = (m, s)

    -- `fmt.Errorf` around the error of a call
    abbrev pub explain : String → Action f c r A → Action f c r A
    explain text m s =
        let (a, s') = m s in elim a [ ok x ↦ (ok x, s') | err e ↦ (err (wrap text e), s') ]

  abbrev pub check : Option Error → Action f c r (Unit {0})
  check none s = (ok tt, s)
  check (some e) s = (err e, s)

  infixl 5 ◌>>=◌ ◌>>◌
  abbrev pub ◌>>=◌ : {A B : Type 0} → Action f c r A → (A → Action f c r B) → Action f c r B
  ◌>>=◌ m k s = let (a, s') = m s in elim a [ ok x ↦ k x s' | err e ↦ (err e, s') ]

  abbrev pub ◌>>◌ : {A B : Type 0} → Action f c r A → Action f c r B → Action f c r B
  m >> k = m >>= λ _. k
