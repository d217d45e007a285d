-- ===== src/Tests/Registries.antt =====
-- A concrete client for the tests: a registry that is a list of blobs by reference and digest, hosts and
-- references that are taken as they are, a cache in memory, and json of fixed bytes.
use component_cli.Prelude.{
  ℕ, String, ◌≡◌, refl, Bool, true, false, ◌||◌, ◌&&◌, none, some, List, [], ◌∷◌, nat_eq,
  nat_eq_iff, ◌==◌, eq_refl, arith, if◌then◌else◌,
}
use component_cli.Prelude.Result.{invalid, ok, err}
use component_cli.Oci.{Formats, Descriptor, Manifest, Index, Json, describe}
use component_cli.Cache.FileSystem.{Fs}
use component_cli.Cache.Layered
use component_cli.Cache.Layered.{LayeredCache}
use component_cli.Client.{Caches, Remotes, exists, writing, State, Action, raise}
use component_cli.Client.Fetch.Reads.{Reads}
use component_cli.Client.Push.Uploads.{IsRegistry}
use component_cli.Tests.Instances.{fixed, memory, sums, sum}

-- A digest is a name and a sum.
abbrev pub named : ℕ → String
named n = if nat_eq n 5 then "manifest" else if nat_eq n 7 then "index" else "blob"

abbrev pub tests : Formats
tests = record {
  images = record {
    Digest = String × ℕ;
    text = λ d. d.0;
    from_string = λ s. (s, 0);
    is_digest = λ s. true;
    parse_docker_ref =
        λ s. ok (record { domain = "host"; path = s; tag = some "1"; digest = none });
  };
  from_bytes = λ bytes. (named (sum bytes), sum bytes);
  Annotations = String;
  no_annotations = "";
  Platform = String;
  no_platform = "";
}

abbrev config_desc : Descriptor tests
config_desc = describe tests "application/json" []

abbrev layer_desc : Descriptor tests
layer_desc = describe tests "application/octet-stream" (3 ∷ [])

abbrev pub manifest : Manifest tests
manifest = record {
  schema_version = 2;
  config = config_desc;
  layers = layer_desc ∷ [];
  annotations = "";
}

abbrev pub manifest_desc : Descriptor tests
manifest_desc = describe tests "application/vnd.oci.image.manifest.v1+json" (5 ∷ [])

abbrev pub index : Index tests
index = record { schema_version = 2; manifests = manifest_desc ∷ []; annotations = "" }

abbrev pub index_desc : Descriptor tests
index_desc = describe tests "application/vnd.oci.image.index.v1+json" (7 ∷ [])

abbrev pub json : Json tests
json = record {
  marshal_manifest = λ m. ok (5 ∷ []);
  unmarshal_manifest = λ bytes. ok manifest;
  marshal_index = λ i. ok (7 ∷ []);
  unmarshal_index = λ bytes. ok index;
}

-- The cache on a file system, at a fixed time.
abbrev lookup_desc : Descriptor tests → Layered.Descriptor (String × ℕ)
lookup_desc desc = record { digest = desc.digest; size = desc.size }

abbrev no_files : Fs fixed memory
no_files = record {
  files = [];
  size = 0;
  gc_high_threshold = 0;
  gc_low_threshold = 0;
  reset_interval = 0;
  preserved_hits_proportion = 0;
  index = [];
  current_size = 0;
  ticking = false;
  stop_chan = false;
  items_count_metric = none;
  disk_usage_metric = none;
  hits_count_metric = none;
}

abbrev pub caches : Caches tests
caches = record {
  Cache = LayeredCache fixed memory sums;
  new_in_memory = record { base_fs = no_files; overlay_fs = none };
  get = λ cache desc. Layered.get fixed memory sums cache (lookup_desc desc) 0;
  add = λ cache desc content. elim content [
    | err e ↦ (some e, cache)
    | ok bytes ↦ Layered.add fixed memory sums cache (lookup_desc desc) bytes 0
  ];
}

abbrev Blobs : Type 0
Blobs = List (String × (String × ℕ))

same : String × ℕ → String × ℕ → Bool
same d e = d.0 == e.0 && nat_eq d.1 e.1

unfoldable pub has : Blobs → String → String × ℕ → Bool
unfolding same
has [] ref d = false
has ((ref', e) ∷ blobs) ref d = (ref' == ref && same e d) || has blobs ref d

-- What a registry gives for a digest.
abbrev content : String × ℕ → List ℕ
content d = if nat_eq d.1 0 then [] else d.1 ∷ []

abbrev pub remotes : Remotes tests
remotes = record {
  host_config = λ ref. ok (record { scheme = "https"; host = "host"; path = "/v2" } ∷ []);
  Reference = String;
  parse_reference = λ insecure ref. ok ref;
  Auth = Unit {0};
  authenticate = λ ref. ok tt;
  scope = λ ref s. s;
  Transport = String;
  new_transport = λ ref auth scopes. ok ref;
  Registry = Blobs;
  resolve = λ trp blobs ref. ok (if ref == "host/repo:1.0:1" then index_desc else manifest_desc);
  fetcher = λ trp ref. none;
  fetch = λ trp blobs ref desc. ok (ok (content desc.digest));
  pusher = λ trp ref. none;
  push = λ trp blobs ref desc. if has blobs ref desc.digest then exists else writing;
  commit = λ trp blobs ref desc bytes. (none, (ref, desc.digest) ∷ blobs);
}

same_refl : (d : String × ℕ) → same d d ≡ true
unfolding same
same_refl d = rw (eq_refl d.0) ((nat_eq_iff d.1 d.1).1 refl)

or_true : (b : Bool) → (b || true) ≡ true
or_true true = refl
or_true false = refl

pub remotes-IsRegistry : IsRegistry remotes
unfolding has
remotes-IsRegistry = record {
  has = has;
  commit_adds = λ trp blobs ref desc bytes _. rw (eq_refl ref, same_refl desc.digest) refl;
  commit_keeps =
      λ trp blobs ref desc bytes other d h. rw h (or_true (ref == other && same desc.digest d));
  exists_has = λ trp blobs ref desc h. ground (arith, h);
}

-- There are no manifests of schema 1.
abbrev pub no_conversion :
    String → Descriptor tests → Action tests caches remotes (Descriptor tests)
no_conversion ref desc = raise (invalid "schema 1")

pub no_conversion-Reads :
    (ref : String) (desc : Descriptor tests) → Reads caches remotes (no_conversion ref desc)
no_conversion-Reads ref desc = record { same = λ s. refl }

abbrev pub start : State tests caches remotes
start = record { cache = some caches.new_in_memory; temp = caches.new_in_memory; registry = [] }
