-- ===== src/Tests/Copier.antt =====
-- The copy of components at a concrete source (pkg/commands/componentarchive/remote/copy.go): a component
-- with a local blob refers to another one.
use Prim.Native.String.{◌++◌ as ◌<>◌}
use component_cli.Prelude.{
  ℕ, ◌≤◌, ◌↔◌, String, ◌≡◌, refl, Bool, true, false, ◌&&◌, Option, none, some, List, [], ◌∷◌,
  nat_eq, nat_eq_iff, ◌==◌, eq_iff, arith, if◌then◌else◌,
}
use component_cli.Prelude.Result.{invalid, Result, ok, err}
use component_cli.Prelude.Dict.{lookup, insert}
use component_cli.Oci.{Descriptor, Manifest, Json, describe}
use component_cli.Client.{State, pure}
use component_cli.Client.Copy.Grows.{copy-Grows}
use component_cli.Copier.{Resource, Component, Components, Options}
use component_cli.Copier.Attempts.{copy_component, retry}
use component_cli.Copier.Retries.{Tried, retry-Tried}
use component_cli.Copier.Grows.{IsReader}
use component_cli.Copier.Complete.{IsCopied, artifacts, copy_component-Complete}
use component_cli.Prelude.Dict
use component_cli.Cache.Index
use component_cli.Cache.Index.{deep_copy}
use component_cli.Cache.FileSystem.{create, open_file, remove}
use component_cli.Cache.Layered
use component_cli.Cache.Layered.{verify_blob}
use component_cli.Tests.Registries.{
  has, tests, caches, remotes, remotes-IsRegistry, no_conversion, no_conversion-Reads, start,
}

abbrev config_desc : Descriptor tests
config_desc = describe tests "application/json" []

abbrev layer_desc : Descriptor tests
layer_desc = record {
  media_type = "text/plain";
  digest = ("blob", 3);
  size = 1;
  annotations = "readme";
  platform = "";
}

-- The only manifest that json knows.
abbrev whole : Manifest tests
whole = record {
  schema_version = 2;
  config = config_desc;
  layers = layer_desc ∷ [];
  annotations = "";
}

same_desc : Descriptor tests → Descriptor tests → Bool
same_desc d e =
    (d.media_type == e.media_type && (d.digest.0 == e.digest.0 && nat_eq d.digest.1 e.digest.1))
    && (nat_eq d.size e.size && (d.annotations == e.annotations && d.platform == e.platform))

same_descs : List (Descriptor tests) → List (Descriptor tests) → Bool
unfolding same_desc
same_descs [] [] = true
same_descs [] (e ∷ es) = false
same_descs (d ∷ ds) [] = false
same_descs (d ∷ ds) (e ∷ es) = same_desc d e && same_descs ds es

same_manifest : Manifest tests → Manifest tests → Bool
unfolding same_desc same_descs
same_manifest m n =
    (nat_eq m.schema_version n.schema_version && m.annotations == n.annotations)
    && (same_desc m.config n.config && same_descs m.layers n.layers)

both : (a b : Bool) → (a && b) ≡ true → (a ≡ true) × (b ≡ true)
both true b h = (refl, h)
both false b h = absurd (ground (arith, h))

same_desc_equal : (d e : Descriptor tests) → same_desc d e ≡ true → d ≡ e
unfolding same_desc
same_desc_equal d e h =
    let (h1, h2) = both _ _ h in
    let (m, g) = both _ _ h1 in
    let (g0, g1) = both _ _ g in
    let (z, h3) = both _ _ h2 in
    let (a, p) = both _ _ h3 in
    λ i. record {
      media_type = (eq_iff d.media_type e.media_type).0 m i;
      digest = ((eq_iff d.digest.0 e.digest.0).0 g0 i, (nat_eq_iff d.digest.1 e.digest.1).0 g1 i);
      size = (nat_eq_iff d.size e.size).0 z i;
      annotations = (eq_iff d.annotations e.annotations).0 a i;
      platform = (eq_iff d.platform e.platform).0 p i;
    }

same_descs_equal : (ds es : List (Descriptor tests)) → same_descs ds es ≡ true → ds ≡ es
unfolding same_descs
same_descs_equal [] [] h = refl
same_descs_equal [] (e ∷ es) h = absurd (ground (arith, h))
same_descs_equal (d ∷ ds) [] h = absurd (ground (arith, h))
same_descs_equal (d ∷ ds) (e ∷ es) h =
    let (h1, h2) = both _ _ h in λ i. same_desc_equal d e h1 i ∷ same_descs_equal ds es h2 i

same_manifest_equal : (m n : Manifest tests) → same_manifest m n ≡ true → m ≡ n
unfolding same_manifest
same_manifest_equal m n h =
    let (h1, h2) = both _ _ h in
    let (v, a) = both _ _ h1 in
    let (g, l) = both _ _ h2 in
    λ i. record {
      schema_version = (nat_eq_iff m.schema_version n.schema_version).0 v i;
      config = same_desc_equal m.config n.config g i;
      layers = same_descs_equal m.layers n.layers l i;
      annotations = (eq_iff m.annotations n.annotations).0 a i;
    }

abbrev json : Json tests
json = record {
  marshal_manifest = λ m. if same_manifest m whole then ok (5 ∷ []) else err (invalid "manifest");
  unmarshal_manifest = λ bytes. ok whole;
  marshal_index = λ i. ok [];
  unmarshal_index = λ bytes. err (invalid "index");
}

back :
    (m : Manifest tests) (raw : List ℕ)
    → json.marshal_manifest m ≡ ok raw
    → json.unmarshal_manifest raw ≡ ok m
back m raw h = ground (arith, same_manifest_equal m whole)

abbrev readme : Resource String
readme = record { name = "readme"; access = "localOciBlob" }

abbrev lib : Component String String
lib = record { contexts = []; references = []; resources = readme ∷ [] }

abbrev app : Component String String
app = record { contexts = []; references = ("lib", "1") ∷ []; resources = readme ∷ [] }

-- The target has no components.
abbrev libraries : Components tests caches remotes
libraries = record {
  Access = String;
  access_type = λ a. a;
  decode_local = λ a. ok tt;
  decode_registry = λ a. ok a;
  decode_relative = λ a. ok a;
  with_reference = λ a ref. ok a;
  new_registry_access = ok;
  new_relative_access = ok;
  Repository = String;
  inject_context = λ repo cd. ok (record cd { contexts = repo ∷ [] });
  Blobs = Unit {0};
  resolve_with_blobs = λ repo name version. pure (if name == "lib" then lib else app, tt);
  resolve = λ repo name version s. (err (invalid name), s);
  blob_info = λ blobs res. pure (record { media_type = "text/plain"; digest = "blob"; size = 1 });
  resolve_blob = λ blobs res. pure (3 ∷ []);
  build_manifest = λ cd. pure (record whole { layers = [] });
  oci_ref = λ repo name version. ok (repo <> "/" <> name <> ":" <> version);
  cache_get = λ desc. pure [];
  parse_url = λ u. ok (record { host = u; path = "" });
  parse_digest = λ d. ok (d, 3);
  resource_annotation = λ name. name;
}

abbrev options : Options libraries
options = record {
  src_repo_ctx = "source";
  target_repo_ctx = "target";
  recursive = true;
  force = false;
  copy_by_value = false;
  keep_source_repository = false;
  source_artifact_repository = "";
  target_artifact_repository = "";
  convert_to_relative_oci_references = false;
  replace_oci_refs = [];
  max_retries = 1;
}

reader : IsReader libraries
reader = record {
  resolving = λ repo name version. record { same = λ s. refl };
  looking = λ repo name version. record { same = λ s. refl };
  informing = λ blobs res. record { same = λ s. refl };
  reading = λ blobs res. record { same = λ s. refl };
  building = λ cd. record { same = λ s. refl };
  caching = λ desc. record { same = λ s. refl };
}

abbrev Answer : Type 0
Answer = Option (Result (Unit {0}) × State tests caches remotes)

abbrev bare : State tests caches remotes
bare = record start { cache = none }

abbrev succeeds : Answer → Bool
succeeds none = false
succeeds (some (ok x, t)) = true
succeeds (some (err e, t)) = false

abbrev after : Answer → State tests caches remotes
after none = bare
after (some (a, t)) = t

succeeded : (a : Answer) → succeeds a ≡ true → a ≡ some (ok tt, after a)
succeeded none h = absurd (ground arith)
succeeded (some (ok x, t)) h = refl
succeeded (some (err e, t)) h = absurd (ground arith)

abbrev answer : Answer
answer = copy_component libraries options json no_conversion 2 1 "app" "1" bare

program : Unit {0}
unfolding Layered.get Layered.add Layered.get_from_base verify_blob create open_file remove lookup
    insert Dict.remove Index.add Index.get Index.remove Index.hit Index.len deep_copy has
    same_manifest same_desc same_descs copy_component retry
program = tt

copied_all : succeeds answer ≡ true
unfolding program
copied_all = refl

copy_component-Complete_example :
    IsCopied remotes-IsRegistry libraries options json reader
      (artifacts remotes-IsRegistry libraries options json no_conversion 1 no_conversion-Reads
        reader back)
      (copy-Grows tests caches remotes remotes-IsRegistry json no_conversion no_conversion-Reads 1)
      back
      2
      (after answer)
      "app"
      "1"
copy_component-Complete_example =
    copy_component-Complete remotes-IsRegistry libraries options json no_conversion 1
      no_conversion-Reads reader back 2 "app" "1" bare (after answer) (succeeded answer copied_all)

-- An action that fails once, and then succeeds.
abbrev flaky : State tests caches remotes → Answer
flaky s = elim s.cache [ none ↦ some (ok tt, s) | some _ ↦ some (err (invalid "busy"), bare) ]

retry-Tried_example :
    (retry 1 flaky start ≡ some (ok tt, bare)) ↔ ((k : ℕ) × (k ≤ 1) × Tried flaky k start bare)
retry-Tried_example = retry-Tried flaky 1 start bare

retried : retry 1 flaky start ≡ some (ok tt, bare)
unfolding program
retried = refl
