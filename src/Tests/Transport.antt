-- ===== src/Tests/Transport.antt =====
-- The transport at concrete inputs: a platform where names and expressions are texts, and messages that
-- are kept as they are (pkg/transport).
use component_cli.Prelude.{
  String, ◌≡◌, refl, Option, none, some, List, [], ◌∷◌, map, ◌==◌, if◌then◌else◌,
}
use component_cli.Prelude.Result.{ok, err, invalid}
use component_cli.Prelude.Call.{value, panic, map_calls, Pairwise}
use component_cli.Transport.Filters.{
  Platform, create, matches, resource_type_filter_type, resource_type_filter, include,
}
use component_cli.Transport.Filters.Included.{mentions}
use component_cli.Transport.Config.{
  FilterDefinition, TransportConfig, ParsedTransportConfig, create_filter_list, parse_config,
  parse_processor, find_processor_by_name, match_downloaders, match_uploaders,
  match_processing_rules,
}
use component_cli.Prelude.Dict.{lookup, insert}
use component_cli.Transport.Config.Rules.{IsResolved, parse_config-IsResolved, missing_spec_panics}
use component_cli.Transport.Config.Matching.{select, passes_all, match-select}

program : Unit {0}
unfolding lookup insert find_processor_by_name create matches map_calls include mentions
    create_filter_list parse_config match_downloaders select passes_all
program = tt

-- A descriptor is its name, a resource its type with its access type, a spec a list of texts.
abbrev texts : Platform
texts = record {
  ComponentDescriptor = String;
  Resource = String × Option String;
  component_name = λ cd. cd;
  resource_type = λ r. r.0;
  access_type = λ r. r.1;
  Regexp = String;
  compile = λ s. if s == "(" then err (invalid s) else ok s;
  match_string = λ r s. r == s;
  RawMessage = List String;
  include_component_names = λ raw. ok raw;
  include_resource_types = λ raw. ok raw;
  include_access_types = λ raw. ok raw;
}

abbrev image : String × Option String
image = ("ociImage", some "ociRegistry")

abbrev only_images : FilterDefinition texts
only_images = record { type = resource_type_filter_type; spec = some ("ociImage" ∷ []) }

abbrev without_spec : FilterDefinition texts
without_spec = record { type = resource_type_filter_type; spec = none }

abbrev config : TransportConfig texts
config = record {
  version = "v1";
  uploaders = [];
  processors =
      record { name = "sleep"; type = "Executable"; spec = none }
      ∷ record { name = "label"; type = "Executable"; spec = none }
      ∷ [];
  downloaders =
      record {
        name = "images";
        type = "OciArtifactDownloader";
        spec = none;
        filters = only_images ∷ [];
      }
      ∷ [];
  processing_rules =
      record {
        name = "rule";
        filters = [];
        processors = record { name = "label"; type = "processor" } ∷ [];
      }
      ∷ [];
}

abbrev parsed : ParsedTransportConfig texts
parsed = record {
  downloaders =
      record {
        name = "images";
        type = "OciArtifactDownloader";
        spec = none;
        filters = resource_type_filter (include ("ociImage" ∷ []) []) ∷ [];
      }
      ∷ [];
  processors = map (parse_processor texts) config.processors;
  uploaders = [];
  processing_rules =
      record {
        name = "rule";
        processors = record { name = "label"; type = "Executable"; spec = none } ∷ [];
        filters = [];
      }
      ∷ [];
}

parse_config-config : parse_config texts config ≡ value parsed
unfolding program
parse_config-config = refl

parse_config-IsResolved_example :
    Pairwise
      (IsResolved texts (map (parse_processor texts) config.processors))
      config.processing_rules
      parsed.processing_rules
parse_config-IsResolved_example = parse_config-IsResolved texts config parsed parse_config-config

made_images :
    create_filter_list texts (only_images ∷ [])
    ≡ value (resource_type_filter (include ("ociImage" ∷ []) []) ∷ [])
unfolding program
made_images = refl

missing_spec_panics_example : create_filter_list texts (only_images ∷ without_spec ∷ []) ≡ panic
missing_spec_panics_example =
    missing_spec_panics texts (only_images ∷ []) []
      (resource_type_filter (include ("ociImage" ∷ []) []) ∷ []) without_spec made_images refl

match-select_example :
    (match_downloaders texts parsed "app" image
      ≡ value (
          select
            (λ d. passes_all texts d.filters "app" "ociImage" "ociRegistry")
            parsed.downloaders))
    × (match_uploaders texts parsed "app" image
        ≡ value (
            select
              (λ d. passes_all texts d.filters "app" "ociImage" "ociRegistry")
              parsed.uploaders))
    × (match_processing_rules texts parsed "app" image
        ≡ value (
            select
              (λ d. passes_all texts d.filters "app" "ociImage" "ociRegistry")
              parsed.processing_rules))
match-select_example = match-select texts "app" image "ociRegistry" refl parsed

match_downloaders-parsed : match_downloaders texts parsed "app" image ≡ value parsed.downloaders
unfolding program
match_downloaders-parsed = refl
