-- ===== src/Transport/Config.antt =====
-- `ParsedTransportConfig` of pkg/transport/config: a configuration with its filters made and its
-- processors looked up, and what it has for a resource.
pub mod Rules
pub mod Matching
use component_cli.Prelude.{
  ℕ, String, Bool, true, false, Option, List, [], ◌∷◌, map, ◌==◌, if◌then◌else◌,
}
use component_cli.Prelude.Result.{Error, invalid, wrap, Result}
use component_cli.Prelude.Call.{
  Call, value, error, panic, ◌>>=◌, explain, from_result, deref, map_calls,
}
use component_cli.Transport.Filters.{Platform, Filter, create, matches}

-- `findProcessorByName` and the loops over definitions with filters are written for any definition.
module _ {A : Type 0} where
  unfoldable pub find_by_name : (A → String) → String → List A → Call A
  find_by_name name_of name [] = error (wrap "unable to find processor" (invalid name))
  find_by_name name_of name (p ∷ ps) =
      if name_of p == name then value p else find_by_name name_of name ps

  -- The loop of the three Match functions, with `matching` for areAllFiltersMatching.
  unfoldable pub match_all : (A → Call Bool) → List A → Call (List A)
  match_all matching [] = value []
  match_all matching (d ∷ ds) = do
    taken ← matching d
    rest ← match_all matching ds
    value (if taken then d ∷ rest else rest)

module _ (p : Platform) where
  open p use {ComponentDescriptor, Resource, RawMessage}

  pub record FilterDefinition : Type 0 where
    pub type : String
    pub spec : Option RawMessage

  pub record DownloaderDefinition : Type 0 where
    pub name : String
    pub type : String
    pub spec : Option RawMessage
    pub filters : List FilterDefinition

  pub record UploaderDefinition : Type 0 where
    pub name : String
    pub type : String
    pub spec : Option RawMessage
    pub filters : List FilterDefinition

  pub record ProcessorDefinition : Type 0 where
    pub name : String
    pub type : String
    pub spec : Option RawMessage

  pub record ProcessorReference : Type 0 where
    pub name : String
    pub type : String

  pub record ProcessingRuleDefinition : Type 0 where
    pub name : String
    pub filters : List FilterDefinition
    pub processors : List ProcessorReference

  pub record TransportConfig : Type 0 where
    pub version : String
    pub uploaders : List UploaderDefinition
    pub processors : List ProcessorDefinition
    pub downloaders : List DownloaderDefinition
    pub processing_rules : List ProcessingRuleDefinition

  pub record ParsedDownloaderDefinition : Type 0 where
    pub name : String
    pub type : String
    pub spec : Option RawMessage
    pub filters : List (Filter p)

  pub record ParsedProcessorDefinition : Type 0 where
    pub name : String
    pub type : String
    pub spec : Option RawMessage

  pub record ParsedUploaderDefinition : Type 0 where
    pub name : String
    pub type : String
    pub spec : Option RawMessage
    pub filters : List (Filter p)

  pub record ParsedProcessingRuleDefinition : Type 0 where
    pub name : String
    pub processors : List ParsedProcessorDefinition
    pub filters : List (Filter p)

  pub record ParsedTransportConfig : Type 0 where
    pub downloaders : List ParsedDownloaderDefinition
    pub processors : List ParsedProcessorDefinition
    pub uploaders : List ParsedUploaderDefinition
    pub processing_rules : List ParsedProcessingRuleDefinition

  -- One filter of `createFilterList`: the message of an error prints the spec, and dereferences it.
  unfoldable pub create_filter : FilterDefinition → Call (Filter p)
  create_filter f = elim (create p f.type f.spec) [
    | value filter ↦ value filter
    | error e ↦ do _ ← deref f.spec; error (wrap "error creating filter list" e)
    | panic ↦ panic
  ]

  -- `createFilterList`
  unfoldable pub create_filter_list : List FilterDefinition → Call (List (Filter p))
  unfolding create_filter
  create_filter_list = map_calls create_filter

  -- `findProcessorByName`
  unfoldable pub find_processor_by_name :
      String → List ParsedProcessorDefinition → Call ParsedProcessorDefinition
  unfolding find_by_name
  find_processor_by_name = find_by_name (λ d. d.name)

  unfoldable pub parse_downloader : DownloaderDefinition → Call ParsedDownloaderDefinition
  parse_downloader d = do
    filters ← explain "unable to create filters for downloader" (create_filter_list d.filters)
    value (record { name = d.name; type = d.type; spec = d.spec; filters = filters })

  abbrev pub parse_processor : ProcessorDefinition → ParsedProcessorDefinition
  parse_processor d = record { name = d.name; type = d.type; spec = d.spec }

  unfoldable pub parse_uploader : UploaderDefinition → Call ParsedUploaderDefinition
  parse_uploader d = do
    filters ← explain "unable to create filters for uploader" (create_filter_list d.filters)
    value (record { name = d.name; type = d.type; spec = d.spec; filters = filters })

  -- One round of the loop over the processing rules.
  unfoldable pub parse_rule :
      List ParsedProcessorDefinition
      → ProcessingRuleDefinition
      → Call ParsedProcessingRuleDefinition
  parse_rule defined rule = do
    filters ←
        explain "unable to create filters for processing rule" (create_filter_list rule.filters)
    processors ← explain "unable to parse processing rule" (
        map_calls (λ (r : ProcessorReference). find_processor_by_name r.name defined)
          rule.processors)
    value (record { name = rule.name; processors = processors; filters = filters })

  -- The loops of `ParseTransportConfig`.
  unfoldable pub parse_config : TransportConfig → Call ParsedTransportConfig
  unfolding parse_downloader parse_uploader parse_rule
  parse_config config = do
    downloaders ← map_calls parse_downloader config.downloaders
    let processors = map parse_processor config.processors
    uploaders ← map_calls parse_uploader config.uploaders
    rules ← map_calls (parse_rule processors) config.processing_rules
    value (record {
      downloaders = downloaders;
      processors = processors;
      uploaders = uploaders;
      processing_rules = rules;
    })

  -- `ParseTransportConfig` of what reading the file gives, with the decoder of its text.
  unfoldable pub parse_transport_config :
      (List ℕ → Result TransportConfig) → Result (List ℕ) → Call ParsedTransportConfig
  unfolding parse_config
  parse_transport_config unmarshal file = do
    yaml ← explain "unable to read transport config file" (from_result file)
    config ← explain "unable to unmarshal transport config" (from_result (unmarshal yaml))
    parse_config config

  -- `areAllFiltersMatching`
  unfoldable pub are_all_filters_matching :
      List (Filter p) → ComponentDescriptor → Resource → Call Bool
  are_all_filters_matching [] cd res = value true
  are_all_filters_matching (f ∷ fs) cd res = do
    matching ← matches p f cd res
    let rest = are_all_filters_matching fs cd res
    if matching then rest else value false

  -- `MatchDownloaders`
  unfoldable pub match_downloaders :
      ParsedTransportConfig
      → ComponentDescriptor
      → Resource
      → Call (List ParsedDownloaderDefinition)
  unfolding match_all are_all_filters_matching
  match_downloaders c cd res =
      match_all (λ d. are_all_filters_matching d.filters cd res) c.downloaders

  -- `MatchUploaders`
  unfoldable pub match_uploaders :
      ParsedTransportConfig → ComponentDescriptor → Resource → Call (List ParsedUploaderDefinition)
  unfolding match_all are_all_filters_matching
  match_uploaders c cd res = match_all (λ d. are_all_filters_matching d.filters cd res) c.uploaders

  -- `MatchProcessingRules`
  unfoldable pub match_processing_rules :
      ParsedTransportConfig
      → ComponentDescriptor
      → Resource
      → Call (List ParsedProcessingRuleDefinition)
  unfolding match_all are_all_filters_matching
  match_processing_rules c cd res =
      match_all (λ d. are_all_filters_matching d.filters cd res) c.processing_rules
