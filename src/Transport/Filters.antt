-- ===== src/Transport/Filters.antt =====
-- The filters of pkg/transport/filters: by the component's name, the resource's type and the type of
-- its access, and the factory that makes them from a configuration.
pub mod Included
use component_cli.Prelude.{
  String, Bool, true, false, Option, some, none, List, [], ◌∷◌, ◌==◌, if◌then◌else◌,
}
use component_cli.Prelude.Result.{Error, invalid, wrap, Result}
use component_cli.Prelude.Dict.{Dict, lookup, insert}
use component_cli.Prelude.Call.{
  Call, value, error, panic, ◌>>=◌, explain, from_result, deref, map_calls,
}

-- What the filters use of other packages: component descriptors and resources of the component
-- specification, whose access may be missing, regular expressions, and the decoding of a filter's spec.
pub record Platform : Type 1 where
  pub ComponentDescriptor : Type 0
  pub Resource : Type 0
  pub component_name : ComponentDescriptor → String
  pub resource_type : Resource → String
  pub access_type : Resource → Option String
  pub Regexp : Type 0
  pub compile : String → Result Regexp
  pub match_string : Regexp → String → Bool
  pub RawMessage : Type 0
  pub include_component_names : RawMessage → Result (List String)
  pub include_resource_types : RawMessage → Result (List String)
  pub include_access_types : RawMessage → Result (List String)

abbrev pub component_name_filter_type : String
component_name_filter_type = "ComponentNameFilter"

abbrev pub resource_type_filter_type : String
resource_type_filter_type = "ResourceTypeFilter"

abbrev pub access_type_filter_type : String
access_type_filter_type = "AccessTypeFilter"

-- The map of the included types.
unfoldable pub include : List String → Dict Bool → Dict Bool
include [] types = types
include (t ∷ ts) types = include ts (insert t true types)

abbrev pub is_included : String → Dict Bool → Bool
is_included t types = elim (lookup t types) [ none ↦ false | some _ ↦ true ]

module _ (p : Platform) where
  open p use {ComponentDescriptor, Resource, Regexp, RawMessage}

  -- `Filter`, by its implementations.
  pub data Filter : Type 0 where
    component_name_filter : List Regexp → Filter
    resource_type_filter : Dict Bool → Filter
    access_type_filter : Dict Bool → Filter

  -- The loop of componentNameFilter.Matches.
  unfoldable pub matches_any : List Regexp → String → Bool
  matches_any [] name = false
  matches_any (r ∷ rs) name = if p.match_string r name then true else matches_any rs name

  -- `Matches`. The access of a resource is dereferenced.
  unfoldable pub matches : Filter → ComponentDescriptor → Resource → Call Bool
  unfolding matches_any
  matches (component_name_filter names) cd r = value (matches_any names (p.component_name cd))
  matches (resource_type_filter types) cd r = value (is_included (p.resource_type r) types)
  matches (access_type_filter types) cd r = do
    t ← deref (p.access_type r)
    value (is_included t types)

  unfoldable pub compile_name : String → Call Regexp
  compile_name name = explain "unable to parse regexp" (from_result (p.compile name))

  -- `NewComponentNameFilter`
  unfoldable pub new_component_name_filter : List String → Call Filter
  unfolding compile_name
  new_component_name_filter [] = error (invalid "includeComponentNames must not be empty")
  new_component_name_filter (n ∷ ns) = do
    regexps ← map_calls compile_name (n ∷ ns)
    value (component_name_filter regexps)

  -- `NewResourceTypeFilter`
  unfoldable pub new_resource_type_filter : List String → Call Filter
  new_resource_type_filter [] = error (invalid "includeResourceTypes must not be empty")
  new_resource_type_filter (t ∷ ts) = value (resource_type_filter (include (t ∷ ts) []))

  -- `NewAccessTypeFilter`
  unfoldable pub new_access_type_filter : List String → Call Filter
  new_access_type_filter [] = error (invalid "includeAccessTypes must not be empty")
  new_access_type_filter (t ∷ ts) = value (access_type_filter (include (t ∷ ts) []))

  -- The three methods of the factory that decode a spec. They dereference it first.
  unfoldable pub create_from_spec :
      (RawMessage → Result (List String))
      → (List String → Call Filter)
      → Option RawMessage
      → Call Filter
  create_from_spec unmarshal new spec = do
    raw ← deref spec
    names ← explain "unable to parse spec" (from_result (unmarshal raw))
    new names

  -- `Create`
  unfoldable pub create : String → Option RawMessage → Call Filter
  unfolding create_from_spec new_component_name_filter new_resource_type_filter
      new_access_type_filter
  create filter_type spec =
      if filter_type == component_name_filter_type
      then create_from_spec p.include_component_names new_component_name_filter spec
      else if filter_type == resource_type_filter_type
      then create_from_spec p.include_resource_types new_resource_type_filter spec
      else if filter_type == access_type_filter_type
      then create_from_spec p.include_access_types new_access_type_filter spec
      else error (wrap "unknown filter type" (invalid filter_type))
