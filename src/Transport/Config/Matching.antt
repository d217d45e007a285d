-- ===== src/Transport/Config/Matching.antt =====
-- What the Match functions select for a resource whose access is there.
use component_cli.Prelude.{
  String, ◌≡◌, refl, Bool, true, ◌&&◌, some, List, [], ◌∷◌, arith, if◌then◌else◌,
}
use component_cli.Prelude.Call.{Call, value}
use component_cli.Transport.Filters.{
  Platform, Filter, component_name_filter, resource_type_filter, access_type_filter, is_included,
  matches_any, matches,
}
use component_cli.Transport.Config.{
  match_all, are_all_filters_matching, ParsedTransportConfig, match_downloaders, match_uploaders,
  match_processing_rules,
}

-- The elements of a list that pass a test, in their order.
unfoldable pub select : {A : Type 0} → (A → Bool) → List A → List A
select test [] = []
select test (x ∷ xs) = let rest = select test xs in if test x then x ∷ rest else rest

match_all-select :
    {A : Type 0} (matching : A → Call Bool) (test : A → Bool)
    → ((a : A) → matching a ≡ value (test a))
    → (l : List A) → match_all matching l ≡ value (select test l)
unfolding match_all select
match_all-select matching test same [] = refl
match_all-select matching test same (a ∷ l) =
    ground (arith, same a, match_all-select matching test same l)

module _ (p : Platform) where
  -- What each filter tests of the component's name, the resource's type and its access type.
  unfoldable pub passes : Filter p → String → String → String → Bool
  passes (component_name_filter names) name type access = matches_any p names name
  passes (resource_type_filter types) name type access = is_included type types
  passes (access_type_filter types) name type access = is_included access types

  unfoldable pub passes_all : List (Filter p) → String → String → String → Bool
  passes_all [] name type access = true
  passes_all (f ∷ fs) name type access = passes f name type access && passes_all fs name type access

  module _ (cd : p.ComponentDescriptor) (res : p.Resource) (access : String)
      (has : p.access_type res ≡ some access) where
    matches-passes :
        (f : Filter p)
        → matches p f cd res ≡ value (passes f (p.component_name cd) (p.resource_type res) access)
    unfolding matches passes
    matches-passes (component_name_filter names) = refl
    matches-passes (resource_type_filter types) = refl
    matches-passes (access_type_filter types) = rw has refl

    are_all_filters_matching-passes_all :
        (fs : List (Filter p))
        → are_all_filters_matching p fs cd res
          ≡ value (passes_all fs (p.component_name cd) (p.resource_type res) access)
    unfolding are_all_filters_matching passes_all
    are_all_filters_matching-passes_all [] = refl
    are_all_filters_matching-passes_all (f ∷ fs) =
        ground (arith, matches-passes f, are_all_filters_matching-passes_all fs)

    -- For a resource with an access, the three Match functions answer without a panic, with exactly those
    -- downloaders, uploaders and processing rules all of whose filters the component's name, the resource's
    -- type and its access type pass, in the order of the configuration.
    pub match-select :
        (c : ParsedTransportConfig p)
        → (match_downloaders p c cd res
            ≡ value (
                select
                  (λ d. passes_all d.filters (p.component_name cd) (p.resource_type res) access)
                  c.downloaders))
          × (match_uploaders p c cd res
              ≡ value (
                  select
                    (λ d. passes_all d.filters (p.component_name cd) (p.resource_type res) access)
                    c.uploaders))
          × (match_processing_rules p c cd res
              ≡ value (
                  select
                    (λ d. passes_all d.filters (p.component_name cd) (p.resource_type res) access)
                    c.processing_rules))
    unfolding match_downloaders match_uploaders match_processing_rules
    match-select c = (
      match_all-select _ _ (λ d. are_all_filters_matching-passes_all d.filters) c.downloaders,
      match_all-select _ _ (λ d. are_all_filters_matching-passes_all d.filters) c.uploaders,
      match_all-select _ _ (λ d. are_all_filters_matching-passes_all d.filters) c.processing_rules,
    )
