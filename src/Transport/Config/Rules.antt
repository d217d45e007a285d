-- ===== src/Transport/Config/Rules.antt =====
-- What ParseTransportConfig makes of the processing rules, and of a filter without a spec.
use component_cli.Prelude.{
  String, ◌≡◌, ◌≢◌, refl, ◌∙◌, false, inl, inr, none, List, [], ◌∷◌, ◌++◌, All, ◌==◌, eq_iff, arith,
  map, Bool-cases, ap,
}
use component_cli.Prelude.Call.{Call, value, panic, map_calls, Pairwise, Call-cases}
use component_cli.Transport.Filters.{
  Platform, Filter, create, create_from_spec, component_name_filter_type, resource_type_filter_type,
  access_type_filter_type,
}
use component_cli.Transport.Config.{
  find_by_name, FilterDefinition, ProcessingRuleDefinition, ProcessorReference, TransportConfig,
  ParsedProcessorDefinition, ParsedProcessingRuleDefinition, ParsedTransportConfig, create_filter,
  create_filter_list, find_processor_by_name, parse_rule, parse_processor, parse_config,
}

-- The first element of a list with a name.
pub record IsFirst {A : Type 0} (name_of : A → String) (name : String) (a : A) (l : List A)
    : Type 0 where
  pub before : List A
  pub after : List A
  pub splits : l ≡ before ++ a ∷ after
  pub named : name_of a ≡ name
  pub others : All (λ b. (name_of b == name) ≡ false) before

find_by_name-IsFirst :
    {A : Type 0} (name_of : A → String) (name : String) (l : List A) (a : A)
    → find_by_name name_of name l ≡ value a
    → IsFirst name_of name a l
unfolding find_by_name
find_by_name-IsFirst name_of name [] a h = cc
find_by_name-IsFirst name_of name (b ∷ l) a h = elim (Bool-cases (name_of b == name)) [
  | inl e ↦
      let same : b ≡ a = ground arith in
      record {
        before = [];
        after = l;
        splits = ap (λ x. x ∷ l) same;
        named = ground (arith, eq_iff (name_of b) name);
        others = tt;
      }
  | inr e ↦
      let first = find_by_name-IsFirst name_of name l a (rw e at h) in
      record {
        before = b ∷ first.before;
        after = first.after;
        splits = ap (λ m. b ∷ m) first.splits;
        named = first.named;
        others = (e, first.others);
      }
]

module _ {A B : Type 0} (f : A → Call B) (R : A → B → Type 0) where
  map_calls-Pairwise :
      ((a : A) (b : B) → f a ≡ value b → R a b)
      → (xs : List A) (ys : List B) → map_calls f xs ≡ value ys
      → Pairwise R xs ys
  unfolding map_calls
  map_calls-Pairwise each [] [] h = tt
  map_calls-Pairwise each [] (y ∷ ys) h = cc
  map_calls-Pairwise each (x ∷ xs) [] h = absurd (ground arith)
  map_calls-Pairwise each (x ∷ xs) (y ∷ ys) h =
      (each x y (ground arith), map_calls-Pairwise each xs ys (ground arith))

module _ {A B : Type 0} (f : A → Call B) where
  map_calls-panic :
      (before after : List A) (made : List B) (x : A)
      → map_calls f before ≡ value made
      → f x ≡ panic
      → map_calls f (before ++ x ∷ after) ≡ panic
  unfolding map_calls
  map_calls-panic [] after made x h e = rw e refl
  map_calls-panic (y ∷ before) after [] x h e = absurd (ground arith)
  map_calls-panic (y ∷ before) after (m ∷ made) x h e =
      ground (arith, map_calls-panic before after made x)

module _ (p : Platform) where
  create-none : (t : String) (f : Filter p) → create p t none ≢ value f
  unfolding create create_from_spec
  create-none t f h = elim (Bool-cases (t == component_name_filter_type)) [
    | inl e ↦ absurd (ground (arith, rw e at h))
    | inr e ↦ elim (Bool-cases (t == resource_type_filter_type)) [
      | inl e' ↦ absurd (ground arith)
      | inr e' ↦ elim (Bool-cases (t == access_type_filter_type)) [
        | inl e'' ↦ absurd (ground arith)
        | inr e'' ↦ absurd (ground arith)
      ]
    ]
  ]

  create_filter-none : (t : String) → create_filter p (record { type = t; spec = none }) ≡ panic
  unfolding create_filter
  create_filter-none t = elim (Call-cases (create p t none)) [
    | inl (made, h) ↦ absurd (create-none t made h)
    | inr (inl (failure, h)) ↦ rw (create_filter, h) refl
    | inr (inr h) ↦ rw (create_filter, h) refl
  ]

  -- What a parsed rule owes to the rule it was made of.
  pub record IsResolved (defined : List (ParsedProcessorDefinition p))
      (rule : ProcessingRuleDefinition p) (parsed : ParsedProcessingRuleDefinition p) : Type 0 where
    pub name_kept : parsed.name ≡ rule.name
    pub resolved :
        Pairwise
          (λ (r : ProcessorReference p) d. IsFirst (λ e. e.name) r.name d defined)
          rule.processors
          parsed.processors

  parse_rule-IsResolved :
      (defined : List (ParsedProcessorDefinition p)) (rule : ProcessingRuleDefinition p)
      (parsed : ParsedProcessingRuleDefinition p)
      → parse_rule p defined rule ≡ value parsed
      → IsResolved defined rule parsed
  unfolding parse_rule
  parse_rule-IsResolved defined rule parsed h = record {
    name_kept = ground arith;
    resolved =
        map_calls-Pairwise (λ (r : ProcessorReference p). find_processor_by_name p r.name defined)
          (λ (r : ProcessorReference p) d.
            IsFirst (λ (e : ParsedProcessorDefinition p). e.name) r.name d defined)
          (λ r d.
            unfold find_processor_by_name in find_by_name-IsFirst (λ e. e.name) r.name defined d)
          rule.processors parsed.processors (ground arith);
  }

  -- If a configuration can be parsed, then its processing rules are kept in order with their names, and
  -- each processor reference of a rule stands for the first configured processor with its name.
  pub parse_config-IsResolved :
      (config : TransportConfig p) (parsed : ParsedTransportConfig p)
      → parse_config p config ≡ value parsed
      → Pairwise
          (IsResolved (map (parse_processor p) config.processors))
          config.processing_rules
          parsed.processing_rules
  unfolding parse_config
  parse_config-IsResolved config parsed h =
      let defined = map (parse_processor p) config.processors in
      map_calls-Pairwise (parse_rule p defined) (IsResolved defined) (parse_rule-IsResolved defined)
        config.processing_rules parsed.processing_rules (ground arith)

  -- A filter definition without a spec makes the list panic once the filters before it are made.
  pub missing_spec_panics :
      (before after : List (FilterDefinition p)) (made : List (Filter p)) (f : FilterDefinition p)
      → create_filter_list p before ≡ value made
      → f.spec ≡ none
      → create_filter_list p (before ++ f ∷ after) ≡ panic
  unfolding create_filter_list
  missing_spec_panics before after made f h e =
      let panics : create_filter p f ≡ panic =
        ap (λ s. create_filter p (record { type = f.type; spec = s })) e
        ∙ create_filter-none f.type in
      map_calls-panic (create_filter p) before after made f h panics
