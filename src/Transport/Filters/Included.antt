-- ===== src/Transport/Filters/Included.antt =====
-- What a filter that the factory made accepts, by the list in its spec.
use component_cli.Prelude.{
  String, ◌≡◌, refl, Bool, true, false, ◌||◌, inl, inr, some, List, [], ◌∷◌, ◌==◌, arith,
  if◌then◌else◌,
}
use component_cli.Prelude.Result.{ok, err}
use component_cli.Prelude.Dict.{Dict, lookup, insert, lookup-insert}
use component_cli.Prelude.Call.{value, map_calls, Call-cases}
use component_cli.Transport.Filters.{
  Platform, Filter, include, is_included, matches, matches_any, create, access_type_filter_type,
  component_name_filter_type, compile_name,
}

-- Whether a list has a text.
unfoldable pub mentions : String → List String → Bool
mentions t [] = false
mentions t (u ∷ us) = u == t || mentions t us

lookup-include :
    (t : String) (ts : List String) (types : Dict Bool)
    → lookup t (include ts types) ≡ (if mentions t ts then some true else lookup t types)
unfolding include mentions
lookup-include t [] types = refl
lookup-include t (u ∷ us) types =
    ground (arith, lookup-include t us (insert u true types), lookup-insert u t true types)

is_included-include :
    (t : String) (ts : List String) → is_included t (include ts []) ≡ mentions t ts
unfolding lookup
is_included-include t ts = ground (arith, lookup-include t ts [])

module _ (p : Platform) where
  -- A filter that the factory makes of a spec with a list of access types lets a resource with an
  -- access pass exactly if the type of its access is in the list.
  matches-create_access :
      (raw : p.RawMessage) (types : List String) (f : Filter p) (cd : p.ComponentDescriptor)
      (r : p.Resource) (t : String)
      → p.include_access_types raw ≡ ok types
      → create p access_type_filter_type (some raw) ≡ value f
      → p.access_type r ≡ some t
      → matches p f cd r ≡ value (mentions t types)
  unfolding create matches
  matches-create_access raw [] f cd r t decoded made has = ground arith
  matches-create_access raw (u ∷ us) f cd r t decoded made has =
      ground (arith, is_included-include t (u ∷ us))

  -- Whether one of the texts is an expression that matches the name.
  unfoldable pub expresses : List String → String → Bool
  expresses [] name = false
  expresses (e ∷ es) name =
      elim (p.compile e) [ ok regexp ↦ p.match_string regexp name | err _ ↦ false ]
      || expresses es name

  matches_any-compiled :
      (es : List String) (regexps : List p.Regexp) (name : String)
      → map_calls (compile_name p) es ≡ value regexps
      → matches_any p regexps name ≡ expresses es name
  unfolding map_calls matches_any expresses compile_name
  matches_any-compiled [] [] name h = refl
  matches_any-compiled [] (r ∷ rs) name h = cc
  matches_any-compiled (e ∷ es) [] name h = ground arith
  matches_any-compiled (e ∷ es) (r ∷ rs) name h = ground (arith, matches_any-compiled es rs name)

  -- A filter that the factory makes of a spec with a list of expressions lets every resource of a
  -- component pass exactly if one of the expressions matches the component's name.
  matches-create_component :
      (raw : p.RawMessage) (names : List String) (f : Filter p) (cd : p.ComponentDescriptor)
      (r : p.Resource)
      → p.include_component_names raw ≡ ok names
      → create p component_name_filter_type (some raw) ≡ value f
      → matches p f cd r ≡ value (expresses names (p.component_name cd))
  unfolding create matches
  matches-create_component raw [] f cd r decoded made = ground arith
  matches-create_component raw (e ∷ es) f cd r decoded made =
      elim (Call-cases (map_calls (compile_name p) (e ∷ es))) [
        | inl (regexps, h) ↦
            ground (arith, matches_any-compiled (e ∷ es) regexps (p.component_name cd) h)
        | inr (inl (failure, h)) ↦ absurd (ground arith)
        | inr (inr h) ↦ absurd (ground arith)
      ]
