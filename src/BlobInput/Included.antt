-- ===== src/BlobInput/Included.antt =====
-- Which paths are included (pkg/commands/componentarchive/input/input.go).
use component_cli.Prelude.{
  String, ◌≡◌, refl, sym, Bool, Bool-cases, true, false, not, ◌&&◌, ◌||◌, inl, inr, List, [], ◌∷◌,
  All, arith, length, nat_eq, ◌==◌, if◌then◌else◌,
}
use component_cli.Prelude.Result.{ok}
use component_cli.Strings.{trim_prefix}
use component_cli.BlobInput.{Files, TarOptions, any_match, included}

abbrev pub any : (String → Bool) → List String → Bool
any m [] = false
any m (p ∷ ps) = m p || any m ps

abbrev pub is_nil : List String → Bool
is_nil [] = true
is_nil (p ∷ ps) = false

module _ (fs : Files) where
  any_match-any :
      (patterns : List String) (path : String) (m : String → Bool)
      → All (λ p. fs.matches p path ≡ ok (m p)) patterns
      → any_match fs patterns path ≡ ok (any m patterns)
  unfolding any_match
  any_match-any [] path m h = refl
  any_match-any (p ∷ ps) path m h = elim (Bool-cases (m p)) [
    | inl e ↦ rw (any_match, h.0, e) refl
    | inr e ↦ rw (any_match, h.0, e) (any_match-any ps path m h.1)
  ]

  combined :
      (excluded : Bool) (includes : List String) (m : String → Bool)
      → (if excluded
          then ok false
          else if nat_eq (length includes) 0
          then ok true
          else ok (any m includes))
        ≡ ok (not excluded && (is_nil includes || any m includes))
  combined true includes m = refl
  combined false [] m = refl
  combined false (p ∷ ps) m = ground arith

  -- With patterns that are all well-formed, a path is included exactly if, without the root in front of
  -- it, no exclude pattern matches it and either there is no include pattern or one matches it.
  pub included-any :
      (opts : TarOptions) (path name : String) (m : String → Bool)
      → name ≡ (if opts.root == "" then path else trim_prefix path opts.root)
      → All (λ p. fs.matches p name ≡ ok (m p)) opts.exclude_files
      → All (λ p. fs.matches p name ≡ ok (m p)) opts.include_files
      → included fs opts path
        ≡ ok (
            not (any m opts.exclude_files)
            && (is_nil opts.include_files || any m opts.include_files))
  unfolding included
  included-any opts path name m same ex inc =
      let excluded = any_match-any opts.exclude_files name m ex in
      let wanted = any_match-any opts.include_files name m inc in
      rw (included, sym same, excluded, wanted)
        (combined (any m opts.exclude_files) opts.include_files m)
