-- ===== src/Cache/Options/Overlay.antt =====
-- When a new cache has an overlay in memory, and that the overlay has a limit.
use mathlib.Core.Path.{subst}
use component_cli.Prelude.{
  Bool, nat_eq, ap, refl, some, ◌==◌, [], ◌∷◌, if◌then◌else◌, false, ℕ, String, ◌≡◌, ◌≢◌, sym, ◌∙◌,
  true, false, Option, none, inl, inr, List, arith, eq_iff,
}
use component_cli.Prelude.Result.{Result, ok, err, Result-cases}
use component_cli.Cache.Platform.{FileInfo, Floats, Vfs}
use component_cli.Cache.FileSystem.{
  Fs, GcConfiguration, load, new_fs, apply_options, new_cache_filesystem, start_reset_interval,
  with_metrics,
}
use component_cli.Cache.Layered.{Digests, LayeredCache}
use component_cli.Cache.Options.{
  Options, CacheOption, apply_defaults, configured, zero_options, apply_all, Os, init_base_path,
  new_overlay, new_cache,
}

-- The size that the overlay is given: the one of the options, or 200Mi where they have none.
abbrev pub overlay_size : {fl : Floats} → Options fl → String
overlay_size o = if o.in_memory_gc_config.size == "" then "200Mi" else o.in_memory_gc_config.size

apply_defaults-size :
    (fl : Floats) (uuid : String) (o : Options fl)
    → o.in_memory_overlay ≡ true
    → (apply_defaults fl uuid o).in_memory_gc_config.size ≡ overlay_size o
unfolding apply_defaults
apply_defaults-size fl uuid o e = ground (arith, eq_iff o.in_memory_gc_config.size "")

overlay_size-set : {fl : Floats} → (o : Options fl) → overlay_size o ≢ ""
overlay_size-set o = ground (arith, eq_iff o.in_memory_gc_config.size "", eq_iff "200Mi" "")

module _ (fl : Floats) (v : Vfs) (dg : Digests) (os : Os v)
    (parse_quantity : String → Result (Option ℕ)) where
  size_of : Result (Fs fl v) → ℕ
  size_of (ok fs) = fs.size
  size_of (err e) = 0

  load-size :
      (found : List FileInfo) (fs : Fs fl v) → (load fl v parse_quantity fs found).size ≡ fs.size
  unfolding load
  load-size [] fs = refl
  load-size (file ∷ found) fs = load-size found _

  apply_options-size :
      (config : GcConfiguration fl.Float) (fs fs' : Fs fl v) (n : ℕ)
      → apply_options fl v parse_quantity config fs ≡ ok fs'
      → config.size ≢ ""
      → parse_quantity config.size ≡ ok (some n)
      → fs'.size ≡ n
  unfolding apply_options size_of
  apply_options-size config fs fs' n h set q =
      let named : (config.size == "") ≡ false = ground (arith, eq_iff config.size "") in
      ap size_of (sym (rw (named, q) at h))

  started-size :
      (b : Bool) (fs : Fs fl v) → (if b then fs else start_reset_interval fl v fs).size ≡ fs.size
  unfolding start_reset_interval
  started-size true fs = refl
  started-size false fs = refl

  limit_of :
      (config : GcConfiguration fl.Float) (files : v.Files) (fs : Fs fl v) (n : ℕ)
      → new_cache_filesystem fl v parse_quantity files config ≡ ok fs
      → config.size ≢ ""
      → parse_quantity config.size ≡ ok (some n)
      → fs.size ≡ n
  unfolding new_cache_filesystem apply_options start_reset_interval
  limit_of config files fs n h set q =
      elim (Result-cases
        (apply_options fl v parse_quantity config (new_fs fl v parse_quantity files))) [
          | inr (failure, e) ↦ absurd (ground arith)
          | inl (configured_fs, e) ↦ elim (Result-cases (v.read_dir files)) [
            | inr (failure, e') ↦ absurd (ground arith)
            | inl (found, e') ↦
                let loaded = load fl v parse_quantity configured_fs found in
                let same : (if nat_eq loaded.size 0
                      then loaded
                      else start_reset_interval fl v loaded)
                    ≡ fs =
                  ground arith in
                ap (λ (x : Fs fl v). x.size) (sym same)
                ∙ started-size (nat_eq loaded.size 0) loaded
                ∙ load-size found configured_fs
                ∙ apply_options-size config (new_fs fl v parse_quantity files) configured_fs n e set
                    q
          ]
        ]

  -- The overlay is there, with the limit.
  abbrev pub IsLimited : ℕ → Option (Fs fl v) → Type 0
  IsLimited n overlay = (fs : Fs fl v) × (overlay ≡ some fs) × (fs.size ≡ n)

  init_base_path-overlay :
      (o o' : Options fl)
      → init_base_path fl v dg os o ≡ ok o'
      → (o'.in_memory_overlay ≡ o.in_memory_overlay)
        × (o'.in_memory_gc_config ≡ o.in_memory_gc_config)
  unfolding init_base_path
  init_base_path-overlay o o' h = (ground arith, ground arith)

  new_overlay-IsLimited :
      (o : Options fl) (overlay : Option (Fs fl v)) (n : ℕ)
      → new_overlay fl v dg os parse_quantity o ≡ ok overlay
      → o.in_memory_gc_config.size ≢ ""
      → parse_quantity o.in_memory_gc_config.size ≡ ok (some n)
      → o.in_memory_overlay ≡ true
      → IsLimited n overlay
  unfolding new_overlay with_metrics
  new_overlay-IsLimited o overlay n h set q e =
      elim (Result-cases
        (new_cache_filesystem fl v parse_quantity os.memory o.in_memory_gc_config)) [
          | inr (failure, e') ↦ absurd (ground arith)
          | inl (fs, e') ↦ (
            with_metrics fl v fs none (some (fl.of_int 0)) (some (fl.of_int 0)),
            ground arith,
            limit_of o.in_memory_gc_config os.memory fs n e' set q,
          )
        ]

  new_overlay-none :
      (o : Options fl) (overlay : Option (Fs fl v))
      → new_overlay fl v dg os parse_quantity o ≡ ok overlay
      → o.in_memory_overlay ≡ false
      → overlay ≡ none
  unfolding new_overlay
  new_overlay-none o overlay h e = ground arith

  -- If a cache can be set up, then it has an overlay in memory exactly if the options ask for one, and
  -- the overlay's file system has the limit that the options give for it, or else 200Mi, if that is
  -- parsed as a quantity.
  pub new_cache-overlay :
      (uuid : String) (options : List (CacheOption fl)) (lc : LayeredCache fl v dg) (n : ℕ)
      → new_cache fl v dg os parse_quantity uuid options ≡ ok lc
      → parse_quantity (overlay_size (apply_all fl (zero_options fl) options)) ≡ ok (some n)
      → ((apply_all fl (zero_options fl) options).in_memory_overlay ≡ true
          → IsLimited n lc.overlay_fs)
        × ((apply_all fl (zero_options fl) options).in_memory_overlay ≡ false
            → lc.overlay_fs ≡ none)
  unfolding new_cache configured apply_defaults
  new_cache-overlay uuid options lc n h q =
      let asked_for = apply_all fl (zero_options fl) options in
      elim (Result-cases (init_base_path fl v dg os (configured fl uuid options))) [
        | inr (failure, e) ↦ absurd (ground arith)
        | inl (o, e) ↦
            let (kept, config) = init_base_path-overlay (configured fl uuid options) o e in
            elim (Result-cases (new_overlay fl v dg os parse_quantity o)) [
              | inr (failure, e') ↦ absurd (ground arith)
              | inl (overlay, e') ↦
                  let same : overlay ≡ lc.overlay_fs = ground arith in
                  (
                    λ asked.
                        let size =
                          ap (λ (c : GcConfiguration fl.Float). c.size) config
                          ∙ apply_defaults-size fl uuid asked_for asked in
                        subst (IsLimited n) same (
                          new_overlay-IsLimited o overlay n e'
                            (rw size (overlay_size-set asked_for)) (rw size q) (kept ∙ asked)),
                    λ not_asked. sym same ∙ new_overlay-none o overlay e' (kept ∙ not_asked),
                  )
            ]
      ]
