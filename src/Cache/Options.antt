-- ===== src/Cache/Options.antt =====
-- The options of the cache (ociclient/cache/types.go) and its set-up from them (ociclient/cache/cache.go).
pub mod Overlay
use component_cli.Prelude.{
  ℕ, String, Bool, true, false, Option, none, some, List, [], ◌∷◌, ◌==◌, ◌&&◌, if◌then◌else◌,
}
use component_cli.Prelude.Result.{
  Error, invalid, wrap, Result, ok, err, ◌>>=◌, context, is_not_exist,
}
use component_cli.Cache.Platform.{Floats, Vfs}
use component_cli.Cache.FileSystem.{
  GcConfiguration, Fs, merge_configuration, with_metrics, new_cache_filesystem,
}
use component_cli.Cache.Layered.{Digests, LayeredCache}

module _ (fl : Floats) where
  open fl use {Float}

  pub record Options : Type 0 where
    pub in_memory_overlay : Bool
    pub in_memory_gc_config : GcConfiguration Float
    pub base_path : String
    pub base_gc_config : GcConfiguration Float
    pub uid : String

  -- `Option`, by the types that implement it.
  pub data CacheOption : Type 0 where
    with_in_memory_overlay : Bool → CacheOption
    with_base_path : String → CacheOption
    with_in_memory_overlay_size : String → CacheOption
    with_base_size : String → CacheOption
    with_gc_config : GcConfiguration Float → CacheOption
    with_base_gc_config : GcConfiguration Float → CacheOption
    with_in_memory_gc_config : GcConfiguration Float → CacheOption
    with_uid : String → CacheOption

  -- The methods `ApplyOption`.
  unfoldable pub apply_option : CacheOption → Options → Options
  unfolding merge_configuration
  apply_option (with_in_memory_overlay w) o = record o { in_memory_overlay = w }
  apply_option (with_base_path p) o = record o { base_path = p }
  apply_option (with_in_memory_overlay_size p) o =
      let config = o.in_memory_gc_config in
      record o { in_memory_gc_config = record config { size = p } }
  apply_option (with_base_size p) o =
      let config = o.base_gc_config in record o { base_gc_config = record config { size = p } }
  apply_option (with_gc_config c) o = record o {
    base_gc_config = merge_configuration fl c o.base_gc_config;
    in_memory_gc_config = merge_configuration fl c o.in_memory_gc_config;
  }
  apply_option (with_base_gc_config c) o = record o {
    base_gc_config = merge_configuration fl c o.base_gc_config;
  }
  apply_option (with_in_memory_gc_config c) o = record o {
    in_memory_gc_config = merge_configuration fl c o.in_memory_gc_config;
  }
  apply_option (with_uid p) o = record o { uid = p }

  -- `ApplyOptions`
  unfoldable pub apply_all : Options → List CacheOption → Options
  unfolding apply_option
  apply_all o [] = o
  apply_all o (opt ∷ opts) = apply_all (apply_option opt o) opts

  -- `ApplyDefaults`: `uuid` is the identity that would be made.
  unfoldable pub apply_defaults : String → Options → Options
  apply_defaults uuid o =
      let config = o.in_memory_gc_config in
      record o {
        in_memory_gc_config =
            if o.in_memory_overlay && config.size == ""
            then record config { size = "200Mi" }
            else config;
        uid = if o.uid == "" then uuid else o.uid;
      }

  no_configuration : GcConfiguration Float
  no_configuration = record {
    size = "";
    gc_high_threshold = fl.of_int 0;
    gc_low_threshold = fl.of_int 0;
    reset_interval = 0;
    preserved_hits_proportion = fl.of_int 0;
  }

  -- `&Options{}`
  unfoldable pub zero_options : Options
  unfolding no_configuration
  zero_options = record {
    in_memory_overlay = false;
    in_memory_gc_config = no_configuration;
    base_path = "";
    base_gc_config = no_configuration;
    uid = "";
  }

  -- The options after NewCache has applied what it was called with.
  unfoldable pub configured : String → List CacheOption → Options
  unfolding zero_options apply_all apply_defaults
  configured uuid options = apply_defaults uuid (apply_all zero_options options)

-- What the set-up uses of the operating system: a new temporary directory, os.Stat, answering whether
-- a path is a directory, os.MkdirAll, and the file system at a path.
pub record Os (v : Vfs) : Type 0 where
  pub temp_dir : Result String
  pub stat_is_dir : String → Result Bool
  pub mkdir_all : String → Option Error
  pub project : String → Result v.Files
  pub memory : v.Files

abbrev done : Option Error → Result (Unit {0})
done none = ok tt
done (some e) = err e

module _ (fl : Floats) (v : Vfs) (dg : Digests) (os : Os v) where
  -- The end of `initBasePath`, on a path that is set.
  unfoldable pub check_base_path : String → Result (Unit {0})
  check_base_path path = elim (os.stat_is_dir path) [
    | err e ↦ if is_not_exist e then done (os.mkdir_all path) else err e
    | ok is_dir ↦ if is_dir then ok tt else err (invalid "path has to be a directory")
  ]

  -- `initBasePath`
  unfoldable pub init_base_path : Options fl → Result (Options fl)
  unfolding check_base_path
  init_base_path o = do
    path ← (if o.base_path == "" then os.temp_dir else ok o.base_path)
    _ ← check_base_path path
    ok (record o { base_path = path })

  -- The metrics under an identity that no other cache has had.
  abbrev gauge : Option fl.Float
  gauge = some (fl.of_int 0)

  module _ (parse_quantity : String → Result (Option ℕ)) where
    -- The overlay of `NewCache`.
    unfoldable pub new_overlay : Options fl → Result (Option (Fs fl v))
    unfolding new_cache_filesystem with_metrics
    new_overlay o =
        if o.in_memory_overlay
        then (do
          fs ←
              context "unable to create base layer"
                (new_cache_filesystem fl v parse_quantity os.memory o.in_memory_gc_config)
          ok (some (with_metrics fl v fs none gauge gauge)))
        else ok none

    -- `NewCache`
    unfoldable pub new_cache : String → List (CacheOption fl) → Result (LayeredCache fl v dg)
    unfolding configured init_base_path new_overlay
    new_cache uuid options = do
      opts ← init_base_path (configured fl uuid options)
      files ← os.project opts.base_path
      base ←
          context "unable to create base layer"
            (new_cache_filesystem fl v parse_quantity files opts.base_gc_config)
      overlay ← new_overlay opts
      ok (record { base_fs = with_metrics fl v base gauge gauge gauge; overlay_fs = overlay })
