-- ===== src/Tests/Options.antt =====
-- The set-up of the cache from options (ociclient/cache/types.go, ociclient/cache/cache.go).
use component_cli.Prelude.{
  ◌==◌, if◌then◌else◌, ℕ, String, Option, ◌≡◌, refl, true, false, none, some, List, [], ◌∷◌,
}
use component_cli.Prelude.Result.{Result, ok}
use component_cli.Prelude.Dict.{insert}
use component_cli.Cache.FileSystem.{with_metrics, new_cache_filesystem}
use component_cli.Cache.Layered.{LayeredCache}
use component_cli.Cache.Options.{
  apply_all, zero_options, CacheOption, with_in_memory_overlay, with_base_size, apply_option,
  configured, Os, init_base_path, new_cache,
}
use component_cli.Cache.Options.Overlay.{IsLimited, new_cache-overlay}
use component_cli.Tests.Instances.{fixed, memory, sums}

program : Unit {0}
unfolding insert with_metrics new_cache_filesystem apply_option configured init_base_path new_cache
program = tt

-- Every path is a directory with one file.
abbrev one_file : Os memory
one_file = record {
  temp_dir = ok "/tmp/ocicache";
  stat_is_dir = λ path. ok true;
  mkdir_all = λ path. none;
  project = λ path. ok (("a", 1 ∷ 2 ∷ []) ∷ []);
  memory = [];
}

abbrev options : List (CacheOption fixed)
options = with_base_size "5" ∷ with_in_memory_overlay true ∷ []

abbrev quantity : String → Result (Option ℕ)
quantity q = ok (some (if q == "200Mi" then 200 else 5))

made :
    (lc : LayeredCache fixed memory sums) × (new_cache fixed memory sums one_file quantity "id"
        options
      ≡ ok lc)
unfolding program
made = (_, refl)

default_size : (configured fixed "id" options).in_memory_gc_config.size ≡ "200Mi"
unfolding program
default_size = refl

new_cache-overlay_example :
    ((apply_all fixed (zero_options fixed) options).in_memory_overlay ≡ true
      → IsLimited fixed memory sums one_file quantity 200 made.0.overlay_fs)
    × ((apply_all fixed (zero_options fixed) options).in_memory_overlay ≡ false
        → made.0.overlay_fs ≡ none)
unfolding program
new_cache-overlay_example =
    new_cache-overlay fixed memory sums one_file quantity "id" options made.0 200 made.1 refl
