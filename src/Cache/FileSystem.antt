-- ===== src/Cache/FileSystem.antt =====
-- `FileSystem` of ociclient/cache/filesystem.go: a file system with an index of its files, the sum of
-- their sizes, gauges for both, and the garbage collection.
pub mod Accounting
pub mod Collection
use component_cli.Prelude.{
  ℕ, String, Bool, true, false, not, Option, none, some, List, [], ◌∷◌, nat_eq, ◌==◌, if◌then◌else◌,
}
use component_cli.Prelude.Result.{Error, wrap, Result, ok, err, ◌>>=◌, context}
use component_cli.Prelude.Int64
use component_cli.Cache.Platform.{Floats, FileInfo, Vfs, Sorting}
use component_cli.Cache.Index
use component_cli.Cache.Index.{Index, IndexEntry, deep_copy, priority_list}

-- The gauges are those of Prometheus, by their values; `none` where the metric is not set. `ticking`
-- tells whether the goroutine that resets the hits runs, and `stop_chan` whether `resetStopChan` is set.
pub record FileSystem (Files Float : Type 0) : Type 0 where
  pub files : Files
  pub size : ℕ
  pub gc_high_threshold : Float
  pub gc_low_threshold : Float
  pub reset_interval : ℕ
  pub preserved_hits_proportion : Float
  pub index : Index
  pub current_size : ℕ
  pub ticking : Bool
  pub stop_chan : Bool
  pub items_count_metric : Option Float
  pub disk_usage_metric : Option Float
  pub hits_count_metric : Option Float

-- `GarbageCollectionConfiguration`; the interval is in nanoseconds.
pub record GcConfiguration (Float : Type 0) : Type 0 where
  pub size : String
  pub gc_high_threshold : Float
  pub gc_low_threshold : Float
  pub reset_interval : ℕ
  pub preserved_hits_proportion : Float

module _ (fl : Floats) (v : Vfs) where
  open fl use {Float, of_int, lit, div, lt}
  open v use {Files}

  abbrev pub Fs : Type 0
  Fs = FileSystem Files Float

  -- The constants GCHighThreshold and GCLowThreshold.
  unfoldable pub gc_high : Float
  gc_high = lit 85 100

  unfoldable pub gc_low : Float
  gc_low = lit 80 100

  -- A gauge that is not set is left alone.
  abbrev pub set_gauge : Option Float → Float → Option Float
  set_gauge none x = none
  set_gauge (some y) x = some x

  abbrev pub inc : Option Float → Option Float
  inc none = none
  inc (some x) = some (fl.add x (of_int 1))

  abbrev pub dec : Option Float → Option Float
  dec none = none
  dec (some x) = some (fl.sub x (of_int 1))

  unfoldable pub set_current_size : Fs → ℕ → Fs
  set_current_size fs size = record fs {
    current_size = size;
    disk_usage_metric = set_gauge fs.disk_usage_metric (of_int size);
  }

  -- `WithMetrics`
  unfoldable pub with_metrics : Fs → Option Float → Option Float → Option Float → Fs
  with_metrics fs items_count usage hits = record fs {
    disk_usage_metric = set_gauge usage (of_int fs.current_size);
    hits_count_metric = hits;
    items_count_metric = set_gauge items_count (of_int (Index.len fs.index));
  }

  -- `Create` at the time `now`. The collection that it starts is a call of its own,
  -- `run_garbage_collection`.
  unfoldable pub create : Fs → String → ℕ → ℕ → Option Error × Fs
  unfolding set_current_size
  create fs path size now =
      let (e, files') = v.create fs.files path in
      let fs' = record fs { files = files' } in
      let sized = set_current_size fs' (Int64.add fs.current_size size) in
      elim e [
        | some failure ↦ (some failure, fs')
        | none ↦ (
          none,
          record sized {
            index = Index.add fs.index path size now;
            items_count_metric = inc fs.items_count_metric;
          },
        )
      ]

  -- `OpenFile`, to read: the content, and the hit that it counts.
  unfoldable pub open_file : Fs → String → Result (List ℕ) × Fs
  open_file fs name = (
    v.read fs.files name,
    record fs { index = Index.hit fs.index name; hits_count_metric = inc fs.hits_count_metric },
  )

  -- `Remove`
  unfoldable pub remove : Fs → String → Option Error × Fs
  unfolding set_current_size
  remove fs name =
      let (e, files') = v.remove fs.files name in
      let fs' = record fs { files = files' } in
      let entry = Index.get fs.index name in
      let sized = set_current_size fs' (Int64.sub fs.current_size entry.size) in
      elim e [
        | some failure ↦ (some failure, fs')
        | none ↦ (
          none,
          record sized {
            index = Index.remove fs.index name;
            items_count_metric = dec fs.items_count_metric;
          },
        )
      ]

  -- The loop of `DeleteAll`.
  unfoldable pub remove_each : Fs → List FileInfo → Option Error × Fs
  remove_each fs [] = (none, fs)
  remove_each fs (f ∷ fs_list) =
      let (e, fs') = remove fs f.name in
      let rest = remove_each fs' fs_list in
      elim e [ some failure ↦ (some failure, fs') | none ↦ rest ]

  unfoldable pub delete_all : Fs → Option Error × Fs
  unfolding remove_each
  delete_all fs = elim (v.read_dir fs.files) [
    | err e ↦ (some (wrap "unable to read current cached files" e), fs)
    | ok files ↦ remove_each fs files
  ]

  -- `usage`
  unfoldable pub usage : Fs → Float
  usage fs = div (of_int fs.current_size) (of_int fs.size)

  -- The loop of `RunGarbageCollection` over the files in the order of their priority; a file that
  -- cannot be removed is passed over.
  unfoldable pub sweep : Fs → List IndexEntry → Fs
  unfolding usage
  sweep fs [] = fs
  sweep fs (item ∷ items) =
      let rest = sweep (remove fs item.name).1 items in if lt gc_low (usage fs) then rest else fs

  module _ (so : Sorting) where
    -- `RunGarbageCollection`
    unfoldable pub run_garbage_collection : Fs → Fs
    unfolding sweep
    run_garbage_collection fs =
        if nat_eq fs.size 0
        then fs
        else if lt (usage fs) gc_high
        then fs
        else sweep fs (priority_list fl so (deep_copy fs.index))

  -- The reset of the hits at a tick of the ticker.
  unfoldable pub tick : Fs → Fs
  tick fs = record fs { index = Index.reset fl fs.index }

  -- `StartResetInterval`
  unfoldable pub start_reset_interval : Fs → Fs
  start_reset_interval fs = record fs { ticking = true; stop_chan = true }

  -- `Close` sends on the channel; with nobody there to receive, it never returns: `none`.
  unfoldable pub close : Fs → Option Fs
  close fs =
      if not fs.stop_chan
      then some fs
      else if fs.ticking
      then some (record fs { ticking = false })
      else none

  abbrev or_default : Float → ℕ → ℕ → Float
  or_default x n d = if fl.eq x (of_int 0) then lit n d else x

  -- const ResetInterval = 1 hour
  abbrev pub default_reset_interval : ℕ
  default_reset_interval = 3_600_000_000_000

  module _ (parse_quantity : String → Result (Option ℕ)) where
    -- `ApplyOptions`; `parse_quantity` is resource.ParseQuantity with AsInt64.
    unfoldable pub apply_options : GcConfiguration Float → Fs → Result Fs
    apply_options o fs =
        let quantity : Result (Option ℕ) = parse_quantity o.size in
        let configure = λ (size : ℕ). ok (record fs {
          size = size;
          gc_high_threshold = or_default o.gc_high_threshold 85 100;
          gc_low_threshold = or_default o.gc_low_threshold 80 100;
          reset_interval =
              if nat_eq o.reset_interval 0 then default_reset_interval else o.reset_interval;
          preserved_hits_proportion = or_default o.preserved_hits_proportion 5 10;
        }) in
        let parsed : Result Fs = elim quantity [
          | err e ↦ err (wrap "unable to parse size" e)
          | ok none ↦ configure fs.size
          | ok (some n) ↦ configure n
        ] in
        if o.size == "" then ok fs else parsed

    abbrev pub new_fs : Files → Fs
    new_fs files = record {
      files = files;
      size = 0;
      gc_high_threshold = of_int 0;
      gc_low_threshold = of_int 0;
      reset_interval = 0;
      preserved_hits_proportion = of_int 0;
      index = [];
      current_size = 0;
      ticking = false;
      stop_chan = false;
      items_count_metric = none;
      disk_usage_metric = none;
      hits_count_metric = none;
    }

    -- The loop of `NewCacheFilesystem` over the files that are there.
    unfoldable pub load : Fs → List FileInfo → Fs
    load fs [] = fs
    load fs (f ∷ files) =
        load
          (record fs {
            current_size = Int64.add fs.current_size f.size;
            index = Index.add fs.index f.name f.size f.mod_time;
          })
          files

    -- `NewCacheFilesystem`
    unfoldable pub new_cache_filesystem : Files → GcConfiguration Float → Result Fs
    unfolding load apply_options start_reset_interval
    new_cache_filesystem files gc_opts = do
      fs ← apply_options gc_opts (new_fs files)
      found ← context "unable to read current cached files" (v.read_dir files)
      let loaded = load fs found
      ok (if nat_eq loaded.size 0 then loaded else start_reset_interval loaded)

-- `Merge` of a configuration into another: what is set overwrites.
unfoldable pub merge_configuration :
    (fl : Floats)
    → GcConfiguration (Floats.Float fl)
    → GcConfiguration (Floats.Float fl)
    → GcConfiguration (Floats.Float fl)
merge_configuration fl o cfg = record {
  size = if o.size == "" then cfg.size else o.size;
  gc_high_threshold =
      if fl.eq o.gc_high_threshold (fl.of_int 0)
      then cfg.gc_high_threshold
      else o.gc_high_threshold;
  gc_low_threshold =
      if fl.eq o.gc_low_threshold (fl.of_int 0) then cfg.gc_low_threshold else o.gc_low_threshold;
  reset_interval = if nat_eq o.reset_interval 0 then cfg.reset_interval else o.reset_interval;
  preserved_hits_proportion =
      if fl.eq o.preserved_hits_proportion (fl.of_int 0)
      then cfg.preserved_hits_proportion
      else o.preserved_hits_proportion;
}
