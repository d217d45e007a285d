-- ===== src/Tests/Cache.antt =====
-- The cache at concrete inputs (ociclient/cache).
use mathlib.Core.List.{Perm}
use component_cli.Prelude.{
  List, ℕ, ◌+◌, ◌%◌, String, ◌≡◌, ◌≢◌, ◌⊎◌, refl, true, false, none, some, [], ◌∷◌, ◌++◌, arith,
}
use component_cli.Prelude.Result.{ok}
use component_cli.Prelude.Dict
use component_cli.Prelude.Dict.{Distinct, lookup, insert}
use component_cli.Prelude.Int64.{modulus}
use component_cli.Cache.Platform.{IsSorted, IsStrictWeak}
use component_cli.Cache.Index
use component_cli.Cache.Index.{
  Index, IndexEntry, calculate_priority, less, scan, no_entries, priority_list, deep_copy,
}
use component_cli.Cache.Index.Sizes.{total}
use component_cli.Cache.Index.Priority.{values, min_hits_by_order}
use component_cli.Cache.FileSystem.{
  Fs, create, open_file, remove, delete_all, usage, gc_high, gc_low, sweep, run_garbage_collection,
}
use component_cli.Cache.FileSystem.Accounting.{
  IsAccounted, create-IsAccounted, create_again_counts_twice, remove-IsAccounted,
  run_garbage_collection-IsAccounted,
}
use component_cli.Cache.FileSystem.Collection.{
  remove_tried, Swept, with_thresholds, run_garbage_collection-Swept, lower, thresholds_unused,
  queue,
}
use component_cli.Cache.Layered
use component_cli.Cache.Layered.{Descriptor, LayeredCache, verify_blob}
use component_cli.Cache.Layered.Verified.{get-verifies}
use component_cli.Cache.Layered.RoundTrip.{IsFromOverlay, get-add}
use component_cli.Tests.Instances.{
  fixed, memory, by_insertion, insertion_sort, sums, memory-KeepsFiles,
}

program : Unit {0}
unfolding lookup insert Dict.remove Index.add Index.get Index.remove Index.hit Index.len deep_copy
    calculate_priority less scan priority_list insertion_sort create open_file remove delete_all
    usage gc_high gc_low sweep run_garbage_collection Layered.get Layered.add Layered.get_from_base
    verify_blob total
program = tt

abbrev entry : String → ℕ → ℕ → IndexEntry
entry name size created_at = record {
  name = name;
  size = size;
  hits = 0;
  created_at = created_at;
  hits_since_last_reset = 0;
}

abbrev files : Index
files = ("a", entry "a" 3 2) ∷ ("b", entry "b" 2 1) ∷ []

-- A limit of five bytes, and five bytes in two files.
abbrev full : Fs fixed memory
full = record {
  files = ("a", 1 ∷ 2 ∷ 3 ∷ []) ∷ ("b", 4 ∷ 5 ∷ []) ∷ [];
  size = 5;
  gc_high_threshold = 0;
  gc_low_threshold = 0;
  reset_interval = 0;
  preserved_hits_proportion = 0;
  index = files;
  current_size = 5;
  ticking = true;
  stop_chan = true;
  items_count_metric = none;
  disk_usage_metric = some 5_000_000;
  hits_count_metric = none;
}

-- The older of two files without hits goes.
collected :
    (run_garbage_collection fixed memory by_insertion full).index ≡ ("a", entry "a" 3 2) ∷ []
unfolding program
collected = refl

full-IsAccounted : IsAccounted fixed memory full
unfolding program
full-IsAccounted = record { summed = refl; distinct = (refl, (refl, tt)); shown = refl }

create-IsAccounted_example : IsAccounted fixed memory (create fixed memory full "c" 7 3).1
unfolding program
create-IsAccounted_example = create-IsAccounted fixed memory full "c" 7 3 refl full-IsAccounted

create_again_counts_twice_example :
    (create fixed memory full "a" 3 3).1.current_size
    ≡ (total (create fixed memory full "a" 3 3).1.index + 3) % modulus
unfolding program
create_again_counts_twice_example =
    create_again_counts_twice fixed memory full "a" 3 3 (entry "a" 3 2) refl full-IsAccounted refl

remove-IsAccounted_example : IsAccounted fixed memory (remove fixed memory full "a").1
remove-IsAccounted_example = remove-IsAccounted fixed memory full "a" full-IsAccounted

run_garbage_collection-IsAccounted_example :
    IsAccounted fixed memory (run_garbage_collection fixed memory by_insertion full)
run_garbage_collection-IsAccounted_example =
    run_garbage_collection-IsAccounted fixed memory by_insertion full full-IsAccounted

abbrev Full : Type 0
Full =
    ((((full.size ≡ 0) ⊎ (fixed.lt (usage fixed memory full) (gc_high fixed memory) ≡ true))
        × (run_garbage_collection fixed memory by_insertion full ≡ full))
      ⊎ ((full.size ≢ 0)
          × (fixed.lt (usage fixed memory full) (gc_high fixed memory) ≡ false)
          × (s : Swept fixed memory full (queue fixed memory by_insertion full))
          × (run_garbage_collection fixed memory by_insertion full
              ≡ remove_tried fixed memory full s.tried)
          × Perm (s.tried ++ s.left) (values files)
          × IsSorted (lower fixed memory by_insertion full) (s.tried ++ s.left)))

lower-IsStrictWeak : IsStrictWeak (lower fixed memory by_insertion full)
lower-IsStrictWeak = record {
  asymm = λ a b h. ground arith;
  trans_false = λ a b c h g. ground arith;
}

run_garbage_collection-Swept_example : Full
run_garbage_collection-Swept_example =
    run_garbage_collection-Swept fixed memory by_insertion full full-IsAccounted.distinct
      lower-IsStrictWeak

thresholds_unused_example :
    run_garbage_collection fixed memory by_insertion
      (with_thresholds fixed memory full 100_000 50_000)
    ≡ with_thresholds fixed memory
        (run_garbage_collection fixed memory by_insertion full)
        100_000
        50_000
thresholds_unused_example = thresholds_unused fixed memory by_insertion full 100_000 50_000

abbrev popular : IndexEntry
popular = record (entry "b" 2 1) { hits = 7 }

min_hits_by_order_example :
    ((scan no_entries (("a", entry "a" 3 2) ∷ ("b", popular) ∷ [])).min_hits ≡ 7)
    × ((scan no_entries (("b", popular) ∷ ("a", entry "a" 3 2) ∷ [])).min_hits ≡ 0)
min_hits_by_order_example =
    min_hits_by_order "a" "b" (entry "a" 3 2) popular refl (omega arith) (omega arith)

abbrev cache : LayeredCache fixed memory sums
cache = record { base_fs = full; overlay_fs = none }

abbrev blob : Descriptor (String × ℕ)
blob = record { digest = ("c", 6); size = 3 }

abbrev stored : LayeredCache fixed memory sums
stored = (Layered.add fixed memory sums cache blob (1 ∷ 2 ∷ 3 ∷ []) 4).1

get-stored : (Layered.get fixed memory sums stored blob 5).0 ≡ ok (1 ∷ 2 ∷ 3 ∷ [])
unfolding program
get-stored = refl

get-verifies_example : sums.verifies ("c", 6) (1 ∷ 2 ∷ 3 ∷ []) ≡ true
get-verifies_example = get-verifies fixed memory sums stored blob 5 (1 ∷ 2 ∷ 3 ∷ []) get-stored

get-add_example :
    (bytes : List ℕ) × ((Layered.get fixed memory sums stored blob 5).0 ≡ ok bytes)
    × (sums.verifies ("c", 6) bytes ≡ true)
    × ((bytes ≡ 1 ∷ 2 ∷ 3 ∷ [])
        ⊎ IsFromOverlay fixed memory sums memory-KeepsFiles cache blob bytes)
unfolding program
get-add_example =
    get-add fixed memory sums memory-KeepsFiles cache blob (1 ∷ 2 ∷ 3 ∷ []) 4 5 refl refl refl refl

-- The file "a" has the size of the blob, and other bytes.
abbrev damaged : Descriptor (String × ℕ)
damaged = record { digest = ("a", 9); size = 3 }
