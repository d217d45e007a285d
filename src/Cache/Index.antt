-- ===== src/Cache/Index.antt =====
-- `Index` of ociclient/cache/filesystem.go: the files of a cache with their sizes and hits.
pub mod Sizes
pub mod Priority
use component_cli.Prelude.{
  ℕ, zero, suc, ◌+◌, String, Bool, true, false, ◌||◌, Option, none, some, List, [], ◌∷◌, ◌++◌, map,
  ltb, nat_eq, length, if◌then◌else◌,
}
use component_cli.Prelude.Dict
use component_cli.Prelude.Dict.{Dict, lookup, insert}
use component_cli.Prelude.Int64
use component_cli.Cache.Platform.{Floats, Sorting}

-- Times are nanoseconds since Go's zero time; hits and sizes are int64.
pub record IndexEntry : Type 0 where
  pub name : String
  pub size : ℕ
  pub hits : ℕ
  pub created_at : ℕ
  pub hits_since_last_reset : ℕ

abbrev pub Index : Type 0
Index = Dict IndexEntry

abbrev pub empty_entry : IndexEntry
empty_entry = record { name = ""; size = 0; hits = 0; created_at = 0; hits_since_last_reset = 0 }

unfoldable pub add : Index → String → ℕ → ℕ → Index
add i name size created_at =
    insert name
      (record {
        name = name;
        size = size;
        hits = 0;
        created_at = created_at;
        hits_since_last_reset = 0;
      })
      i

-- `Len`
unfoldable pub len : Index → ℕ
len i = length i

-- `Get`: the zero value where there is no entry.
unfoldable pub get : Index → String → IndexEntry
get i name = elim (lookup name i) [ none ↦ empty_entry | some e ↦ e ]

unfoldable pub remove : Index → String → Index
remove i name = Dict.remove name i

unfoldable pub hit_entry : IndexEntry → IndexEntry
hit_entry e = record e {
  hits = Int64.add e.hits 1;
  hits_since_last_reset = Int64.add e.hits_since_last_reset 1;
}

unfoldable pub hit : Index → String → Index
unfolding hit_entry
hit i name = elim (lookup name i) [ none ↦ i | some e ↦ insert name (hit_entry e) i ]

-- The loop of `DeepCopy`.
unfoldable pub copy_into : Index → Index → Index
copy_into to [] = to
copy_into to ((name, e) ∷ i) = copy_into (insert name e to) i

unfoldable pub deep_copy : Index → Index
unfolding copy_into
deep_copy i = copy_into [] i

module _ (fl : Floats) where
  open fl use {Float, of_int, trunc, lit, mul, div, is_nan}

  -- const PreservedHitsProportion = 0.5
  unfoldable pub preserved_hits_proportion : Float
  preserved_hits_proportion = lit 5 10

  unfoldable pub reset_entry : IndexEntry → IndexEntry
  reset_entry e =
      let old_hits = Int64.sub e.hits e.hits_since_last_reset in
      let preserved_hits = trunc (mul (of_int old_hits) preserved_hits_proportion) in
      record e {
        hits = Int64.add preserved_hits e.hits_since_last_reset;
        hits_since_last_reset = 0;
      }

  -- `Reset`: every entry in turn.
  unfoldable pub reset : Index → Index
  unfolding reset_entry
  reset [] = []
  reset ((name, e) ∷ i) = (name, reset_entry e) ∷ reset i

  -- `CalculatePriority`
  unfoldable pub calculate_priority : IndexEntry → ℕ → ℕ → ℕ → ℕ → Float
  calculate_priority entry min_hits max_hits oldest newest =
      let hits_ratio =
        div (of_int (Int64.sub entry.hits min_hits)) (of_int (Int64.sub max_hits min_hits)) in
      let hits_val = if is_nan hits_ratio then of_int 0 else hits_ratio in
      let date_ratio =
        div (of_int (Int64.sub entry.created_at oldest)) (of_int (Int64.sub newest oldest)) in
      let date_val = if is_nan date_ratio then of_int 0 else date_ratio in
      fl.add (mul hits_val (lit 6 10)) (mul date_val (lit 4 10))

-- `priorityList`
pub record PriorityList : Type 0 where
  pub min_hits : ℕ
  pub max_hits : ℕ
  pub oldest : ℕ
  pub newest : ℕ
  pub entries : List IndexEntry

abbrev pub no_entries : PriorityList
no_entries = record { min_hits = 0; max_hits = 0; oldest = 0; newest = 0; entries = [] }

-- One round of the loop of `PriorityList`.
unfoldable pub scan_entry : PriorityList → IndexEntry → PriorityList
scan_entry p e = record {
  min_hits = if nat_eq p.min_hits 0 || Int64.lt e.hits p.min_hits then e.hits else p.min_hits;
  max_hits = if Int64.lt p.max_hits e.hits then e.hits else p.max_hits;
  oldest = if nat_eq p.oldest 0 || ltb e.created_at p.oldest then e.created_at else p.oldest;
  newest = if ltb p.newest e.created_at then e.created_at else p.newest;
  entries = p.entries ++ e ∷ [];
}

unfoldable pub scan : PriorityList → Index → PriorityList
unfolding scan_entry
scan p [] = p
scan p ((name, e) ∷ i) = scan (scan_entry p e) i

module _ (fl : Floats) (so : Sorting) where
  -- `Less`
  unfoldable pub less : PriorityList → IndexEntry → IndexEntry → Bool
  less p a b =
      fl.lt (calculate_priority fl a p.min_hits p.max_hits p.oldest p.newest)
        (calculate_priority fl b p.min_hits p.max_hits p.oldest p.newest)

  unfoldable pub priority_list : Index → List IndexEntry
  unfolding scan less
  priority_list i = let p = scan no_entries i in so.sort IndexEntry (less p) p.entries
