-- ===== src/Cache/Index/Priority.antt =====
-- The copy of the index that the collection works on, and the list of the entries by priority.
use mathlib.Core.List.{append-nil, append_assoc, Perm}
use component_cli.Prelude.{
  ℕ, ◌≤◌, ◌<◌, ◌^◌, String, ◌≡◌, refl, sym, ◌∙◌, false, none, List, [], ◌∷◌, ◌++◌, eq_iff, All,
  arith,
}
use component_cli.Prelude.Dict.{Distinct, lookup, insert}
use component_cli.Prelude.Int64
use component_cli.Cache.Platform.{Floats, Sorting, IsStrictWeak, IsSorted}
use component_cli.Cache.Index.{
  Index, IndexEntry, copy_into, deep_copy, PriorityList, no_entries, scan_entry, scan, less,
  priority_list,
}

insert_missing :
    (k : String) (e : IndexEntry) (i : Index) → lookup k i ≡ none → insert k e i ≡ i ++ (k, e) ∷ []
unfolding lookup insert
insert_missing k e [] h = refl
insert_missing k e ((j, f) ∷ i) h = ground (arith, insert_missing k e i)

lookup-append_missing :
    (k : String) (i j : Index) → lookup k i ≡ none → lookup k j ≡ none → lookup k (i ++ j) ≡ none
unfolding lookup
lookup-append_missing k [] j h g = g
lookup-append_missing k ((n, e) ∷ i) j h g = ground (arith, lookup-append_missing k i j)

-- No name of the second index is in the first.
abbrev Apart : Index → Index → Type 0
Apart to i = All (λ e. lookup e.0 to ≡ none) i

Apart-grow :
    (to i : Index) (n : String) (e : IndexEntry)
    → lookup n i ≡ none
    → Apart to i
    → Apart (to ++ (n, e) ∷ []) i
Apart-grow to [] n e h a = tt
Apart-grow to ((m, f) ∷ i) n e h a = (
  lookup-append_missing m to ((n, e) ∷ []) a.0
      (unfold lookup in ground (arith, eq_iff m n, eq_iff n m)),
  Apart-grow to i n e (unfold lookup in ground (arith, eq_iff m n)) a.1,
)

copy_into-append : (to i : Index) → Distinct i → Apart to i → copy_into to i ≡ to ++ i
unfolding copy_into
copy_into-append to [] d a = sym (append-nil to)
copy_into-append to ((n, e) ∷ i) d a = rw (insert_missing n e to a.0) (
    copy_into-append (to ++ (n, e) ∷ []) i d.1 (Apart-grow to i n e d.0 a.1)
    ∙ append_assoc to ((n, e) ∷ []) i)

Apart-nil : (i : Index) → Apart [] i
unfolding lookup
Apart-nil [] = tt
Apart-nil (e ∷ i) = (refl, Apart-nil i)

-- The copy is the index.
pub deep_copy-eq : (i : Index) → Distinct i → deep_copy i ≡ i
unfolding deep_copy
deep_copy-eq i d = copy_into-append [] i d (Apart-nil i)

abbrev pub values : Index → List IndexEntry
values [] = []
values ((n, e) ∷ i) = e ∷ values i

entries-scan : (p : PriorityList) (i : Index) → (scan p i).entries ≡ p.entries ++ values i
unfolding scan
entries-scan p [] = sym (append-nil p.entries)
entries-scan p ((n, e) ∷ i) =
    entries-scan (scan_entry p e) i ∙ append_assoc p.entries (e ∷ []) (values i)

scan-keeps :
    (h t : ℕ) (p : PriorityList) (i : Index)
    → Int64.lt p.max_hits h ≡ false
    → t ≤ p.newest
    → (Int64.lt (scan p i).max_hits h ≡ false) × (t ≤ (scan p i).newest)
unfolding scan
scan-keeps h t p [] above after = (above, after)
scan-keeps h t p ((n, e) ∷ i) above after =
    scan-keeps h t (scan_entry p e) i (ground arith) (ground arith)

scan_bounds_from :
    (p : PriorityList) (i : Index)
    → All
        (λ e. (Int64.lt (scan p i).max_hits e.hits ≡ false) × (e.created_at ≤ (scan p i).newest))
        (values i)
unfolding scan
scan_bounds_from p [] = tt
scan_bounds_from p ((n, e) ∷ i) = (
  scan-keeps e.hits e.created_at (scan_entry p e) i (ground arith) (ground arith),
  scan_bounds_from (scan_entry p e) i,
)

-- No entry has more hits than the maximum that the scan finds, and none is newer than the newest.
scan_bounds :
    (i : Index)
    → All
        (λ e.
          (Int64.lt (scan no_entries i).max_hits e.hits ≡ false)
          × (e.created_at ≤ (scan no_entries i).newest))
        (values i)
scan_bounds i = scan_bounds_from no_entries i

-- The minimum that the scan finds depends on the order: of an entry without hits and one with hits, it
-- is the lesser only where the entry with hits comes first.
pub min_hits_by_order :
    (a b : String) (e f : IndexEntry)
    → e.hits ≡ 0
    → 0 < f.hits
    → f.hits < 2 ^ 63
    → ((scan no_entries ((a, e) ∷ (b, f) ∷ [])).min_hits ≡ f.hits)
      × ((scan no_entries ((b, f) ∷ (a, e) ∷ [])).min_hits ≡ 0)
unfolding scan
min_hits_by_order a b e f none_of_e some_of_f positive = (ground arith, ground arith)

module _ (fl : Floats) (so : Sorting) where
  -- The priority list has every entry of the index once, and nothing else.
  pub priority_list-perm : (i : Index) → Perm (priority_list fl so i) (values i)
  unfolding priority_list
  priority_list-perm i =
      rw (← entries-scan no_entries i)
        (so.sort-perm IndexEntry (less fl so (scan no_entries i)) (scan no_entries i).entries)

  pub priority_list-IsSorted :
      (i : Index)
      → IsStrictWeak (less fl so (scan no_entries i))
      → IsSorted (less fl so (scan no_entries i)) (priority_list fl so i)
  unfolding priority_list
  priority_list-IsSorted i weak = so.sort-IsSorted IndexEntry _ _ weak
