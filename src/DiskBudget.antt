-- ===== src/DiskBudget.antt =====
-- shuffle_budget.go: the disk budget of a worker. A path is the list of its elements; whether the file
-- system's call succeeds is an argument, since its files are not modelled. A budget that is nil is not
-- modelled.
pub mod Bounded
use go_spark.Prelude.{
  ℕ, ◌+◌, ◌-◌, ◌^◌, ◌≡◌, ◌↔◌, refl, Bool, true, false, not, ◌&&◌, ◌||◌, Option, none, some, List,
  [], ◌∷◌, ◌++◌, arith, ltb, ◌==◌, if◌then◌else◌,
}
use go_spark.Prelude.Maps.{list_eq, lookup, delete, assign}

abbrev pub FilePath : Type 0
FilePath = List ℕ

-- The bytes that a caller asks for, an int64.
pub data Request : Type 0 where
  bytes : ℕ → Request
  negative : ℕ → Request

-- `limit` is 0 for none.
pub record DiskBudget : Type 0 where
  pub limit : ℕ
  pub used : ℕ
  pub files : List (FilePath × ℕ)

-- math.MaxInt64
abbrev pub max_int64 : ℕ
max_int64 = 2 ^ 63 - 1

-- b.files[path]
abbrev pub size_of : FilePath → List (FilePath × ℕ) → ℕ
size_of path m = elim (lookup path m) [ none ↦ 0 | some n ↦ n ]

-- The sum of the sizes that the walk of newDiskBudget adds up.
abbrev pub total : List (FilePath × ℕ) → ℕ
total [] = 0
total ((path, n) ∷ m) = n + total m

-- newDiskBudget, for the files that its walk finds; `limit` is 0 if the variable is not set.
abbrev pub new_disk_budget : ℕ → List (FilePath × ℕ) → DiskBudget
new_disk_budget limit files = record { limit = limit; used = total files; files = files }

-- `n < 0 || n > math.MaxInt64-b.used || (b.limit > 0 && n > b.limit-b.used)`
unfoldable pub exceeds : DiskBudget → Request → Bool
exceeds b (negative k) = true
exceeds b (bytes n) =
    ltb (max_int64 - b.used) n || ltb 0 b.limit && (ltb (b.limit - b.used) n || ltb b.limit b.used)

-- reserve; `none` is its error.
unfoldable pub reserve : FilePath → Request → DiskBudget → Option DiskBudget
unfolding exceeds assign
reserve path (negative k) b = none
reserve path (bytes n) b =
    if exceeds b (bytes n)
    then none
    else some
        (record b { files = assign path (size_of path b.files + n) b.files; used = b.used + n })

-- removeFile, where the file is removed, or was not there.
unfoldable pub remove_file : Bool → FilePath → DiskBudget → Option DiskBudget
unfolding delete
remove_file removed path b =
    if removed
    then some (record b { used = b.used - size_of path b.files; files = delete path b.files })
    else none

-- `strings.HasPrefix(path, filepath.Clean(dir)+"/")`, and strings.TrimPrefix.
abbrev pub below : FilePath → FilePath → Option FilePath
below [] [] = none
below [] (y ∷ q) = some (y ∷ q)
below (x ∷ p) [] = none
below (x ∷ p) (y ∷ q) = if x == y then below p q else none

-- The loop of removeDir, which deletes the entries that it visits.
unfoldable pub drop_below : FilePath → List (FilePath × ℕ) → ℕ → List (FilePath × ℕ) × ℕ
drop_below dir [] used = ([], used)
drop_below dir ((path, n) ∷ m) used =
    let kept = drop_below dir m used in
    let dropped = drop_below dir m (used - n) in
    elim (below dir path) [ some rest ↦ dropped | none ↦ ((path, n) ∷ kept.0, kept.1) ]

-- removeDir
unfoldable pub remove_dir : Bool → FilePath → DiskBudget → Option DiskBudget
unfolding drop_below
remove_dir removed dir b =
    let (files, used) = drop_below dir b.files b.used in
    if removed then some (record b { files = files; used = used }) else none

-- The loop of renameDir over the entries.
unfoldable pub move_below :
    FilePath → FilePath → List (FilePath × ℕ) → List (FilePath × ℕ) → List (FilePath × ℕ)
unfolding assign delete
move_below from to [] files = files
move_below from to ((path, n) ∷ m) files =
    let kept = move_below from to m files in
    elim (below from path) [
      | none ↦ kept
      | some rest ↦ move_below from to m (assign (to ++ rest) n (delete path files))
    ]

-- renameDir
unfoldable pub rename_dir : Bool → FilePath → FilePath → DiskBudget → Option DiskBudget
unfolding move_below
rename_dir renamed from to b =
    if renamed then some (record b { files = move_below from to b.files b.files }) else none

-- The calls of a budget.
pub data Call : Type 0 where
  reserve_call : FilePath → Request → Call
  remove_file_call : Bool → FilePath → Call
  remove_dir_call : Bool → FilePath → Call
  rename_dir_call : Bool → FilePath → FilePath → Call

unfoldable pub call : Call → DiskBudget → Option DiskBudget
unfolding reserve remove_file remove_dir rename_dir
call (reserve_call path r) b = reserve path r b
call (remove_file_call removed path) b = remove_file removed path b
call (remove_dir_call removed dir) b = remove_dir removed dir b
call (rename_dir_call renamed from to) b = rename_dir renamed from to b

-- A call that fails leaves the budget as it was.
unfoldable pub calls : List Call → DiskBudget → DiskBudget
unfolding call
calls [] b = b
calls (c ∷ cs) b = calls cs (elim (call c b) [ none ↦ b | some b' ↦ b' ])
