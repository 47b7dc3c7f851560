-- ===== src/DiskBudget/Bounded.antt =====
-- shuffle_budget.go: what a budget counts, against the files that it tracks and its limits.
use go_spark.Prelude.{
  ℕ, ◌+◌, ◌-◌, ◌<◌, ◌≤◌, ◌≡◌, ◌≢◌, ◌↔◌, ◌⊎◌, refl, subst, Bool, Bool-cases, inl, inr, true, false,
  Option, Option-cases, none, some, List, [], ◌∷◌, ◌++◌, arith, All,
}
use go_spark.Prelude.Maps.{
  list_eq, OneEntry, OneEntry-delete, OneEntry-assign, beq-absent, lookup, delete, assign,
  lookup-delete, lookup-assign,
}
use go_spark.DiskBudget.{
  FilePath, Request, bytes, negative, DiskBudget, max_int64, size_of, total, new_disk_budget,
  exceeds, reserve, remove_file, below, drop_below, remove_dir, move_below, rename_dir, Call,
  reserve_call, remove_file_call, remove_dir_call, rename_dir_call, call, calls,
}

abbrev Files : Type 0
Files = List (FilePath × ℕ)

delete-none : (path : FilePath) (m : Files) → lookup path m ≡ none → delete path m ≡ m
unfolding delete
delete-none path [] e = refl
delete-none path ((p, n) ∷ m) e = elim (Bool-cases (list_eq.beq p path)) [
  | inl hit ↦ absurd (ground (arith, hit, e))
  | inr miss ↦ let rest = delete-none path m (ground (arith, miss, e)) in rw (miss, rest)
]

total-delete :
    (path : FilePath) (m : Files) → OneEntry m → total (delete path m) + size_of path m ≡ total m
unfolding delete
total-delete path [] h = refl
total-delete path ((p, n) ∷ m) h = elim (Bool-cases (list_eq.beq p path)) [
  | inl hit ↦
      let same : p ≡ path = (list_eq.beq_iff p path).0 hit in
      let rest : delete path m ≡ m = delete-none path m (subst (λ q. lookup q m ≡ none) same h.0) in
      let size : size_of path ((p, n) ∷ m) ≡ n = ground (arith, hit) in
      rw (hit, rest) (omega (arith, size))
  | inr miss ↦
      let size : size_of path ((p, n) ∷ m) ≡ size_of path m = ground (arith, miss) in
      let kept : delete path ((p, n) ∷ m) ≡ (p, n) ∷ delete path m = rw miss refl in
      rw (kept, size) (omega (arith, total-delete path m h.1))
]

-- The tracked files take no more than what is counted as used, which an int64 holds and the limit allows.
pub record IsValid (b : DiskBudget) : Type 0 where
  pub entries : OneEntry b.files
  pub counted : total b.files ≤ b.used
  pub fits : b.used ≤ max_int64
  pub within : 0 < b.limit → b.used ≤ b.limit

-- A call that succeeds leaves a valid budget of the same limit.
abbrev pub Leaves : DiskBudget → Option DiskBudget → Type 0
Leaves b none = Unit
Leaves b (some b') = IsValid b' × (b'.limit ≡ b.limit)

reserve-IsValid :
    (path : FilePath) (r : Request) (b : DiskBudget) → IsValid b → Leaves b (reserve path r b)
unfolding reserve exceeds assign
reserve-IsValid path (negative k) b v = tt
reserve-IsValid path (bytes n) b v = elim (Bool-cases (exceeds b (bytes n))) [
  | inl over ↦ rw (over, reserve) tt
  | inr fits ↦
      rw (fits, reserve)
        (
          record {
            entries = OneEntry-assign path (size_of path b.files + n) b.files v.entries;
            counted = omega (arith, total-delete path b.files v.entries, v.counted);
            fits = ground (arith, fits, v.fits);
            within = λ some_limit. ground (arith, fits, some_limit);
          },
          refl,
        )
]

remove_file-IsValid :
    (removed : Bool) (path : FilePath) (b : DiskBudget)
    → IsValid b
    → Leaves b (remove_file removed path b)
unfolding remove_file
remove_file-IsValid false path b v = tt
remove_file-IsValid true path b v = (
  record {
    entries = OneEntry-delete path b.files v.entries;
    counted = omega (arith, total-delete path b.files v.entries, v.counted);
    fits = omega (arith, v.fits);
    within = λ some_limit. omega (arith, v.within some_limit);
  },
  refl,
)

-- What the loop of removeDir leaves.
record Dropped (m : Files) (used : ℕ) (r : Files × ℕ) : Type 0 where
  none_new : (path : FilePath) → lookup path m ≡ none → lookup path r.0 ≡ none
  entries : OneEntry r.0
  counted : total m ≤ used → total r.0 + (used - total m) ≤ r.1
  less : r.1 ≤ used

drop_below-Dropped :
    (dir : FilePath) (m : Files) (used : ℕ) → OneEntry m → Dropped m used (drop_below dir m used)
unfolding drop_below
drop_below-Dropped dir [] used h = record {
  none_new = λ path e. refl;
  entries = tt;
  counted = λ le. omega (arith, le);
  less = omega arith;
}
drop_below-Dropped dir ((path, n) ∷ m) used h = elim (Option-cases (below dir path)) [
  | inl outside ↦
      let d = drop_below-Dropped dir m used h.1 in
      rw (outside, drop_below)
        (record {
          none_new = λ p e. ground (arith, e, d.none_new p);
          entries = (d.none_new path h.0, d.entries);
          counted = λ le. omega (arith, le, d.counted);
          less = d.less;
        })
  | inr (rest, inside) ↦
      let d = drop_below-Dropped dir m (used - n) h.1 in
      rw (inside, drop_below)
        (record {
          none_new = λ p e. d.none_new p (ground (arith, e));
          entries = d.entries;
          counted = λ le. omega (arith, le, d.counted);
          less = omega (arith, d.less);
        })
]

remove_dir-IsValid :
    (removed : Bool) (dir : FilePath) (b : DiskBudget)
    → IsValid b
    → Leaves b (remove_dir removed dir b)
unfolding remove_dir
remove_dir-IsValid false dir b v = tt
remove_dir-IsValid true dir b v =
    let d = drop_below-Dropped dir b.files b.used v.entries in
    (
      record {
        entries = d.entries;
        counted = omega (arith, d.counted v.counted);
        fits = omega (arith, d.less, v.fits);
        within = λ some_limit. omega (arith, d.less, v.within some_limit);
      },
      refl,
    )

-- The entries that a rename has still to visit are as they were.
abbrev Unmoved : FilePath → Files → Files → Type 0
Unmoved from m files =
    (path : FilePath) (n : ℕ)
    → lookup path m ≡ some n
    → below from path ≢ none
    → lookup path files ≡ some n

-- The new place is not below the old one, which os.Rename refuses.
abbrev Apart : FilePath → FilePath → Type 0
Apart from to = (rest : FilePath) → below from (to ++ rest) ≡ none

abbrev Moved : Files → Files → Type 0
Moved files r = OneEntry r × (total r ≤ total files)

move_one-Moved :
    (path new : FilePath) (n : ℕ) (files : Files)
    → OneEntry files
    → lookup path files ≡ some n
    → Moved files (assign new n (delete path files))
unfolding assign
move_one-Moved path new n files h at =
    let size : size_of path files ≡ n = ground (arith, at) in
    (
      OneEntry-assign new n (delete path files) (OneEntry-delete path files h),
      omega (
        arith,
        size,
        total-delete path files h,
        total-delete new (delete path files) (OneEntry-delete path files h),
      ),
    )

Unmoved-outside :
    (from path : FilePath) (n : ℕ) (m files : Files)
    → lookup path m ≡ none
    → Unmoved from ((path, n) ∷ m) files
    → Unmoved from m files
Unmoved-outside from path n m files absent u p q at inside =
    u p q (ground (arith, beq-absent path p q m absent at, at)) inside

Unmoved-inside :
    (from path new : FilePath) (n : ℕ) (m files : Files)
    → lookup path m ≡ none
    → below from new ≡ none
    → Unmoved from m files
    → Unmoved from m (assign new n (delete path files))
Unmoved-inside from path new n m files absent outside u p q at inside =
    let kept = u p q at inside in
    elim (Bool-cases (list_eq.beq new p)) [
      | inl hit ↦
          let same : new ≡ p = (list_eq.beq_iff new p).0 hit in
          absurd (inside (subst (λ x. below from x ≡ none) same outside))
      | inr miss ↦ ground (
        arith,
        miss,
        kept,
        beq-absent path p q m absent at,
        lookup-assign p new n (delete path files),
        lookup-delete p path files,
      )
    ]

move_below-Moved :
    (from to : FilePath) (m files : Files)
    → Apart from to
    → OneEntry m
    → OneEntry files
    → Unmoved from m files
    → Moved files (move_below from to m files)
unfolding move_below
move_below-Moved from to [] files apart h k u = (k, omega arith)
move_below-Moved from to ((path, n) ∷ m) files apart h k u = elim (Option-cases (below from path)) [
  | inl outside ↦
      rw (outside, move_below)
        (move_below-Moved from to m files apart h.1 k (Unmoved-outside from path n m files h.0 u))
  | inr (rest, inside) ↦
      let one =
        move_one-Moved path (to ++ rest) n files k
          (u path n (ground (arith, list_eq.beq_iff path path)) (λ e. cc)) in
      let more =
        move_below-Moved from to m (assign (to ++ rest) n (delete path files)) apart h.1 one.0 (
          Unmoved-inside from path (to ++ rest) n m files h.0 (apart rest)
            (Unmoved-outside from path n m files h.0 u)) in
      rw (inside, move_below) (more.0, omega (arith, more.1, one.1))
]

rename_dir-IsValid :
    (renamed : Bool) (from to : FilePath) (b : DiskBudget)
    → (renamed ≡ true → Apart from to)
    → IsValid b
    → Leaves b (rename_dir renamed from to b)
unfolding rename_dir
rename_dir-IsValid false from to b apart v = tt
rename_dir-IsValid true from to b apart v =
    let moved =
      move_below-Moved from to b.files b.files (apart refl) v.entries v.entries
        (λ path n at inside. at) in
    (
      record {
        entries = moved.0;
        counted = omega (arith, moved.1, v.counted);
        fits = v.fits;
        within = v.within;
      },
      refl,
    )

-- What the file system promises of a call.
abbrev pub IsAllowed : Call → Type 0
IsAllowed (rename_dir_call renamed from to) = renamed ≡ true → Apart from to
IsAllowed (reserve_call path r) = Unit
IsAllowed (remove_file_call removed path) = Unit
IsAllowed (remove_dir_call removed dir) = Unit

call-IsValid : (c : Call) (b : DiskBudget) → IsAllowed c → IsValid b → Leaves b (call c b)
unfolding call
call-IsValid (reserve_call path r) b a v = reserve-IsValid path r b v
call-IsValid (remove_file_call removed path) b a v = remove_file-IsValid removed path b v
call-IsValid (remove_dir_call removed dir) b a v = remove_dir-IsValid removed dir b v
call-IsValid (rename_dir_call renamed from to) b a v = rename_dir-IsValid renamed from to b a v

left-IsValid :
    (b : DiskBudget) (o : Option DiskBudget)
    → IsValid b
    → Leaves b o
    → IsValid (elim o [ none ↦ b | some b' ↦ b' ])
left-IsValid b none v h = v
left-IsValid b (some b') v h = h.0

calls_from-IsValid :
    (cs : List Call) (b : DiskBudget) → All IsAllowed cs → IsValid b → IsValid (calls cs b)
unfolding calls
calls_from-IsValid [] b a v = v
calls_from-IsValid (c ∷ cs) b a v =
    calls_from-IsValid cs _ a.1 (left-IsValid b (call c b) v (call-IsValid c b a.0 v))

-- After any calls of a new disk budget, the tracked files take no more than what is counted as used,
-- which an int64 holds and the limit, if there is one, allows, if this is so for the files that are
-- found at first, no file is found twice, and no directory is renamed to a place below itself.
pub calls-IsValid :
    (cs : List Call) (limit : ℕ) (files : List (FilePath × ℕ))
    → OneEntry files
    → total files ≤ max_int64
    → (0 < limit → total files ≤ limit)
    → All IsAllowed cs
    → IsValid (calls cs (new_disk_budget limit files))
calls-IsValid cs limit files entries fits within allowed =
    calls_from-IsValid cs (new_disk_budget limit files) allowed
      (record { entries = entries; counted = omega arith; fits = fits; within = within })

-- A request that is negative, or beyond the integers or the limit.
abbrev pub IsTooMuch : Request → DiskBudget → Type 0
IsTooMuch (negative k) b = Unit
IsTooMuch (bytes n) b = (max_int64 < b.used + n) ⊎ ((0 < b.limit) × (b.limit < b.used + n))

-- A reservation from a valid budget fails exactly if it is negative, or the sum of what is used and
-- what is asked for does not fit an int64, or is beyond the limit that is set.
pub reserve-none_iff :
    (path : FilePath) (r : Request) (b : DiskBudget)
    → IsValid b
    → (reserve path r b ≡ none) ↔ IsTooMuch r b
unfolding reserve exceeds
reserve-none_iff path (negative k) b v = (λ e. tt, λ over. refl)
reserve-none_iff path (bytes n) b v =
    (λ e. ground (arith, v.fits, e), λ over. ground (arith, v.fits, v.within, over))
