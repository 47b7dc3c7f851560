-- ===== src/TextInput/Whole.antt =====
-- rdd_creators.go: the splits of a file together.
use native.Mathlib.Nat.{mul-div-le}
use go_spark.Prelude.{
  ℕ, zero, suc, ◌+◌, ◌-◌, ◌*◌, ◌/◌, ◌<◌, ◌≤◌, ◌≡◌, refl, sym, ap, subst, ◌∙◌, Bool-cases, inl, inr,
  true, false, List, [], ◌∷◌, ◌++◌, arith, ◌==◌, leb, if◌then◌else◌, flatten, length, length-append,
  get_elem?, drop,
}
use go_spark.Prelude.Results.{Result, ok, ◌>>=◌}
use go_spark.TextInput.{
  TextError, empty_text, open_text, text_next, read_text, read_split, read_splits, spans_from,
  split_text_file,
}
use go_spark.TextInput.Lines.{
  both, both_empty, records_of_lines, records_of_lines-append, Line, raw, IsLines, lines_of,
  text_lines, bytes_of, lines_of-IsLines, bytes_of-lines_of,
}
use go_spark.TextInput.Read.{until, at, read_text-until, read_text-done}
use go_spark.TextInput.Splits.{
  after, after_here, until-after, after-after, opened, opened_at, opened-OpensAt,
}

module _ (a : ℕ) where
  after-IsLines : (p : ℕ) (ls : List Line) → IsLines ls → IsLines (after a p ls).1
  after-IsLines p [] h = tt
  after-IsLines p ((body, true) ∷ ls) h = elim (Bool-cases (leb a p)) [
    | inl past ↦ rw past h
    | inr before ↦ rw before (after-IsLines (p + length (raw (body, true))) ls h.1)
  ]
  after-IsLines p ((body, false) ∷ []) h = elim (Bool-cases (leb a p)) [
    | inl past ↦ rw past h
    | inr before ↦ rw before tt
  ]
  after-IsLines p ((body, false) ∷ l ∷ ls) h = elim h [ ]

  length-after : (p : ℕ) (ls : List Line) → length (after a p ls).1 ≤ length ls
  length-after p [] = omega arith
  length-after p (l ∷ ls) = elim (Bool-cases (leb a p)) [
    | inl past ↦ rw past (omega arith)
    | inr before ↦ rw before (omega (arith, length-after (p + length (raw l)) ls))
  ]

-- Every line has a byte.
length-lines : (ls : List Line) → IsLines ls → length ls ≤ length (bytes_of ls)
unfolding flatten
length-lines [] h = omega arith
length-lines ((body, true) ∷ ls) h = omega (
  arith,
  length-lines ls h.1,
  length-append (body ++ 10 ∷ []) (bytes_of ls),
  length-append body (10 ∷ []),
)
length-lines ((body, false) ∷ []) h = omega (arith, h.1, length-append body [])
length-lines ((body, false) ∷ l ∷ ls) h = elim h [ ]

-- The end of the file cuts nothing off.
until_all :
    (end p : ℕ) (ls : List Line) → IsLines ls → p + length (bytes_of ls) ≡ end → until end p ls ≡ ls
unfolding flatten
until_all end p [] h e = refl
until_all end p ((body, true) ∷ ls) h e =
    let long = length-append (body ++ 10 ∷ []) (bytes_of ls) in
    let line = length-append body (10 ∷ []) in
    let before : leb end p ≡ false = ground (arith, e, long, line) in
    rw before (
      ap (◌∷◌ (body, true))
        (until_all end (p + length (body ++ 10 ∷ [])) ls h.1 (omega (arith, e, long))))
until_all end p ((body, false) ∷ []) h e =
    let before : leb end p ≡ false = ground (arith, e, h.1, length-append body []) in rw before refl
until_all end p ((body, false) ∷ l ∷ ls) h e = elim h [ ]

open_text-middle :
    (bytes : List ℕ) (m n : ℕ)
    → 0 < n
    → open_text bytes (record { offset = suc m; length = n }) ≡ opened_at (suc m) bytes m
unfolding open_text
open_text-middle bytes m n some_bytes =
    let some_line : (n == 0) ≡ false = ground (arith, some_bytes) in
    let middle : (suc m == 0) ≡ false = ground arith in
    rw (some_line, middle)
      (ap (λ k. opened (suc m) (get_elem? bytes k) (drop (suc m) bytes)) (omega arith))

nothing_read : (limit end fuel : ℕ) → 0 < fuel → read_text limit end fuel empty_text ≡ ok []
nothing_read limit end zero some_fuel = absurd (omega (arith, some_fuel))
nothing_read limit end (suc fuel) some_fuel = read_text-done limit end fuel 0 []

-- What a split reads of the lines from a place on.
abbrev started_in : ℕ → ℕ → ℕ × List Line → Result TextError (List (List ℕ))
started_in limit end l = records_of_lines limit (until end l.0 l.1)

module _ (limit : ℕ) (ls : List Line) (h : IsLines ls) where
  from_here :
      (a end : ℕ)
      → read_text limit end
          (length (bytes_of ls) + 2)
          (at (after a 0 ls).0 (bytes_of (after a 0 ls).1))
        ≡ started_in limit end (after a 0 ls)
  from_here a end =
      read_text-until limit end (length (bytes_of ls) + 2) (after a 0 ls).0 (after a 0 ls).1
        (after-IsLines a 0 ls h) (omega (arith, length-after a 0 ls, length-lines ls h))

  -- From the place that a split opens, the lines that start in it are read.
  read_split-until :
      (a n : ℕ)
      → 0 < n
      → a < length (bytes_of ls)
      → read_split limit (bytes_of ls) (record { offset = a; length = n })
        ≡ started_in limit (a + n) (after a 0 ls)
  unfolding read_split open_text
  read_split-until zero n some_bytes inside =
      let some_line : (n == 0) ≡ false = ground (arith, some_bytes) in
      rw some_line (
        subst
          (λ l.
            read_text limit (0 + n) (length (bytes_of ls) + 2) (at l.0 (bytes_of l.1))
            ≡ started_in limit (0 + n) (after 0 0 ls))
          (after_here 0 0 ls (omega arith)) (from_here 0 (0 + n)))
  read_split-until (suc m) n some_bytes inside =
      let read = read_text limit (suc m + n) (length (bytes_of ls) + 2) in
      let lines = after (suc m) 0 ls in
      ap (λ r. r >>= read) (open_text-middle (bytes_of ls) m n some_bytes)
      ∙ elim (opened-OpensAt ls 0 m (suc m) h (omega arith) (omega (arith, inside))) [
        | inl opens ↦ ap (λ r. r >>= read) opens ∙ from_here (suc m) (suc m + n)
        | inr (opens, none_left) ↦
            ap (λ r. r >>= read) opens
            ∙ nothing_read limit (suc m + n) (length (bytes_of ls) + 2) (omega arith)
            ∙ sym (ap (λ l. started_in limit (suc m + n) (lines.0, l)) none_left)
      ]

  -- A split and the splits after it.
  meet :
      (a b size : ℕ)
      → a ≤ b
      → b ≤ size
      → both (started_in limit b (after a 0 ls)) (started_in limit size (after b 0 ls))
        ≡ started_in limit size (after a 0 ls)
  meet a b size a_le_b b_le_size =
      let (p, rest) = after a 0 ls in
      ap (λ l. both (started_in limit b (p, rest)) (started_in limit size l))
        (sym (after-after a b 0 ls a_le_b))
      ∙ records_of_lines-append limit (until b p rest)
          (until size (after b p rest).0 (after b p rest).1)
      ∙ ap (records_of_lines limit) (until-after b size p rest b_le_size)

  -- The spans from `i` on, of `suc c` of them.
  read_splits-until :
      (size chunk c i : ℕ)
      → size ≡ length (bytes_of ls)
      → 0 < chunk
      → i * chunk + suc c * chunk ≤ size
      → read_splits limit (bytes_of ls) (spans_from size chunk (suc c) i)
        ≡ started_in limit size (after (i * chunk) 0 ls)
  unfolding read_splits spans_from
  read_splits-until size chunk zero i e pos room =
      let a = i * chunk in
      ap (λ r. both r (ok []))
        (read_split-until a (size - a) (omega (arith, pos, room)) (omega (arith, pos, room, e)))
      ∙ both_empty (started_in limit (a + (size - a)) (after a 0 ls))
      ∙ ap (λ end. started_in limit end (after a 0 ls)) (omega (arith, room))
  read_splits-until size chunk (suc c) i e pos room =
      let a = i * chunk in
      let some_left : (suc c == 0) ≡ false = ground arith in
      let next : (i + 1) * chunk ≡ a + chunk = omega arith in
      rw some_left (
        ap (λ r. both r (read_splits limit (bytes_of ls) (spans_from size chunk (suc c) (i + 1))))
          (read_split-until a chunk pos (omega (arith, pos, room, e)))
        ∙ ap (both (started_in limit (a + chunk) (after a 0 ls)))
            (read_splits-until size chunk c (i + 1) e pos (omega (arith, room)))
        ∙ ap
            (λ b.
              both (started_in limit (a + chunk) (after a 0 ls))
                (started_in limit size (after b 0 ls)))
            next
        ∙ meet a (a + chunk) size (omega arith) (omega (arith, room)))

  read_splits-all :
      (size chunk c : ℕ)
      → size ≡ length (bytes_of ls)
      → 0 < chunk
      → suc c * chunk ≤ size
      → read_splits limit (bytes_of ls) (spans_from size chunk (suc c) 0)
        ≡ records_of_lines limit ls
  read_splits-all size chunk c e pos room =
      read_splits-until size chunk c 0 e pos (omega (arith, room))
      ∙ ap (started_in limit size) (after_here (0 * chunk) 0 ls (omega arith))
      ∙ ap (records_of_lines limit) (until_all size 0 ls h (omega (arith, e)))

-- The number of partitions is not zero.
some_partitions : (n : ℕ) → (c : ℕ) × ((if n == 0 then 1 else n) ≡ suc c)
some_partitions zero = (0, refl)
some_partitions (suc c) = let some : (suc c == 0) ≡ false = ground arith in (c, rw some refl)

-- The splits of a file that is not empty.
read_splits-lines :
    (limit n size : ℕ) (ls : List Line)
    → IsLines ls
    → size ≡ length (bytes_of ls)
    → 0 < size
    → read_splits limit (bytes_of ls) (split_text_file size n) ≡ records_of_lines limit ls
unfolding split_text_file
read_splits-lines limit n size ls h e some_bytes =
    let (c, is) = some_partitions n in
    let not_empty : (size == 0) ≡ false = ground (arith, some_bytes) in
    rw (is, not_empty)
      (elim (Bool-cases (size / suc c == 0)) [
        | inl small ↦ rw small (read_splits-all limit ls h size size 0 e some_bytes (omega arith))
        | inr chunks ↦ rw chunks (
            read_splits-all limit ls h size (size / suc c) c e (ground (arith, chunks))
              (mul-div-le size (suc c)))
      ])

-- The splits of a text file that can be read, read one after the other, give each of its lines once,
-- in order, without its newline and a carriage return before that or at its end, into however many
-- splits the file is cut; they fail at a line that, with its newline, is longer than a record may
-- be.
pub read_splits-text_lines :
    (limit n : ℕ) (bytes : List ℕ)
    → read_splits limit bytes (split_text_file (length bytes) n) ≡ text_lines limit bytes
unfolding split_text_file read_splits read_split open_text read_text text_next
read_splits-text_lines limit n [] = refl
read_splits-text_lines limit n (b ∷ bs) =
    let bytes = b ∷ bs in
    let whole = bytes_of-lines_of bytes in
    subst (λ bs. read_splits limit bs (split_text_file (length bytes) n) ≡ text_lines limit bytes)
      whole
      (read_splits-lines limit n (length bytes) (lines_of bytes) (lines_of-IsLines bytes)
        (ap length (sym whole)) (omega arith))
