-- ===== src/TextInput.antt =====
-- rdd_creators.go: the splits of a text file, and the lines that a partition reads from its split. A file is
-- the list of its bytes, which can be read; a fragment of a line that fills the buffer of bufio is joined
-- with the next.
pub mod Lines
pub mod Read
pub mod Splits
pub mod Whole
use go_spark.Prelude.{
  ℕ, zero, suc, ◌+◌, ◌-◌, ◌*◌, ◌/◌, Bool, true, false, not, ◌&&◌, Option, none, some, List, [], ◌∷◌,
  ◌++◌, ◌==◌, ltb, leb, if◌then◌else◌, length, get_elem?, drop,
}
use go_spark.Prelude.Results.{Result, ok, err, ◌>>=◌}

pub data TextError : Type 0 where
  read_failed line_too_long out_of_fuel : TextError

-- A textSpan of the file.
pub record TextSpan : Type 0 where
  pub offset : ℕ
  pub length : ℕ

abbrev pub newline : ℕ
newline = 10

abbrev pub carriage_return : ℕ
carriage_return = 13

-- The partitions from `i` on, with `c` of them left, of which the last one takes the rest.
unfoldable pub spans_from : ℕ → ℕ → ℕ → ℕ → List TextSpan
spans_from file_size chunk_size zero i = []
spans_from file_size chunk_size (suc c) i =
    record {
      offset = i * chunk_size;
      length = if c == 0 then file_size - i * chunk_size else chunk_size;
    }
    ∷ spans_from file_size chunk_size c (i + 1)

-- splitTextFile
unfoldable pub split_text_file : ℕ → ℕ → List TextSpan
unfolding spans_from
split_text_file file_size num_partitions =
    let n = if num_partitions == 0 then 1 else num_partitions in
    if file_size == 0
    then record { offset = 0; length = 0 } ∷ []
    else if file_size / n == 0
    then spans_from file_size file_size 1 0
    else spans_from file_size (file_size / n) n 0

-- The bytes up to the newline, whether there is one, and the bytes after it.
unfoldable pub read_slice : List ℕ → List ℕ × (Bool × List ℕ)
read_slice [] = ([], (false, []))
read_slice (b ∷ bs) =
    let rest = read_slice bs in if b == newline then (b ∷ [], (true, bs)) else (b ∷ rest.0, rest.1)

-- strings.TrimSuffix of one character.
unfoldable pub trim_suffix : ℕ → List ℕ → List ℕ
trim_suffix c [] = []
trim_suffix c (b ∷ []) = if b == c then [] else b ∷ []
trim_suffix c (b ∷ b' ∷ bs) = b ∷ trim_suffix c (b' ∷ bs)

-- The variables of the iterator; `rest` is what the reader has left.
pub record TextState : Type 0 where
  pub pos : ℕ
  pub rest : List ℕ
  pub done : Bool

abbrev pub empty_text : TextState
empty_text = record { pos = 0; rest = []; done = true }

-- The loop that skips the rest of a line that starts before the split.
abbrev pub skip_line : ℕ → List ℕ → TextState
skip_line offset rest =
    let slice = read_slice rest in
    if slice.1.0
    then record { pos = offset + length slice.0; rest = slice.1.1; done = false }
    else empty_text

-- newTextFileIteratorFS
unfoldable pub open_text : List ℕ → TextSpan → Result TextError TextState
unfolding read_slice
open_text bytes span =
    let at_start : TextState = record {
      pos = span.offset;
      rest = drop span.offset bytes;
      done = false;
    } in
    if span.length == 0
    then ok empty_text
    else if span.offset == 0
    then ok at_start
    else elim (get_elem? bytes (span.offset - 1)) [
      | none ↦ err read_failed
      | some prev ↦
          if prev == newline
          then ok at_start
          else ok (skip_line span.offset (drop span.offset bytes))
    ]

module _ (limit end : ℕ) where
  -- The iterator that it returns.
  unfoldable pub text_next : TextState → Result TextError (Option (List ℕ) × TextState)
  unfolding read_slice trim_suffix
  text_next s =
      let slice = read_slice s.rest in
      if s.done
      then ok (none, s)
      else if leb end s.pos
      then ok (none, record s { done = true })
      else if ltb limit (length slice.0)
      then err line_too_long
      else if length slice.0 == 0
      then ok (none, record s { done = true })
      else ok (
        some (trim_suffix carriage_return (trim_suffix newline slice.0)),
        record { pos = s.pos + length slice.0; rest = slice.1.1; done = not slice.1.0 },
      )

  -- The lines that it yields; a call takes a unit of fuel.
  unfoldable pub read_text : ℕ → TextState → Result TextError (List (List ℕ))
  unfolding text_next
  read_text zero s = err out_of_fuel
  read_text (suc fuel) s = text_next s >>= λ r. elim r.0 [
    | none ↦ ok []
    | some line ↦ read_text fuel r.1 >>= λ lines. ok (line ∷ lines)
  ]

-- The partition of a split.
unfoldable pub read_split : ℕ → List ℕ → TextSpan → Result TextError (List (List ℕ))
unfolding open_text read_text
read_split limit bytes span =
    open_text bytes span >>= λ s. read_text limit (span.offset + span.length) (length bytes + 2) s

-- Collect of a text file: its partitions, one after the other.
unfoldable pub read_splits : ℕ → List ℕ → List TextSpan → Result TextError (List (List ℕ))
unfolding read_split
read_splits limit bytes [] = ok []
read_splits limit bytes (span ∷ spans) = read_split limit bytes span >>= λ lines.
    read_splits limit bytes spans >>= λ more. ok (lines ++ more)
