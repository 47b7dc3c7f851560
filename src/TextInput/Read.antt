-- ===== src/TextInput/Read.antt =====
-- rdd_creators.go: the iterator of a split from the beginning of a line on.
use go_spark.Prelude.{
  ℕ, zero, suc, ◌+◌, ◌<◌, ◌≡◌, refl, ap, ◌∙◌, Bool, Bool-cases, inl, inr, true, false, not, List,
  [], ◌∷◌, ◌++◌, append-nil, arith, ◌==◌, ltb, leb, if◌then◌else◌, flatten, length, length-append,
}
use go_spark.Prelude.Results.{ok, err, ◌>>=◌}
use go_spark.TextInput.{
  TextState, line_too_long, newline, carriage_return, read_slice, trim_suffix, read_text,
}
use go_spark.TextInput.Lines.{Line, raw, IsBody, IsLines, bytes_of, records_of_lines}

-- The lines that start before `end`, of those from the position `p` on.
abbrev pub until : ℕ → ℕ → List Line → List Line
until end p [] = []
until end p (l ∷ ls) =
    let rest = l ∷ until end (p + length (raw l)) ls in if leb end p then [] else rest

pub read_slice-ended :
    (body rest : List ℕ)
    → IsBody body
    → read_slice ((body ++ newline ∷ []) ++ rest) ≡ (body ++ newline ∷ [], (true, rest))
unfolding read_slice
read_slice-ended [] rest h = refl
read_slice-ended (b ∷ body) rest h = ground (arith, h.0, read_slice-ended body rest h.1)

pub read_slice-open : (body : List ℕ) → IsBody body → read_slice body ≡ (body, (false, []))
unfolding read_slice
read_slice-open [] h = refl
read_slice-open (b ∷ body) h = ground (arith, h.0, read_slice-open body h.1)

trim-ended : (body : List ℕ) → trim_suffix newline (body ++ newline ∷ []) ≡ body
unfolding trim_suffix
trim-ended [] = refl
trim-ended (b ∷ []) = refl
trim-ended (b ∷ b' ∷ body) = ap (◌∷◌ b) (trim-ended (b' ∷ body))

trim-open : (body : List ℕ) → IsBody body → trim_suffix newline body ≡ body
unfolding trim_suffix
trim-open [] h = refl
trim-open (b ∷ []) h = ground (arith, h.0)
trim-open (b ∷ b' ∷ body) h = ap (◌∷◌ b) (trim-open (b' ∷ body) h.1)

abbrev pub at : ℕ → List ℕ → TextState
at p rest = record { pos = p; rest = rest; done = false }

module _ (limit end : ℕ) where
  read_text-past :
      (fuel p : ℕ) (rest : List ℕ)
      → leb end p ≡ true
      → read_text limit end (suc fuel) (at p rest) ≡ ok []
  unfolding read_text
  read_text-past fuel p rest past = ground (arith, past)

  read_text-empty : (fuel p : ℕ) → read_text limit end (suc fuel) (at p []) ≡ ok []
  unfolding read_text read_slice
  read_text-empty fuel p = ground arith

  pub read_text-done :
      (fuel p : ℕ) (rest : List ℕ)
      → read_text limit end (suc fuel) (record { pos = p; rest = rest; done = true }) ≡ ok []
  unfolding read_text
  read_text-done fuel p rest = refl

  read_text-line :
      (fuel p : ℕ) (rest line left : List ℕ) (ended : Bool)
      → leb end p ≡ false
      → read_slice rest ≡ (line, (ended, left))
      → 0 < length line
      → read_text limit end (suc fuel) (at p rest) ≡ (
          let later =
            read_text limit end fuel
              (record { pos = p + length line; rest = left; done = not ended })
            >>= λ lines. ok (trim_suffix carriage_return (trim_suffix newline line) ∷ lines) in
          if ltb limit (length line) then err line_too_long else later)
  unfolding read_text
  read_text-line fuel p rest line left ended before slice some_bytes =
      let some_line : (length line == 0) ≡ false = ground (arith, some_bytes) in
      elim (Bool-cases (ltb limit (length line))) [
        | inl long ↦ rw (before, slice, long) refl
        | inr short ↦ rw (before, slice, short, some_line) refl
      ]

  -- From the beginning of a line, the lines that start before the end of the split are read.
  pub read_text-until :
      (fuel p : ℕ) (ls : List Line)
      → IsLines ls
      → length ls < fuel
      → read_text limit end fuel (at p (bytes_of ls)) ≡ records_of_lines limit (until end p ls)
  unfolding flatten
  read_text-until zero p ls h enough = elim enough [ ]
  read_text-until (suc fuel) p [] h enough = read_text-empty fuel p
  read_text-until (suc fuel) p ((body, true) ∷ ls) h enough = elim (Bool-cases (leb end p)) [
    | inl past ↦ rw past (read_text-past fuel p _ past)
    | inr before ↦
        let line = body ++ newline ∷ [] in
        let some_bytes : 0 < length line = omega (arith, length-append body (newline ∷ [])) in
        rw before (
          read_text-line fuel p _ line (bytes_of ls) true before
            (read_slice-ended body (bytes_of ls) h.0) some_bytes
          ∙ rw (read_text-until fuel (p + length line) ls h.1 (omega (arith, enough)))
              (rw (trim-ended body) refl))
  ]
  read_text-until (suc zero) p ((body, false) ∷ []) h enough = absurd (omega (arith, enough))
  read_text-until (suc (suc fuel)) p ((body, false) ∷ []) h enough = elim (Bool-cases (leb end p)) [
    | inl past ↦ rw past (read_text-past (suc fuel) p _ past)
    | inr before ↦ rw before (
        read_text-line (suc fuel) p _ body [] false before
          (rw (append-nil body) (read_slice-open body h.0)) h.1
        ∙ rw (read_text-done fuel (p + length body) []) (rw (trim-open body h.0) refl))
  ]
  read_text-until (suc fuel) p ((body, false) ∷ l ∷ ls) h enough = elim h [ ]
