-- ===== src/TextInput/Lines.antt =====
-- The lines of a text, apart from how they are read.
use go_spark.Prelude.{
  ℕ, ◌<◌, ◌≡◌, refl, sym, ap, ◌∙◌, Bool, Bool-cases, inl, inr, true, false, List, [], ◌∷◌, ◌++◌,
  append_assoc, append-nil, arith, ltb, ◌==◌, if◌then◌else◌, map, flatten, length, All,
}
use go_spark.Prelude.Results.{Result, ok, err, ◌>>=◌}
use go_spark.TextInput.{TextError, line_too_long, newline, carriage_return, trim_suffix}

-- A line without its newline, and whether it has one.
abbrev pub Line : Type 0
Line = List ℕ × Bool

abbrev pub raw : Line → List ℕ
raw (body, true) = body ++ newline ∷ []
raw (body, false) = body

-- From the beginning of a line, and the bytes after it.
abbrev lines_from : List ℕ → List ℕ → List Line
lines_from [] [] = []
lines_from (c ∷ cs) [] = (c ∷ cs, false) ∷ []
lines_from cs (b ∷ bs) =
    let ends = (cs, true) ∷ lines_from [] bs in
    let goes_on = lines_from (cs ++ b ∷ []) bs in if b == newline then ends else goes_on

abbrev pub lines_of : List ℕ → List Line
lines_of bytes = lines_from [] bytes

-- The lines as an RDD has them, without newlines and carriage returns at their ends. A line that is longer
-- than a record may be is an error.
abbrev pub records_of_lines : ℕ → List Line → Result TextError (List (List ℕ))
records_of_lines limit [] = ok []
records_of_lines limit (l ∷ ls) =
    let rest =
      records_of_lines limit ls >>= λ lines. ok (trim_suffix carriage_return l.0 ∷ lines) in
    if ltb limit (length (raw l)) then err line_too_long else rest

abbrev pub text_lines : ℕ → List ℕ → Result TextError (List (List ℕ))
text_lines limit bytes = records_of_lines limit (lines_of bytes)

-- Two parts, one after the other.
abbrev pub both :
    Result TextError (List (List ℕ))
    → Result TextError (List (List ℕ))
    → Result TextError (List (List ℕ))
both r s = r >>= λ xs. s >>= λ ys. ok (xs ++ ys)

both-empty : (r : Result TextError (List (List ℕ))) → both (ok []) r ≡ r
both-empty (ok xs) = refl
both-empty (err e) = refl

pub both_empty : (r : Result TextError (List (List ℕ))) → both r (ok []) ≡ r
both_empty (ok xs) = ap ok (append-nil xs)
both_empty (err e) = refl

both-cons :
    (r s : Result TextError (List (List ℕ))) (x : List ℕ)
    → both (r >>= λ l. ok (x ∷ l)) s ≡ (both r s >>= λ l. ok (x ∷ l))
both-cons (ok xs) (ok ys) x = refl
both-cons (ok xs) (err e) x = refl
both-cons (err e) s x = refl

pub records_of_lines-append :
    (limit : ℕ) (ls ms : List Line)
    → both (records_of_lines limit ls) (records_of_lines limit ms)
      ≡ records_of_lines limit (ls ++ ms)
records_of_lines-append limit [] ms = both-empty (records_of_lines limit ms)
records_of_lines-append limit (l ∷ ls) ms = elim (Bool-cases (ltb limit (length (raw l)))) [
  | inl long ↦ rw long refl
  | inr short ↦ rw short (
      both-cons (records_of_lines limit ls) (records_of_lines limit ms)
        (trim_suffix carriage_return l.0)
      ∙ ap (λ r. r >>= λ lines. ok (trim_suffix carriage_return l.0 ∷ lines))
          (records_of_lines-append limit ls ms))
]

-- No newline in the body.
abbrev pub IsBody : List ℕ → Type 0
IsBody body = All (λ b. (b == newline) ≡ false) body

-- Only the last line may end without a newline, and it is not empty then.
abbrev pub IsLines : List Line → Type 0
IsLines [] = Unit
IsLines ((body, true) ∷ ls) = IsBody body × IsLines ls
IsLines ((body, false) ∷ []) = IsBody body × (0 < length body)
IsLines ((body, false) ∷ l ∷ ls) = ⊥

abbrev pub bytes_of : List Line → List ℕ
bytes_of ls = flatten (map raw ls)

IsBody-snoc : (cs : List ℕ) (b : ℕ) → IsBody cs → (b == newline) ≡ false → IsBody (cs ++ b ∷ [])
IsBody-snoc [] b h e = (e, tt)
IsBody-snoc (c ∷ cs) b h e = (h.0, IsBody-snoc cs b h.1 e)

lines_from-IsLines : (cs bs : List ℕ) → IsBody cs → IsLines (lines_from cs bs)
lines_from-IsLines [] [] h = tt
lines_from-IsLines (c ∷ cs) [] h = (h, omega arith)
lines_from-IsLines cs (b ∷ bs) h = elim (Bool-cases (b == newline)) [
  | inl ends ↦ rw ends (h, lines_from-IsLines [] bs tt)
  | inr goes_on ↦ rw goes_on (lines_from-IsLines (cs ++ b ∷ []) bs (IsBody-snoc cs b h goes_on))
]

pub lines_of-IsLines : (bytes : List ℕ) → IsLines (lines_of bytes)
lines_of-IsLines bytes = lines_from-IsLines [] bytes tt

bytes_of-lines_from : (cs bs : List ℕ) → bytes_of (lines_from cs bs) ≡ cs ++ bs
unfolding flatten
bytes_of-lines_from [] [] = refl
bytes_of-lines_from (c ∷ cs) [] = refl
bytes_of-lines_from cs (b ∷ bs) = elim (Bool-cases (b == newline)) [
  | inl ends ↦
      let is : b ≡ newline = ground (arith, ends) in
      rw ends (
        ap (λ l. (cs ++ newline ∷ []) ++ l) (bytes_of-lines_from [] bs)
        ∙ append_assoc cs (newline ∷ []) bs
        ∙ ap (λ n. cs ++ n ∷ bs) (sym is))
  | inr goes_on ↦ rw goes_on (bytes_of-lines_from (cs ++ b ∷ []) bs ∙ append_assoc cs (b ∷ []) bs)
]

-- The lines are the bytes, cut up.
pub bytes_of-lines_of : (bytes : List ℕ) → bytes_of (lines_of bytes) ≡ bytes
bytes_of-lines_of bytes = bytes_of-lines_from [] bytes
