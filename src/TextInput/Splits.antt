-- ===== src/TextInput/Splits.antt =====
-- rdd_creators.go: the lines of the splits of a file, one split after the other.
use go_spark.Prelude.{
  ℕ, zero, suc, ◌+◌, ◌-◌, ◌<◌, ◌≤◌, ◌≡◌, ◌⊎◌, refl, sym, ap, subst, ◌∙◌, Bool-cases, inl, inr, true,
  false, Option, none, some, List, [], ◌∷◌, ◌++◌, append_assoc, append-nil, arith, ◌==◌, ltb, leb,
  if◌then◌else◌, flatten, length, length-append, get_elem?, drop, All,
}
use go_spark.Prelude.Results.{Result, ok, err}
use go_spark.TextInput.{TextError, read_failed, TextState, newline, skip_line, empty_text}
use go_spark.TextInput.Lines.{Line, raw, IsBody, IsLines, bytes_of}
use go_spark.TextInput.Read.{until, read_slice-ended, read_slice-open, at}

-- The first line that starts at `a` or after it, and its position, of the lines from `p` on.
abbrev pub after : ℕ → ℕ → List Line → ℕ × List Line
after a p [] = (p, [])
after a p (l ∷ ls) =
    let later = after a (p + length (raw l)) ls in if leb a p then (p, l ∷ ls) else later

pub after_here : (a p : ℕ) (ls : List Line) → a ≤ p → after a p ls ≡ (p, ls)
after_here a p [] le = refl
after_here a p (l ∷ ls) le = ground (arith, le)

-- The lines of two splits that meet are those of both.
pub until-after :
    (b c p : ℕ) (ls : List Line)
    → b ≤ c
    → until b p ls ++ until c (after b p ls).0 (after b p ls).1 ≡ until c p ls
until-after b c p [] le = refl
until-after b c p (l ∷ ls) le = elim (Bool-cases (leb b p)) [
  | inl past ↦ rw past refl
  | inr before ↦
      let before_c : leb c p ≡ false = ground (arith, before, le) in
      rw (before, before_c) (ap (◌∷◌ l) (until-after b c (p + length (raw l)) ls le))
]

pub after-after :
    (a b p : ℕ) (ls : List Line) → a ≤ b → after b (after a p ls).0 (after a p ls).1 ≡ after b p ls
after-after a b p [] le = refl
after-after a b p (l ∷ ls) le = elim (Bool-cases (leb a p)) [
  | inl past ↦ rw past refl
  | inr before ↦
      let before_b : leb b p ≡ false = ground (arith, before, le) in
      rw (before, before_b) (after-after a b (p + length (raw l)) ls le)
]

module _ {A : Type 0} where
  get_after :
      (xs ys : List A) (i k : ℕ) → i ≡ length xs + k → get_elem? (xs ++ ys) i ≡ get_elem? ys k
  get_after [] ys i k e = ap (get_elem? ys) (omega (arith, e))
  get_after (x ∷ xs) ys zero k e = absurd (omega (arith, e))
  get_after (x ∷ xs) ys (suc i) k e = get_after xs ys i k (omega (arith, e))

  drop_after : (xs ys : List A) (i k : ℕ) → i ≡ length xs + k → drop i (xs ++ ys) ≡ drop k ys
  drop_after [] ys i k e = ap (λ n. drop n ys) (omega (arith, e))
  drop_after (x ∷ xs) ys zero k e = absurd (omega (arith, e))
  drop_after (x ∷ xs) ys (suc i) k e = drop_after xs ys i k (omega (arith, e))

  drop_inside : (xs ys : List A) (k : ℕ) → k ≤ length xs → drop k (xs ++ ys) ≡ drop k xs ++ ys
  drop_inside xs ys zero le = refl
  drop_inside [] ys (suc k) le = absurd (omega (arith, le))
  drop_inside (x ∷ xs) ys (suc k) le = drop_inside xs ys k (omega (arith, le))

  length-drop : (xs : List A) (k : ℕ) → k ≤ length xs → length (drop k xs) + k ≡ length xs
  length-drop xs zero le = omega arith
  length-drop [] (suc k) le = absurd (omega (arith, le))
  length-drop (x ∷ xs) (suc k) le = omega (arith, length-drop xs k (omega (arith, le)))

  All-drop : (P : A → Type 0) (xs : List A) (k : ℕ) → All P xs → All P (drop k xs)
  All-drop P xs zero h = h
  All-drop P [] (suc k) h = tt
  All-drop P (x ∷ xs) (suc k) h = All-drop P xs k h.1

-- A byte of the body of a line.
get_body :
    (body ys : List ℕ) (k : ℕ)
    → IsBody body
    → k < length body
    → (b : ℕ) × (get_elem? (body ++ ys) k ≡ some b) × ((b == newline) ≡ false)
get_body [] ys k h lt = absurd (omega (arith, lt))
get_body (b ∷ body) ys zero h lt = (b, refl, h.0)
get_body (b ∷ body) ys (suc k) h lt = get_body body ys k h.1 (omega (arith, lt))

-- What a split opens after the byte `prev`, which may be missing.
abbrev pub opened : ℕ → Option ℕ → List ℕ → Result TextError TextState
opened pos prev rest = elim prev [
  | none ↦ err read_failed
  | some b ↦ if b == newline then ok (at pos rest) else ok (skip_line pos rest)
]

-- The beginning of a line, or the end of the file.
abbrev pub OpensAt : ℕ × List Line → Result TextError TextState → Type 0
OpensAt (q, ls) r = (r ≡ ok (at q (bytes_of ls))) ⊎ ((r ≡ ok empty_text) × (ls ≡ []))

opened-inside :
    (pos m : ℕ) (body ys : List ℕ)
    → IsBody body
    → m < length body
    → opened pos (get_elem? (body ++ ys) m) (drop (suc m) (body ++ ys))
      ≡ ok (skip_line pos (drop (suc m) body ++ ys))
opened-inside pos m body ys h lt =
    let (b, got, other) = get_body body ys m h lt in
    ap (λ o. opened pos o (drop (suc m) (body ++ ys))) got
    ∙ ap (λ rest. opened pos (some b) rest) (drop_inside body ys (suc m) (omega (arith, lt)))
    ∙ rw other refl

skip_line-ended :
    (pos : ℕ) (body ys : List ℕ)
    → IsBody body
    → skip_line pos ((body ++ newline ∷ []) ++ ys) ≡ at (pos + (length body + 1)) ys
skip_line-ended pos body ys h =
    rw (read_slice-ended body ys h) (rw (length-append body (newline ∷ [])) refl)

skip_line-open : (pos : ℕ) (body : List ℕ) → IsBody body → skip_line pos body ≡ empty_text
skip_line-open pos body h = rw (read_slice-open body h) refl

-- What a split opens after the byte at `m`.
abbrev pub opened_at : ℕ → List ℕ → ℕ → Result TextError TextState
opened_at pos bytes m = opened pos (get_elem? bytes m) (drop (suc m) bytes)

-- Inside a line or after its newline, the next line is opened.
opened-next :
    (p m pos : ℕ) (body ys : List ℕ)
    → IsBody body
    → pos ≡ p + suc m
    → m < length (body ++ newline ∷ [])
    → opened_at pos ((body ++ newline ∷ []) ++ ys) m
      ≡ ok (at (p + length (body ++ newline ∷ [])) ys)
opened-next p m pos body ys h e lt =
    let long : length (body ++ newline ∷ []) ≡ length body + 1 =
      length-append body (newline ∷ []) in
    elim (Bool-cases (ltb m (length body))) [
      | inl inside ↦
          let inside' : m < length body = ground (arith, inside) in
          let there : pos + (length (drop (suc m) body) + 1) ≡ p + length (body ++ newline ∷ []) =
            omega (arith, e, long, length-drop body (suc m) (omega (arith, inside'))) in
          ap (λ bytes. opened_at pos bytes m) (append_assoc body (newline ∷ []) ys)
          ∙ opened-inside pos m body (newline ∷ ys) h inside'
          ∙ ap (λ bytes. ok (skip_line pos bytes))
              (sym (append_assoc (drop (suc m) body) (newline ∷ []) ys))
          ∙ ap ok (skip_line-ended pos (drop (suc m) body) ys (All-drop _ body (suc m) h))
          ∙ ap (λ q. ok (at q ys)) there
      | inr past ↦
          let is_end : m ≡ length body + 0 = ground (arith, past, lt, long) in
          let there : pos ≡ p + length (body ++ newline ∷ []) = omega (arith, e, long, is_end) in
          ap (λ bytes. opened_at pos bytes m) (append_assoc body (newline ∷ []) ys)
          ∙ ap (λ o. opened pos o (drop (suc m) (body ++ newline ∷ ys)))
              (get_after body (newline ∷ ys) m 0 is_end)
          ∙ ap (λ rest. ok (at pos rest))
              (drop_after body (newline ∷ ys) (suc m) 1 (omega (arith, is_end)))
          ∙ ap (λ q. ok (at q ys)) there
    ]

opened-later :
    (xs ys : List ℕ) (i k pos : ℕ)
    → i ≡ length xs + k
    → opened_at pos (xs ++ ys) i ≡ opened_at pos ys k
opened-later xs ys i k pos e =
    ap (λ o. opened pos o (drop (suc i) (xs ++ ys))) (get_after xs ys i k e)
    ∙ ap (opened pos (get_elem? ys k)) (drop_after xs ys (suc i) (suc k) (omega (arith, e)))

pub opened-OpensAt :
    (ls : List Line) (p m pos : ℕ)
    → IsLines ls
    → pos ≡ p + suc m
    → m < length (bytes_of ls)
    → OpensAt (after pos p ls) (opened_at pos (bytes_of ls) m)
unfolding flatten
opened-OpensAt [] p m pos h e lt = absurd (omega (arith, lt))
opened-OpensAt ((body, true) ∷ ls) p m pos h e lt =
    let line = body ++ newline ∷ [] in
    let before : leb pos p ≡ false = ground (arith, e) in
    let more : length (line ++ bytes_of ls) ≡ length line + length (bytes_of ls) =
      length-append line (bytes_of ls) in
    subst
      (λ b.
        OpensAt (if b then (p, (body, true) ∷ ls) else after pos (p + length line) ls)
          (opened_at pos (line ++ bytes_of ls) m))
      (sym before)
      (elim (Bool-cases (ltb m (length line))) [
        | inl here ↦
            subst (λ l. OpensAt l (opened_at pos (line ++ bytes_of ls) m))
              (sym (after_here pos (p + length line) ls (ground (arith, here, e))))
              (inl (opened-next p m pos body (bytes_of ls) h.0 e (ground (arith, here))))
        | inr later ↦
            let k = m - length line in
            let at_k : m ≡ length line + k = ground (arith, later) in
            subst (OpensAt (after pos (p + length line) ls))
              (sym (opened-later line (bytes_of ls) m k pos at_k))
              (opened-OpensAt ls (p + length line) k pos h.1 (omega (arith, e, at_k))
                (omega (arith, lt, more, at_k)))
      ])
opened-OpensAt ((body, false) ∷ []) p m pos h e lt =
    let before : leb pos p ≡ false = ground (arith, e) in
    let none_after : body ++ [] ≡ body = append-nil body in
    let inside : m < length body = subst (λ l. m < length l) none_after lt in
    subst
      (λ b.
        OpensAt (if b then (p, (body, false) ∷ []) else (p + length body, []))
          (opened_at pos (body ++ []) m))
      (sym before)
      (inr (
        opened-inside pos m body [] h.0 inside
            ∙ ap (λ bytes. ok (skip_line pos bytes)) (append-nil (drop (suc m) body))
            ∙ ap ok (skip_line-open pos (drop (suc m) body) (All-drop _ body (suc m) h.0)),
        refl,
      ))
opened-OpensAt ((body, false) ∷ l ∷ ls) p m pos h e lt = elim h [ ]
