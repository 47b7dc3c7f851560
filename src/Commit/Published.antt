-- ===== src/Commit/Published.antt =====
-- distributed_output.go: which manifests the commits to one path publish.
use go_spark.Prelude.{
  ◌≡◌, ◌⊎◌, refl, sym, ap, subst, Bool, true, if◌then◌else◌, Bool-cases, false, not, ◌&&◌, ◌||◌,
  inl, inr, Option, none, some, ℕ, List, [], ◌∷◌, arith, ◌==◌, length, replicate, All,
}
use go_spark.Prelude.Maps.{list_beq, list_beq_iff}
use go_spark.Prelude.Results.{Result, ok, err, Result-cases}
use go_spark.Commit.{
  CommitError, incomplete, publish_failed, OutputManifest, Storage, Publication, written,
  failed_visible, no_directory, not_encoded, not_exclusive, failed_unseen, Commit, verify, retry,
  publish, manifest_of_parts, commit_distributed_output, commits,
}

module _ (key_of : ℕ → ℕ → ℕ → ℕ → ℕ) (marshal : OutputManifest → List ℕ) where
  -- A result that is a manifest is one of the given text.
  abbrev pub Publishes : List ℕ → Result CommitError OutputManifest → Type 0
  Publishes text (ok m) = marshal m ≡ text
  Publishes text (err e) = Unit

  -- The marker that is there stays.
  abbrev Stays : Option (List ℕ) → List ℕ → Type 0
  Stays none text = Unit
  Stays (some previous) text = previous ≡ text

  -- There is no marker and no manifest, or a marker that stays and is that of the manifest.
  abbrev IsStep : Option (List ℕ) → Option (List ℕ) × Result CommitError OutputManifest → Type 0
  IsStep marker r =
      ((marker ≡ none) × (r.0 ≡ none) × ((text : List ℕ) → Publishes text r.1))
      ⊎ ((text : List ℕ) × (r.0 ≡ some text) × Stays marker text × Publishes text r.1)

  retry-Publishes :
      (fs : Storage) (manifest : OutputManifest) (previous : List ℕ)
      → Publishes previous (retry key_of marshal fs (marshal manifest) manifest (some previous))
  unfolding retry
  retry-Publishes fs manifest previous = elim (Bool-cases fs.openable) [
    | inr closed ↦ rw (closed, retry) tt
    | inl opened ↦ elim (Bool-cases (fs.intact && list_beq previous (marshal manifest))) [
      | inr differs ↦ rw (opened, differs, retry) tt
      | inl same ↦
          rw (opened, same, retry)
            (sym ((list_beq_iff previous (marshal manifest)).0 (ground (arith, same))))
    ]
  ]

  created-IsStep :
      (fs : Storage) (manifest : OutputManifest) (p : Publication)
      → IsStep none (elim p [
        | written ↦ (some (marshal manifest), ok manifest)
        | failed_visible text ↦
            (some text, retry key_of marshal fs (marshal manifest) manifest (some text))
        | failed_unseen ↦ (none, err publish_failed)
      ])
  created-IsStep fs manifest written = inr (marshal manifest, refl, tt, refl)
  created-IsStep fs manifest (failed_visible text) =
      inr (text, refl, tt, retry-Publishes fs manifest text)
  created-IsStep fs manifest failed_unseen = inl (refl, refl, λ text. tt)

  publish-IsStep :
      (fs : Storage) (manifest : OutputManifest) (marker : Option (List ℕ))
      → IsStep marker (publish key_of marshal fs manifest marker)
  unfolding publish
  publish-IsStep fs manifest (some previous) =
      inr (previous, refl, refl, retry-Publishes fs manifest previous)
  publish-IsStep fs manifest none = created-IsStep fs manifest fs.publication

  failed-IsStep : (marker : Option (List ℕ)) (e : CommitError) → IsStep marker (marker, err e)
  failed-IsStep none e = inl (refl, refl, λ text. tt)
  failed-IsStep (some previous) e = inr (previous, refl, refl, tt)

  checked :
      {marker : Option (List ℕ)} (b : Bool) (e : CommitError)
      (r : Option (List ℕ) × Result CommitError OutputManifest)
      → IsStep marker r
      → IsStep marker (if b then (marker, err e) else r)
  checked {marker} true e r h = failed-IsStep marker e
  checked false e r h = h

  commit-IsStep :
      (fs : Storage) (c : Commit) (marker : Option (List ℕ))
      → IsStep marker (commit_distributed_output key_of marshal fs c marker)
  unfolding commit_distributed_output
  commit-IsStep fs c marker =
      elim (Bool-cases (c.job_id == 0 || not (length c.outputs == c.count))) [
        | inl bad ↦ rw (bad, commit_distributed_output) (failed-IsStep marker incomplete)
        | inr good ↦
            elim (Result-cases (
              verify key_of marshal fs c c.outputs (replicate c.count false)
                (replicate c.count none))) [
                  | inl (by_part, verified) ↦
                      rw (good, verified, commit_distributed_output)
                        (checked (not fs.directory) no_directory _ (
                          checked (not fs.encodable) not_encoded _ (
                            checked (not fs.exclusive) not_exclusive _ (
                              publish-IsStep fs (manifest_of_parts key_of marshal c by_part)
                                marker))))
                  | inr (e, refused) ↦
                      rw (good, refused, commit_distributed_output)
                        (checked (not fs.directory) no_directory _ (failed-IsStep marker e))
                ]
      ]

  -- the marker of a path is there to stay
  commits-some :
      (text : List ℕ) (cs : List (Storage × Commit))
      → All (Publishes text) (commits key_of marshal cs (some text))
  unfolding commits
  commits-some text [] = tt
  commits-some text ((fs, c) ∷ cs) =
      let next = commit_distributed_output key_of marshal fs c (some text) in
      elim (commit-IsStep fs c (some text)) [
        | inl (absent, gone, none_published) ↦ cc
        | inr (text', there, same, published) ↦
            let stays : next.0 ≡ some text = rw there (ap (λ x. some x) (sym same)) in
            (
              subst (λ x. Publishes x next.1) (sym same) published,
              subst (λ marker. All (Publishes text) (commits key_of marshal cs marker)) (sym stays)
                  (commits-some text cs),
            )
      ]

  -- Of all commits to one path, by whatever jobs and with whatever answers of the file system, the
  -- manifests that are returned have one and the same text: the first that is published is never
  -- replaced.
  pub commits-Publishes :
      (cs : List (Storage × Commit))
      → (text : List ℕ) × All (Publishes text) (commits key_of marshal cs none)
  unfolding commits
  commits-Publishes [] = ([], tt)
  commits-Publishes ((fs, c) ∷ cs) =
      let next = commit_distributed_output key_of marshal fs c none in
      elim (commit-IsStep fs c none) [
        | inl (absent, gone, none_published) ↦
            let (text, rest) = commits-Publishes cs in
            (
              text,
              (
                none_published text,
                subst (λ marker. All (Publishes text) (commits key_of marshal cs marker)) (sym gone)
                    rest,
              ),
            )
        | inr (text, there, stays, published) ↦ (
          text,
          (
            published,
            subst (λ marker. All (Publishes text) (commits key_of marshal cs marker)) (sym there)
                (commits-some text cs),
          ),
        )
      ]
