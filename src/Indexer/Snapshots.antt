-- ===== src/Indexer/Snapshots.antt =====
-- The snapshots of the search index (internal/indexer/snapshot.go, with the dirty flag of
-- internal/search/hybrid.go), as the steps of the writers of the index and of the one flushing goroutine
-- in any order. The index and the files are numbered by their contents. A writer changes the index and
-- then marks it; a file is written under the index's lock and renamed into place, so at once or not at
-- all.
use flying_shuttle.Prelude.{
  ℕ, suc, ◌≡◌, refl, sym, subst, ◌⊎◌, inl, inr, Bool, Bool-cases, true, false, if◌then◌else◌, arith,
}

pub data Phase : Type 0 where
  idle saving_bm25 saving_vector : Phase

pub record Flusher : Type 0 where
  pub bm25 : ℕ
  pub vector : ℕ
  pub dirty : Bool
  pub unmarked : ℕ
  pub phase : Phase
  pub bm25_file : ℕ
  pub vector_file : ℕ

-- hnswPath may be empty: `persist` says whether the vectors have a file.
module _ (persist : Bool) where
  abbrev pub after_bm25 : Phase
  after_bm25 = if persist then saving_vector else idle

  pub data FlushStep : Flusher → Flusher → Type 0 where
    change :
        (s : Flusher) (b v : ℕ)
        → FlushStep s (record s { bm25 = b; vector = v; unmarked = suc s.unmarked })
    change_more :
        (s : Flusher) (b v n : ℕ)
        → s.unmarked ≡ suc n
        → FlushStep s (record s { bm25 = b; vector = v })
    mark :
        (s : Flusher) (n : ℕ)
        → s.unmarked ≡ suc n
        → FlushStep s (record s { dirty = true; unmarked = n })
    begin :
        (s : Flusher)
        → s.phase ≡ idle
        → s.dirty ≡ true
        → FlushStep s (record s { dirty = false; phase = saving_bm25 })
    bm25_saved :
        (s : Flusher)
        → s.phase ≡ saving_bm25
        → FlushStep s (record s { bm25_file = s.bm25; phase = after_bm25 })
    bm25_failed :
        (s : Flusher)
        → s.phase ≡ saving_bm25
        → FlushStep s (record s { dirty = true; phase = after_bm25 })
    vector_saved :
        (s : Flusher)
        → s.phase ≡ saving_vector
        → FlushStep s (record s { vector_file = s.vector; phase = idle })
    vector_failed :
        (s : Flusher)
        → s.phase ≡ saving_vector
        → FlushStep s (record s { dirty = true; phase = idle })

  pub data FlushSteps : Flusher → Flusher → Type 0 where
    here : (s : Flusher) → FlushSteps s s
    there : (s t u : Flusher) → FlushStep s t → FlushSteps t u → FlushSteps s u

  -- The files hold what the index holds, or there is a reason for them to be written still.
  abbrev pub Saved : Flusher → Type 0
  Saved s = (s.bm25_file ≡ s.bm25) × (persist ≡ true → s.vector_file ≡ s.vector)

  abbrev Covered : Flusher → Phase → Type 0
  Covered s idle = Saved s
  Covered s saving_bm25 = Unit
  Covered s saving_vector = s.bm25_file ≡ s.bm25

  abbrev pub IsSafe : Flusher → Type 0
  IsSafe s = (s.dirty ≡ true) ⊎ (((n : ℕ) × (s.unmarked ≡ suc n)) ⊎ Covered s s.phase)

  Covered-after :
      (s : Flusher) → Covered (record s { bm25_file = s.bm25; phase = after_bm25 }) after_bm25
  Covered-after s = elim (Bool-cases persist) [
    | inl e ↦ rw e refl
    | inr e ↦ rw e (refl, λ p. absurd (cc))
  ]

  step-IsSafe : (s t : Flusher) → FlushStep s t → IsSafe s → IsSafe t
  step-IsSafe s t (FlushStep.change _ b v) h = inr (inl (s.unmarked, refl))
  step-IsSafe s t (FlushStep.change_more _ b v n e) h = inr (inl (n, e))
  step-IsSafe s t (FlushStep.mark _ n e) h = inl refl
  step-IsSafe s t (FlushStep.begin _ e d) h = inr (inr tt)
  step-IsSafe s t (FlushStep.bm25_saved _ e) h = inr (inr (Covered-after s))
  step-IsSafe s t (FlushStep.bm25_failed _ e) h = inl refl
  step-IsSafe s t (FlushStep.vector_saved _ e) (inl d) = inl d
  step-IsSafe s t (FlushStep.vector_saved _ e) (inr (inl u)) = inr (inl u)
  step-IsSafe s t (FlushStep.vector_saved _ e) (inr (inr c)) =
      inr (inr (subst (Covered s) e c, λ p. refl))
  step-IsSafe s t (FlushStep.vector_failed _ e) h = inl refl

  steps-IsSafe : (s t : Flusher) → FlushSteps s t → IsSafe s → IsSafe t
  steps-IsSafe s t (FlushSteps.here _) h = h
  steps-IsSafe s t (FlushSteps.there _ u _ step rest) h =
      steps-IsSafe u t rest (step-IsSafe s u step h)

  -- From a state in which the files hold what the index holds, and no flush is on its way, however the
  -- steps of the writers and of the flushes interleave and whichever writes fail: when no change waits to
  -- be marked, the index is not dirty and no flush is on its way, the files hold what the index holds.
  pub steps-Saved :
      (s t : Flusher)
      → Saved s
      → s.phase ≡ idle
      → FlushSteps s t
      → t.unmarked ≡ 0
      → t.dirty ≡ false
      → t.phase ≡ idle
      → Saved t
  steps-Saved s t h p steps u d q =
      let safe = steps-IsSafe s t steps (inr (inr (subst (Covered s) (sym p) h))) in
      elim safe [
        | inl dirty ↦ absurd (cc)
        | inr (inl (n, waiting)) ↦ absurd (omega (arith, waiting, u))
        | inr (inr c) ↦ subst (Covered t) q c
      ]
