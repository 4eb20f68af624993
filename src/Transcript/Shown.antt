-- ===== src/Transcript/Shown.antt =====
-- What a window of internal/transcript/transcript.go shows of its transcript.
use flying_shuttle.Prelude.{
  ℕ, zero, suc, ◌+◌, ◌-◌, ◌*◌, ◌≤◌, ◌<◌, ◌≡◌, refl, sym, ap, ◌∙◌, true, false, inl, inr, Bool,
  Bool-cases, ◌||◌, String, none, some, List, [], ◌∷◌, ◌++◌, any, map, length, take, drop,
  get_elem?, ltb, ◌==◌, if◌then◌else◌, arith,
}
use flying_shuttle.Prelude.Int.{ℤ}
use flying_shuttle.Prelude.Slices.{length-take_le, take-drop, length-take, length-drop, drop-drop}
use flying_shuttle.Prelude.Distinct.{any-map}
use flying_shuttle.Prelude.Result.{ok}
use flying_shuttle.Model.{Chunk}
use flying_shuttle.Corpus.Db.{CorpusDb}
use flying_shuttle.Corpus.Chunks.{get_chunk, list_chunks_by_source_file}
use flying_shuttle.Transcript.Listed.{listed}
use flying_shuttle.Transcript.Window.{
  Window, Segment, segment, window, window_at, window_around, index_of_chunk, id_at, low, high,
  radius_of,
}

abbrev pub is_cons {ℓ} : {A : Type ℓ} → List A → Bool
is_cons [] = false
is_cons (x ∷ xs) = true

abbrev pub first_id : List Chunk → String
first_id [] = ""
first_id (c ∷ cs) = c.id

abbrev pub last_id : List Chunk → String
last_id [] = ""
last_id (c ∷ []) = c.id
last_id (c ∷ (d ∷ cs)) = last_id (d ∷ cs)

-- The window shows chunks that stand together in the transcript, those before and after them being
-- named by the ids to scroll to.
pub record IsShown (id : String) (radius : ℤ) (chunks : List Chunk) (w : Window) : Type 0 where
  pub before : List Chunk
  pub shown : List Chunk
  pub after : List Chunk
  pub together : before ++ (shown ++ after) ≡ chunks
  pub segments : w.segments ≡ map (segment id) shown
  pub focused : any (λ (s : Segment). s.focus) w.segments ≡ true
  pub at_most : length shown ≤ 2 * radius_of radius + 1
  pub at : ℕ
  pub focus_at : index_of_chunk id chunks ≡ some at
  pub reach_back : length before ≡ at - radius_of radius
  pub reach_on : is_cons after ≡ true → length before + length shown ≡ at + radius_of radius + 1
  pub earlier : w.has_prev ≡ is_cons before
  pub later : w.has_next ≡ is_cons after
  pub scroll_back : w.prev_chunk ≡ last_id before
  pub scroll_on : w.next_chunk ≡ first_id after

abbrev hits : (Chunk → Bool) → List Chunk → ℕ → Bool
hits p cs i = elim (get_elem? cs i) [ none ↦ false | some c ↦ p c ]

any-slice :
    (p : Chunk → Bool) (cs : List Chunk) (l m i : ℕ)
    → l ≤ i
    → i < l + m
    → hits p cs i ≡ true
    → any p (take m (drop l cs)) ≡ true
any-slice p [] l m i a b h = absurd (cc h)
any-slice p (c ∷ cs) (suc l) m zero a b h = absurd (ground arith)
any-slice p (c ∷ cs) (suc l) m (suc i) a b h = any-slice p cs l m i (ground arith) (ground arith) h
any-slice p (c ∷ cs) zero zero i a b h = absurd (ground arith)
any-slice p (c ∷ cs) zero (suc m) zero a b h = rw h refl
any-slice p (c ∷ cs) zero (suc m) (suc i) a b h =
    let rest = any-slice p cs zero m i (ground arith) (ground arith) h in rw rest (or_true (p c))
  where
    or_true : (b : Bool) → (b || true) ≡ true
    or_true b = ground arith

index_of_chunk-hits :
    (id : String) (cs : List Chunk)
    → any (λ c. c.id == id) cs ≡ true
    → (i : ℕ) × (index_of_chunk id cs ≡ some i)
      × (i < length cs)
      × (hits (λ c. c.id == id) cs i ≡ true)
unfolding index_of_chunk
index_of_chunk-hits id [] h = absurd (cc h)
index_of_chunk-hits id (c ∷ cs) h = elim (Bool-cases (c.id == id)) [
  | inl e ↦ (0, rw e refl, omega arith, e)
  | inr e ↦
      let (i, found, less, hit) = index_of_chunk-hits id cs (rw e at h) in
      (suc i, rw (e, found) refl, omega (arith, less), hit)
]

slices : (l m : ℕ) (cs : List Chunk) → take l cs ++ (take m (drop l cs) ++ drop (l + m) cs) ≡ cs
slices l m cs =
    ap (λ ds. take l cs ++ (take m (drop l cs) ++ ds)) (sym (drop-drop m l cs))
    ∙ ap (λ ds. take l cs ++ ds) (take-drop m (drop l cs))
    ∙ take-drop l cs

is_cons-take : (l : ℕ) (cs : List Chunk) → l < length cs → ltb 0 l ≡ is_cons (take l cs)
is_cons-take zero cs h = refl
is_cons-take (suc l) [] h = absurd (ground arith)
is_cons-take (suc l) (c ∷ cs) h = ground arith

is_cons-drop : (l : ℕ) (cs : List Chunk) → ltb l (length cs) ≡ is_cons (drop l cs)
is_cons-drop zero [] = refl
is_cons-drop zero (c ∷ cs) = ground arith
is_cons-drop (suc l) [] = ground arith
is_cons-drop (suc l) (c ∷ cs) = less l (length cs) ∙ is_cons-drop l cs
  where
    less : (a b : ℕ) → ltb (suc a) (suc b) ≡ ltb a b
    less a b = ground arith

last_id-take : (l : ℕ) (cs : List Chunk) → l < length cs → id_at cs l ≡ last_id (take (suc l) cs)
last_id-take l [] h = absurd (ground arith)
last_id-take zero (c ∷ cs) h = refl
last_id-take (suc l) (c ∷ []) h = absurd (ground arith)
last_id-take (suc l) (c ∷ (d ∷ cs)) h = last_id-take l (d ∷ cs) (ground arith)

back :
    (l : ℕ) (cs : List Chunk)
    → l < length cs
    → (if ltb 0 l then id_at cs (l - 1) else "") ≡ last_id (take l cs)
back zero cs h = refl
back (suc l) cs h =
    let some_back : ltb 0 (suc l) ≡ true = ground arith in
    let less : suc l - 1 ≡ l = omega arith in
    rw (some_back, less) (last_id-take l cs (omega (arith, h)))

first_id-drop : (l : ℕ) (cs : List Chunk) → id_at cs l ≡ first_id (drop l cs)
first_id-drop zero [] = refl
first_id-drop zero (c ∷ cs) = refl
first_id-drop (suc l) [] = refl
first_id-drop (suc l) (c ∷ cs) = first_id-drop l cs

on :
    (l : ℕ) (cs : List Chunk)
    → (if ltb l (length cs) then id_at cs l else "") ≡ first_id (drop l cs)
on l cs = elim (Bool-cases (ltb l (length cs))) [
  | inl e ↦ rw e (first_id-drop l cs)
  | inr e ↦ rw e (none_left (drop l cs) (sym (is_cons-drop l cs) ∙ e))
]
  where
    none_left : (ds : List Chunk) → is_cons ds ≡ false → "" ≡ first_id ds
    none_left [] h = refl
    none_left (d ∷ ds) h = absurd (cc h)

window_at-IsShown :
    (source id : String) (radius : ℤ) (cs : List Chunk) (fi : ℕ)
    → index_of_chunk id cs ≡ some fi
    → fi < length cs
    → hits (λ c. c.id == id) cs fi ≡ true
    → IsShown id radius cs (window_at source id (radius_of radius) cs fi)
unfolding window_at
window_at-IsShown source id radius cs fi found less hit =
    let r = radius_of radius in
    let lo = low fi r in
    let hi = high fi r (length cs) in
    let lo_hi : lo + (hi - lo) ≡ hi = ground arith in
    let inside : (fi < lo + (hi - lo)) × (lo ≤ fi) × (lo < length cs) × (hi - lo ≤ 2 * r + 1) =
      ground arith in
    let shown = take (hi - lo) (drop lo cs) in
    record {
      before = take lo cs;
      shown = shown;
      after = drop hi cs;
      together = ap (λ n. take lo cs ++ (shown ++ drop n cs)) (sym lo_hi) ∙ slices lo (hi - lo) cs;
      segments = refl;
      focused =
          any-map (segment id) (λ s. s.focus) (λ c. c.id == id) (λ c. refl) shown
          ∙ any-slice (λ c. c.id == id) cs lo (hi - lo) fi inside.1 inside.0 hit;
      at_most = omega (arith, length-take_le (hi - lo) (drop lo cs), inside.3);
      at = fi;
      focus_at = found;
      reach_back = length-take lo cs (omega (arith, inside.2));
      reach_on = λ more.
          let hi_less : ltb hi (length cs) ≡ true = is_cons-drop hi cs ∙ more in
          let front = length-take lo cs (omega (arith, inside.2)) in
          let mid = length-take (hi - lo) (drop lo cs) (ground (arith, length-drop lo cs)) in
          ground (arith, front, mid);
      earlier = is_cons-take lo cs inside.2;
      later = is_cons-drop hi cs;
      scroll_back = back lo cs inside.2;
      scroll_on = on hi cs;
    }

-- A window around a chunk that GetChunk finds is always returned. It shows chunks that stand
-- together among the live chunks of that source in their order, the chunk itself among them, with
-- as many before it as the radius says or all that there are, and likewise after it; it says
-- whether there are chunks before and after those; and the chunk to scroll to is the one directly
-- before, or directly after.
pub window_around_lem :
    (id : String) (radius : ℤ) (c : Chunk) (db : CorpusDb)
    → get_chunk id db ≡ ok c
    → (w : Window) × (window_around id radius db ≡ ok w)
      × IsShown id radius (list_chunks_by_source_file c.source_file db) w
unfolding window_around window
window_around_lem id radius c db h =
    let cs = list_chunks_by_source_file c.source_file db in
    let (fi, found, less, hit) = index_of_chunk-hits id cs (listed id c db h) in
    (
      window_at c.source_file id (radius_of radius) cs fi,
      rw (window_around, h) (rw (window, found) refl),
      window_at-IsShown c.source_file id radius cs fi found less hit,
    )
