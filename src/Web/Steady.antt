-- ===== src/Web/Steady.antt =====
-- What two renders of the evidence pane (internal/web/evidence_stability.go) have in common.
use flying_shuttle.Prelude.{
  ◌≡◌, refl, sym, ap, ◌∙◌, true, false, inl, inr, Bool-cases, ◌||◌, Option, none, some, String,
  List, [], ◌∷◌, All, map, length, nat_eq, ◌==◌, eq_iff, eq_refl, any, All-imp, arith, ◌⊎◌,
}
use mathlib.Core.Path.{ap₂, subst}
use mathlib.Core.List.{Memᴰ}
use flying_shuttle.Prelude.Sort.{sort_by, any-sort_by}
use flying_shuttle.Prelude.Distinct.{any-map}
use flying_shuttle.Text.Runes.{join}
use flying_shuttle.Outline.Tree.{id_leb}
use flying_shuttle.Prelude.Int.{pos}
use flying_shuttle.Text.{is_empty}
use flying_shuttle.Web.Stability.{
  Candidate, StableEntry, Stability, candidate_sig, entry_of, set_entry, prev_by_chunk, shown_as,
  carry, refresh, stabilize,
}

module _ {Float : Type 0} where
  -- The parts that a render keeps, and the others.
  abbrev pub SameShown : Candidate Float → Candidate Float → Type 0
  SameShown c d =
      (c.snippet ≡ d.snippet)
      × (c.segments ≡ d.segments)
      × (c.full ≡ d.full)
      × (c.full_sentences ≡ d.full_sentences)
      × (c.focus_start ≡ d.focus_start)
      × (c.focus_end ≡ d.focus_end)

  abbrev pub ranked : Candidate Float → Candidate Float
  ranked c = record c {
    snippet = "";
    segments = [];
    full = [];
    full_sentences = [];
    focus_start = pos 0;
    focus_end = pos 0;
  }

  entry_of-set_entry :
      (node : String) (e : StableEntry Float) (s : Stability Float)
      → entry_of node (set_entry node e s) ≡ some e
  unfolding entry_of set_entry
  entry_of-set_entry node e [] = rw (entry_of, eq_refl node) refl
  entry_of-set_entry node e (kv ∷ rest) = elim (Bool-cases (kv.0 == node)) [
    | inl t ↦ rw (set_entry, t, entry_of, eq_refl node) refl
    | inr t ↦ rw (set_entry, t, entry_of, t) (entry_of-set_entry node e rest)
  ]

  carry-id :
      (prev : List (Candidate Float)) (c : Candidate Float) → ranked (carry prev c) ≡ ranked c
  unfolding carry
  carry-id prev c = go (prev_by_chunk c.chunk_id none prev)
    where
      go :
          (o : Option (Candidate Float))
          → (let out : Candidate Float = elim o [ none ↦ c | some old ↦ shown_as old c ] in
              ranked out)
            ≡ ranked c
      go none = refl
      go (some old) = refl

  -- The entry of a node after a render.
  abbrev Kept : String → List (Candidate Float) → List (Candidate Float) × Stability Float → Type 0
  Kept node fresh out =
      entry_of node out.1 ≡ some (record { sig = candidate_sig fresh; cands = out.0 })

  refresh-Kept :
      (node : String) (fresh : List (Candidate Float)) (entry : Option (StableEntry Float))
      (s : Stability Float)
      → Kept node fresh (refresh node fresh entry s)
  unfolding refresh
  refresh-Kept node fresh none s = entry_of-set_entry node _ s
  refresh-Kept node fresh (some prev) s = elim (Bool-cases (prev.sig == candidate_sig fresh)) [
    | inl e ↦ rw (refresh, e) (entry_of-set_entry node _ s)
    | inr e ↦ rw (refresh, e) (entry_of-set_entry node _ s)
  ]

  stabilize-Kept :
      (node : String) (fresh : List (Candidate Float)) (s : Stability Float)
      → (is_empty node || nat_eq (length fresh) 0) ≡ false
      → Kept node fresh (stabilize node fresh s)
  unfolding stabilize
  stabilize-Kept node fresh s h = rw (stabilize, h) (refresh-Kept node fresh (entry_of node s) s)

  second :
      (node : String) (a b : List (Candidate Float)) (s : Stability Float)
      → (is_empty node || nat_eq (length a) 0) ≡ false
      → (is_empty node || nat_eq (length b) 0) ≡ false
      → candidate_sig a ≡ candidate_sig b
      → (stabilize node b (stabilize node a s).1).0 ≡ map (carry (stabilize node a s).0) b
  unfolding stabilize refresh
  second node a b s ha hb same =
      let kept = stabilize-Kept node a s ha in
      let hit : (candidate_sig a == candidate_sig b) ≡ true =
        (eq_iff (candidate_sig a) (candidate_sig b)).1 same in
      rw (stabilize, hb) (rw kept (rw (refresh, hit) refl))

  -- A later candidate of the chunk, or the one that was found before.
  prev_by_chunk-Mem :
      (id : String) (found : Option (Candidate Float)) (cs all : List (Candidate Float))
      → ((d : Candidate Float) → Memᴰ d cs → Memᴰ d all)
      → ((d : Candidate Float) → found ≡ some d → Memᴰ d all × (d.chunk_id ≡ id))
      → (d : Candidate Float) → prev_by_chunk id found cs ≡ some d
      → Memᴰ d all × (d.chunk_id ≡ id)
  unfolding prev_by_chunk
  prev_by_chunk-Mem id found [] all inside old d h = old d h
  prev_by_chunk-Mem id found (c ∷ cs) all inside old d h = elim (Bool-cases (c.chunk_id == id)) [
    | inl e ↦
        prev_by_chunk-Mem id (some c) cs all (λ x m. inside x (Memᴰ.tail m)) (λ x k. hit x e (cc k))
          d (rw e at h)
    | inr e ↦ prev_by_chunk-Mem id found cs all (λ x m. inside x (Memᴰ.tail m)) old d (rw e at h)
  ]
    where
      hit :
          (x : Candidate Float) → (c.chunk_id == id) ≡ true → c ≡ x → Memᴰ x all × (x.chunk_id ≡ id)
      hit x e k =
          subst (λ y. Memᴰ y all × (y.chunk_id ≡ id)) k
            (inside c (Memᴰ.head refl), (eq_iff c.chunk_id id).0 e)

  -- One of the chunk is found where there is one.
  prev_by_chunk-some :
      (id : String) (found : Option (Candidate Float)) (cs : List (Candidate Float))
      → (any (λ c. c.chunk_id == id) cs ≡ true) ⊎ ((d : Candidate Float) × (found ≡ some d))
      → (d : Candidate Float) × (prev_by_chunk id found cs ≡ some d)
  unfolding prev_by_chunk
  prev_by_chunk-some id found [] (inl h) = absurd (cc h)
  prev_by_chunk-some id found [] (inr h) = h
  prev_by_chunk-some id found (c ∷ cs) h = elim (Bool-cases (c.chunk_id == id)) [
    | inl e ↦ rw e (prev_by_chunk-some id (some c) cs (inr (c, refl)))
    | inr e ↦ rw e (prev_by_chunk-some id found cs (later e h))
  ]
    where
      later :
          (c.chunk_id == id) ≡ false
          → (any (λ c. c.chunk_id == id) (c ∷ cs) ≡ true)
            ⊎ ((d : Candidate Float) × (found ≡ some d))
          → (any (λ c. c.chunk_id == id) cs ≡ true) ⊎ ((d : Candidate Float) × (found ≡ some d))
      later e (inl k) = inl (rw e at k)
      later e (inr k) = inr k

  -- A candidate is shown as one of the render before that has its chunk.
  abbrev pub ShownBefore : List (Candidate Float) → Candidate Float → Type 0
  ShownBefore prev c =
      (old : Candidate Float) × Memᴰ old prev × (old.chunk_id ≡ c.chunk_id) × SameShown c old

  carry-ShownBefore :
      (prev : List (Candidate Float)) (c : Candidate Float)
      → any (λ o. o.chunk_id == c.chunk_id) prev ≡ true
      → ShownBefore prev (carry prev c)
  unfolding carry
  carry-ShownBefore prev c h =
      let (old, found) = prev_by_chunk-some c.chunk_id none prev (inl h) in
      let (inside, same) =
        prev_by_chunk-Mem c.chunk_id none prev prev (λ x m. m) (λ x k. absurd (cc k)) old found in
      rw (found, carry) (old, inside, same, (refl, refl, refl, refl, refl, refl))

  carry-chunk_id :
      (prev : List (Candidate Float)) (c : Candidate Float) → (carry prev c).chunk_id ≡ c.chunk_id
  carry-chunk_id prev c = ap (λ (d : Candidate Float). d.chunk_id) (carry-id prev c)

  carried-ids :
      (prev cs : List (Candidate Float))
      → map (λ c. c.chunk_id) (map (carry prev) cs) ≡ map (λ c. c.chunk_id) cs
  carried-ids prev [] = refl
  carried-ids prev (c ∷ cs) = ap₂ (λ x xs. x ∷ xs) (carry-chunk_id prev c) (carried-ids prev cs)

  refresh-ids :
      (node : String) (fresh : List (Candidate Float)) (entry : Option (StableEntry Float))
      (s : Stability Float)
      → map (λ c. c.chunk_id) (refresh node fresh entry s).0 ≡ map (λ c. c.chunk_id) fresh
  unfolding refresh
  refresh-ids node fresh none s = refl
  refresh-ids node fresh (some prev) s = elim (Bool-cases (prev.sig == candidate_sig fresh)) [
    | inl e ↦ rw (refresh, e) (carried-ids prev.cands fresh)
    | inr e ↦ rw (refresh, e) refl
  ]

  stabilize-ids :
      (node : String) (fresh : List (Candidate Float)) (s : Stability Float)
      → (is_empty node || nat_eq (length fresh) 0) ≡ false
      → map (λ c. c.chunk_id) (stabilize node fresh s).0 ≡ map (λ c. c.chunk_id) fresh
  unfolding stabilize
  stabilize-ids node fresh s h = rw (stabilize, h) (refresh-ids node fresh (entry_of node s) s)

  -- The chunks of a render are those of its candidates.
  any-ids :
      (id : String) (cs : List (Candidate Float))
      → any (λ j. j == id) (map (λ c. c.chunk_id) cs) ≡ any (λ c. c.chunk_id == id) cs
  any-ids id cs =
      any-map (λ (c : Candidate Float). c.chunk_id) (λ j. j == id) (λ c. c.chunk_id == id)
        (λ c. refl) cs

  -- Every chunk of b is one of a.
  All-present :
      (cs : List (Candidate Float)) → All (λ c. any (λ d. d.chunk_id == c.chunk_id) cs ≡ true) cs
  All-present cs = go cs (λ id h. h)
    where
      go :
          (ds : List (Candidate Float))
          → ((id : String)
              → any (λ d. d.chunk_id == id) ds ≡ true
              → any (λ d. d.chunk_id == id) cs ≡ true)
          → All (λ c. any (λ d. d.chunk_id == c.chunk_id) cs ≡ true) ds
      go [] h = tt
      go (d ∷ ds) h =
          (h d.chunk_id (rw (eq_refl d.chunk_id) refl), go ds (λ id k. h id (ground (arith, k))))

  -- Of two renders for a bullet, one after the other, that have candidates of the same chunks (their
  -- chunk ids, sorted, are the same list): the second has the ranking and the scores of its own
  -- candidates, and each of its candidates is shown as the first render showed a candidate of that
  -- chunk.
  pub stabilize-SameShown :
      (node : String) (a b : List (Candidate Float)) (s : Stability Float)
      → (is_empty node || nat_eq (length a) 0) ≡ false
      → (is_empty node || nat_eq (length b) 0) ≡ false
      → sort_by id_leb (map (λ c. c.chunk_id) a) ≡ sort_by id_leb (map (λ c. c.chunk_id) b)
      → (map ranked (stabilize node b (stabilize node a s).1).0 ≡ map ranked b)
        × All (ShownBefore (stabilize node a s).0) (stabilize node b (stabilize node a s).1).0
  unfolding candidate_sig
  stabilize-SameShown node a b s ha hb same =
      let prev = (stabilize node a s).0 in
      rw (second node a b s ha hb (ap (join "|") same))
        (map-carry prev b, All-carry prev b (All-imp (λ c h. there c.chunk_id h) b (All-present b)))
    where
      there :
          (id : String)
          → any (λ c. c.chunk_id == id) b ≡ true
          → any (λ c. c.chunk_id == id) (stabilize node a s).0 ≡ true
      there id h =
          sym (any-ids id (stabilize node a s).0)
          ∙ ap (any (λ j. j == id)) (stabilize-ids node a s ha)
          ∙ sym (any-sort_by id_leb (λ j. j == id) (map (λ c. c.chunk_id) a))
          ∙ ap (any (λ j. j == id)) same
          ∙ any-sort_by id_leb (λ j. j == id) (map (λ c. c.chunk_id) b)
          ∙ any-ids id b
          ∙ h

      map-carry :
          (prev cs : List (Candidate Float)) → map ranked (map (carry prev) cs) ≡ map ranked cs
      map-carry prev [] = refl
      map-carry prev (c ∷ cs) =
          ap (λ d. d ∷ map ranked (map (carry prev) cs)) (carry-id prev c)
          ∙ ap (λ ds. ranked c ∷ ds) (map-carry prev cs)

      All-carry :
          (prev cs : List (Candidate Float))
          → All (λ c. any (λ d. d.chunk_id == c.chunk_id) prev ≡ true) cs
          → All (ShownBefore prev) (map (carry prev) cs)
      All-carry prev [] h = tt
      All-carry prev (c ∷ cs) h = (carry-ShownBefore prev c h.0, All-carry prev cs h.1)
