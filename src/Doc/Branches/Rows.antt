-- ===== src/Doc/Branches/Rows.antt =====
-- What the statements on the branches table (internal/doc/sqlite.go) do to the split of the document:
-- there are no branches, or one of at least two is active.
use flying_shuttle.Prelude.{
  ℕ, String, ◌≤◌, ◌≡◌, ◌⊎◌, refl, sym, ap, ◌∙◌, subst, Bool, true, false, not, inl, inr, Bool-cases,
  some, List, [], ◌∷◌, ◌++◌, any, any-append, length-select, All, find, length, length-append,
  eq_iff, arith, ◌==◌, nat_eq,
}
use flying_shuttle.Prelude.Result.{Result, ok, err}
use flying_shuttle.Prelude.Distinct.{Distinct, any-map}
use flying_shuttle.Model.{Branch, SnapshotData}
use flying_shuttle.Doc.Db.{Db, delete_where, update_where, insert_branch, branch_clash}
use flying_shuttle.Doc.State.{clear_dag_tables, restore_dag_state}
use flying_shuttle.Doc.Branches.{
  new_branch, depart, activate, without_branch, create_branch_tx, switch_tx, renamed,
}
use flying_shuttle.Doc.Valid.{IsValid}
use flying_shuttle.Doc.Valid.Insert.{Ensures, Ensures-bind}
use flying_shuttle.Doc.Valid.Restore.{restore-branches}

abbrev pub IsSplit : List Branch → Type 0
IsSplit rows = (length rows ≡ 0) ⊎ ((any (λ b. b.active) rows ≡ true) × (2 ≤ length rows))

insert_branch-Ensures :
    (b : Branch) (db : Db)
    → Ensures (λ db'. db'.branches ≡ db.branches ++ b ∷ []) (insert_branch b db)
unfolding insert_branch
insert_branch-Ensures b db = elim (Bool-cases (any (branch_clash b) db.branches)) [
  | inl t ↦ rw t tt
  | inr f ↦ rw f refl
]

length-update :
    {A : Type 0} (p : A → Bool) (f : A → A) (rows : List A)
    → length (update_where p f rows) ≡ length rows
length-update p f [] = refl
length-update p f (x ∷ xs) = omega (arith, length-update p f xs)

length-depart :
    (now : ℕ) (dag : SnapshotData) (db : Db)
    → length (depart now dag db).branches ≡ length db.branches
unfolding depart
length-depart now dag db = length-update (λ b. b.active) _ db.branches

length-activate :
    (now : ℕ) (id : String) (db : Db) → length (activate now id db).branches ≡ length db.branches
unfolding activate
length-activate now id db = length-update (λ b. b.id == id) _ db.branches

-- With one more, active branch a document that has one is split.
snoc-IsSplit :
    (b : Branch) (rows : List Branch) → b.active ≡ true → 1 ≤ length rows → IsSplit (rows ++ b ∷ [])
snoc-IsSplit b rows t h = inr (
  ground (arith, any-append (λ x. x.active) rows (b ∷ []), t),
  omega (arith, length-append rows (b ∷ []), h),
)

added :
    (b : Branch) (db : Db)
    → b.active ≡ true
    → 1 ≤ length db.branches
    → Ensures (λ db'. IsSplit db'.branches) (insert_branch b db)
added b db t h = go (insert_branch b db) (insert_branch-Ensures b db)
  where
    go :
        (r : Result Db)
        → Ensures (λ db'. db'.branches ≡ db.branches ++ b ∷ []) r
        → Ensures (λ db'. IsSplit db'.branches) r
    go (ok db') e = subst IsSplit (sym e) (snoc-IsSplit b db.branches t h)
    go (err e) k = tt

-- Creating a branch leaves the document split.
pub create_branch_tx-IsSplit :
    (now : ℕ) (main_id new_id name : String) (dag : SnapshotData) (db : Db)
    → Ensures (λ db'. IsSplit db'.branches) (create_branch_tx now main_id new_id name dag db)
unfolding create_branch_tx
create_branch_tx-IsSplit now main_id new_id name dag db =
    elim (Bool-cases (nat_eq (length db.branches) 0)) [
      | inl t ↦ rw t (
          Ensures-bind (λ db'. db'.branches ≡ db.branches ++ main ∷ [])
            (λ db'. IsSplit db'.branches) (insert_branch fresh)
            (λ db' e.
              added fresh db' refl
                (omega (arith, ap length e, length-append db.branches (main ∷ []))))
            (insert_branch main db) (insert_branch-Ensures main db))
      | inr f ↦
          rw f (added fresh (depart now dag db) refl (ground (arith, f, length-depart now dag db)))
    ]
  where
    main : Branch
    main = new_branch now main_id "main" false dag

    fresh : Branch
    fresh = new_branch now new_id name true dag

any-activate :
    (now : ℕ) (id : String) (db : Db)
    → any (λ b. b.id == id) db.branches ≡ true
    → any (λ b. b.active) (activate now id db).branches ≡ true
unfolding activate
any-activate now id db h = go db.branches h
  where
    go :
        (rows : List Branch)
        → any (λ b. b.id == id) rows ≡ true
        → any
            (λ b. b.active)
            (update_where
              (λ b. b.id == id)
              (λ b. record b { active = true; updated_at = now })
              rows)
          ≡ true
    go [] k = k
    go (b ∷ rows) k = elim (Bool-cases (b.id == id)) [
      | inl t ↦ rw t refl
      | inr f ↦ rw f (ground (arith, go rows (rw f at k)))
    ]

depart-ids :
    (now : ℕ) (dag : SnapshotData) (id : String) (db : Db)
    → any (λ b. b.id == id) (depart now dag db).branches ≡ any (λ b. b.id == id) db.branches
unfolding depart
depart-ids now dag id db =
    any-map _ (λ b. b.id == id) (λ b. b.id == id) (λ b. ground arith) db.branches

-- Switching to a branch that exists keeps the number of branches, and that branch becomes active.
pub switch_tx-IsSplit :
    (uuid : ℕ → String) (now : ℕ) (dag : SnapshotData) (target : Branch) (db : Db)
    → any (λ b. b.id == target.id) db.branches ≡ true
    → IsSplit db.branches
    → Ensures (λ db'. IsSplit db'.branches) (switch_tx uuid now dag target db)
unfolding switch_tx clear_dag_tables
switch_tx-IsSplit uuid now dag target db found split =
    Ensures-bind (λ db'. db'.branches ≡ (depart now dag db).branches) (λ db'. IsSplit db'.branches)
      (λ db'. ok (activate now target.id db')) after
      (restore_dag_state uuid now target.snapshot (clear_dag_tables (depart now dag db)))
      (restore-branches (depart now dag db).branches uuid now target.snapshot
        (clear_dag_tables (depart now dag db)) refl)
  where
    after :
        (db' : Db)
        → db'.branches ≡ (depart now dag db).branches
        → IsSplit (activate now target.id db').branches
    after db' same =
        let count : length (activate now target.id db').branches ≡ length db.branches =
          (length-activate now target.id db' ∙ ap length same ∙ length-depart now dag db) in
        elim split [
          | inl z ↦ inl (count ∙ z)
          | inr (_, two) ↦ inr (
            any-activate now target.id db'
                (ap (any (λ b. b.id == target.id)) same ∙ depart-ids now dag target.id db ∙ found),
            omega (arith, count, two),
          )
        ]

-- Deleting an inactive branch leaves the active one.
delete-active :
    (id : String) (b : Branch) (rows : List Branch)
    → Distinct branch_clash rows
    → find (λ x. x.id == id) rows ≡ some b
    → b.active ≡ false
    → any (λ x. x.active) rows ≡ true
    → any (λ x. x.active) (delete_where (λ x. x.id == id) rows) ≡ true
delete-active id b [] d f i a = a
delete-active id b (x ∷ rows) d f i a = elim (Bool-cases (x.id == id)) [
  | inl t ↦
      let same : x ≡ b = some-injective (rw t at f) in
      let idle : x.active ≡ false = ap (λ y. y.active) same ∙ i in
      rw t (others rows d.0 (rw idle at a) ((eq_iff x.id id).0 t))
  | inr n ↦ rw n (ground (arith, delete-active id b rows d.1 (rw n at f) i))
]
  where
    some-injective : {x y : Branch} → some x ≡ some y → x ≡ y
    some-injective h = cc h

    others :
        (ys : List Branch)
        → All (λ y. branch_clash x y ≡ false) ys
        → any (λ y. y.active) ys ≡ true
        → x.id ≡ id
        → any (λ y. y.active) (delete_where (λ y. y.id == id) ys) ≡ true
    others [] c k e = k
    others (y ∷ ys) c k e = ground (arith, eq_iff x.id y.id, eq_iff y.id id, others ys c.1)

pub without_branch-IsSplit :
    (id : String) (b : Branch) (db : Db)
    → IsValid db
    → find (λ x. x.id == id) db.branches ≡ some b
    → b.active ≡ false
    → IsSplit db.branches
    → IsSplit (without_branch id db).branches
unfolding without_branch
without_branch-IsSplit id b db v f i split =
    elim (Bool-cases (nat_eq (length (delete_where (λ x. x.id == id) db.branches)) 1)) [
      | inl one ↦ rw one (inl refl)
      | inr more ↦ rw more (elim split [
        | inl z ↦ inl (ground (arith, z, length-select (λ x. not (x.id == id)) db.branches))
        | inr (a, two) ↦
            let left = delete-active id b db.branches v.branches_distinct f i a in
            inr (
              left,
              ground (arith, more, some_left (delete_where (λ x. x.id == id) db.branches) left),
            )
      ])
    ]
  where
    some_left : (rows : List Branch) → any (λ x. x.active) rows ≡ true → 1 ≤ length rows
    some_left [] h = absurd (cc h)
    some_left (x ∷ rows) h = omega arith

pub renamed-IsSplit :
    (now : ℕ) (id name : String) (db : Db)
    → IsSplit db.branches
    → IsSplit (renamed now id name db).branches
unfolding renamed
renamed-IsSplit now id name db split = elim split [
  | inl z ↦ inl (length-update (λ b. b.id == id) _ db.branches ∙ z)
  | inr (a, two) ↦ inr (
    any-map _ (λ b. b.active) (λ b. b.active) (λ b. ground arith) db.branches ∙ a,
    omega (
      arith,
      two,
      length-update (λ b. b.id == id) (λ b. record b { name = name; updated_at = now }) db.branches,
    ),
  )
]
