-- ===== src/Doc/Branches/Split.antt =====
-- The branches of a document (internal/doc/sqlite.go): it is not split, or one of at least two branches
-- is active.
use flying_shuttle.Prelude.{
  ℕ, String, ◌≡◌, ◌∙◌, sym, subst, true, inl, inr, Bool-cases, Option-cases, some, any,
  find-eq-none, All-find, All-any, find, eq_iff, ◌==◌,
}
use flying_shuttle.Prelude.Result.{Result, ok, err}
use flying_shuttle.Model.{Branch, BranchSummary}
use flying_shuttle.Doc.Db.{Db}
use flying_shuttle.Doc.Action.{exec}
use flying_shuttle.Doc.State.{gather_dag_state}
use flying_shuttle.Doc.Branches.{
  new_branch, create_branch_tx, switch_tx, delete_branch, create_branch, update_branch,
  switch_branch, branch_summary,
}
use flying_shuttle.Doc.Valid.{IsValid}
use flying_shuttle.Doc.Valid.Insert.{Ensures}
use flying_shuttle.Doc.Branches.Rows.{
  IsSplit, create_branch_tx-IsSplit, switch_tx-IsSplit, without_branch-IsSplit, renamed-IsSplit,
}

-- A transaction that keeps the split is carried out or rolled back.
committed :
    (f : Db → Result Db) (db : Db)
    → IsSplit db.branches
    → Ensures (λ db'. IsSplit db'.branches) (f db)
    → IsSplit (exec f db).1.branches
committed f db split h = go (f db) h
  where
    go :
        (r : Result Db)
        → Ensures (λ db'. IsSplit db'.branches) r
        → IsSplit
            (elim r as (λ _. Result (Unit {0}) × Db) [
              | ok db' ↦ (ok tt, db')
              | err e ↦ (err e, db)
            ]).1.branches
    go (ok db') k = k
    go (err e) k = split

create_branch-IsSplit :
    (seen : Db) (now : ℕ) (main_id id name : String) (db : Db)
    → IsSplit db.branches
    → IsSplit (create_branch seen now main_id id name db).1.branches
unfolding create_branch
create_branch-IsSplit seen now main_id id name db split =
    go (create_branch_tx now main_id id name (gather_dag_state seen) db)
      (create_branch_tx-IsSplit now main_id id name (gather_dag_state seen) db)
  where
    go :
        (r : Result Db)
        → Ensures (λ db'. IsSplit db'.branches) r
        → IsSplit
            (let out : Result BranchSummary × Db = elim r [
              | ok db' ↦
                  (ok (branch_summary (new_branch now id name true (gather_dag_state seen))), db')
              | err e ↦ (err e, db)
            ] in
              out).1.branches
    go (ok db') k = k
    go (err e) k = split

-- From a valid database whose document is not split, or has one active of at least two branches,
-- creating, renaming, deleting and switching branches lead to such a database, whether they succeed
-- or fail, provided that the row of the branch to delete or to switch to is, when the transaction
-- runs, the one that the call has read before it; what the other queries before the transaction have
-- found does not matter.
pub branches-IsSplit :
    (db : Db)
    → IsValid db
    → IsSplit db.branches
    → (seen : Db) (now : ℕ) (main_id id name : String) (uuid : ℕ → String)
    → find (λ b. b.id == id) db.branches ≡ find (λ b. b.id == id) seen.branches
    → IsSplit (create_branch seen now main_id id name db).1.branches
      × IsSplit (update_branch now id name db).1.branches
      × IsSplit (delete_branch seen id db).1.branches
      × IsSplit (switch_branch seen uuid now id db).1.branches
unfolding update_branch delete_branch switch_branch
branches-IsSplit db valid split seen now main_id id name uuid same =
    (create_branch-IsSplit seen now main_id id name db split, updated, deleted, switched)
  where
    updated : IsSplit (update_branch now id name db).1.branches
    updated = elim (Bool-cases (any (λ b. b.id == id) db.branches)) [
      | inl t ↦ rw t (renamed-IsSplit now id name db split)
      | inr f ↦ rw f split
    ]

    deleted : IsSplit (delete_branch seen id db).1.branches
    deleted = elim (Option-cases (find (λ b. b.id == id) seen.branches)) [
      | inl n ↦ rw (n, delete_branch) split
      | inr (b, f) ↦ elim (Bool-cases b.active) [
        | inl t ↦ rw (f, delete_branch) (rw t split)
        | inr i ↦
            rw (f, delete_branch) (rw i (without_branch-IsSplit id b db valid (same ∙ f) i split))
      ]
    ]

    same_id : (b : Branch) → find (λ x. x.id == id) db.branches ≡ some b → b.id ≡ id
    same_id b f =
        (eq_iff b.id id).0
          (All-find (λ _. Unit {0}) (λ x. x.id == id) db.branches b (All-any db.branches) f).1

    found :
        (b : Branch)
        → find (λ x. x.id == id) db.branches ≡ some b
        → any (λ x. x.id == b.id) db.branches ≡ true
    found b f = elim (Bool-cases (any (λ x. x.id == id) db.branches)) [
      | inl t ↦ subst (λ j. any (λ x. x.id == j) db.branches ≡ true) (sym (same_id b f)) t
      | inr n ↦ absurd (cc (f, find-eq-none (λ x. x.id == id) db.branches n))
    ]

    switched : IsSplit (switch_branch seen uuid now id db).1.branches
    switched = elim (Option-cases (find (λ b. b.id == id) seen.branches)) [
      | inl n ↦ rw (n, switch_branch) split
      | inr (b, f) ↦ elim (Bool-cases b.active) [
        | inl t ↦ rw (f, switch_branch) (rw t split)
        | inr i ↦
            rw (f, switch_branch)
              (rw i (
                committed (switch_tx uuid now (gather_dag_state seen) b) db split (
                  switch_tx-IsSplit uuid now (gather_dag_state seen) b db (found b (same ∙ f))
                    split)))
      ]
    ]
