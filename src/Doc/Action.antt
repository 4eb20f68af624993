-- ===== src/Doc/Action.antt =====
-- Methods of the store and of the services over it, as state passing over `Db`.
use flying_shuttle.Prelude.Result.{Result, ok, err, Err}
use flying_shuttle.Prelude.{◌≡◌}
use flying_shuttle.Doc.Db.{Db}

-- A method: its result, and the database after it.
abbrev pub Action : Type 0 → Type 0
Action A = Db → Result A × Db

abbrev pub pure : {A : Type 0} → A → Action A
pure a db = (ok a, db)

abbrev pub raise : {A : Type 0} → Err → Action A
raise e db = (err e, db)

-- What was committed before an error stays.
infixl 5 ◌>>=◌ ◌>>◌
abbrev pub continue : {A B : Type 0} → Result A → (A → Action B) → Action B
continue (ok a) f db = f a db
continue (err e) f db = (err e, db)

abbrev pub ◌>>=◌ : {A B : Type 0} → Action A → (A → Action B) → Action B
◌>>=◌ m f db = continue (m db).0 f (m db).1

abbrev pub ◌>>◌ : {A : Type 0} → Action (Unit {0}) → Action A → Action A
m >> n = m >>= λ _. n

-- One statement, or a transaction with its deferred rollback: refused, it leaves all as it was.
abbrev pub exec : (Db → Result Db) → Action (Unit {0})
exec f db = elim (f db) [ ok db' ↦ (ok tt, db') | err e ↦ (err e, db) ]

-- A query.
abbrev pub reads : {A : Type 0} → (Db → A) → Action A
reads f db = (ok (f db), db)

-- A query that may fail.
abbrev pub query : {A : Type 0} → (Db → Result A) → Action A
query f db = (f db, db)

-- A transaction followed by a result.
module _ {A : Type 0} (f : Db → Result Db) (a : A) (db : Db) where
  pub exec-pure-ok : {db' : Db} → f db ≡ ok db' → (exec f >> pure a) db ≡ (ok a, db')
  exec-pure-ok h = rw (h, exec, ◌>>=◌, ◌>>◌)

  pub exec-pure-err : {e : Err} → f db ≡ err e → (exec f >> pure a) db ≡ (err e, db)
  exec-pure-err h = rw (h, exec, ◌>>=◌, ◌>>◌)

module _ (f : Db → Result Db) (db : Db) where
  pub exec-ok : {db' : Db} → f db ≡ ok db' → exec f db ≡ (ok tt, db')
  exec-ok h = rw (h, exec)

  pub exec-err : {e : Err} → f db ≡ err e → exec f db ≡ (err e, db)
  exec-err h = rw (h, exec)
