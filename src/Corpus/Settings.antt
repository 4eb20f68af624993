-- ===== src/Corpus/Settings.antt =====
-- The meta table of internal/corpus/sqlite.go.
use flying_shuttle.Prelude.{
  ◌≡◌, refl, ap, ◌∙◌, false, inl, inr, Bool-cases, some, String, List, [], ◌∷◌, find, ◌==◌, eq_iff,
  eq_refl,
}
use flying_shuttle.Corpus.Db.{CorpusDb}
use flying_shuttle.Corpus.Embeddings.{get_meta, set_meta, upsert}

upsert-same :
    (key value : String) (kvs : List (String × String))
    → find (λ kv. kv.0 == key) (upsert key value kvs) ≡ some (key, value)
unfolding upsert
upsert-same key value [] = rw (eq_refl key) refl
upsert-same key value (kv ∷ kvs) = elim (Bool-cases (kv.0 == key)) [
  | inl e ↦ rw (e, eq_refl key) refl
  | inr e ↦ rw (e, e) (upsert-same key value kvs)
]

upsert-other :
    (key value other : String) (kvs : List (String × String))
    → (key == other) ≡ false
    → find (λ kv. kv.0 == other) (upsert key value kvs) ≡ find (λ kv. kv.0 == other) kvs
unfolding upsert
upsert-other key value other [] h = rw h refl
upsert-other key value other (kv ∷ kvs) h = elim (Bool-cases (kv.0 == key)) [
  | inl e ↦
      let apart : (kv.0 == other) ≡ false = ap (λ s. s == other) ((eq_iff kv.0 key).0 e) ∙ h in
      rw (e, h, apart) refl
  | inr e ↦ rw e (elim (Bool-cases (kv.0 == other)) [
    | inl t ↦ rw t refl
    | inr t ↦ rw t (upsert-other key value other kvs h)
  ])
]

-- After SetMeta, GetMeta of the key returns the value set, and GetMeta of any other key returns what
-- it returned before.
pub set_meta-get_meta :
    (key value : String) (db : CorpusDb)
    → (get_meta key (set_meta key value db).1 ≡ value)
      × ((other : String)
          → (key == other) ≡ false
          → get_meta other (set_meta key value db).1 ≡ get_meta other db)
unfolding set_meta get_meta
set_meta-get_meta key value db = (
  rw (get_meta, set_meta, upsert-same key value db.meta) refl,
  λ other h. rw (get_meta, set_meta, upsert-other key value other db.meta h) refl,
)
