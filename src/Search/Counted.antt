-- ===== src/Search/Counted.antt =====
-- What adding a document does to the counts of the keyword index (internal/search/bm25.go).
use flying_shuttle.Prelude.{
  ℕ, suc, ◌+◌, ◌≡◌, refl, ap, ◌∙◌, String, Bool, true, false, not, ◌&&◌, ◌||◌, inl, inr, Bool-cases,
  List, [], ◌∷◌, length, ◌==◌, eq_iff, eq_refl, arith, if◌then◌else◌,
}
use flying_shuttle.Search.Bm25.{Bm25Index, has_key, value_of, delete_key, has, remove, added, add}

module _ {A : Type 0} where
  abbrev pub KeysDistinct : List (String × A) → Type 0
  KeysDistinct [] = Unit
  KeysDistinct (kv ∷ m) = (has_key kv.0 m ≡ false) × KeysDistinct m

  pub has_key-delete_key :
      (j k : String) (m : List (String × A))
      → has_key j (delete_key k m) ≡ (has_key j m && not (k == j))
  has_key-delete_key j k [] = refl
  has_key-delete_key j k (kv ∷ m) = elim (Bool-cases (kv.0 == k)) [
    | inl e ↦
        rw e (ground (arith, has_key-delete_key j k m, eq_iff kv.0 k, eq_iff kv.0 j, eq_iff k j))
    | inr e ↦
        rw e (ground (arith, has_key-delete_key j k m, eq_iff kv.0 k, eq_iff kv.0 j, eq_iff k j))
  ]

  delete_key-absent :
      (k : String) (m : List (String × A)) → has_key k m ≡ false → delete_key k m ≡ m
  delete_key-absent k [] h = refl
  delete_key-absent k (kv ∷ m) h = elim (Bool-cases (kv.0 == k)) [
    | inl e ↦ absurd (ground (arith, h, e))
    | inr e ↦ rw e (ap (λ n. kv ∷ n) (delete_key-absent k m (rw e at h)))
  ]

  delete_key-KeysDistinct :
      (k : String) (m : List (String × A)) → KeysDistinct m → KeysDistinct (delete_key k m)
  delete_key-KeysDistinct k [] h = tt
  delete_key-KeysDistinct k (kv ∷ m) h = elim (Bool-cases (kv.0 == k)) [
    | inl e ↦ rw e (delete_key-KeysDistinct k m h.1)
    | inr e ↦ rw e (rw (has_key-delete_key kv.0 k m, h.0) refl, delete_key-KeysDistinct k m h.1)
  ]

  gone : (k : String) (m : List (String × A)) → has_key k (delete_key k m) ≡ false
  gone k m = ground (arith, has_key-delete_key k k m, eq_refl k)

abbrev pub sum_of : List (String × ℕ) → ℕ
sum_of [] = 0
sum_of (kv ∷ m) = kv.1 + sum_of m

-- What a key takes from the sum and from the number of the rows.
taken_off :
    (k : String) (m : List (String × ℕ))
    → KeysDistinct m
    → has_key k m ≡ true
    → (sum_of m ≡ value_of k 0 m + sum_of (delete_key k m))
      × (length m ≡ suc (length (delete_key k m)))
unfolding value_of
taken_off k [] d h = absurd (cc h)
taken_off k (kv ∷ m) d h = elim (Bool-cases (kv.0 == k)) [
  | inl e ↦
      let same : kv.0 ≡ k = (eq_iff kv.0 k).0 e in
      let out : delete_key k m ≡ m = delete_key-absent k m (rw same at d.0) in
      rw e (rw out (refl, refl))
  | inr e ↦ let (s, l) = taken_off k m d.1 (rw e at h) in rw e (ground (arith, s), ap suc l)
]

-- The counts are those of the documents.
abbrev pub IsCounted : Bm25Index → Type 0
IsCounted idx =
    KeysDistinct idx.doc_len
    × (idx.total ≡ sum_of idx.doc_len)
    × (idx.num_docs ≡ length idx.doc_len)

remove-IsCounted : (id : String) (idx : Bm25Index) → IsCounted idx → IsCounted (remove id idx)
unfolding remove
remove-IsCounted id idx (d, t, n) = elim (Bool-cases (has_key id idx.doc_len)) [
  | inr e ↦ rw (remove, e) (d, t, n)
  | inl e ↦
      let (s, l) = taken_off id idx.doc_len d e in
      rw (remove, e)
        (delete_key-KeysDistinct id idx.doc_len d, ground (arith, s, t), ground (arith, l, n))
]

remove-has : (id : String) (idx : Bm25Index) → has id (remove id idx) ≡ false
unfolding remove
remove-has id idx = elim (Bool-cases (has_key id idx.doc_len)) [
  | inr e ↦ rw (remove, e) e
  | inl e ↦ rw (remove, e) (gone id idx.doc_len)
]

added-IsCounted :
    (id : String) (tokens : List String) (idx : Bm25Index)
    → has id idx ≡ false
    → IsCounted idx
    → IsCounted (added id tokens idx)
added-IsCounted id tokens idx h (d, t, n) =
    let out = delete_key-absent id idx.doc_len h in
    rw out ((h, d), ground (arith, t), ground (arith, n))

either :
    (P : Bm25Index → Type 0) (b : Bool) (x y : Bm25Index)
    → (b ≡ true → P x)
    → (b ≡ false → P y)
    → P (if b then x else y)
either P true x y f g = f refl
either P false x y f g = g refl

-- Adding a document to the keyword index, a new one or one that it has already, keeps the counts
-- true: no document has two lengths, the total is the sum of the lengths, and the number of
-- documents is that of the lengths.
pub add-IsCounted :
    (tokenize : String → List String) (id text : String) (idx : Bm25Index)
    → IsCounted idx
    → IsCounted (add tokenize id text idx)
unfolding add
add-IsCounted tokenize id text idx c =
    either (λ b. IsCounted (added id (tokenize text) b)) (has id idx) (remove id idx) idx
      (λ e.
        added-IsCounted id (tokenize text) (remove id idx) (remove-has id idx)
          (remove-IsCounted id idx c))
      (λ e. added-IsCounted id (tokenize text) idx e c)

has-added :
    (id j : String) (tokens : List String) (idx : Bm25Index)
    → has id (added j tokens idx) ≡ ((j == id) || has id idx)
has-added id j tokens idx = ground (arith, has_key-delete_key id j idx.doc_len)

has-remove :
    (id j : String) (idx : Bm25Index)
    → ((j == id) || has id (remove j idx)) ≡ ((j == id) || has id idx)
unfolding remove
has-remove id j idx = elim (Bool-cases (has_key j idx.doc_len)) [
  | inr e ↦ rw (remove, e) refl
  | inl e ↦ rw (remove, e) (ground (arith, has_key-delete_key id j idx.doc_len))
]

pub has-add :
    (tokenize : String → List String) (id j text : String) (idx : Bm25Index)
    → has id (add tokenize j text idx) ≡ ((j == id) || has id idx)
unfolding add
has-add tokenize id j text idx =
    either (λ b. has id (added j (tokenize text) b) ≡ ((j == id) || has id idx)) (has j idx)
      (remove j idx) idx (λ e. has-added id j (tokenize text) (remove j idx) ∙ has-remove id j idx)
      (λ e. has-added id j (tokenize text) idx)
