-- ===== src/Corpus/Pages.antt =====
-- LIMIT and OFFSET in the paged queries of internal/corpus/sqlite.go.
use flying_shuttle.Prelude.{
  ℕ, zero, suc, ◌+◌, ◌≤◌, ◌≡◌, refl, sym, ap, ◌∙◌, true, false, List, [], ◌∷◌, ◌++◌, length, take,
  drop, arith,
}
use flying_shuttle.Prelude.Int.{ℤ, pos, ltb_ℤ}
use flying_shuttle.Prelude.Slices.{length-take_le, drop-drop, take-nil, sum_suc}
use flying_shuttle.Prelude.Sort.{length-sort_by}
use flying_shuttle.Corpus.Db.{CorpusDb, page}
use flying_shuttle.Corpus.Chunks.{live_chunks, list_chunks, list_chunks_page, created_leb}

module _ {ℓ} {A : Type ℓ} where
  take-split : (m n : ℕ) (xs : List A) → take m xs ++ take n (drop m xs) ≡ take (m + n) xs
  take-split zero n xs = ap (λ k. take k xs) (omega arith)
  take-split (suc m) n [] = take-nil n ∙ sym (take-nil (suc m + n))
  take-split (suc m) n (x ∷ xs) =
      ap (λ ys. x ∷ ys) (take-split m n xs) ∙ ap (λ k. take k (x ∷ xs)) (sum_suc m n)

module _ {ℓ} {A : Type ℓ} where
  page-limit : (m o : ℕ) (xs : List A) → page (pos (suc m)) (pos o) xs ≡ take (suc m) (drop o xs)
  unfolding page
  page-limit m o xs =
      let low : ltb_ℤ (pos o) (pos 0) ≡ false = ground arith in
      let positive : ltb_ℤ (pos 0) (pos (suc m)) ≡ true = ground arith in rw (low, positive) refl

  page-unlimited :
      (limit : ℤ) (o : ℕ) (xs : List A)
      → ltb_ℤ (pos 0) limit ≡ false
      → page limit (pos o) xs ≡ drop o xs
  unfolding page
  page-unlimited limit o xs h =
      let low : ltb_ℤ (pos o) (pos 0) ≡ false = ground arith in rw (low, h) refl

-- Of ListChunksPage: with positive limits, the page of m rows at an offset followed by the page of n
-- rows after it is the page of m + n rows; a page has no more rows than its limit; a limit that is not
-- positive gives all the rows from the offset on; and the total is the number of live chunks.
pub list_chunks_page_lem :
    (m n o : ℕ) (db : CorpusDb)
    → ((list_chunks_page (pos (suc m)) (pos o) db).0
          ++ (list_chunks_page (pos (suc n)) (pos (o + suc m)) db).0
        ≡ (list_chunks_page (pos (suc (m + suc n))) (pos o) db).0)
      × (length (list_chunks_page (pos (suc m)) (pos o) db).0 ≤ suc m)
      × ((limit : ℤ)
          → ltb_ℤ (pos 0) limit ≡ false
          → (list_chunks_page limit (pos o) db).0 ≡ drop o (list_chunks db))
      × ((limit offset : ℤ) → (list_chunks_page limit offset db).1 ≡ length (list_chunks db))
unfolding list_chunks_page list_chunks
list_chunks_page_lem m n o db = (
  rw
      (
        page-limit m o (list_chunks db),
        page-limit n (o + suc m) (list_chunks db),
        page-limit (m + suc n) o (list_chunks db),
        ← drop-drop (suc m) o (list_chunks db),
      )
      (take-split (suc m) (suc n) (drop o (list_chunks db))
        ∙ ap (λ k. take k (drop o (list_chunks db))) (sym (sum_suc m (suc n)))),
  rw (page-limit m o (list_chunks db)) (length-take_le (suc m) (drop o (list_chunks db))),
  λ limit h. page-unlimited limit o (list_chunks db) h,
  λ limit offset. sym (length-sort_by created_leb (live_chunks db)),
)
