-- ===== src/Indexer/Floats.antt =====
-- Vectors as the bytes that the corpus stores (internal/ingest/embed.go).
use flying_shuttle.Prelude.{ℕ, ◌+◌, ◌*◌, ◌/◌, ◌%◌, ◌^◌, ◌<◌, ◌≡◌, refl, [], ◌∷◌, All, arith}
use flying_shuttle.Indexer.Backfill.{Floats, float32s_to_bytes, bytes_to_float32s}

word :
    (f : ℕ)
    → f < 2 ^ 32
    → f % 256
        + 256 * (f / 256 % 256)
        + 256 ^ 2 * (f / 256 ^ 2 % 256)
        + 256 ^ 3 * (f / 256 ^ 3 % 256)
      ≡ f
word f h = omega arith

-- Reading the bytes that were stored for a vector gives its floats, each of 32 bits, back.
pub float32s_to_bytes-bytes_to_float32s :
    (fs : Floats) → All (λ f. f < 2 ^ 32) fs → bytes_to_float32s (float32s_to_bytes fs) ≡ fs
unfolding float32s_to_bytes bytes_to_float32s
float32s_to_bytes-bytes_to_float32s [] h = refl
float32s_to_bytes-bytes_to_float32s (f ∷ fs) h =
    rw (word f h.0, float32s_to_bytes-bytes_to_float32s fs h.1) refl
