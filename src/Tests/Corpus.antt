-- ===== src/Tests/Corpus.antt =====
-- The theorems of the corpus, of its ingestion and of its windows at concrete inputs.
use flying_shuttle.Prelude.{
  ◌≡◌, ◌≤◌, inr, refl, true, false, ◌&&◌, none, some, List, [], ◌∷◌, ◌++◌, String, All, any, map,
  length, ◌==◌,
}
use flying_shuttle.Prelude.Int.{ℤ, pos, ltb_ℤ}
use flying_shuttle.Prelude.Result.{ok, Err}
use Prim.Native.String.{◌++◌ as ◌++ˢ◌}
use flying_shuttle.Text.{concat, trim_space}
use flying_shuttle.Text.Runes.{fields, join}
use flying_shuttle.Model.{Chunk, Upload, pending, TranscriptSegment}
use flying_shuttle.Corpus.Db.{ChunkRow, CorpusDb, empty_corpus}
use flying_shuttle.Corpus.Chunks.{
  create_chunk, soft_delete_chunks_by_source_file, get_chunk, get_chunks_by_ids, live_chunks,
  list_chunks, list_chunks_page, list_chunks_by_source_file,
}
use flying_shuttle.Corpus.Embeddings.{get_meta, set_meta}
use flying_shuttle.Corpus.Calls.{CorpusCall, corpus_history}
use flying_shuttle.Corpus.Valid.{IsCorpus, corpus_history-IsCorpus}
use flying_shuttle.Corpus.Kept.{IsKept, corpus_history-IsKept}
use flying_shuttle.Corpus.Reads.{holds, asked, get_chunks_by_ids_lem}
use flying_shuttle.Corpus.Pages.{list_chunks_page_lem}
use flying_shuttle.Corpus.Settings.{set_meta-get_meta}
use flying_shuttle.Ingest.Sentences.{split_sentences}
use flying_shuttle.Ingest.Whole.{split_sentences_lem}
use flying_shuttle.Ingest.Chunker.{byte_length, chunk_transcript}
use flying_shuttle.Ingest.Sizes.{IsLaid, IsFull, AllButLast, chunk_transcript_lem}
use flying_shuttle.Transcript.Window.{Window, window_around}
use flying_shuttle.Transcript.Files.{source_files, same_file, counted, of_file, source_files_lem}
use flying_shuttle.Transcript.Shown.{IsShown, window_around_lem}
use flying_shuttle.Prelude.Distinct.{Distinct}
use flying_shuttle.Prelude.Sort.{sort_by}
use flying_shuttle.Corpus.Uploads.{get_upload, list_transcript_segments}
use flying_shuttle.Pipeline.Run.{Faults, File, run, rechunk}
use flying_shuttle.Pipeline.Sources.{source_chunks}
use flying_shuttle.Pipeline.Again.{rechunk-source_chunks}
use flying_shuttle.Pipeline.Ends.{HasEnded, file_segments, run-HasEnded}

abbrev pub passage : String → String → Chunk
passage id text = record {
  id = id;
  source_file = "a.txt";
  content = text;
  start_offset = pos 0;
  end_offset = pos 3;
  speaker = none;
  embedding_vec = none;
  created_at = 5;
}

abbrev live_row : String → ChunkRow
live_row id = record { chunk = passage id "one"; deleted_at = none }

abbrev waiting : Upload
waiting = record {
  id = "u";
  filename = "a.txt";
  format = "txt";
  size_bytes = pos 9;
  status = pending;
  error = "";
  created_at = 5;
  updated_at = 5;
}

abbrev pub stocked : CorpusDb
stocked = record empty_corpus { chunks = live_row "p" ∷ live_row "q" ∷ []; uploads = waiting ∷ [] }

pub stocked-IsCorpus : IsCorpus stocked
stocked-IsCorpus = record {
  chunks_distinct = ((refl, tt), (tt, tt));
  uploads_distinct = (tt, tt);
  segments_distinct = tt;
  segments_refer = tt;
  meta_distinct = tt;
}

-- A transcript is superseded, an id is used twice, and vectors come and go.
abbrev corpus_script : List CorpusCall
corpus_script =
    CorpusCall.soft_delete 7 "a.txt"
    ∷ CorpusCall.create_chunk 8 (passage "r" "two")
    ∷ CorpusCall.create_chunk 9 (passage "p" "three")
    ∷ CorpusCall.set_chunk_embedding "p" (some (1 ∷ 2 ∷ []))
    ∷ CorpusCall.clear_all_embeddings
    ∷ []

corpus_history-IsCorpus_example : IsCorpus (corpus_history corpus_script stocked)
corpus_history-IsCorpus_example = corpus_history-IsCorpus corpus_script stocked stocked-IsCorpus

corpus_history-IsKept_example : IsKept (live_row "p") (corpus_history corpus_script stocked)
corpus_history-IsKept_example = corpus_history-IsKept corpus_script (live_row "p") stocked refl

get_chunks_by_ids_lem_example :
    All
      (λ c. (get_chunk c.id stocked ≡ ok c) × (any (λ id. c.id == id) ("q" ∷ "z" ∷ []) ≡ true))
      (get_chunks_by_ids ("q" ∷ "z" ∷ []) stocked)
    × ((id : String)
        → holds id (get_chunks_by_ids ("q" ∷ "z" ∷ []) stocked)
          ≡ (asked id ("q" ∷ "z" ∷ []) && holds id (live_chunks stocked)))
get_chunks_by_ids_lem_example = get_chunks_by_ids_lem ("q" ∷ "z" ∷ []) stocked stocked-IsCorpus

list_chunks_page_lem_example :
    ((list_chunks_page (pos 1) (pos 0) stocked).0 ++ (list_chunks_page (pos 1) (pos 1) stocked).0
      ≡ (list_chunks_page (pos 2) (pos 0) stocked).0)
    × (length (list_chunks_page (pos 1) (pos 0) stocked).0 ≤ 1)
    × ((limit : ℤ)
        → ltb_ℤ (pos 0) limit ≡ false
        → (list_chunks_page limit (pos 0) stocked).0 ≡ list_chunks stocked)
    × ((limit offset : ℤ)
        → (list_chunks_page limit offset stocked).1 ≡ length (list_chunks stocked))
list_chunks_page_lem_example = list_chunks_page_lem 0 0 0 stocked

set_meta-get_meta_example :
    (get_meta "model" (set_meta "model" "m2" stocked).1 ≡ "m2")
    × ((other : String)
        → ("model" == other) ≡ false
        → get_meta other (set_meta "model" "m2" stocked).1 ≡ get_meta other stocked)
set_meta-get_meta_example = set_meta-get_meta "model" "m2" stocked

split_sentences_lem_example :
    (end : String) × (concat (split_sentences "One. Two? ") ++ˢ end ≡ "One. Two? ")
    × (trim_space end ≡ "")
split_sentences_lem_example = split_sentences_lem "One. Two? "

split_sentences_run : split_sentences "One. Two" ≡ "One." ∷ " Two" ∷ []
unfolding split_sentences trim_space
split_sentences_run = refl

abbrev spoken : String → TranscriptSegment
spoken text = record {
  id = "";
  upload_id = "u";
  speaker = "";
  text = text;
  start_ms = pos 0;
  end_ms = pos 0;
  created_at = 0;
}

abbrev two_sentences : List TranscriptSegment
two_sentences = spoken "One." ∷ spoken "Two." ∷ []

chunk_transcript_lem_example :
    (join " " (map (λ c. c.content) (chunk_transcript (λ i. "c") "a.txt" two_sentences))
      ≡ join " " ("One." ∷ "Two." ∷ []))
    × IsLaid 0 (chunk_transcript (λ i. "c") "a.txt" two_sentences)
    × AllButLast IsFull (chunk_transcript (λ i. "c") "a.txt" two_sentences)
chunk_transcript_lem_example = chunk_transcript_lem (λ i. "c") "a.txt" two_sentences

source_files_lem_example :
    Distinct same_file (source_files (passage "p" "one" ∷ passage "q" "two" ∷ []))
    × ((f : String)
        → counted f (source_files (passage "p" "one" ∷ passage "q" "two" ∷ []))
          ≡ of_file f (passage "p" "one" ∷ passage "q" "two" ∷ []))
source_files_lem_example = source_files_lem (passage "p" "one" ∷ passage "q" "two" ∷ [])

window_around_lem_example :
    (w : Window) × (window_around "q" (pos 1) stocked ≡ ok w)
    × IsShown "q" (pos 1) (list_chunks_by_source_file "a.txt" stocked) w
unfolding get_chunk
window_around_lem_example = window_around_lem "q" (pos 1) (passage "q" "one") stocked refl

-- An index that keeps the chunks, and an error without a text.
abbrev keep : Chunk → List Chunk → List Chunk
keep c cs = c ∷ cs

abbrev no_text : Err → String
no_text e = ""

-- The first update of the status fails.
abbrev supersedes : Faults
supersedes = record { beginning = true; superseding = false; ending = false }

abbrev uploaded : File
uploaded = inr "One. Two."

run-HasEnded_example :
    HasEnded keep no_text
      (λ i. "n")
      9
      "u"
      "a.txt"
      (file_segments keep no_text (λ i. "s") "u" uploaded)
      (run keep no_text supersedes (λ i. "s") (λ i. "n") 9 "u" uploaded "a.txt" (stocked, [])).0
run-HasEnded_example =
    run-HasEnded keep no_text supersedes (λ i. "s") (λ i. "n") 9 "u" uploaded "a.txt" (stocked, [])
      refl refl refl

-- The upload with its stored segments.
abbrev transcribed : CorpusDb
transcribed = record stocked {
  segments = record (spoken "One.") { id = "s" } ∷ record (spoken "Two.") { id = "t" } ∷ [];
}

abbrev chunked : List Chunk
chunked =
    record (passage "n" "One. Two.") { start_offset = pos 0; end_offset = pos 9; created_at = 9 }
    ∷ []

rechunk-source_chunks_example :
    source_chunks "a.txt" (rechunk keep no_text false (λ i. "n") 9 "u" (transcribed, [])).1.0
    ≡ chunked
unfolding rechunk get_upload list_transcript_segments sort_by chunk_transcript fields create_chunk
    soft_delete_chunks_by_source_file join byte_length
rechunk-source_chunks_example =
    rechunk-source_chunks keep no_text false (λ i. "n") 9 "u" waiting chunked transcribed [] refl
      refl
