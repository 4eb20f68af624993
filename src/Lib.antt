-- ===== src/Lib.antt =====
-- The verification library of the flying-shuttle server, which keeps a document as a graph of bullets,
-- quotes and chapters in SQLite, edits it as an outline, and orders and stitches it into a text; and which
-- keeps the transcripts that the document quotes in a corpus of chunks, with their search index.
--
-- The parts and their files:
--   Model           the structs of internal/model.
--   Doc             the document store, internal/doc/sqlite.go and store.go. A database is a record of
--                   tables (Doc/Db), each a list of rows in insertion order; a method is a function
--                   from the database to a result and a database (Doc/Action), so what was committed
--                   before an error stays, and a transaction that fails leaves the database as it was.
--                   Doc/Nodes, Edges, Evidence, Threads, State, Snapshots and Branches hold the
--                   methods, named like the methods of SQLiteStore; Doc/Calls lists them as one type
--                   of calls. Doc/Stamp is the text of the created_at columns, which ORDER BY compares.
--   Dag             internal/dag: the search for cycles and the report (validate.go), the walks and
--                   the topological sort (traverse.go), the conditions on edges (condition.go) and the
--                   stitched manuscript (linearize.go).
--   Stitch          internal/stitch: the spans of a stitched text and the stub stitcher.
--   Outline         internal/outline: the forest of bullets (tree.go), the diff against a base
--                   (diff.go), and the service of edits and quotes (service.go).
--   Corpus          the corpus store, internal/corpus/sqlite.go, in the same way: the tables (Corpus/Db),
--                   the methods (Corpus/Chunks, Embeddings, Uploads) and the calls that write
--                   (Corpus/Calls). Chunks are only ever marked deleted.
--   Ingest          internal/ingest/transcript.go: sentences (Sentences) and chunks (Chunker).
--   Transcript      internal/transcript: windows of neighbouring chunks, and the list of files.
--   Pipeline        internal/pipeline: an upload from its file to its chunks (Pipeline/Run).
--   Indexer         internal/indexer: the backfill of vectors (Backfill), the snapshots of the search
--                   index as steps that interleave (Snapshots) and its reconciliation with the corpus at
--                   startup (Reconcile).
--   Search          internal/search: the keyword index (Bm25) and, with the passages and the vectors, the
--                   index that is written to (Hybrid); its answers are not modelled.
--   Export          internal/export/markdown.go: the manuscript or a thread as Markdown.
--   Web             internal/web/exits_handler.go: the handlers of a bullet's exits, without the
--                   reading of requests and the writing of pages (Exits); and evidence_stability.go, the
--                   snippets that stay as they are while the writer types (Stability).
--   Prelude, Text   shared helpers: Boolean tests, lists, integers, the stable sort of ORDER BY, rows
--                   without clashes, results with errors; texts as Go's strings package sees them.
--   Tests           the theorems applied at concrete documents, and runs of the definitions.
--
-- The pipeline (Pipeline) parses and chunks a file (Ingest) and stores the chunks (Corpus), the windows
-- (Transcript) and the indexer read them, and the excerpts of quotes (Outline) are cut from them. The two
-- databases share nothing but the ids of chunks.
--
-- The service (Outline) and the handlers (Web) call the store (Doc) and the graph (Dag) and keep no
-- state of their own, so the database is the whole state. The store has one connection, so a statement or a
-- transaction runs alone, and the model runs each method of the store so. Other calls can come between
-- the queries that some methods make before their transaction and the transaction itself: CreateBranch,
-- DeleteBranch, SwitchBranch, CreateSnapshot and RestoreSnapshot take what those queries have found as an
-- argument of its own. What UpdateBranch reads after its UPDATE, and the handlers and services, which call
-- several methods, are modelled without calls in between.
--
-- What the code draws from outside is an argument: the current time, the ids of uuid.NewString,
-- strings.EqualFold and ToLower, the stitcher, the content of an uploaded file, the embedder, the
-- graph of the vectors, and the search index where the pipeline and the backfill call it, as one
-- function. Times are nanoseconds. Go's int is the unbounded ℤ: weights, positions and offsets stay
-- far below 2^63.
--
-- The search for cycles recurses on fuel, one more than the number of edges, and the topological sort
-- takes as much as there are nodes and edges: a walk that visits no node twice takes each edge once, and
-- no node is popped twice. The conditional walk and the building of the tree take fuel from the sizes of
-- the tables in the same way. Each says so in its result when its fuel runs out; a request that meets a
-- search out of fuel is refused. The batches of GetChunksByIDs take fuel from the number of ids and the
-- paragraphs of a transcript from the number of its runes, of which each step takes one at least; the
-- passages of a chunk take theirs from the number of its tokens. The
-- drain of the backfill has no bound of its own, so its fuel is an argument.
--
-- A text is a sequence of code points, that is, valid UTF-8; what the server makes of other bytes is not
-- modelled.
--
-- Not modelled: failures of SQLite other than constraints (but for the calls whose errors an ingestion
-- ignores, Pipeline/Run), opening and migrating a database, foreign code
-- (SQLite, templates, embeddings, language models), pages and requests, the copying of uploaded files, and
-- the parts of the server that follow: the ranking of search results, the atlas, projects, working
-- documents and the rendering of files.
pub mod Prelude
pub mod Text
pub mod Model
pub mod Doc
pub mod Corpus
pub mod Ingest
pub mod Transcript
pub mod Pipeline
pub mod Search
pub mod Indexer
pub mod Stitch
pub mod Dag
pub mod Web
pub mod Outline
pub mod Export
pub mod Tests
