-- ===== src/Doc/Threads.antt =====
-- The thread methods of SQLiteStore (internal/doc/sqlite.go).
use flying_shuttle.Prelude.{
  ℕ, String, Bool, none, some, List, any, find, map, select, ◌==◌, if◌then◌else◌,
}
use flying_shuttle.Prelude.Int.{leb_ℤ}
use flying_shuttle.Prelude.Sort.{sort_by}
use flying_shuttle.Prelude.Result.{Result, ok, err, not_found, each}
use flying_shuttle.Model.{Thread, ThreadNode}
use flying_shuttle.Doc.Stamp.{stamp_leb}
use flying_shuttle.Doc.Db.{Db, insert_thread, insert_thread_node, delete_where, update_where}
use flying_shuttle.Doc.Action.{Action, pure, exec, ◌>>◌}

abbrev pub created_thread : ℕ → Thread → Thread
created_thread now t = record t { created_at = now; updated_at = now }

unfoldable pub create_thread : ℕ → Thread → Action Thread
unfolding insert_thread
create_thread now t = do exec (insert_thread (created_thread now t)); pure (created_thread now t)

unfoldable pub get_thread : String → Db → Result Thread
get_thread id db = elim (find (λ t. t.id == id) db.threads) [ none ↦ err not_found | some t ↦ ok t ]

abbrev pub thread_leb : Thread → Thread → Bool
thread_leb a b = stamp_leb a.created_at b.created_at

unfoldable pub list_threads : Db → List Thread
list_threads db = sort_by thread_leb db.threads

unfoldable pub update_thread : ℕ → Thread → Action Thread
update_thread now t db =
    if any (λ u. u.id == t.id) db.threads
    then (
      ok (record t { updated_at = now }),
      record db {
        threads =
            update_where (λ u. u.id == t.id)
              (λ u. record u { name = t.name; description = t.description; updated_at = now })
              db.threads;
      },
    )
    else (err not_found, db)

-- With the cascade to thread_nodes.
unfoldable pub delete_thread : String → Action (Unit {0})
delete_thread id db =
    if any (λ t. t.id == id) db.threads
    then (
      ok tt,
      record db {
        threads = delete_where (λ t. t.id == id) db.threads;
        thread_nodes = delete_where (λ (tn : ThreadNode). tn.thread_id == id) db.thread_nodes;
      },
    )
    else (err not_found, db)

abbrev pub thread_position_leb : ThreadNode → ThreadNode → Bool
thread_position_leb a b = leb_ℤ a.position b.position

unfoldable pub get_thread_nodes : Db → String → List ThreadNode
get_thread_nodes db thread_id =
    sort_by thread_position_leb (select (λ tn. tn.thread_id == thread_id) db.thread_nodes)

-- Equal positions violate a UNIQUE constraint, so the order in which the sort leaves ties is not
-- seen.
unfoldable pub thread_nodes_tx : String → List ThreadNode → Db → Result Db
unfolding insert_thread_node
thread_nodes_tx thread_id nodes db =
    each insert_thread_node
      (map (λ (tn : ThreadNode). record tn { thread_id = thread_id })
        (sort_by thread_position_leb nodes))
      (record db { thread_nodes = delete_where (λ tn. tn.thread_id == thread_id) db.thread_nodes })

unfoldable pub set_thread_nodes : String → List ThreadNode → Action (Unit {0})
unfolding thread_nodes_tx
set_thread_nodes thread_id nodes = exec (thread_nodes_tx thread_id nodes)
