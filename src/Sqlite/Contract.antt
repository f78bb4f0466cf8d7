-- ===== src/Sqlite/Contract.antt =====
-- src/sqlite.rs keeps the contract of a metadata database.
use findex_cloud.Base.{
  Bytes, bytes_eq, Option, some, List, ◌++◌, ◌≡◌, ◌≢◌, inl, inr, refl, sym, ap, ◌∙◌, fun_ext, arith,
}
use findex_cloud.Errors.{Result, ok, err, panicked}
use findex_cloud.Errors.Laws.{ok-injective}
use findex_cloud.Core.{Index, NewIndex}
use findex_cloud.Core.Cache.Laws.{Rows, IsMetadata}
use findex_cloud.Sqlite.{get_indexes, get_index, delete_index, create_index, database}
use findex_cloud.Sqlite.Table.{Db, where_id, delete_where_id}
use findex_cloud.Sqlite.Laws.{
  GetPost, get_index-post, DeletePost, delete_index-post, ListPost, get_indexes-post, CreatePost,
  create_index-post, where_id-delete, where_id-append,
}

-- The four operations are a metadata database whose rows are those of the table.
module _ (id : Bytes) (rows : List Index) where
  get_reads :
      (p : Result (Option Index) × Db) (o : Option Index)
      → GetPost id rows p
      → p.0 ≡ ok o
      → o ≡ where_id id rows
  get_reads (ok o', d) o (read, _) e = sym (ok-injective e) ∙ read
  get_reads (err _, d) o post e = cc
  get_reads (panicked, d) o post e = cc

  get_keeps : (p : Result (Option Index) × Db) → GetPost id rows p → p.1.rows ≡ rows
  get_keeps (ok o, d) (_, kept) = kept
  get_keeps (err _, d) kept = kept
  get_keeps (panicked, d) impossible = absurd impossible

  delete_removes :
      (p : Result (Unit {0}) × Db)
      → DeletePost id rows p
      → p.0 ≡ ok tt
      → p.1.rows ≡ delete_where_id id rows
  delete_removes (ok _, d) removed e = removed
  delete_removes (err _, d) kept e = cc
  delete_removes (panicked, d) impossible e = absurd impossible

  delete_keeps : (p : Result (Unit {0}) × Db) → DeletePost id rows p → p.0 ≢ ok tt → p.1.rows ≡ rows
  delete_keeps (ok _, d) removed failed = absurd (failed refl)
  delete_keeps (err _, d) kept failed = kept
  delete_keeps (panicked, d) impossible failed = absurd impossible

list_keeps : (d0 : Db) (p : Result (List Index) × Db) → ListPost d0 p → p.1.rows ≡ d0.rows
list_keeps d0 (ok o, d) (_, kept) = kept
list_keeps d0 (err _, d) kept = kept
list_keeps d0 (panicked, d) impossible = absurd impossible

kept_by_append :
    (id : Bytes) (index : Index) (rows more rows' : List Index)
    → rows' ≡ rows ++ more
    → where_id id rows ≡ some index
    → where_id id rows' ≡ some index
kept_by_append id index rows more rows' same found =
    ground (arith, ap (where_id id) same, where_id-append id rows more)

create_keeps :
    (new_index : NewIndex) (d : Db) (id : Bytes) (index : Index) (p : Result Index × Db)
    → CreatePost new_index d p
    → where_id id d.rows ≡ some index
    → where_id id p.1.rows ≡ some index
create_keeps new_index d id index (ok _, d') (_, _, more) found =
    kept_by_append id index d.rows _ d'.rows more found
create_keeps new_index d id index (err _, d') (inl same) found = ap (where_id id) same ∙ found
create_keeps new_index d id index (err _, d') (inr (_, more)) found =
    kept_by_append id index d.rows _ d'.rows more found
create_keeps new_index d id index (panicked, d') impossible found = absurd impossible

abbrev pub rows_of : Db → Rows
rows_of d id = where_id id d.rows

-- The operations of SQLite keep the contract of a metadata database: reads give the row of the ID
-- and change none, a deletion that succeeds removes the rows of its ID only, one that fails removes
-- none, and a creation changes no row that is there.
pub database-IsMetadata : IsMetadata database rows_of
unfolding database
database-IsMetadata = record {
  get_index-reads = λ id d o e. get_reads id d.rows (get_index id d) o (get_index-post id d) e;
  get_index-keeps = λ id d.
      ap (λ rows j. where_id j rows) (get_keeps id d.rows (get_index id d) (get_index-post id d));
  get_indexes-keeps =
      λ d. ap (λ rows j. where_id j rows) (list_keeps d (get_indexes d) (get_indexes-post d));
  delete_index-removes = λ id d e.
      ap (λ rows j. where_id j rows)
        (delete_removes id d.rows (delete_index id d) (delete_index-post id d) e)
      ∙ fun_ext (λ j. where_id-delete id j d.rows);
  delete_index-fails = λ id d failed.
      ap (λ rows j. where_id j rows)
        (delete_keeps id d.rows (delete_index id d) (delete_index-post id d) failed);
  create_index-keeps = λ new_index d id index found.
      create_keeps new_index d id index (create_index new_index d) (create_index-post new_index d)
        found;
}
