-- ===== src/Heed/Writes.antt =====
-- What the steps inside an LMDB transaction do to the content that it sees.
use findex_cloud.Base.{
  ℕ, ◌+◌, Bytes, Option, none, some, [], ◌∷◌, length, Bool, ◌≡◌, refl, ap, sym, ◌∙◌, bytes_eq,
  option_eq, if◌then◌else◌, arith, true, false,
}
use findex_cloud.Words.{add64, to_be_bytes}
use findex_cloud.Words.Signed.{
  ℤ, as_i64, add_i64, i64_bits-add_i64, i64_bits-as_i64, add_i64-as_i64,
}
use findex_cloud.Errors.{heed, ok, or_else, ◌>>=◌}
use findex_cloud.Errors.Laws.{>>=-eq-ok, or_else-eq-ok, ok-injective}
use findex_cloud.Core.{Table, Uids, EncryptedTable, UpsertItem, UpsertData}
use findex_cloud.Spec
use findex_cloud.Spec.{Content, update, reject, size_of, size_value, grow, total_length}
use findex_cloud.Heed.Keys.{key, size_key, layout}
use findex_cloud.Heed.Txn.{
  Lmdb, IsLmdb, size_i64, i64_to_be_bytes, read_size, fetch_loop, count_new, accept, upsert_one,
  upsert_loop, insert_loop, put_size,
}

-- The size is read as an `i64`, and is the one that the cell holds.
pub size_i64-as_i64 : (o : Option Bytes) → size_i64 o ≡ as_i64 (size_value o)
unfolding size_i64 size_value as_i64
size_i64-as_i64 none = refl
size_i64-as_i64 (some bytes) = ground arith

-- Adding lengths as `i64` writes the bytes that adding them as `usize` would.
i64_to_be_bytes-add :
    (o : Option Bytes) (n : ℕ)
    → i64_to_be_bytes (add_i64 (size_i64 o) (as_i64 n)) ≡ to_be_bytes (add64 (size_value o) n)
unfolding i64_to_be_bytes
i64_to_be_bytes-add o n = rw (size_i64-as_i64, i64_bits-add_i64)

abbrev pub add_lengths : ℤ → EncryptedTable → ℤ
add_lengths size [] = size
add_lengths size ((uid, value) ∷ rest) = add_lengths (add_i64 size (as_i64 (length value))) rest

add_lengths-as_i64 :
    (w : ℕ) (items : EncryptedTable)
    → add_lengths (as_i64 w) items ≡ as_i64 (w + total_length items)
unfolding total_length
add_lengths-as_i64 w [] = ap as_i64 (omega arith)
add_lengths-as_i64 w ((uid, value) ∷ rest) =
    rw add_i64-as_i64 (add_lengths-as_i64 (w + length value) rest ∙ ap as_i64 (omega arith))

-- The size that `insert_chains` writes.
pub size_bytes-add_lengths :
    (o : Option Bytes) (items : EncryptedTable)
    → i64_to_be_bytes (add_lengths (size_i64 o) items)
      ≡ to_be_bytes (add64 (size_value o) (total_length items))
unfolding i64_to_be_bytes add64
size_bytes-add_lengths o items = rw (size_i64-as_i64, add_lengths-as_i64, i64_bits-as_i64)

module _ (db : Lmdb) (lmdb : IsLmdb db) (id : Bytes) where
  open lmdb use {seen, seen-get, seen-put}

  get-seen :
      (t : db.Txn) (k : Bytes) (o : Option Bytes) → or_else heed (db.get t k) ≡ ok o → o ≡ seen t k
  get-seen t k o h = seen-get t k o (or_else-eq-ok heed (db.get t k) h)

  put-seen :
      (t u : db.Txn) (k v : Bytes)
      → or_else heed (db.put t k v) ≡ ok u
      → seen u ≡ update (seen t) k v
  put-seen t u k v h = seen-put t u k v (or_else-eq-ok heed (db.put t k v) h)

  pub read_size-seen :
      (t : db.Txn) (n : ℤ) → read_size db id t ≡ ok n → n ≡ size_i64 (seen t (size_key id))
  unfolding read_size
  read_size-seen t n h =
      let (found, got, e) = >>=-eq-ok _ _ h in
      sym (ok-injective e) ∙ ap size_i64 (get-seen t (size_key id) found got)

  -- A write of `n` more bytes in the size cell is what the specification writes.
  put_grown :
      (t u : db.Txn) (size : ℤ) (n : ℕ)
      → size ≡ size_i64 (seen t (size_key id))
      → or_else heed (db.put t (size_key id) (i64_to_be_bytes (add_i64 size (as_i64 n)))) ≡ ok u
      → seen u ≡ grow layout id (seen t) n
  unfolding grow size_of
  put_grown t u size n read put =
      put-seen t u (size_key id) _ put
      ∙ ap (update (seen t) (size_key id)) (
          ap (λ z. i64_to_be_bytes (add_i64 z (as_i64 n))) read
          ∙ i64_to_be_bytes-add (seen t (size_key id)) n)

  count_new-seen :
      (t u : db.Txn) (existing : Option Bytes) (v : Bytes)
      → count_new db id t existing v ≡ ok u
      → seen u ≡ Spec.count_new layout id existing (seen t) (length v)
  unfolding count_new
  count_new-seen t u (some _) v h = ap seen (sym (ok-injective h))
  count_new-seen t u none v h =
      let (size, read, put) = >>=-eq-ok _ _ h in
      put_grown t u size (length v) (read_size-seen t size read) put

  accept-seen :
      (t u : db.Txn) (item : UpsertItem)
      → accept db id t (seen t (key id Table.entries item.uid)) item ≡ ok u
      → seen u ≡ Spec.accept layout id (seen t) item
  unfolding accept Spec.accept
  accept-seen t u item h =
      let (w, counting, put) = >>=-eq-ok _ _ h in
      put-seen w u (key id Table.entries item.uid) item.new_value put
      ∙ ap (λ g. update g (key id Table.entries item.uid) item.new_value)
          (count_new-seen t w _ item.new_value counting)

  -- What a transaction sees, with the values rejected so far.
  abbrev view : db.Txn × EncryptedTable → Content × EncryptedTable
  view (t, r) = (seen t, r)

  upsert_branch-seen :
      (b : Bool) (t : db.Txn) (item : UpsertItem) (r rejected : EncryptedTable)
      (end : db.Txn × EncryptedTable)
      → (if b
          then (accept db id t (seen t (key id Table.entries item.uid)) item >>= λ u. ok (u, r))
          else ok (t, rejected))
        ≡ ok end
      → view end ≡ (if b then (Spec.accept layout id (seen t) item, r) else (seen t, rejected))
  upsert_branch-seen true t item r rejected end h =
      let (w, accepted, e) = >>=-eq-ok _ _ h in
      ap view (sym (ok-injective e)) ∙ ap (λ g. (g, r)) (accept-seen t w item accepted)
  upsert_branch-seen false t item r rejected end h = ap view (sym (ok-injective h))

  upsert_one-seen :
      (t : db.Txn) (item : UpsertItem) (r : EncryptedTable) (end : db.Txn × EncryptedTable)
      → upsert_one db id t item r ≡ ok end
      → view end ≡ Spec.upsert_one layout id (seen t, r) item
  unfolding upsert_one Spec.upsert_one
  upsert_one-seen t item r end h =
      let (existing, got, e) = >>=-eq-ok _ _ h in
      let cell = get-seen t (key id Table.entries item.uid) existing got in
      upsert_branch-seen _ t item r _ end (rw cell at e)

  pub upsert_loop-seen :
      (items : UpsertData) (t : db.Txn) (r : EncryptedTable) (end : db.Txn × EncryptedTable)
      → upsert_loop db id t items r ≡ ok end
      → view end ≡ Spec.upsert layout id (seen t, r) items
  unfolding upsert_loop Spec.upsert
  upsert_loop-seen [] t r end h = ap view (sym (ok-injective h))
  upsert_loop-seen (item ∷ rest) t r end h =
      let (mid, first, later) = >>=-eq-ok _ _ h in
      upsert_loop-seen rest mid.0 mid.1 end later
      ∙ ap (λ st. Spec.upsert layout id st rest) (upsert_one-seen t item r mid first)

  -- The loop of `insert_chains` writes the values and adds up their lengths as `i64`.
  pub insert_loop-seen :
      (items : EncryptedTable) (t : db.Txn) (size : ℤ) (end : db.Txn × ℤ)
      → insert_loop db id t size items ≡ ok end
      → (seen end.0 ≡ Spec.put_chains layout id (seen t) items) × (end.1 ≡ add_lengths size items)
  unfolding insert_loop Spec.put_chains
  insert_loop-seen [] t size end h =
      (ap (λ p. seen p.0) (sym (ok-injective h)), ap (λ p. p.1) (sym (ok-injective h)))
  insert_loop-seen ((uid, value) ∷ rest) t size end h =
      let (u, put, later) = >>=-eq-ok _ _ h in
      let (cells, sum) = insert_loop-seen rest u (add_i64 size (as_i64 (length value))) end later in
      (
        cells
            ∙ ap (λ f. Spec.put_chains layout id f rest)
                (put-seen t u (key id Table.chains uid) value put),
        sum,
      )

  pub fetch_loop-seen :
      (uids : Uids) (t : db.Txn) (table : Table) (found result : EncryptedTable)
      → fetch_loop db id t table uids found ≡ ok result
      → result ≡ Spec.fetch layout id (seen t) table uids found
  unfolding fetch_loop Spec.fetch
  fetch_loop-seen [] t table found result h = sym (ok-injective h)
  fetch_loop-seen (uid ∷ uids) t table found result h =
      let (o, got, later) = >>=-eq-ok _ _ h in
      fetch_loop-seen uids t table (reject uid o found) result later
      ∙ ap (λ v. Spec.fetch layout id (seen t) table uids (reject uid v found))
          (get-seen t (key id table uid) o got)

  pub put_size-seen :
      (t u : db.Txn) (size : ℤ)
      → put_size db id t size ≡ ok u
      → seen u ≡ update (seen t) (size_key id) (i64_to_be_bytes size)
  unfolding put_size
  put_size-seen t u size h = put-seen t u (size_key id) (i64_to_be_bytes size) h

  -- All that `insert_chains` writes in its transaction.
  pub chains-seen :
      (items : EncryptedTable) (t u : db.Txn) (size : ℤ) (mid : db.Txn × ℤ)
      → read_size db id t ≡ ok size
      → insert_loop db id t size items ≡ ok mid
      → put_size db id mid.0 mid.1 ≡ ok u
      → seen u ≡ Spec.insert_chains layout id (seen t) items
  unfolding Spec.insert_chains size_of
  chains-seen items t u size mid read ran put =
      let (cells, sum) = insert_loop-seen items t size mid ran in
      put_size-seen mid.0 u mid.1 put
      ∙ ap (λ f. update f (size_key id) (i64_to_be_bytes mid.1)) cells
      ∙ ap
          (λ z. update (Spec.put_chains layout id (seen t) items) (size_key id) (i64_to_be_bytes z))
          (sum ∙ ap (λ n. add_lengths n items) (read_size-seen t size read))
      ∙ ap (update (Spec.put_chains layout id (seen t) items) (size_key id))
          (size_bytes-add_lengths (seen t (size_key id)) items)
