-- ===== src/Rocksdb/Chains.antt =====
-- `insert_chains` of src/rocksdb.rs: the values first, each by a write of its own, then the size.
use mathlib.Core.List.{append-nil}
use findex_cloud.Base.{
  ℕ, ◌+◌, Bytes, [], ◌∷◌, ◌++◌, length, ◌≡◌, refl, ap, sym, ◌∙◌, arith, bytes_eq,
}
use findex_cloud.Words.{add64, to_be_bytes}
use findex_cloud.Errors.{rocksdb, Result, ok, err, panicked, done}
use findex_cloud.Exec.Laws.{post_rule, attempt_rule}
use findex_cloud.Core.{Index, Table, EncryptedTable}
use findex_cloud.Spec
use findex_cloud.Spec.{Content, update, size_of, size_value, total_length, IsSized}
use findex_cloud.Spec.Sizes.{put_chains-size_key}
use findex_cloud.Rocksdb.{put_loop, insert_chains}
use findex_cloud.Rocksdb.Keys.{key, size_key, layout, layout-IsInjective}
use findex_cloud.Rocksdb.Merge.{merge_add, merge_add-size}
use findex_cloud.Rocksdb.Client.{Rocks, IsRocks}

-- The running sum of the loop.
add_lengths : ℕ → EncryptedTable → ℕ
add_lengths size [] = size
add_lengths size ((uid, value) ∷ rest) = add_lengths (add64 size (length value)) rest

add64-add_lengths :
    (w size : ℕ) (items : EncryptedTable)
    → add64 w (add_lengths size items) ≡ add64 w (size + total_length items)
unfolding add_lengths total_length
add64-add_lengths w size [] = ap (add64 w) (omega arith)
add64-add_lengths w size ((uid, value) ∷ rest) =
    add64-add_lengths w (add64 size (length value)) rest ∙ unfold add64 in omega arith

module _ (db : Rocks) (rocks : IsRocks db) (id : Bytes) where
  open rocks use {content}

  -- The values before the one that failed stand, and no size has been counted.
  pub record StoppedPut (f : Content) (items : EncryptedTable) (g : Content) : Type 0 where
    pub before : EncryptedTable
    pub after : EncryptedTable
    pub split : items ≡ before ++ after
    pub written : g ≡ Spec.put_chains layout id f before
    pub size_kept : g (size_key id) ≡ f (size_key id)

  abbrev PutPost : Content → EncryptedTable → ℕ → Result ℕ × db.Db → Type 0
  PutPost f items size (ok size', d) =
      (content d ≡ Spec.put_chains layout id f items) × (size' ≡ add_lengths size items)
  PutPost f items size (err _, d) = StoppedPut f items (content d)
  PutPost f items size (panicked, d) = ⊥

  stopped :
      (f : Content) (before after : EncryptedTable) {items : EncryptedTable} {g : Content}
      → items ≡ before ++ after
      → g ≡ Spec.put_chains layout id f before
      → StoppedPut f items g
  stopped f before after split written = record {
    before = before;
    after = after;
    split = split;
    written = written;
    size_kept =
        ap (λ h. h (size_key id)) written
        ∙ put_chains-size_key layout layout-IsInjective id f before;
  }

  put_first :
      (f g : Content) (uid value : Bytes) (rest : EncryptedTable) (size : ℕ)
      → g ≡ update f (key id Table.chains uid) value
      → (p : Result ℕ × db.Db) → PutPost g rest (add64 size (length value)) p
      → PutPost f ((uid, value) ∷ rest) size p
  unfolding Spec.put_chains add_lengths
  put_first f g uid value rest size wrote (ok size', d) (cells, sum) =
      (cells ∙ ap (λ h. Spec.put_chains layout id h rest) wrote, sum)
  put_first f g uid value rest size wrote (err _, d) s =
      stopped f ((uid, value) ∷ s.before) s.after (ap (λ l. (uid, value) ∷ l) s.split)
        (s.written ∙ ap (λ h. Spec.put_chains layout id h s.before) wrote)
  put_first f g uid value rest size wrote (panicked, d) impossible = impossible

  put_loop-post :
      (items : EncryptedTable) (size : ℕ) (d : db.Db)
      → PutPost (content d) items size (put_loop db id items size d)
  unfolding put_loop Spec.put_chains add_lengths
  put_loop-post [] size d = (refl, refl)
  put_loop-post ((uid, value) ∷ rest) size d =
      let put = db.put (key id Table.chains uid) value in
      attempt_rule rocksdb put _ d (PutPost (content d) ((uid, value) ∷ rest) size)
        (λ _ wrote.
          put_first (content d) (content (put d).1) uid value rest size
            (rocks.content-put (key id Table.chains uid) value d wrote) _
            (put_loop-post rest (add64 size (length value)) (put d).1))
        (λ text refused.
          stopped (content d) [] ((uid, value) ∷ rest) refl
            (rocks.content-put_failed (key id Table.chains uid) value d text refused))

  -- A run writes every value and adds all their lengths to the size, or fails after some values with
  -- the size uncounted.
  abbrev pub ChainsPost : Content → EncryptedTable → Result (Unit {0}) × db.Db → Type 0
  ChainsPost f items (ok _, d) = content d ≡ Spec.insert_chains layout id f items
  ChainsPost f items (err _, d) = StoppedPut f items (content d)
  ChainsPost f items (panicked, d) = ⊥

  merged_size :
      (f : Content) (size : ℕ) (items : EncryptedTable) (d : db.Db)
      → content d ≡ Spec.put_chains layout id f items
      → size ≡ add_lengths 0 items
      → IsSized (f (size_key id))
      → (db.merge (size_key id) (to_be_bytes size) d).0 ≡ done tt
      → content (db.merge (size_key id) (to_be_bytes size) d).1
        ≡ Spec.insert_chains layout id f items
  unfolding Spec.insert_chains size_of
  merged_size f size items d cells sum sized merged =
      let k = size_key id in
      let written = to_be_bytes (add64 (size_value (f k)) size) in
      let cell : content d k ≡ f k =
        ap (λ h. h k) cells ∙ put_chains-size_key layout layout-IsInjective id f items in
      rocks.content-merge k (to_be_bytes size) written d
        (ap (λ o. merge_add o (to_be_bytes size ∷ [])) cell ∙ merge_add-size (f k) size sized)
        merged
      ∙ ap (λ h. update h k written) cells
      ∙ ap (λ n. update (Spec.put_chains layout id f items) k (to_be_bytes n))
          (ap (add64 (size_value (f k))) sum
            ∙ add64-add_lengths (size_value (f k)) 0 items
            ∙ ap (add64 (size_value (f k))) (omega arith))

module _ (db : Rocks) (rocks : IsRocks db) where
  open rocks use {content}

  -- From a well-formed size cell, `insert_chains` on RocksDB, if it returns, has written every
  -- value and added all their lengths to the size; if it fails it has written a first part of the
  -- values and counted none of them; it does not panic.
  pub insert_chains-post :
      (index : Index) (items : EncryptedTable) (d : db.Db)
      → IsSized (content d (size_key index.id))
      → ChainsPost db rocks index.id (content d) items (insert_chains db index items d)
  unfolding insert_chains
  insert_chains-post index items d sized =
      let id = index.id in
      post_rule (put_loop db id items 0) _ d (PutPost db rocks id (content d) items 0)
        (ChainsPost db rocks id (content d) items) (put_loop-post db rocks id items 0 d)
        (λ size d' (cells, sum).
          attempt_rule rocksdb (db.merge (size_key id) (to_be_bytes size)) _ d'
            (ChainsPost db rocks id (content d) items)
            (λ _ merged. merged_size db rocks id (content d) size items d' cells sum sized merged)
            (λ text refused. stopped db rocks id (content d) items [] (sym (append-nil items)) (
              rocks.content-merge_failed (size_key id) (to_be_bytes size) d' text refused ∙ cells)))
        (λ _ _ s. s) (λ _ impossible. impossible)
