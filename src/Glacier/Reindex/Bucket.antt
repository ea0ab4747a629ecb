-- ===== src/Glacier/Reindex/Bucket.antt =====
-- `evr_glacier_reindex_bucket` on a bucket's file, as it was left by the appends of its blobs.
use everarch.Prelude.{
  ℕ, ◌<◌, ◌≡◌, ◌≢◌, refl, sym, ap, ap₂, subst, ◌∙◌, Bool, true, false, if◌then◌else◌, Option, some,
  List, [], ◌∷◌, ◌++◌, ◌+◌, take, arith, length, All, append_assoc, length-append,
}
use everarch.Bytes.{u32, push_be}
use everarch.Bytes.Codec.{length-push_be}
use everarch.Errors.{ok}
use everarch.Files.{Grant, Read, read_n, none_se}
use everarch.Files.ReadN.{Flows, read_n_exact}
use everarch.Glacier.{
  Glacier, Exec, done, bucket, BlobPosition, StepResult, step_done, step_error, ◌|>◌, contents,
  syscall_next, close_current_bucket, IndexDb, WritingBlob, bucket_header_size,
  bucket_blob_header_size, magic_number,
}
use everarch.Glacier.WriteBlob.{index_step}
use everarch.Glacier.Walk.{BlobStat, walk_bucket}
use everarch.Glacier.Walk.Records.{IsStorable, records_bytes, walk_bucket_records}
use everarch.Glacier.Reindex.{
  reindex_visit_blob, readable, write_ends, reindex_walked, reindex_walk, reindex_file,
  reindex_open, reindex_bucket, closing, returned,
}
use everarch.Glacier.ReadBlob.{validate_bucket_magic_number, magic_lem}
use everarch.Glacier.Reindex.Ends.{end_offset_runs, close_runs}
use everarch.Glacier.Reindex.Visit.{Ready, row, indexed, index_all}
use everarch.Keys.TinySet.{ref_eq}
use everarch.Glacier.Chunks.{concat}
use everarch.Glacier.Walk.Header.{stat_of}
use everarch.Glacier.Reindex.Rows.{visits_lem}

-- The statements that the reindexing runs do not fail. `has_bucket` says which buckets have a row:
-- their index is the primary key, so only a bucket without a row can be inserted, and inserting a
-- blob changes no row of a bucket.
pub record IsWorking {Db : Type 0} (sql : IndexDb Db) (has_bucket : Db → ℕ → Bool) : Type 0 where
  pub inserts : (db : Db) (p : BlobPosition) → (sql.insert_blob db p).0 ≢ step_error
  pub keeps_buckets :
      (db : Db) (p : BlobPosition) (i : ℕ) → has_bucket (sql.insert_blob db p).1 i ≡ has_bucket db i
  pub inserts_bucket :
      (db : Db) (i : ℕ) → has_bucket db i ≡ false → (sql.insert_bucket db i).0 ≡ step_done
  pub updates_bucket : (db : Db) (i n : ℕ) → (sql.update_bucket_end_offset db i n).0 ≡ step_done

index_step_runs :
    {Db : Type 0} (v : Glacier Db) (res : StepResult × Db)
    → res.0 ≡ step_done
    → index_step v res ≡ done (record v { db = res.1 })
index_step_runs v (step_done, db) e = refl
index_step_runs v (StepResult.constraint_primarykey, db) e = absurd (cc)
index_step_runs v (step_error, db) e = absurd (cc)

module _ {Db : Type 0} (sql : IndexDb Db) (hash : List ℕ → List ℕ) (i : ℕ)
    (has_bucket : Db → ℕ → Bool) (working : IsWorking sql has_bucket) where
  -- the index once a bucket's row and its end offset are written
  abbrev pub with_end : Db → ℕ → Db
  with_end db n = (sql.update_bucket_end_offset (sql.insert_bucket db i).1 i n).1

  -- Indexing blobs adds no row of a bucket.
  index_all_keeps :
      (file : List ℕ) (rs : List (WritingBlob × ℕ)) (db : Db) (pos : ℕ)
      → has_bucket (index_all sql hash i file db pos rs) i ≡ has_bucket db i
  unfolding index_all
  index_all_keeps file [] db pos = refl
  index_all_keeps file ((blob, now) ∷ rs) db pos =
      index_all_keeps file rs
        (indexed sql hash i file db (stat pos) (take blob.size (concat blob.chunks)))
        (pos + bucket_blob_header_size + blob.size)
      ∙ either (ref_eq (stat pos).ref (hash (take blob.size (concat blob.chunks))))
    where
      stat : ℕ → BlobStat
      stat pos = stat_of blob now (pos + bucket_blob_header_size)

      either :
          (b : Bool)
          → has_bucket (if b then (sql.insert_blob db (row sql hash i file (stat pos))).1 else db) i
            ≡ has_bucket db i
      either true = working.keeps_buckets db (row sql hash i file (stat pos)) i
      either false = refl

  -- What a call has done to a bucket's file and to the index, and to nothing else.
  abbrev pub Ended : List ℕ → Db → (ℕ → Option (List ℕ)) → Exec Db → Type 0
  Ended file db files x =
      (u : Glacier Db) × (x ≡ done u)
      × (u.db ≡ db)
      × Ready i file u
      × ((j : ℕ) → j ≢ i → u.files j ≡ files j)

  write_ends_runs :
      (n : ℕ) (old body : List ℕ) (w : Glacier Db)
      → Ready i (magic_number ++ (old ++ body)) w
      → length old ≡ 4
      → has_bucket w.db i ≡ false
      → Ended
          (magic_number ++ push_be 4 n ++ body)
          (with_end w.db n)
          w.files
          (write_ends sql hash n w)
  unfolding write_ends
  write_ends_runs n old body w r four fresh =
      let (v, e, d, q, o) = end_offset_runs i n old body w r four in
      let db1 : Db = (sql.insert_bucket v.db v.current_bucket_index).1 in
      let db2 : Db = (sql.update_bucket_end_offset db1 v.current_bucket_index n).1 in
      let next = λ (x : Glacier Db).
        index_step x (sql.update_bucket_end_offset x.db x.current_bucket_index n) in
      (
        record v { db = db2 },
        ap (λ x. x |> (λ y. index_step y (sql.insert_bucket y.db y.current_bucket_index)) |> next) e
            ∙ ap (λ x. x |> next)
                (index_step_runs v (sql.insert_bucket v.db v.current_bucket_index) (
                  working.inserts_bucket v.db v.current_bucket_index
                    (ap₂ has_bucket d q.index ∙ fresh)))
            ∙ index_step_runs (record v { db = db1 })
                (sql.update_bucket_end_offset db1 v.current_bucket_index n)
                (working.updates_bucket db1 v.current_bucket_index n),
        ap (λ k. (sql.update_bucket_end_offset (sql.insert_bucket v.db k).1 k n).1) q.index
            ∙ ap (λ x. with_end x n) d,
        record { fd = q.fd; index = q.index; bytes = q.bytes; steady = q.steady; flows = q.flows },
        o,
      )

  module _ (rs : List (WritingBlob × ℕ)) (n : ℕ) (gs : List Grant) (lt : n < u32) (fl : Flows gs)
      (storable : All IsStorable rs) where
    -- the bucket's file in front of the reindexing
    abbrev pub file : List ℕ
    file = magic_number ++ push_be 4 n ++ records_bytes rs

    file_split : file ≡ magic_number ++ (push_be 4 n ++ records_bytes rs)
    file_split = append_assoc magic_number (push_be 4 n) (records_bytes rs)

    -- the file with its length as the end offset
    abbrev pub ended_file : List ℕ
    ended_file = magic_number ++ push_be 4 (length file) ++ records_bytes rs

    walked_runs :
        (w : Glacier Db)
        → Ready i file w
        → has_bucket w.db i ≡ false
        → Ended ended_file
            (with_end (index_all sql hash i file w.db bucket_header_size rs) (length file))
            w.files
            (reindex_walked sql hash (
              walk_bucket
                (reindex_visit_blob sql hash)
                (λ x k. (ok, x))
                (readable w w.current_bucket_f)
                gs
                w))
    unfolding reindex_walked
    walked_runs w r fresh =
        let (v, e, d, q, f) =
          visits_lem sql hash i file working.inserts rs (magic_number ++ push_be 4 n)
            bucket_header_size w refl
            (omega (arith, length-append magic_number (push_be 4 n), length-push_be 4 n)) storable
            r in
        let (u, eu, du, qu, ou) =
          write_ends_runs (length file) (push_be 4 n) (records_bytes rs) v
            (subst (λ xs. Ready i xs v) file_split q) (length-push_be 4 n)
            (ap (λ x. has_bucket x i) d
              ∙ index_all_keeps file rs w.db bucket_header_size
              ∙ fresh) in
        (
          u,
          ap
                (λ xs.
                  reindex_walked sql hash
                    (walk_bucket (reindex_visit_blob sql hash) (λ x k. (ok, x)) xs gs w))
                (ap (readable w) r.fd ∙ ap contents r.bytes)
              ∙ ap (reindex_walked sql hash) (
                  walk_bucket_records (reindex_visit_blob sql hash) (λ x k. (ok, x)) rs n gs w lt fl
                    storable
                  ∙ e)
              ∙ ap (syscall_next (write_ends sql hash (length (readable v v.current_bucket_f))) v)
                  q.steady
              ∙ ap (λ xs. write_ends sql hash (length xs) v)
                  (ap (readable v) q.fd ∙ ap contents q.bytes)
              ∙ eu,
          du ∙ ap (λ x. with_end x (length file)) d,
          qu,
          λ j ne. ou j ne ∙ ap (λ g. g j) f,
        )

    magic_runs :
        (hs : List Grant)
        → Flows hs
        → (is : List Grant) × Flows is × (validate_bucket_magic_number file hs ≡ (true, is))
    unfolding validate_bucket_magic_number
    magic_runs hs flows =
        subst
          (λ xs. (is : List Grant) × Flows is × (validate_bucket_magic_number xs hs ≡ (true, is)))
          (sym file_split)
          (magic_lem (push_be 4 n ++ records_bytes rs) hs r r.status flows (
            read_n_exact none_se (λ k bs. k) (λ k bs. refl) (λ k. refl) (λ k xs ys. refl)
              (record { bytes = magic_number ++ (push_be 4 n ++ records_bytes rs); grants = hs }) 3
              0))
      where
        r : Read ℕ
        r =
            read_n {C = ℕ} none_se
              (record { bytes = magic_number ++ (push_be 4 n ++ records_bytes rs); grants = hs }) 3
              0

    opened_runs :
        (w : Glacier Db)
        → w.files i ≡ some file
        → w.current_bucket_index ≡ i
        → w.fails ≡ []
        → Flows w.grants
        → has_bucket w.db i ≡ false
        → Ended ended_file
            (with_end (index_all sql hash i file w.db bucket_header_size rs) (length file))
            w.files
            (reindex_open sql hash gs w w.fails)
    unfolding reindex_open reindex_file reindex_walk
    opened_runs w bytes index steady flows fresh =
        let (is, fis, e) = magic_runs w.grants flows in
        let v : Glacier Db = record w {
          current_bucket_f = bucket w.current_bucket_index;
          f_pos = 3;
          grants = is;
        } in
        let (u, eu, du, qu, ou) =
          walked_runs v
            (record {
              fd = ap bucket index;
              index = index;
              bytes = bytes;
              steady = steady;
              flows = fis;
            })
            fresh in
        (
          u,
          ap (reindex_open sql hash gs w) steady
              ∙ ap (λ k. reindex_file sql hash gs w (w.files k)) index
              ∙ ap (reindex_file sql hash gs w) bytes
              ∙ ap
                  (λ x.
                    reindex_walk sql hash gs x
                      (record w { current_bucket_f = bucket w.current_bucket_index; f_pos = 3 }))
                  e
              ∙ ap
                  (syscall_next
                    (λ x. reindex_walked sql hash (
                      walk_bucket (reindex_visit_blob sql hash) (λ y k. (ok, y))
                        (readable x x.current_bucket_f) gs x))
                    v)
                  steady
              ∙ eu,
          du,
          qu,
          ou,
        )

    -- Where no system call fails, sqlite is in order and the index has no row of the bucket yet, as is
    -- so in an index database that was just created, the reindexing of a bucket's file that has any
    -- end offset and some blobs behind it returns ok. The index then has the rows of the bucket and
    -- of each of its blobs whose bytes have the hash of its ref, with the place, size, flags and time
    -- that its header says; other blobs are passed over. The end offset of the index is the length of
    -- the file, that of the file the same in 32 bits, the blobs stand as they stood, and no other
    -- file has changed.
    pub reindex_bucket_lem :
        (w : Glacier Db)
        → w.files i ≡ some file
        → w.fails ≡ []
        → Flows w.grants
        → has_bucket w.db i ≡ false
        → (v : Glacier Db) × (reindex_bucket sql hash gs w i ≡ (ok, v))
          × (v.db ≡ with_end (index_all sql hash i file w.db bucket_header_size rs) (length file))
          × (v.files i ≡ some ended_file)
          × ((j : ℕ) → j ≢ i → v.files j ≡ w.files j)
    unfolding reindex_bucket closing
    reindex_bucket_lem w bytes steady flows fresh =
        let (u, e, d, q, o) =
          opened_runs (record w { current_bucket_index = i }) bytes refl steady flows fresh in
        let (f, b) = close_runs i u q.fd q.steady in
        (
          (returned (close_current_bucket u)).1,
          ap (closing sql hash) e,
          b ∙ d,
          ap (λ g. g i) f ∙ q.bytes,
          λ j ne. ap (λ g. g j) f ∙ o j ne,
        )
