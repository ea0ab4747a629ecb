-- ===== src/Glacier/Reindex/Visit.antt =====
-- What `evr_glacier_reindex_visit_blob` does to one blob and, over a walk, to all of a bucket.
use everarch.Prelude.{
  ℕ, ◌+◌, ◌≡◌, ◌≢◌, refl, sym, ap, subst, ◌∙◌, Bool, true, false, some, List, [], ◌∷◌, ◌++◌, arith,
  length, take, drop, if◌then◌else◌, append_assoc, append-nil, Option, length-append, take-append,
}
use everarch.Errors.{Status, ok, error, end}
use everarch.Files.{Source, Read}
use everarch.Files.Pipe.{dump_n}
use everarch.Files.ReadN.{Flows}
use everarch.Files.PipeN.{DumpEnds, dump_n_exact}
use everarch.Keys.TinySet.{ref_eq}
use everarch.Glacier.{
  Glacier, done, bucket, BlobPosition, StepResult, step_error, IndexDb, WritingBlob,
  bucket_blob_header_size, contents, lseek, lseek_fd, syscall_next,
}
use everarch.Glacier.WriteBlob.{add_blob_to_index, index_insert_step}
use everarch.Glacier.Chunks.{concat}
use everarch.Glacier.Walk.{BlobStat}
use everarch.Glacier.Walk.Header.{stat_of}
use everarch.Glacier.Reindex.{
  blob_ref_write_se, readable, position, returned, visit_matched, visit_hashed, visit_sought,
  reindex_visit_blob,
}

-- The context has the bucket's file open, and no system call is going to fail.
pub record Ready {Db : Type 0} (i : ℕ) (file : List ℕ) (w : Glacier Db) : Type 0 where
  pub fd : w.current_bucket_f ≡ bucket i
  pub index : w.current_bucket_index ≡ i
  pub bytes : w.files i ≡ some file
  pub steady : w.fails ≡ []
  pub flows : Flows w.grants

-- sqlite inserts a row, or finds its key there already.
abbrev pub IsInserting : {Db : Type 0} → IndexDb Db → Type 0
IsInserting {Db} sql = (db : Db) (p : BlobPosition) → (sql.insert_blob db p).0 ≢ step_error

pub lseek_runs :
    {Db : Type 0} (w : Glacier Db) (i pos : ℕ)
    → w.current_bucket_f ≡ bucket i
    → w.fails ≡ []
    → lseek pos w ≡ done (record w { f_pos = pos })
unfolding lseek
lseek_runs w i pos fd e =
    ap (λ f. lseek_fd f pos w) fd ∙ ap (syscall_next (λ v. done (record v { f_pos = pos })) w) e

module _ {Db : Type 0} (sql : IndexDb Db) (hash : List ℕ → List ℕ) (i : ℕ) (file : List ℕ) where
  abbrev pub row : BlobStat → BlobPosition
  row stat = record {
    key = stat.ref;
    flags = stat.flags;
    bucket_index = i;
    bucket_blob_offset = stat.offset;
    blob_size = stat.size;
    last_modified = stat.last_modified;
  }

  -- The row of a blob, if its bytes have the hash of its ref.
  abbrev pub indexed : Db → BlobStat → List ℕ → Db
  indexed db stat bytes =
      if ref_eq stat.ref (hash bytes) then (sql.insert_blob db (row stat)).1 else db

  -- the index with the rows of the blobs of a bucket, the first of which stands at `pos`
  unfoldable pub index_all : Db → ℕ → List (WritingBlob × ℕ) → Db
  unfolding concat
  index_all db pos [] = db
  index_all db pos ((blob, now) ∷ rs) =
      index_all
        (indexed db (stat_of blob now (pos + bucket_blob_header_size))
          (take blob.size (concat blob.chunks)))
        (pos + bucket_blob_header_size + blob.size) rs

  -- A visit that goes on, with the blob indexed.
  abbrev pub Visited : Db → (ℕ → Option (List ℕ)) → Status × Glacier Db → Type 0
  Visited db files x =
      (v : Glacier Db) × (x ≡ (ok, v)) × (v.db ≡ db) × Ready i file v × (v.files ≡ files)

  inserted_lem :
      (w : Glacier Db) (p : BlobPosition) (res : StepResult × Db)
      → Ready i file w
      → res.0 ≢ step_error
      → Visited res.1 w.files (returned (index_insert_step w res))
  inserted_lem w p (step_error, db) r ne = absurd (ne refl)
  inserted_lem w p (StepResult.step_done, db) r ne = (
    record w { db = db },
    refl,
    refl,
    record { fd = r.fd; index = r.index; bytes = r.bytes; steady = r.steady; flows = r.flows },
    refl,
  )
  inserted_lem w p (StepResult.constraint_primarykey, db) r ne = (
    record w { db = db },
    refl,
    refl,
    record { fd = r.fd; index = r.index; bytes = r.bytes; steady = r.steady; flows = r.flows },
    refl,
  )

  matched_lem :
      (stat : BlobStat) (w : Glacier Db) (b : Bool)
      → IsInserting sql
      → Ready i file w
      → Visited
          (if b then (sql.insert_blob w.db (row stat)).1 else w.db)
          w.files
          (visit_matched sql hash stat w b)
  unfolding add_blob_to_index
  matched_lem stat w false ins r = (w, refl, refl, r, refl)
  matched_lem stat w true ins r =
      subst
        (λ k.
          Visited (sql.insert_blob w.db (record (row stat) { bucket_index = k })).1 w.files
            (visit_matched sql hash stat w true))
        r.index
        (inserted_lem w (position w stat) (sql.insert_blob w.db (position w stat)) r
          (ins w.db (position w stat)))

  dumped_lem :
      (stat : BlobStat) (w : Glacier Db) (bytes more : List ℕ) (r : Read (List ℕ)) (s : Status)
      → IsInserting sql
      → Ready i file w
      → length bytes ≡ stat.size
      → DumpEnds (λ c bs. c ++ bs) (bytes ++ more) w.grants stat.size [] r s
      → Visited (indexed w.db stat bytes) w.files (
          visit_hashed sql hash stat
            (record w { f_pos = w.f_pos + length r.ctx; grants = r.source.grants })
            s
            r.ctx)
  dumped_lem stat w bytes more r ok ins d len (le, c, _, fl) =
      subst
        (λ xs.
          Visited (if ref_eq stat.ref (hash xs) then (sql.insert_blob w.db (row stat)).1 else w.db)
            w.files (visit_hashed sql hash stat w' ok r.ctx))
        (c ∙ take-append stat.size bytes more (sym len))
        (matched_lem stat w' (ref_eq stat.ref (hash r.ctx)) ins (record {
          fd = d.fd;
          index = d.index;
          bytes = d.bytes;
          steady = d.steady;
          flows = fl d.flows;
        }))
    where
      w' : Glacier Db
      w' = record w { f_pos = w.f_pos + length r.ctx; grants = r.source.grants }
  dumped_lem stat w bytes more r end ins d len (short, _) =
      absurd (omega (arith, short, len, length-append bytes more))
  dumped_lem stat w bytes more r error ins d len bad = absurd (bad d.flows)
  dumped_lem stat w bytes more r _ ins d len bad = absurd bad

  -- The bytes that stand behind a header with a valid checksum are hashed; the blob is indexed if
  -- they have its ref, and passed over otherwise.
  pub visit_lem :
      (w : Glacier Db) (stat : BlobStat) (bytes more : List ℕ)
      → IsInserting sql
      → Ready i file w
      → stat.checksum_valid ≡ true
      → drop stat.offset file ≡ bytes ++ more
      → length bytes ≡ stat.size
      → Visited (indexed w.db stat bytes) w.files (reindex_visit_blob sql hash w stat)
  unfolding reindex_visit_blob
  visit_lem w stat bytes more ins r valid behind len =
      subst (Visited (indexed w.db stat bytes) w.files)
        (sym (
          ap (λ b. if b then visit_sought sql hash stat (lseek stat.offset w) else (end, w)) valid
          ∙ ap (visit_sought sql hash stat) (lseek_runs w i stat.offset r.fd r.steady)))
        (dumped_lem stat w1 bytes more rd rd.status ins
          (record {
            fd = r.fd;
            index = r.index;
            bytes = r.bytes;
            steady = r.steady;
            flows = r.flows;
          })
          len
          (subst (λ xs. DumpEnds (λ c bs. c ++ bs) xs w.grants stat.size [] rd rd.status)
            (ap (drop stat.offset) (ap (readable w1) r.fd ∙ ap contents r.bytes) ∙ behind)
            (dump_n_exact blob_ref_write_se (λ c bs. c ++ bs) wrote (λ c. append-nil c)
              (λ c xs ys. append_assoc c xs ys) src stat.size [])))
    where
      w1 : Glacier Db
      w1 = record w { f_pos = stat.offset }

      src : Source
      src = record { bytes = drop stat.offset (readable w1 w1.current_bucket_f); grants = w.grants }

      rd : Read (List ℕ)
      rd = dump_n blob_ref_write_se src stat.size []

      wrote : (c bs : List ℕ) → blob_ref_write_se c bs ≡ (ok, c ++ bs)
      wrote c bs = unfold blob_ref_write_se in refl
