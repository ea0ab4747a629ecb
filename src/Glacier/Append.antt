-- ===== src/Glacier/Append.antt =====
-- `evr_glacier_append_blob` of src/glacier.c on the bucket it has chosen.
use everarch.Prelude.{
  ℕ, ◌+◌, ◌≡◌, ◌≢◌, ◌⊎◌, inl, inr, refl, sym, ap, subst, ◌∙◌, ◌||◌, List, ◌++◌, some, arith, length,
  length-append,
}
use everarch.Bytes.{push_be}
use everarch.Bytes.Codec.{length-push_be}
use everarch.Glacier.{
  Glacier, Exec, done, ◌|>◌, magic_number, IndexDb, StepResult, step_done, constraint_primarykey,
  step_error, WritingBlob, bucket_blob_header_size, lseek, write_current, sync_when,
  write_bucket_end_offset,
}
use everarch.Glacier.WriteBlob.{
  blob_header, write_chunks, add_blob_to_index, index_insert_step, index_step, append_to_current,
}
use everarch.Glacier.Frame.{Post, Post-run, Post-map, Extends}
use everarch.Glacier.EndOffset.{Holds, Sealed, write_bucket_end_offset_lem}
use everarch.Glacier.Data.{
  IsWritable, blob_record, length-blob_record, Safe, Safe-shorter, regroup_more, append_data_lem,
}
use everarch.Glacier.Appended.{Open, position, Appended, Open-Steady}

module _ {Db : Type 0} (sql : IndexDb Db) (i : ℕ) (blobs : List ℕ) (blob : WritingBlob) (now : ℕ)
    (w : Glacier Db) (o : Open i blobs w) (ready : IsWritable blob) where
  -- the steps that change the context and the index database
  abbrev index_blob : Glacier Db → Exec Db
  index_blob v =
      add_blob_to_index sql
        (position blob now v.current_bucket_index (w.current_bucket_pos + bucket_blob_header_size))
        v

  abbrev index_end : Glacier Db → Exec Db
  index_end v =
      index_step v (sql.update_bucket_end_offset v.db v.current_bucket_index v.current_bucket_pos)

  abbrev Goal : Exec Db → Type 0
  Goal x = Post (Appended sql i blobs blob now w) (Safe i blobs w) x

  module _ (v : Glacier Db) (opened : Open i (blobs ++ blob_record blob now) v)
      (others : (j : ℕ) → j ≢ i → v.files j ≡ w.files j) (db : v.db ≡ w.db) where
    safe : (d : Db) → Safe i blobs w (record v { db = d })
    safe d = record {
      fd = opened.fd;
      end_bytes = push_be 4 (7 + length (blobs ++ blob_record blob now));
      rest = blob_record blob now ++ opened.rest;
      four = length-push_be 4 _;
      file =
          opened.file
          ∙ ap some (regroup_more (push_be 4 _) blobs (blob_record blob now) opened.rest);
      others = others;
    }

    end_lem :
        (mid : Db) (r : StepResult)
        → sql.insert_blob w.db (position blob now i (7 + length blobs + bucket_blob_header_size))
          ≡ (r, mid)
        → (r ≡ step_done) ⊎ (r ≡ constraint_primarykey)
        → (u : StepResult × Db) → sql.update_bucket_end_offset mid i v.current_bucket_pos ≡ u
        → Goal (index_step (record v { db = mid }) u)
    end_lem mid r ins acc (step_done, db') e = record {
      opened = record {
        fd = opened.fd;
        index = opened.index;
        pos = opened.pos;
        rest = opened.rest;
        file = opened.file;
      };
      others = others;
      indexed = record { mid = mid; result = r; inserted = ins; accepted = acc; updated = e };
    }
    end_lem mid r ins acc (_, db') e = safe db'

    insert_lem :
        (u : StepResult × Db)
        → sql.insert_blob w.db (position blob now i (7 + length blobs + bucket_blob_header_size))
          ≡ u
        → Goal (index_insert_step v u |> index_end)
    insert_lem (step_error, mid) e = safe mid
    insert_lem (step_done, mid) e =
        end_lem mid step_done e (inl refl) _
          (ap (λ k. sql.update_bucket_end_offset mid k v.current_bucket_pos) (sym opened.index))
    insert_lem (constraint_primarykey, mid) e =
        end_lem mid constraint_primarykey e (inr refl) _
          (ap (λ k. sql.update_bucket_end_offset mid k v.current_bucket_pos) (sym opened.index))

    index_lem : Goal (index_blob v |> index_end)
    unfolding add_blob_to_index
    index_lem =
        subst (λ u. Goal (index_insert_step v u |> index_end)) (sym same) (insert_lem _ refl)
      where
        same :
            sql.insert_blob v.db (
              position blob now v.current_bucket_index
                (w.current_bucket_pos + bucket_blob_header_size))
            ≡ sql.insert_blob w.db
                (position blob now i (7 + length blobs + bucket_blob_header_size))
        same =
            ap
              (λ d. sql.insert_blob d (
                position blob now v.current_bucket_index
                  (w.current_bucket_pos + bucket_blob_header_size)))
              db
            ∙ ap
                (λ k.
                  sql.insert_blob w.db
                    (position blob now k (w.current_bucket_pos + bucket_blob_header_size)))
                opened.index
            ∙ ap (λ p. sql.insert_blob w.db (position blob now i (p + bucket_blob_header_size)))
                o.pos

  -- the state once the context counts the blob in
  abbrev counted : Glacier Db → Glacier Db
  counted u = record u {
    current_bucket_pos = u.current_bucket_pos + (bucket_blob_header_size + blob.size);
    current_bucket_sync = blob.sync_per_blob || u.current_bucket_sync;
  }

  abbrev Data : Glacier Db → Type 0
  Data u =
      Extends i (magic_number ++ push_be 4 (7 + length blobs) ++ (blobs ++ blob_record blob now)) w
        u

  counted-Holds :
      (u : Glacier Db) → Data u → Holds i (blobs ++ blob_record blob now) (counted u) (counted u)
  counted-Holds u x = record {
    end_bytes = push_be 4 (7 + length blobs);
    rest = x.rest;
    four = length-push_be 4 (7 + length blobs);
    steady = record {
      fd = x.steady.fd;
      pos = refl;
      index = refl;
      max = refl;
      db = refl;
      others = λ j ne. refl;
    };
    file = x.file;
  }

  counted-pos :
      (u : Glacier Db)
      → Data u
      → (counted u).current_bucket_pos ≡ 7 + length (blobs ++ blob_record blob now)
  counted-pos u x = omega (
    arith,
    o.pos,
    x.steady.pos,
    length-append blobs (blob_record blob now),
    length-blob_record blob now ready,
  )

  seal_lem :
      (u : Glacier Db)
      → Data u
      → Goal (
          write_bucket_end_offset (counted u).current_bucket_pos blob.sync_per_blob (counted u)
          |> (λ v. done (record v { current_bucket_sync = blob.sync_per_blob }))
          |> index_blob
          |> index_end)
  seal_lem u x =
      Post-run (Sealed i (counted u).current_bucket_pos (blobs ++ blob_record blob now) (counted u))
        (Appended sql i blobs blob now w) (Safe i blobs w)
        (λ y.
          y
          |> (λ v. done (record v { current_bucket_sync = blob.sync_per_blob }))
          |> index_blob
          |> index_end)
        (write_bucket_end_offset (counted u).current_bucket_pos blob.sync_per_blob (counted u))
        (λ v. refl)
        (Post-map
          {R = Sealed i (counted u).current_bucket_pos (blobs ++ blob_record blob now) (counted u)}
          (write_bucket_end_offset (counted u).current_bucket_pos blob.sync_per_blob (counted u))
          (write_bucket_end_offset_lem i (counted u).current_bucket_pos
            (blobs ++ blob_record blob now) (counted u) blob.sync_per_blob (counted u)
            (counted-Holds u x))
          (λ v s. s)
          (λ v h. Safe-shorter i blobs (blob_record blob now) w (counted u) v x.steady.others h))
        (λ v s.
          index_lem (record v { current_bucket_sync = blob.sync_per_blob })
            (record {
              fd = s.steady.fd;
              index = s.steady.index ∙ x.steady.index ∙ o.index;
              pos = s.steady.pos ∙ counted-pos u x;
              rest = s.rest;
              file =
                  s.file
                  ∙ ap
                      (λ n.
                        some (
                          magic_number ++ push_be 4 n ++ (blobs ++ blob_record blob now) ++ s.rest))
                      (counted-pos u x);
            })
            (λ j ne. s.steady.others j ne ∙ x.steady.others j ne) (s.steady.db ∙ x.steady.db))

  -- The blob stands behind the others, the end offset counts it in and the index names it, or
  -- the blobs that stood there are safe.
  pub append_to_current_lem :
      Post (Appended sql i blobs blob now w) (Safe i blobs w) (append_to_current sql blob now w)
  unfolding append_to_current
  append_to_current_lem =
      Post-run Data (Appended sql i blobs blob now w) (Safe i blobs w)
        (λ y.
          y
          |> (λ v. done (counted v))
          |> (λ v. write_bucket_end_offset v.current_bucket_pos blob.sync_per_blob v)
          |> (λ v. done (record v { current_bucket_sync = blob.sync_per_blob }))
          |> index_blob
          |> index_end)
        (lseek w.current_bucket_pos w
          |> write_current (blob_header blob now)
          |> write_chunks blob.size blob.chunks
          |> sync_when blob.sync_per_blob)
        (λ v. refl)
        (append_data_lem i (push_be 4 (7 + length blobs)) blobs
          (length-push_be 4 (7 + length blobs)) blob now w o.rest (Open-Steady i blobs w o) o.file
          (o.pos
            ∙ omega (
              arith,
              length-append (magic_number ++ push_be 4 (7 + length blobs)) blobs,
              length-append magic_number (push_be 4 (7 + length blobs)),
              length-push_be 4 (7 + length blobs),
            ))
          ready)
        seal_lem
