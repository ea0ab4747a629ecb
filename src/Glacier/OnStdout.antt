-- ===== src/Glacier/OnStdout.antt =====
-- The context after an open that failed: `current_bucket_f` is 1, and no bucket's file is written.
use everarch.Prelude.{
  ℕ, zero, suc, ◌+◌, ◌-◌, ◌≡◌, sym, subst, min, Bool, true, false, Option, List, [], ◌∷◌, length,
  take,
}
use everarch.Bytes.{push_be}
use everarch.Errors.{Status, is_ok}
use everarch.Files.{Sink, write_n}
use everarch.Glacier.{
  Glacier, Exec, done, ◌|>◌, stdout, IndexDb, StepResult, step_done, step_error, chunk_size,
  exec_when, lseek, lseek_fd, write_current, write_fd, fdatasync, sync_when, wrote_stdout,
  magic_number, write_bucket_magic_number, write_bucket_end_offset, WritingBlob,
}
use everarch.Glacier.WriteBlob.{
  write_chunks, index_step, index_insert_step, add_blob_to_index, blob_header, append_to_current,
}
use everarch.Glacier.Frame.{Post, Post-bind}
use everarch.Glacier.Steps.{syscall_lem}

module _ {Db : Type 0} (files : ℕ → Option (List ℕ)) where
  abbrev pub OnStdout : Glacier Db → Type 0
  OnStdout v = (v.current_bucket_f ≡ stdout) × (v.files ≡ files)

  -- a call that keeps to standard output
  abbrev pub Stays : Exec Db → Type 0
  Stays x = Post OnStdout OnStdout x

  pub Stays-bind :
      (x : Exec Db) (next : Glacier Db → Exec Db)
      → Stays x
      → ((v : Glacier Db) → OnStdout v → Stays (next v))
      → Stays (x |> next)
  Stays-bind x next h g = Post-bind OnStdout OnStdout OnStdout next x h g

  lseek-Stays : (n : ℕ) (v : Glacier Db) → OnStdout v → Stays (lseek n v)
  unfolding lseek
  lseek-Stays n v (fd, e) =
      subst (λ f. Stays (lseek_fd f n v)) (sym fd)
        (syscall_lem OnStdout OnStdout (λ u. done (record u { f_pos = n })) v v.fails
          (λ gs. (fd, e)) (λ gs. (fd, e)) (fd, e))

  exec_when-Stays : (b : Bool) (v : Glacier Db) → OnStdout v → Stays (exec_when b v)
  exec_when-Stays true v h = h
  exec_when-Stays false v h = h

  write-Stays : (buf : List ℕ) (v : Glacier Db) → OnStdout v → Stays (write_current buf v)
  unfolding write_current
  write-Stays buf v (fd, e) =
      subst (λ f. Stays (write_fd f buf v)) (sym fd)
        (wrote (write_n (record { out = []; grants = v.grants }) buf))
    where
      wrote : (r : Status × Sink) → Stays (wrote_stdout v r)
      wrote (s, f) =
          exec_when-Stays (is_ok s) (record v { f_pos = v.f_pos + length f.out; grants = f.grants })
            (fd, e)

  sync-Stays : (b : Bool) (v : Glacier Db) → OnStdout v → Stays (sync_when b v)
  unfolding fdatasync
  sync-Stays true v (fd, e) =
      syscall_lem OnStdout OnStdout done v v.fails (λ gs. (fd, e)) (λ gs. (fd, e)) (fd, e)
  sync-Stays false v h = h

  chunks-Stays :
      (n : ℕ) (cs : List (List ℕ)) (v : Glacier Db) → OnStdout v → Stays (write_chunks n cs v)
  unfolding write_chunks
  chunks-Stays zero cs v h = h
  chunks-Stays (suc n) [] v h = h
  chunks-Stays (suc n) (c ∷ cs) v h =
      Stays-bind (write_current (take (min (suc n) chunk_size) c) v)
        (write_chunks (suc n - min (suc n) chunk_size) cs)
        (write-Stays (take (min (suc n) chunk_size) c) v h)
        (chunks-Stays (suc n - min (suc n) chunk_size) cs)

  pub end_offset-Stays :
      (n : ℕ) (sync : Bool) (v : Glacier Db) → OnStdout v → Stays (write_bucket_end_offset n sync v)
  unfolding write_bucket_end_offset
  end_offset-Stays n sync v h =
      Stays-bind (lseek 3 v |> write_current (push_be 4 n)) (sync_when sync)
        (Stays-bind (lseek 3 v) (write_current (push_be 4 n)) (lseek-Stays 3 v h)
          (write-Stays (push_be 4 n)))
        (sync-Stays sync)

  pub magic-Stays : (v : Glacier Db) → OnStdout v → Stays (write_bucket_magic_number v)
  unfolding write_bucket_magic_number
  magic-Stays v h =
      Stays-bind (lseek 0 v) (write_current magic_number) (lseek-Stays 0 v h)
        (write-Stays magic_number)

  pub index_step-Stays :
      (v : Glacier Db) (r : StepResult × Db) → OnStdout v → Stays (index_step v r)
  index_step-Stays v (step_done, db) h = h
  index_step-Stays v (_, db) h = h

  index_insert-Stays :
      (v : Glacier Db) (r : StepResult × Db) → OnStdout v → Stays (index_insert_step v r)
  index_insert-Stays v (step_error, db) h = h
  index_insert-Stays v (_, db) h = h

  -- Whatever `append_to_current` returns, no bucket's file has changed.
  pub append-Stays :
      (sql : IndexDb Db) (blob : WritingBlob) (now : ℕ) (w : Glacier Db)
      → OnStdout w
      → Stays (append_to_current sql blob now w)
  unfolding append_to_current add_blob_to_index
  append-Stays sql blob now w h =
      Stays-bind _ _
        (Stays-bind _ _
          (Stays-bind _ _
            (Stays-bind _ _
              (Stays-bind _ _
                (Stays-bind
                  (lseek w.current_bucket_pos w
                    |> write_current (blob_header blob now)
                    |> write_chunks blob.size blob.chunks)
                  (sync_when blob.sync_per_blob)
                  (Stays-bind (lseek w.current_bucket_pos w |> write_current (blob_header blob now))
                    (write_chunks blob.size blob.chunks)
                    (Stays-bind (lseek w.current_bucket_pos w)
                      (write_current (blob_header blob now)) (lseek-Stays w.current_bucket_pos w h)
                      (write-Stays (blob_header blob now)))
                    (chunks-Stays blob.size blob.chunks))
                  (sync-Stays blob.sync_per_blob))
                (λ v k. k))
              (λ v k. end_offset-Stays v.current_bucket_pos blob.sync_per_blob v k))
            (λ v k. k))
          (λ v k. index_insert-Stays v _ k))
        (λ v k. index_step-Stays v _ k)
