-- ===== src/Glacier/Reindex/Ends.antt =====
-- The end offset of a reindexed bucket, and its close, where no system call fails.
use everarch.Prelude.{
  ℕ, ◌+◌, ◌≡◌, ◌≢◌, refl, sym, ap, subst, ◌∙◌, Bool, true, false, some, List, [], ◌++◌, length,
  drop, drop-append,
}
use everarch.Bytes.{push_be}
use everarch.Bytes.Codec.{length-push_be}
use everarch.Errors.{Status, ok, error, end}
use everarch.Files.{Grant, Sink, write_n}
use everarch.Files.ReadN.{Flows}
use everarch.Files.WriteN.{WriteSpec, write_n_exact}
use everarch.Glacier.{
  Glacier, done, ◌|>◌, closed, bucket, contents, store, write_at, magic_number, write_current,
  write_fd, wrote_bucket, sync_when, syscall_next, fdatasync, write_bucket_end_offset, close_fd,
  close_current_bucket,
}
use everarch.Glacier.Frame.{store-same, store-other, write_at-append}
use everarch.Glacier.Reindex.{returned}
use everarch.Glacier.Reindex.Visit.{Ready, lseek_runs}

written_lem :
    (buf : List ℕ) (gs : List Grant) (res : Status × Sink)
    → WriteSpec buf [] gs res
    → Flows gs
    → (f : Sink) × (res ≡ (ok, f)) × (f.out ≡ buf) × Flows f.grants
written_lem buf gs (ok, f) (o, fl) flows = (f, refl, o, fl flows)
written_lem buf gs (end, f) (a, b, c, d, bad) flows = absurd (bad flows)
written_lem buf gs (error, f) (a, b, c, d, bad) flows = absurd (bad flows)
written_lem buf gs (_, f) bad flows = absurd bad

module _ {Db : Type 0} (i : ℕ) where
  sync_runs : (w : Glacier Db) → w.fails ≡ [] → sync_when true w ≡ done w
  unfolding fdatasync
  sync_runs w e = ap (syscall_next done w) e

  write_runs :
      (buf front tail : List ℕ) (w : Glacier Db)
      → Ready i (front ++ tail) w
      → w.f_pos ≡ length front
      → (v : Glacier Db) × (write_current buf w ≡ done v)
        × (v.db ≡ w.db)
        × Ready i (front ++ buf ++ drop (length buf) tail) v
        × ((j : ℕ) → j ≢ i → v.files j ≡ w.files j)
  unfolding write_current
  write_runs buf front tail w r at =
      let (f, e, o, fl) =
        written_lem buf w.grants (write_n sink buf) (write_n_exact sink buf) r.flows in
      let v : Glacier Db = record w {
        files = store w.files i (write_at (contents (w.files i)) w.f_pos f.out);
        f_pos = w.f_pos + length f.out;
        grants = f.grants;
      } in
      (
        v,
        ap (λ fd. write_fd fd buf w) r.fd ∙ ap (wrote_bucket w i (contents (w.files i))) e,
        refl,
        record {
          fd = r.fd;
          index = r.index;
          bytes =
              store-same w.files i (write_at (contents (w.files i)) w.f_pos f.out)
              ∙ ap (λ x. some (write_at (contents x) w.f_pos f.out)) r.bytes
              ∙ ap (λ n. some (write_at (front ++ tail) n f.out)) at
              ∙ ap (λ xs. some (write_at (front ++ tail) (length front) xs)) o
              ∙ ap some (write_at-append front tail buf);
          steady = r.steady;
          flows = fl;
        },
        λ j ne. store-other w.files i (write_at (contents (w.files i)) w.f_pos f.out) j ne,
      )
    where
      sink : Sink
      sink = record { out = []; grants = w.grants }

  pub end_offset_runs :
      (n : ℕ) (old body : List ℕ) (w : Glacier Db)
      → Ready i (magic_number ++ (old ++ body)) w
      → length old ≡ 4
      → (v : Glacier Db) × (write_bucket_end_offset n true w ≡ done v)
        × (v.db ≡ w.db)
        × Ready i (magic_number ++ push_be 4 n ++ body) v
        × ((j : ℕ) → j ≢ i → v.files j ≡ w.files j)
  unfolding write_bucket_end_offset
  end_offset_runs n old body w r four =
      let w1 : Glacier Db = record w { f_pos = 3 } in
      let (v, e, d, q, o) =
        write_runs (push_be 4 n) magic_number (old ++ body) w1
          (record {
            fd = r.fd;
            index = r.index;
            bytes = r.bytes;
            steady = r.steady;
            flows = r.flows;
          })
          refl in
      (
        v,
        ap (λ x. x |> write_current (push_be 4 n) |> sync_when true)
              (lseek_runs w i 3 r.fd r.steady)
            ∙ ap (λ x. x |> sync_when true) e
            ∙ sync_runs v q.steady,
        d,
        subst (λ xs. Ready i (magic_number ++ push_be 4 n ++ xs) v)
            (drop-append (length (push_be 4 n)) old body (length-push_be 4 n ∙ sym four)) q,
        o,
      )

  -- The close changes neither the files nor the index.
  pub close_runs :
      (w : Glacier Db)
      → w.current_bucket_f ≡ bucket i
      → w.fails ≡ []
      → ((returned (close_current_bucket w)).1.files ≡ w.files)
        × ((returned (close_current_bucket w)).1.db ≡ w.db)
  unfolding close_current_bucket fdatasync
  close_runs w fd e =
      let c : close_current_bucket w
          ≡ done (record w { current_bucket_sync = true; current_bucket_f = closed }) =
        ap (λ f. close_fd f w.current_bucket_sync w) fd ∙ closes w.current_bucket_sync in
      (ap (λ x. (returned x).1.files) c, ap (λ x. (returned x).1.db) c)
    where
      closes :
          (b : Bool)
          → close_fd (bucket i) b w
            ≡ done (record w { current_bucket_sync = true; current_bucket_f = closed })
      closes true =
          ap
            (λ fs.
              syscall_next done (record w { current_bucket_sync = true }) fs
              |> (λ v. done (record v { current_bucket_f = closed })))
            e
      closes false = rw e
