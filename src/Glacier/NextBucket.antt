-- ===== src/Glacier/NextBucket.antt =====
-- `create_next_bucket` of src/glacier.c.
use everarch.Prelude.{
  ℕ, zero, suc, ◌≡◌, ◌≢◌, ◌⊎◌, inl, inr, refl, sym, ap, subst, ◌∙◌, true, Option, none, List, [],
  ◌++◌, some, length, drop, append-nil, Bool-cases, ◌==◌, ==_iff, ==_ne,
}
use everarch.Bytes.{push_be}
use everarch.Glacier.{
  Glacier, Exec, ◌|>◌, stdout, bucket, magic_number, bucket_header_size, IndexDb, StepResult,
  step_done, lseek, write_current, sync_when, close_current_bucket, write_bucket_magic_number,
  write_bucket_end_offset,
}
use everarch.Glacier.WriteBlob.{open_new_bucket, back_index, index_step, create_next_bucket}
use everarch.Glacier.Frame.{Post, Post-bind, Post-map, Post-run, Steady, At}
use everarch.Glacier.Steps.{lseek_lem, sync_when_lem, write_current_lem}
use everarch.Glacier.Appended.{Open}
use everarch.Glacier.OnStdout.{Stays-bind, end_offset-Stays, magic-Stays, index_step-Stays}
use everarch.Glacier.NextFile.{Kept, Same, Created, close_lem, open_lem}

-- The next bucket is open and empty, its file is new, and the index database has its row.
pub record Next {Db : Type 0} (sql : IndexDb Db) (i : ℕ) (w v : Glacier Db) : Type 0 where
  pub opened : Open (suc i) [] v
  pub fresh : w.files (suc i) ≡ none
  pub others : (j : ℕ) → j ≢ suc i → v.files j ≡ w.files j
  pub inserted : sql.insert_bucket w.db (suc i) ≡ (step_done, v.db)

module _ {Db : Type 0} (i : ℕ) (w : Glacier Db) where
  pub kept_lem :
      (v : Glacier Db)
      → w.files (suc i) ≡ none
      → ((j : ℕ) → j ≢ suc i → v.files j ≡ w.files j)
      → Kept w v
  kept_lem v fresh others j bs e = elim (Bool-cases (j == suc i)) [
    | inl q ↦ absurd (none_some (sym fresh ∙ ap w.files (sym ((==_iff j (suc i)).0 q)) ∙ e))
    | inr q ↦ others j (==_ne j (suc i) q) ∙ e
  ]
    where
      none_some : {bs : List ℕ} → Option.none ≡ some bs → ⊥
      none_some h = cc

  module _ (sql : IndexDb Db) (u : Glacier Db) (fd : u.current_bucket_f ≡ bucket (suc i)) where
    refl_Steady : Steady (suc i) u u
    refl_Steady = record {
      fd = fd;
      pos = refl;
      index = refl;
      max = refl;
      db = refl;
      others = λ j ne. refl;
    }

    abbrev Others : Glacier Db → Type 0
    Others v = (j : ℕ) → j ≢ suc i → v.files j ≡ u.files j

    -- seeking to the end of `front` and writing `buf` there
    put_lem :
        (v : Glacier Db) (front buf : List ℕ) (n : ℕ)
        → n ≡ length front
        → Steady (suc i) u v
        → v.files (suc i) ≡ some front
        → Post
            (λ x. Steady (suc i) u x × (x.files (suc i) ≡ some (front ++ buf)))
            Others
            (lseek n v |> write_current buf)
    put_lem v front buf n e st file =
        Post-bind (At (suc i) front [] u)
          (λ x. Steady (suc i) u x × (x.files (suc i) ≡ some (front ++ buf))) Others
          (write_current buf) (lseek n v)
          (Post-map (lseek n v)
            (lseek_lem (suc i) u v st front [] (file ∙ ap some (sym (append-nil front))) n e)
            (λ x a. a) (λ x (s, same). s.others))
          (λ x a.
            Post-map (write_current buf x) (write_current_lem (suc i) front [] buf u x a)
              (λ y b. (
                b.steady,
                b.file
                    ∙ ap (λ t. some (front ++ buf ++ t)) (drop-nil (length buf))
                    ∙ ap some (append-nil (front ++ buf)),
              ))
              (λ y t. t.steady.others))
      where
        drop-nil : (k : ℕ) → drop {A = ℕ} k [] ≡ []
        drop-nil zero = refl
        drop-nil (suc k) = refl

    abbrev Sealed : Glacier Db → Type 0
    Sealed v = Steady (suc i) u v × (v.files (suc i) ≡ some (magic_number ++ push_be 4 7))

    end_offset_lem :
        (v : Glacier Db)
        → u.current_bucket_pos ≡ 7
        → Steady (suc i) u v
        → v.files (suc i) ≡ some magic_number
        → Post Sealed Others (write_bucket_end_offset v.current_bucket_pos true v)
    unfolding write_bucket_end_offset
    end_offset_lem v seven st file =
        subst (λ n. Post Sealed Others (lseek 3 v |> write_current (push_be 4 n) |> sync_when true))
          (sym (st.pos ∙ seven))
          (Post-bind Sealed Sealed Others (sync_when true)
            (lseek 3 v |> write_current (push_be 4 7))
            (put_lem v magic_number (push_be 4 7) 3 refl st file)
            (λ x (s, f).
              Post-map (sync_when true x)
                (sync_when_lem (suc i) u x s Others true (λ y t same. t.others))
                (λ y (t, same). (t, same ∙ f)) (λ y t. t)))

    start_lem :
        u.current_bucket_pos ≡ 7
        → u.files (suc i) ≡ some []
        → Post Sealed Others (
            write_bucket_magic_number u
            |> (λ v. write_bucket_end_offset v.current_bucket_pos true v))
    unfolding write_bucket_magic_number
    start_lem seven file =
        Post-bind (λ x. Steady (suc i) u x × (x.files (suc i) ≡ some magic_number)) Sealed Others
          (λ v. write_bucket_end_offset v.current_bucket_pos true v)
          (lseek 0 u |> write_current magic_number)
          (put_lem u [] magic_number 0 refl refl_Steady file)
          (λ v (st, f). end_offset_lem v seven st f)

  -- Either the next bucket is there, or standard output was taken for it and no file has changed.
  -- A failure leaves every file that was there as it was.
  abbrev pub NextEnds : IndexDb Db → Glacier Db → Type 0
  NextEnds sql v = Next sql i w v ⊎ ((v.current_bucket_f ≡ stdout) × (v.files ≡ w.files))

  module _ (sql : IndexDb Db) where
    insert_lem :
        (v : Glacier Db) (r : StepResult × Db)
        → sql.insert_bucket w.db (suc i) ≡ r
        → Open (suc i) [] v
        → w.files (suc i) ≡ none
        → ((j : ℕ) → j ≢ suc i → v.files j ≡ w.files j)
        → Post (NextEnds sql) (Kept w) (index_step v r)
    insert_lem v (step_done, db) e o fresh others = inl (record {
      opened = record { fd = o.fd; index = o.index; pos = o.pos; rest = o.rest; file = o.file };
      fresh = fresh;
      others = others;
      inserted = e;
    })
    insert_lem v (_, db) e o fresh others = kept_lem (record v { db = db }) fresh others

    abbrev rest_of : Exec Db → Exec Db
    rest_of x =
        x
        |> (λ v. write_bucket_end_offset v.current_bucket_pos true v)
        |> (λ v. index_step v (sql.insert_bucket v.db v.current_bucket_index))

    created_lem :
        (v : Glacier Db)
        → Created i w v
        → Post (NextEnds sql) (Kept w) (
            rest_of
              (write_bucket_magic_number (record v { current_bucket_pos = bucket_header_size })))
    created_lem v (inl (fd, x, d, file, fresh, others)) =
        Post-bind (Sealed sql u fd) (NextEnds sql) (Kept w)
          (λ v. index_step v (sql.insert_bucket v.db v.current_bucket_index))
          (write_bucket_magic_number u
            |> (λ v. write_bucket_end_offset v.current_bucket_pos true v))
          (Post-map {R = Sealed sql u fd} {Q = Others sql u fd}
            (write_bucket_magic_number u
              |> (λ v. write_bucket_end_offset v.current_bucket_pos true v))
            (start_lem sql u fd refl file) (λ y s. s)
            (λ y o. kept_lem y fresh (λ j ne. o j ne ∙ others j ne)))
          (λ y (st, f).
            insert_lem y (sql.insert_bucket y.db y.current_bucket_index)
              (ap (λ d. sql.insert_bucket d (suc i)) (sym d ∙ sym st.db)
                ∙ ap (sql.insert_bucket y.db) (sym (st.index ∙ x)))
              (record {
                fd = st.fd;
                index = st.index ∙ x;
                pos = st.pos;
                rest = [];
                file =
                    f
                    ∙ ap some (
                        sym (
                          append-nil (magic_number ++ push_be 4 7 ++ [])
                          ∙ append-nil (magic_number ++ push_be 4 7)));
              })
              fresh (λ j ne. st.others j ne ∙ others j ne))
      where
        u : Glacier Db
        u = record v { current_bucket_pos = bucket_header_size }
    created_lem v (inr (fd, e)) =
        Post-map
          (rest_of
            (write_bucket_magic_number (record v { current_bucket_pos = bucket_header_size })))
          (Stays-bind w.files _ _
            (Stays-bind w.files _ _
              (magic-Stays w.files (record v { current_bucket_pos = bucket_header_size }) (fd, e))
              (λ y k. end_offset-Stays w.files y.current_bucket_pos true y k))
            (λ y k. index_step-Stays w.files y _ k))
          (λ y k. inr k) (λ y (f, same) j bs h. ap (λ g. g j) same ∙ h)

    -- From a context at the index i, whatever it has open, be it a bucket, nothing or standard output,
    -- a call that succeeds has opened the bucket i + 1, whose file did not
    -- exist, with the magic number, the end offset 7 and no blob, the index database has its row and
    -- every other file is as it was; or, where the open failed, standard output was taken for the
    -- bucket and no file has changed. A call that fails leaves every file that existed as it was.
    pub create_next_bucket_lem :
        w.current_bucket_index ≡ i → Post (NextEnds sql) (Kept w) (create_next_bucket sql w)
    unfolding create_next_bucket
    create_next_bucket_lem e =
        Post-run (Created i w) (NextEnds sql) (Kept w)
          (λ x. rest_of (
            x |> (λ v.
              write_bucket_magic_number (record v { current_bucket_pos = bucket_header_size }))))
          (close_current_bucket w |> (λ v.
            back_index
              (open_new_bucket (record v { current_bucket_index = suc v.current_bucket_index }))))
          (λ v. refl)
          (Post-bind (Same i w) (Created i w) (Kept w) _ (close_current_bucket w)
            (Post-map (close_current_bucket w) (close_lem i w e) (λ v s. s)
              (λ v s j bs h. ap (λ g. g j) s.0 ∙ h))
            (open_lem i w))
          created_lem
