-- ===== src/Glacier/AppendBlob.antt =====
-- `evr_glacier_append_blob` of src/glacier.c: the whole call, with the bucket that it moves to.
use everarch.Prelude.{
  ℕ, suc, ◌+◌, ◌≤◌, ◌≡◌, ◌≢◌, ◌⊎◌, inl, inr, refl, ap, ◌∙◌, Bool, true, false, List, [], ◌++◌, some,
  arith, length, ltb, ltb→le, if◌then◌else◌, length-append,
}
use everarch.Bytes.{push_be}
use everarch.Bytes.Codec.{length-push_be}
use everarch.Glacier.{
  Glacier, Exec, failed, ◌|>◌, stdout, magic_number, bucket_blob_header_size, IndexDb, WritingBlob,
}
use everarch.Glacier.WriteBlob.{
  append_to_current, next_bucket_when, append_blob, create_next_bucket,
}
use everarch.Glacier.Frame.{Post, Post-bind, Post-map}
use everarch.Glacier.Data.{IsWritable, blob_record, length-blob_record}
use everarch.Glacier.Append.{append_to_current_lem}
use everarch.Glacier.Appended.{Open, Appended}
use everarch.Glacier.NextFile.{Kept}
use everarch.Glacier.NextBucket.{Next, NextEnds, kept_lem, create_next_bucket_lem}
use everarch.Glacier.OnStdout.{append-Stays}

-- The blobs stand in the file of the bucket `i` where they stood, and no other file has changed.
abbrev pub Intact : {Db : Type 0} → ℕ → List ℕ → Glacier Db → Glacier Db → Type 0
Intact i blobs w v =
    ((end_bytes : List ℕ) × (rest : List ℕ) × (length end_bytes ≡ 4)
      × (v.files i ≡ some (magic_number ++ end_bytes ++ blobs ++ rest)))
    × ((j : ℕ) (bs : List ℕ) → j ≢ i → w.files j ≡ some bs → v.files j ≡ some bs)

-- What a successful call leaves: the blob in the current bucket, or in the next one, or, where
-- the next bucket's file could not be opened, in no bucket at all.
abbrev pub AppendEnds :
    {Db : Type 0} → IndexDb Db → ℕ → List ℕ → WritingBlob → ℕ → Glacier Db → Glacier Db → Type 0
AppendEnds {Db} sql i blobs blob now w v =
    (Appended sql i blobs blob now w v × (v.current_bucket_pos ≤ w.max_bucket_size))
    ⊎ (((u : Glacier Db) × Next sql i w u
          × Appended sql (suc i) [] blob now u v
          × (v.current_bucket_pos ≤ w.max_bucket_size))
        ⊎ ((v.current_bucket_f ≡ stdout) × (v.files ≡ w.files)))

module _ {Db : Type 0} (sql : IndexDb Db) (i : ℕ) (blobs : List ℕ) (blob : WritingBlob) (now : ℕ)
    (w : Glacier Db) (o : Open i blobs w) (ready : IsWritable blob) where
  abbrev Ends : Exec Db → Type 0
  Ends x = Post (AppendEnds sql i blobs blob now w) (Intact i blobs w) x

  Kept-Intact : (v : Glacier Db) → Kept w v → Intact i blobs w v
  Kept-Intact v k = (
    (push_be 4 (7 + length blobs), o.rest, length-push_be 4 (7 + length blobs), k i _ o.file),
    λ j bs ne e. k j bs e,
  )

  bounded :
      (k : ℕ) (old : List ℕ) (v : Glacier Db)
      → Open k (old ++ blob_record blob now) v
      → 7 + length old + (bucket_blob_header_size + blob.size) ≤ w.max_bucket_size
      → v.current_bucket_pos ≤ w.max_bucket_size
  bounded k old v p le = omega (
    arith,
    le,
    p.pos,
    length-append old (blob_record blob now),
    length-blob_record blob now ready,
  )

  next_lem :
      7 + (bucket_blob_header_size + blob.size) ≤ w.max_bucket_size
      → (u : Glacier Db) → NextEnds i w sql u
      → Ends (append_to_current sql blob now u)
  next_lem le u (inl n) =
      Post-map (append_to_current sql blob now u)
        (append_to_current_lem sql (suc i) [] blob now u n.opened ready)
        (λ v a. inr (inl (u, n, a, bounded (suc i) [] v a.opened (omega (arith, le)))))
        (λ v s. Kept-Intact v (kept_lem i w v n.fresh (λ j ne. s.others j ne ∙ n.others j ne)))
  next_lem le u (inr (fd, e)) =
      Post-map (append_to_current sql blob now u) (append-Stays w.files sql blob now u (fd, e))
        (λ v k. inr (inr k)) (λ v k. Kept-Intact v (λ j bs h. ap (λ g. g j) k.1 ∙ h))

  here_lem :
      w.current_bucket_pos + (bucket_blob_header_size + blob.size) ≤ w.max_bucket_size
      → Ends (append_to_current sql blob now w)
  here_lem le =
      Post-map (append_to_current sql blob now w)
        (append_to_current_lem sql i blobs blob now w o ready)
        (λ v a. inl (a, bounded i blobs v a.opened (omega (arith, le, o.pos))))
        (λ v s. ((s.end_bytes, s.rest, s.four, s.file), λ j bs ne e. s.others j ne ∙ e))

  choose_lem :
      (b : Bool)
      → ltb w.max_bucket_size (w.current_bucket_pos + (bucket_blob_header_size + blob.size)) ≡ b
      → 7 + (bucket_blob_header_size + blob.size) ≤ w.max_bucket_size
      → Ends (next_bucket_when sql b w |> append_to_current sql blob now)
  choose_lem true e le =
      Post-bind (NextEnds i w sql) (AppendEnds sql i blobs blob now w) (Intact i blobs w)
        (append_to_current sql blob now) (create_next_bucket sql w)
        (Post-map (create_next_bucket sql w) (create_next_bucket_lem i w sql o.index) (λ v n. n)
          (λ v k. Kept-Intact v k))
        (next_lem le)
  choose_lem false e le = here_lem (ltb→le _ _ e)

  fits_lem :
      (b : Bool)
      → ltb w.max_bucket_size (7 + (bucket_blob_header_size + blob.size)) ≡ b
      → Ends (
          if b
          then failed w
          else next_bucket_when sql
              (ltb w.max_bucket_size (w.current_bucket_pos + (bucket_blob_header_size + blob.size)))
              w
            |> append_to_current sql blob now)
  fits_lem true e = Kept-Intact w (λ j bs h. h)
  fits_lem false e = choose_lem _ refl (ltb→le _ _ e)

  -- Whatever system calls fail and however the writes are cut: a call that returns `evr_ok` has
  -- put the blob behind the others, with the end offset behind it, the index told and the bucket
  -- no larger than `max_bucket_size`; in the next bucket where the current one had no room; or in
  -- no bucket, if opening the next bucket's file failed. A call that fails leaves the earlier
  -- blobs where they stood, and every other file as it was.
  pub append_blob_lem :
      Post (AppendEnds sql i blobs blob now w) (Intact i blobs w) (append_blob sql blob now w)
  unfolding append_blob
  append_blob_lem = fits_lem _ refl
