-- ===== src/Glacier/Data.antt =====
-- The first half of `evr_glacier_append_blob`: the header and the chunks behind the last blob.
use everarch.Prelude.{
  ℕ, ◌+◌, ◌≡◌, ◌≢◌, sym, ap, subst, ◌∙◌, Bool, List, ◌++◌, some, arith, length, take, drop,
  append_assoc, length-append, length-take,
}
use everarch.Bytes.{push_u8, push_be, push_checksum}
use everarch.Bytes.Codec.{length-push_be}
use everarch.Glacier.{
  Glacier, Exec, ◌|>◌, bucket, magic_number, WritingBlob, lseek, write_current, sync_when,
}
use everarch.Glacier.WriteBlob.{blob_header, write_chunks}
use everarch.Glacier.Frame.{
  Post, Post-bind, Post-map, Steady, At, Extends, Torn-Extends, Extends-shorter,
}
use everarch.Glacier.Steps.{lseek_lem, sync_when_lem, write_current_lem}
use everarch.Glacier.Chunks.{IsChunked, concat, write_chunks_lem}
use everarch.Glacier.EndOffset.{Holds, Extends-Holds}

-- What the callers of `evr_glacier_append_blob` hand over: a whole key, and chunks that hold the
-- size they promise.
abbrev pub IsWritable : WritingBlob → Type 0
IsWritable blob = (length blob.key ≡ 28) × IsChunked blob.size blob.chunks

-- The bytes of a blob in a bucket, said without the loop that writes them.
unfoldable pub blob_record : WritingBlob → ℕ → List ℕ
unfolding blob_header concat
blob_record blob now = blob_header blob now ++ take blob.size (concat blob.chunks)

pub length-blob_header :
    (blob : WritingBlob) (now : ℕ) → length blob.key ≡ 28 → length (blob_header blob now) ≡ 42
unfolding blob_header push_checksum push_u8
length-blob_header blob now e = omega (
  arith,
  e,
  length-append (blob.key ++ push_u8 blob.flags ++ push_be 8 now ++ push_be 4 blob.size)
      (push_u8 _),
  length-append (blob.key ++ push_u8 blob.flags ++ push_be 8 now) (push_be 4 blob.size),
  length-append (blob.key ++ push_u8 blob.flags) (push_be 8 now),
  length-append blob.key (push_u8 blob.flags),
  length-push_be 8 now,
  length-push_be 4 blob.size,
)

pub length-blob_record :
    (blob : WritingBlob) (now : ℕ)
    → IsWritable blob
    → length (blob_record blob now) ≡ 42 + blob.size
unfolding blob_record
length-blob_record blob now (e, (full, le)) = omega (
  arith,
  le,
  length-blob_header blob now e,
  length-append (blob_header blob now) (take blob.size (concat blob.chunks)),
  length-take blob.size (concat blob.chunks),
)

-- Bytes behind the blobs belong to what follows them.
pub regroup_more :
    (e blobs more rest : List ℕ)
    → magic_number ++ e ++ (blobs ++ more) ++ rest ≡ magic_number ++ e ++ blobs ++ (more ++ rest)
regroup_more e blobs more rest =
    ap (λ x. x ++ rest) (sym (append_assoc (magic_number ++ e) blobs more))
    ∙ append_assoc (magic_number ++ e ++ blobs) more rest

module _ {Db : Type 0} (i : ℕ) (blobs : List ℕ) where
  -- What every failure leaves: the context still writes the same bucket, in whose file the earlier
  -- blobs stand where they stood, and no other file has changed.
  pub record Safe (w v : Glacier Db) : Type 0 where
    pub fd : v.current_bucket_f ≡ bucket i
    pub end_bytes : List ℕ
    pub rest : List ℕ
    pub four : length end_bytes ≡ 4
    pub file : v.files i ≡ some (magic_number ++ end_bytes ++ blobs ++ rest)
    pub others : (j : ℕ) → j ≢ i → v.files j ≡ w.files j

  pub Holds-Safe : (w v : Glacier Db) → Holds i blobs w v → Safe w v
  Holds-Safe w v h = record {
    fd = h.steady.fd;
    end_bytes = h.end_bytes;
    rest = h.rest;
    four = h.four;
    file = h.file;
    others = h.steady.others;
  }

  pub Safe-shorter :
      (more : List ℕ) (w u v : Glacier Db)
      → ((j : ℕ) → j ≢ i → u.files j ≡ w.files j)
      → Holds i (blobs ++ more) u v
      → Safe w v
  Safe-shorter more w u v others h = record {
    fd = h.steady.fd;
    end_bytes = h.end_bytes;
    rest = more ++ h.rest;
    four = h.four;
    file = h.file ∙ ap some (regroup_more h.end_bytes blobs more h.rest);
    others = λ j ne. h.steady.others j ne ∙ others j ne;
  }

module _ {Db : Type 0} (i : ℕ) (e blobs : List ℕ) (four : length e ≡ 4) (blob : WritingBlob)
    (now : ℕ) (w : Glacier Db) where
  abbrev front : List ℕ
  front = magic_number ++ e ++ blobs

  Extends-Safe : (v : Glacier Db) → Extends i front w v → Safe i blobs w v
  Extends-Safe v x = Holds-Safe i blobs w v (Extends-Holds i e blobs w v four x)

  header_lem :
      (rest : List ℕ)
      → Steady i w w
      → w.files i ≡ some (front ++ rest)
      → w.current_bucket_pos ≡ length front
      → Post
          (At i (front ++ blob_header blob now) (drop (length (blob_header blob now)) rest) w)
          (Safe i blobs w)
          (lseek w.current_bucket_pos w |> write_current (blob_header blob now))
  header_lem rest steady file pos =
      Post-bind (At i front rest w)
        (At i (front ++ blob_header blob now) (drop (length (blob_header blob now)) rest) w)
        (Safe i blobs w) (write_current (blob_header blob now)) (lseek w.current_bucket_pos w)
        (Post-map (lseek w.current_bucket_pos w)
          (lseek_lem i w w steady front rest file w.current_bucket_pos pos) (λ v a. a)
          (λ v (st, same).
            Extends-Safe v (record { rest = rest; steady = st; file = same ∙ file })))
        (λ v a.
          Post-map (write_current (blob_header blob now) v)
            (write_current_lem i front rest (blob_header blob now) w v a) (λ u x. x)
            (λ u t.
              Extends-Safe u (Torn-Extends i front (length (blob_header blob now)) rest w u t)))

  chunks_lem :
      (x : Exec Db) (rest : List ℕ)
      → IsWritable blob
      → Post (At i (front ++ blob_header blob now) rest w) (Safe i blobs w) x
      → Post
          (Extends i (front ++ blob_header blob now ++ take blob.size (concat blob.chunks)) w)
          (Safe i blobs w)
          (x |> write_chunks blob.size blob.chunks)
  chunks_lem x rest (key, full) h =
      Post-bind (At i (front ++ blob_header blob now) rest w)
        (Extends i (front ++ blob_header blob now ++ take blob.size (concat blob.chunks)) w)
        (Safe i blobs w) (write_chunks blob.size blob.chunks) x h
        (λ v a.
          Post-map (write_chunks blob.size blob.chunks v)
            (write_chunks_lem i w blob.size blob.chunks (front ++ blob_header blob now) rest v full
              a)
            (λ u (tail, b). record { rest = tail; steady = b.steady; file = b.file })
            (λ u b. Extends-Safe u (Extends-shorter i front (blob_header blob now) w u b)))

  sync_lem :
      (front' : List ℕ) (sync : Bool) (x : Exec Db)
      → ((v : Glacier Db) → Extends i front' w v → Safe i blobs w v)
      → Post (Extends i front' w) (Safe i blobs w) x
      → Post (Extends i front' w) (Safe i blobs w) (x |> sync_when sync)
  sync_lem front' sync x safe h =
      Post-bind (Extends i front' w) (Extends i front' w) (Safe i blobs w) (sync_when sync) x h
        (λ v a.
          Post-map (sync_when sync v)
            (sync_when_lem i w v a.steady (Safe i blobs w) sync
              (λ u st same. safe u (record { rest = a.rest; steady = st; file = same ∙ a.file })))
            (λ u (st, same). record { rest = a.rest; steady = st; file = same ∙ a.file })
            (λ u b. b))

  regroup :
      front ++ blob_header blob now ++ take blob.size (concat blob.chunks)
      ≡ magic_number ++ e ++ (blobs ++ blob_record blob now)
  unfolding blob_record
  regroup =
      append_assoc front (blob_header blob now) (take blob.size (concat blob.chunks))
      ∙ append_assoc (magic_number ++ e) blobs _

  -- The header and the data are in the file, or the blobs in front of them are safe.
  pub append_data_lem :
      (rest : List ℕ)
      → Steady i w w
      → w.files i ≡ some (front ++ rest)
      → w.current_bucket_pos ≡ length front
      → IsWritable blob
      → Post (Extends i (magic_number ++ e ++ (blobs ++ blob_record blob now)) w) (Safe i blobs w) (
          lseek w.current_bucket_pos w
          |> write_current (blob_header blob now)
          |> write_chunks blob.size blob.chunks
          |> sync_when blob.sync_per_blob)
  append_data_lem rest steady file pos ready =
      Post-map
        (lseek w.current_bucket_pos w
          |> write_current (blob_header blob now)
          |> write_chunks blob.size blob.chunks
          |> sync_when blob.sync_per_blob)
        (sync_lem (front ++ blob_header blob now ++ take blob.size (concat blob.chunks))
          blob.sync_per_blob _
          (λ v x. Extends-Safe v (
            Extends-shorter i front (blob_header blob now) w v (
              Extends-shorter i (front ++ blob_header blob now)
                (take blob.size (concat blob.chunks)) w v x)))
          (chunks_lem _ (drop (length (blob_header blob now)) rest) ready
            (header_lem rest steady file pos)))
        (λ v x. subst (λ f. Extends i f w v) regroup x) (λ v x. x)
