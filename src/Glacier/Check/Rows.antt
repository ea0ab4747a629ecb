-- ===== src/Glacier/Check/Rows.antt =====
-- What the check of the index says of a row, and what the server makes of it.
use everarch.Prelude.{
  ℕ, ◌≤◌, ◌≡◌, refl, ap, ◌∙◌, Bool, true, false, Option, none, some, List, [], ◌∷◌, ◌++◌, arith,
  if◌then◌else◌, ◌==◌, length, append-nil, append_assoc, ==_iff,
}
use everarch.Errors.{Status, ok, error, glacier_index_db_corrupt}
use everarch.Files.{Grant}
use everarch.Files.ReadN.{Flows}
use everarch.Keys.TinySet.{ref_eq}
use everarch.Glacier.{BlobPosition, magic_number}
use everarch.Glacier.Directory.{blob_check_status}
use everarch.Glacier.ReadBlob.{
  Lookup, found, missing, told, read_opened, read_bucket, validate_bucket_magic_number, read_blob,
  read_blob_returns,
}
use everarch.Glacier.Check.{
  BlobCheckCtx, check_status, blob_check_data, Found, row, check_matched, check_read, check_blobs,
  EndOffset, check_index_db, quick_checked, quick_check,
}

ref_length : (ref : List ℕ) → length ref ≡ 28 → (length ref == 28) ≡ true
ref_length ref e = (==_iff (length ref) 28).1 e

module _ (hash : List ℕ → List ℕ) (fuel : ℕ) (find : List ℕ → Lookup)
    (files : ℕ → Option (List ℕ)) where
  -- A row whose lookup agrees and whose blob can be read is judged by the hash of the blob's bytes:
  -- if they have its ref the check goes on with the other rows, and otherwise it says that the index
  -- is corrupt.
  pub check_blobs_hashed :
      (ref : List ℕ) (p : BlobPosition) (gs : List Grant) (rows : List Found)
      (more front body rest : List ℕ)
      → length ref ≡ 28
      → find ref ≡ found p
      → files p.bucket_index ≡ some (magic_number ++ more)
      → magic_number ++ more ≡ front ++ (body ++ rest)
      → p.bucket_blob_offset ≡ length front
      → p.blob_size ≡ length body
      → p.blob_size ≤ fuel
      → Flows gs
      → check_blobs hash fuel find files (row ref p.flags p.blob_size gs ∷ rows) ≡ (
          if ref_eq ref (hash body)
          then check_blobs hash fuel find files rows
          else some glacier_index_db_corrupt)
  unfolding check_blobs
  check_blobs_hashed ref p gs rows more front body rest len lookup file parts offset size le fl =
      ap
        (λ b.
          if b
          then check_read hash fuel find files (check_blobs hash fuel find files rows)
              (read_blob check_status blob_check_data fuel files (find ref) gs ctx)
          else some glacier_index_db_corrupt)
        (ref_length ref len)
      ∙ ap
          (λ l.
            check_read hash fuel find files (check_blobs hash fuel find files rows)
              (read_blob check_status blob_check_data fuel files l gs ctx))
          lookup
      ∙ ap (check_read hash fuel find files (check_blobs hash fuel find files rows)) (
          read_blob_returns check_status blob_check_data (λ c bs. record c { hd = c.hd ++ bs })
            (λ c bs. refl) (λ c. ap (λ x. record c { hd = x }) (append-nil c.hd))
            (λ c xs ys. ap (λ x. record c { hd = x }) (append_assoc c.hd xs ys)) fuel files p gs ctx
            (record ctx { ret = ok }) more front body rest file parts offset size le fl agrees)
      ∙ judged (ref_eq ref (hash body))
    where
      ctx : BlobCheckCtx
      ctx = record { ref = ref; flags = p.flags; blob_size = p.blob_size; ret = error; hd = [] }

      agrees : check_status ctx true p.flags p.blob_size ≡ (ok, record ctx { ret = ok })
      agrees = ground arith

      judged :
          (b : Bool)
          → check_matched hash fuel find files (check_blobs hash fuel find files rows) b
            ≡ (if b then check_blobs hash fuel find files rows else some glacier_index_db_corrupt)
      judged true = refl
      judged false = refl

  -- The lookup finds the blob, with the flags and the size of the row.
  abbrev pub Agrees : ℕ → ℕ → Lookup → Type 0
  Agrees flags size (found p) = (p.flags ≡ flags) × (p.blob_size ≡ size)
  Agrees flags size _ = ⊥

  -- what a lookup that does not agree makes of the check, whatever the bucket's file has
  abbrev Fails : Option (Status × BlobCheckCtx) → Type 0
  Fails r = (rest : Option Status) → check_read hash fuel find files rest r ≡ some error

  told_lem :
      (ctx : BlobCheckCtx) (p : BlobPosition) (next : BlobCheckCtx → Option (Status × BlobCheckCtx))
      (b c : Bool)
      → (p.flags == ctx.flags) ≡ b
      → (p.blob_size == ctx.blob_size) ≡ c
      → (Agrees ctx.flags ctx.blob_size (found p) → ⊥)
      → Fails (told check_status blob_check_data next (check_status ctx true p.flags p.blob_size))
  unfolding blob_check_status
  told_lem ctx p next true true e f no_match rest =
      absurd (no_match ((==_iff p.flags ctx.flags).0 e, (==_iff p.blob_size ctx.blob_size).0 f))
  told_lem ctx p next true false e f no_match rest = rw (e, f)
  told_lem ctx p next false c e f no_match rest = rw e

  opened_lem :
      (ctx : BlobCheckCtx) (p : BlobPosition) (file : List ℕ) (r : Bool × List Grant)
      → (Agrees ctx.flags ctx.blob_size (found p) → ⊥)
      → Fails (read_opened check_status blob_check_data fuel file p ctx r)
  unfolding read_opened
  opened_lem ctx p file (false, gs) no_match rest = refl
  opened_lem ctx p file (true, gs) no_match rest =
      told_lem ctx p _ (p.flags == ctx.flags) (p.blob_size == ctx.blob_size) refl refl no_match rest

  disagreed_lem :
      (ctx : BlobCheckCtx) (gs : List Grant) (l : Lookup)
      → (Agrees ctx.flags ctx.blob_size l → ⊥)
      → Fails (read_blob check_status blob_check_data fuel files l gs ctx)
  unfolding read_blob read_bucket blob_check_status
  disagreed_lem ctx gs missing no_match rest = refl
  disagreed_lem ctx gs Lookup.lookup_failed no_match rest = refl
  disagreed_lem ctx gs (found p) no_match rest = split (files p.bucket_index)
    where
      split :
          (o : Option (List ℕ))
          → check_read hash fuel find files rest
              (read_bucket check_status blob_check_data fuel o p gs ctx)
            ≡ some error
      split none = refl
      split (some file) = opened_lem ctx p file (validate_bucket_magic_number file gs) no_match rest

  -- A row with which the lookup of its blob does not agree, since it finds none or one with other
  -- flags or another size, makes the check return error, whatever the buckets have, and never that
  -- the index is corrupt. With that result evr_quick_check_glacier returns an error as well, and it
  -- does not recreate the index.
  pub check_blobs-disagreeing :
      (ref : List ℕ) (flags size : ℕ) (gs : List Grant) (rows : List Found) (end_offset : ℕ)
      (random recreate : Status)
      → length ref ≡ 28
      → (Agrees flags size (find ref) → ⊥)
      → (check_blobs hash fuel find files (row ref flags size gs ∷ rows) ≡ some error)
        × (quick_check ok
              (check_index_db (some end_offset) (EndOffset.at end_offset) error random)
              ok
              recreate
            ≡ (error, false))
  unfolding check_blobs check_index_db quick_check
  check_blobs-disagreeing ref flags size gs rows end_offset random recreate len no_match = (
    ap
          (λ b.
            if b
            then check_read hash fuel find files (check_blobs hash fuel find files rows)
                (read_blob check_status blob_check_data fuel files (find ref) gs ctx)
            else some glacier_index_db_corrupt)
          (ref_length ref len)
        ∙ disagreed_lem ctx gs (find ref) no_match (check_blobs hash fuel find files rows),
    ap (λ b. quick_checked (if b then error else glacier_index_db_corrupt) recreate)
        ((==_iff end_offset end_offset).1 refl),
  )
    where
      ctx : BlobCheckCtx
      ctx = record { ref = ref; flags = flags; blob_size = size; ret = error; hd = [] }
