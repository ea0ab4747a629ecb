-- ===== src/Glacier/ReadBlob.antt =====
-- `evr_glacier_read_blob` and `evr_glacier_stat_blob` of src/glacier.c. The callbacks `status` and
-- `on_data` are parameters that change a context.
use everarch.Prelude.{
  ℕ, zero, suc, ◌-◌, ◌≤◌, ◌<◌, ◌≡◌, refl, sym, ap, ◌∙◌, min, Bool, true, false, Option, none, some,
  List, [], ◌∷◌, ◌++◌, arith, length, take, drop, length-append, take-append_ge, take-append,
  drop-append,
}
use everarch.Errors.{Status, ok, error, end, not_found}
use everarch.Files.{Grant, Source, ReadResult, failed, got, read, read_grant, Read, read_n, none_se}
use everarch.Files.ReadN.{Flows, ReadCase, read_grant_case, Ends, read_n_exact}
use everarch.Keys.TinySet.{ref_eq}
use everarch.Glacier.{BlobPosition, magic_number}

-- what the step of `find_blob_stmt` gives
pub data Lookup : Type 0 where
  found : BlobPosition → Lookup
  missing lookup_failed : Lookup

-- `evr_glacier_stat_blob`: the flags and the size of the row
unfoldable pub stat_blob : Lookup → Status × Option (ℕ × ℕ)
stat_blob (found p) = (ok, some (p.flags, p.blob_size))
stat_blob missing = (not_found, none)
stat_blob lookup_failed = (error, none)

-- `evr_validate_bucket_magic_number`, with the schedule that is left
abbrev pub check_magic : Read ℕ → Status → Bool × List Grant
check_magic r ok = (ref_eq r.buffer magic_number, r.source.grants)
check_magic r _ = (false, r.source.grants)

unfoldable pub validate_bucket_magic_number : List ℕ → List Grant → Bool × List Grant
unfolding read_n ref_eq
validate_bucket_magic_number file gs =
    let r = read_n {C = ℕ} none_se (record { bytes = file; grants = gs }) 3 0 in
    check_magic r r.status

-- A file that starts with the magic number is accepted.
pub magic_lem :
    (more : List ℕ) (gs : List Grant) (r : Read ℕ) (s : Status)
    → Flows gs
    → Ends (λ k bs. k) (magic_number ++ more) gs 3 [] 0 r s
    → (hs : List Grant) × Flows hs × (check_magic r s ≡ (true, hs))
unfolding ref_eq
magic_lem more gs r ok fl (le, b, _, _, flows) =
    (r.source.grants, flows fl, ap (λ x. (ref_eq x magic_number, r.source.grants)) b)
magic_lem more gs r end fl (short, _, _, _, _) =
    absurd (omega (arith, short, length-append magic_number more))
magic_lem more gs r error fl bad = absurd (bad fl)
magic_lem more gs r _ fl bad = absurd bad

abbrev pub read_buffer_size : ℕ
read_buffer_size = 1048576

module _ {C : Type 0} where
  abbrev pub data_next :
      (Source → ℕ → C → Option (Status × C)) → ℕ → List ℕ → Source → Bool × C → Option (Status × C)
  data_next recur remaining bs f (true, ctx) = recur f (remaining - length bs) ctx
  data_next recur remaining bs f (false, ctx) = some (error, ctx)

module _ {C : Type 0} (status : C → Bool → ℕ → ℕ → Status × C)
    (on_data : C → List ℕ → Bool × C) where
  abbrev pub data_round :
      (Source → ℕ → C → Option (Status × C)) → ℕ → C → ReadResult × Source → Option (Status × C)
  data_round recur remaining ctx (failed, f) = some (error, ctx)
  data_round recur remaining ctx (got bs, f) = data_next recur remaining bs f (on_data ctx bs)

  -- The loop over the blob's bytes. A read of nothing does not end it, so it need not end: `none`
  -- says that it still runs when the fuel is used up.
  unfoldable pub data_loop : ℕ → Source → ℕ → C → Option (Status × C)
  unfolding read
  data_loop fuel f zero ctx = some (ok, ctx)
  data_loop zero f (suc n) ctx = none
  data_loop (suc fuel) f (suc n) ctx =
      data_round (data_loop fuel) (suc n) ctx (read f (min read_buffer_size (suc n)))

  abbrev pub told : (C → Option (Status × C)) → Status × C → Option (Status × C)
  told next (ok, ctx) = next ctx
  told next (end, ctx) = some (end, ctx)
  told next (_, ctx) = some (error, ctx)

  abbrev pub told_missing : Status × C → Status × C
  told_missing (ok, ctx) = (not_found, ctx)
  told_missing (end, ctx) = (end, ctx)
  told_missing (_, ctx) = (error, ctx)

  unfoldable abbrev pub read_opened :
      ℕ → List ℕ → BlobPosition → C → Bool × List Grant → Option (Status × C)
  unfolding data_loop
  read_opened fuel file p ctx (false, gs) = some (error, ctx)
  read_opened fuel file p ctx (true, gs) =
      told
        (data_loop fuel (record { bytes = drop p.bucket_blob_offset file; grants = gs })
          p.blob_size)
        (status ctx true p.flags p.blob_size)

  -- a bucket that cannot be opened has no magic number
  unfoldable abbrev pub read_bucket :
      ℕ → Option (List ℕ) → BlobPosition → List Grant → C → Option (Status × C)
  unfolding read_opened validate_bucket_magic_number
  read_bucket fuel none p gs ctx = some (error, ctx)
  read_bucket fuel (some file) p gs ctx =
      read_opened fuel file p ctx (validate_bucket_magic_number file gs)

  unfoldable pub read_blob :
      ℕ → (ℕ → Option (List ℕ)) → Lookup → List Grant → C → Option (Status × C)
  unfolding read_bucket
  read_blob fuel files lookup_failed gs ctx = some (error, ctx)
  read_blob fuel files missing gs ctx = some (told_missing (status ctx false 0 0))
  read_blob fuel files (found p) gs ctx = read_bucket fuel (files p.bucket_index) p gs ctx

  module _ (update : C → List ℕ → C)
      (data_ok : (c : C) (bs : List ℕ) → on_data c bs ≡ (true, update c bs))
      (update-nil : (c : C) → update c [] ≡ c)
      (update-append : (c : C) (xs ys : List ℕ)
        → update (update c xs) ys ≡ update c (xs ++ ys)) where
    data_round_lem :
        (recur : Source → ℕ → C → Option (Status × C)) (bytes : List ℕ) (gs : List Grant)
        (n count : ℕ) (c : C) (r : ReadResult × Source)
        → Flows gs
        → n ≤ length bytes
        → 0 < n
        → count ≤ n
        → ReadCase bytes gs count r
        → ((f : Source) (m : ℕ) (d : C)
            → m < n
            → Flows f.grants
            → m ≤ length f.bytes
            → recur f m d ≡ some (ok, update d (take m f.bytes)))
        → data_round recur n c r ≡ some (ok, update c (take n bytes))
    data_round_lem recur bytes gs n count c (failed, f) fl le pos hc bad ih = absurd (bad fl)
    data_round_lem recur bytes gs n count c (got [], f) fl le pos hc (e, short, empty, flows) ih =
        absurd (omega (arith, le, pos, ap length (empty refl)))
    data_round_lem recur bytes gs n count c (got (b ∷ bs), f) fl le pos hc (e, short, empty, flows)
          ih =
        ap (data_next recur n (b ∷ bs) f) (data_ok c (b ∷ bs))
        ∙ ih f (n - length (b ∷ bs)) (update c (b ∷ bs)) (omega (arith, pos)) (flows fl)
            (omega (arith, le, ap length e, length-append (b ∷ bs) f.bytes))
        ∙ ap (λ d. some (ok, d))
            (update-append c (b ∷ bs) (take (n - length (b ∷ bs)) f.bytes)
              ∙ ap (update c) (
                  sym (take-append_ge n (b ∷ bs) f.bytes (omega (arith, short, hc)))
                  ∙ ap (take n) (sym e)))

    data_loop_lem :
        (fuel : ℕ) (f : Source) (n : ℕ) (c : C)
        → n ≤ fuel
        → Flows f.grants
        → n ≤ length f.bytes
        → data_loop fuel f n c ≡ some (ok, update c (take n f.bytes))
    unfolding data_loop read
    data_loop_lem fuel f zero c h fl le = ap (λ d. some (ok, d)) (sym (update-nil c))
    data_loop_lem zero f (suc n) c h fl le = absurd (omega arith)
    data_loop_lem (suc fuel) f (suc n) c h fl le =
        data_round_lem (data_loop fuel) f.bytes f.grants (suc n) (min read_buffer_size (suc n)) c
          (read_grant f.bytes (min read_buffer_size (suc n)) f.grants) fl le (omega arith)
          (omega arith)
          (read_grant_case f.bytes (min read_buffer_size (suc n)) f.grants (omega arith))
          (λ g m d lt flows len. data_loop_lem fuel g m d (omega (arith, lt, h)) flows len)

    -- When the index names a bucket whose file has the magic number, and the blob's bytes stand in
    -- it at the blob's offset, `status` is told of the blob and agrees, and no read fails, then
    -- however the reads are cut the call returns ok, after at most as many rounds as the blob has
    -- bytes, and `on_data` has been given exactly the blob's bytes in order.
    pub read_blob_returns :
        (fuel : ℕ) (files : ℕ → Option (List ℕ)) (p : BlobPosition) (gs : List Grant) (c c1 : C)
        (more front body rest : List ℕ)
        → files p.bucket_index ≡ some (magic_number ++ more)
        → magic_number ++ more ≡ front ++ (body ++ rest)
        → p.bucket_blob_offset ≡ length front
        → p.blob_size ≡ length body
        → p.blob_size ≤ fuel
        → Flows gs
        → status c true p.flags p.blob_size ≡ (ok, c1)
        → read_blob fuel files (found p) gs c ≡ some (ok, update c1 body)
    unfolding read_blob read_bucket read_opened validate_bucket_magic_number
    read_blob_returns fuel files p gs c c1 more front body rest file parts offset size le fl
          agrees =
        let (hs, flows, magic) =
          magic_lem more gs
            (read_n {C = ℕ} none_se (record { bytes = magic_number ++ more; grants = gs }) 3 0) _ fl
            (read_n_exact none_se (λ k bs. k) (λ k bs. refl) (λ k. refl) (λ k xs ys. refl)
              (record { bytes = magic_number ++ more; grants = gs }) 3 0) in
        let bytes : drop p.bucket_blob_offset (magic_number ++ more) ≡ body ++ rest =
          ap (drop p.bucket_blob_offset) parts
          ∙ drop-append p.bucket_blob_offset front (body ++ rest) offset in
        ap (λ f. read_bucket fuel f p gs c) file
        ∙ ap (read_opened fuel (magic_number ++ more) p c) magic
        ∙ ap
            (told (
              data_loop fuel
                (record { bytes = drop p.bucket_blob_offset (magic_number ++ more); grants = hs })
                p.blob_size))
            agrees
        ∙ ap (λ x. data_loop fuel (record { bytes = x; grants = hs }) p.blob_size c1) bytes
        ∙ data_loop_lem fuel (record { bytes = body ++ rest; grants = hs }) p.blob_size c1 le flows
            (omega (arith, size, length-append body rest))
        ∙ ap (λ x. some (ok, update c1 x)) (take-append p.blob_size body rest size)
