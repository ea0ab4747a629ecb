-- ===== src/Glacier/ReadShown.antt =====
-- `evr_glacier_read_blob` of src/glacier.c with callbacks whose context is more than the bytes that
-- they were given, such as a socket: the context is described by a relation.
use everarch.Prelude.{
  ℕ, zero, suc, ◌-◌, ◌≤◌, ◌<◌, ◌≡◌, refl, sym, ap, subst, ◌∙◌, min, Bool, true, Option, some, ap₂,
  List, [], ◌∷◌, ◌++◌, arith, length, take, drop, length-append, take-append_ge, take-append,
  drop-append,
}
use everarch.Errors.{Status, ok}
use everarch.Files.{Grant, Source, ReadResult, failed, got, read, read_grant, read_n, none_se}
use everarch.Files.ReadN.{Flows, ReadCase, read_grant_case, read_n_exact}
use everarch.Glacier.{BlobPosition, magic_number}
use everarch.Glacier.ReadBlob.{
  Lookup, found, told, read_opened, read_bucket, validate_bucket_magic_number, read_blob, data_next,
  data_round, data_loop, read_buffer_size, magic_lem,
}

-- The index has the blob: a row, and the bytes at its place in a bucket that has the magic number.
pub record IsAt (lookup : Lookup) (files : ℕ → Option (List ℕ)) (flags : ℕ) (body : List ℕ)
    : Type 0 where
  pub position : BlobPosition
  pub more : List ℕ
  pub front : List ℕ
  pub rest : List ℕ
  pub is_found : lookup ≡ found position
  pub is_flags : position.flags ≡ flags
  pub is_size : position.blob_size ≡ length body
  pub is_file : files position.bucket_index ≡ some (magic_number ++ more)
  pub is_split : magic_number ++ more ≡ front ++ (body ++ rest)
  pub is_offset : position.bucket_blob_offset ≡ length front

module _ {C : Type 0} (status : C → Bool → ℕ → ℕ → Status × C) (on_data : C → List ℕ → Bool × C)
    (Shown : C → List ℕ → C → Type 0) (Shown-nil : (c : C) → Shown c [] c)
    (Shown-append : (c d e : C) (xs ys : List ℕ)
      → Shown c xs d
      → Shown d ys e
      → Shown c (xs ++ ys) e)
    (Good : C → Type 0)
    (shows : (c : C) (bs : List ℕ)
      → Good c
      → (d : C) × (on_data c bs ≡ (true, d)) × Good d × Shown c bs d) where
  abbrev Shows : C → List ℕ → Option (Status × C) → Type 0
  Shows c bs r = (d : C) × (r ≡ some (ok, d)) × Good d × Shown c bs d

  data_round-Shows :
      (recur : Source → ℕ → C → Option (Status × C)) (bytes : List ℕ) (gs : List Grant)
      (n count : ℕ) (c : C) (r : ReadResult × Source)
      → Flows gs
      → n ≤ length bytes
      → 0 < n
      → count ≤ n
      → Good c
      → ReadCase bytes gs count r
      → ((f : Source) (m : ℕ) (d : C)
          → m < n
          → Flows f.grants
          → m ≤ length f.bytes
          → Good d
          → Shows d (take m f.bytes) (recur f m d))
      → Shows c (take n bytes) (data_round status on_data recur n c r)
  data_round-Shows recur bytes gs n count c (failed, f) fl le pos hc good bad ih = absurd (bad fl)
  data_round-Shows recur bytes gs n count c (got [], f) fl le pos hc good (e, short, empty, flows)
        ih =
      absurd (omega (arith, le, pos, ap length (empty refl)))
  data_round-Shows recur bytes gs n count c (got (b ∷ bs), f) fl le pos hc good
        (e, short, empty, flows) ih =
      let (d, taken, good', shown) = shows c (b ∷ bs) good in
      let m = n - length (b ∷ bs) in
      let (x, done, good'', rest) =
        ih f m d (omega (arith, pos)) (flows fl)
          (omega (arith, le, ap length e, length-append (b ∷ bs) f.bytes)) good' in
      (
        x,
        ap (data_next recur n (b ∷ bs) f) taken ∙ done,
        good'',
        subst (λ z. Shown c z x)
            (sym (take-append_ge n (b ∷ bs) f.bytes (omega (arith, short, hc)))
              ∙ ap (take n) (sym e))
            (Shown-append c d x (b ∷ bs) (take m f.bytes) shown rest),
      )

  data_loop-Shows :
      (fuel : ℕ) (f : Source) (n : ℕ) (c : C)
      → n ≤ fuel
      → Flows f.grants
      → n ≤ length f.bytes
      → Good c
      → Shows c (take n f.bytes) (data_loop status on_data fuel f n c)
  unfolding data_loop read
  data_loop-Shows fuel f zero c h fl le good = (c, refl, good, Shown-nil c)
  data_loop-Shows zero f (suc n) c h fl le good = absurd (omega arith)
  data_loop-Shows (suc fuel) f (suc n) c h fl le good =
      data_round-Shows (data_loop status on_data fuel) f.bytes f.grants (suc n)
        (min read_buffer_size (suc n)) c
        (read_grant f.bytes (min read_buffer_size (suc n)) f.grants) fl le (omega arith)
        (omega arith) good
        (read_grant_case f.bytes (min read_buffer_size (suc n)) f.grants (omega arith))
        (λ g m d lt flows len. data_loop-Shows fuel g m d (omega (arith, lt, h)) flows len)

  -- The callbacks are given the flags, the size and the bytes of the blob.
  pub read_blob-Shows :
      (fuel : ℕ) (lookup : Lookup) (files : ℕ → Option (List ℕ)) (flags : ℕ) (body : List ℕ)
      (gs : List Grant) (c d : C)
      → IsAt lookup files flags body
      → length body ≤ fuel
      → Flows gs
      → status c true flags (length body) ≡ (ok, d)
      → Good d
      → Shows d body (read_blob status on_data fuel files lookup gs c)
  unfolding read_blob read_bucket read_opened validate_bucket_magic_number
  read_blob-Shows fuel lookup files flags body gs c d at le fl agrees good =
      let p = at.position in
      let file = magic_number ++ at.more in
      let (hs, flows, magic) =
        magic_lem at.more gs (read_n {C = ℕ} none_se (record { bytes = file; grants = gs }) 3 0) _
          fl
          (read_n_exact none_se (λ k bs. k) (λ k bs. refl) (λ k. refl) (λ k xs ys. refl)
            (record { bytes = file; grants = gs }) 3 0) in
      let bytes : drop p.bucket_blob_offset file ≡ body ++ at.rest =
        ap (drop p.bucket_blob_offset) at.is_split
        ∙ drop-append p.bucket_blob_offset at.front (body ++ at.rest) at.is_offset in
      let (x, done, good', shown) =
        data_loop-Shows fuel (record { bytes = body ++ at.rest; grants = hs }) p.blob_size d
          (omega (arith, le, at.is_size)) flows
          (omega (arith, at.is_size, length-append body at.rest)) good in
      (
        x,
        ap (λ l. read_blob status on_data fuel files l gs c) at.is_found
            ∙ ap (λ f. read_bucket status on_data fuel f p gs c) at.is_file
            ∙ ap (read_opened status on_data fuel file p c) magic
            ∙ ap₂
                (λ b s.
                  told status on_data
                    (data_loop status on_data fuel (record { bytes = b; grants = hs }) p.blob_size)
                    s)
                bytes (ap₂ (λ a b. status c true a b) at.is_flags at.is_size ∙ agrees)
            ∙ done,
        good',
        subst (λ z. Shown d z x) (take-append p.blob_size body at.rest at.is_size) shown,
      )
