-- ===== src/Glacier/Walk/Records.antt =====
-- A walk over a bucket's file shows the visitor exactly the blobs that were appended to it.
use everarch.Prelude.{
  ℕ, zero, suc, ◌+◌, ◌≤◌, ◌<◌, ◌≡◌, refl, sym, ap, ◌∙◌, some, List, [], ◌∷◌, ◌++◌, append_assoc,
  append-nil, arith, length, take, All, if◌then◌else◌, is_zero, length-append, drop-append,
  take-append,
}
use native.Mathlib.Nat.{mod-eq_of_lt}
use everarch.Bytes.{u32, push_be, pull_be}
use everarch.Bytes.Codec.{pull_be-push_be_zero, length-push_be}
use everarch.Errors.{Status, ok, error, end}
use everarch.Files.{Grant, Read, read_n, none_se}
use everarch.Files.ReadN.{Flows, Ends, ReadSpec, read_n_exact}
use everarch.Glacier.{WritingBlob, magic_number, bucket_header_size, bucket_blob_header_size}
use everarch.Glacier.WriteBlob.{blob_header}
use everarch.Glacier.Data.{IsWritable, blob_record, length-blob_record, length-blob_header}
use everarch.Glacier.Chunks.{concat}
use everarch.Glacier.Walk.{
  BlobStat, visited_bytes_counter_se, parse_blob_header, walk_visited, walk_parsed, walk_header,
  walk_loop, walk_from, walk_bucket,
}
use everarch.Glacier.Walk.Header.{stat_of, parse-blob_header}

-- A blob that the bucket format can hold: its size fits the header's 32 bits.
abbrev pub IsStorable : WritingBlob × ℕ → Type 0
IsStorable (blob, now) = IsWritable blob × (blob.size < u32)

unfoldable pub records_bytes : List (WritingBlob × ℕ) → List ℕ
unfolding blob_record
records_bytes [] = []
records_bytes ((blob, now) ∷ rs) = blob_record blob now ++ records_bytes rs

-- What a bucket says of its blobs, the first of which has its header at `pos`.
unfoldable pub stats : ℕ → List (WritingBlob × ℕ) → List BlobStat
stats pos [] = []
stats pos ((blob, now) ∷ rs) =
    stat_of blob now (pos + bucket_blob_header_size)
    ∷ stats (pos + bucket_blob_header_size + blob.size) rs

module _ {C : Type 0} (visit_blob : C → BlobStat → Status × C) where
  -- The visitor is shown one blob after the other, until it does not return `ok`.
  unfoldable pub visits : C → List BlobStat → Status × C
  visits c [] = (ok, c)
  visits c (s ∷ ss) = walk_visited (λ d. visits d ss) (visit_blob c s)

  abbrev Recur : Type 0
  Recur = ℕ → List Grant → C → Status × C

  at_end :
      (recur : Recur) (f_pos : ℕ) (c : C) (gs : List Grant) (r : Read ℕ) (s : Status)
      → Flows gs
      → Ends (λ n bs. n + length bs) [] gs bucket_blob_header_size [] 0 r s
      → walk_header visit_blob recur f_pos c s r.buffer r.ctx r.source.grants ≡ (ok, c)
  at_end recur f_pos c gs r ok fl (le, _, _, _, _) = absurd (omega arith)
  at_end recur f_pos c gs r end fl (lt, b, e, _, _) =
      ap (λ n. if is_zero n then (ok, c) else (end, c)) e
  at_end recur f_pos c gs r error fl bad = absurd (bad fl)
  at_end recur f_pos c gs r _ fl bad = absurd bad

  visited_lem :
      (recur next : C → Status × C) (x : Status × C)
      → ((d : C) → recur d ≡ next d)
      → walk_visited recur x ≡ walk_visited next x
  visited_lem recur next (ok, d) h = h d
  visited_lem recur next (_, d) h = refl

  at_blob :
      (recur : Recur) (f_pos : ℕ) (c : C) (gs : List Grant) (r : Read ℕ) (s : Status)
      (blob : WritingBlob) (now : ℕ) (more : List ℕ) (rs : List (WritingBlob × ℕ))
      → IsStorable (blob, now)
      → Flows gs
      → ((hs : List Grant) (d : C)
          → Flows hs
          → recur (f_pos + bucket_blob_header_size + blob.size) hs d
            ≡ visits d (stats (f_pos + bucket_blob_header_size + blob.size) rs))
      → Ends
          (λ n bs. n + length bs)
          (blob_header blob now ++ more)
          gs
          bucket_blob_header_size
          []
          0
          r
          s
      → walk_header visit_blob recur f_pos c s r.buffer r.ctx r.source.grants
        ≡ visits c (stats f_pos ((blob, now) ∷ rs))
  unfolding visits stats
  at_blob recur f_pos c gs r ok blob now more rs ((key, full), small) fl ih (le, b, _, _, flows) =
      ap
        (λ buf.
          walk_parsed visit_blob recur f_pos r.source.grants c
            (parse_blob_header buf (f_pos + bucket_blob_header_size)))
        (b ∙ take-append 42 (blob_header blob now) more (sym (length-blob_header blob now key)))
      ∙ ap (walk_parsed visit_blob recur f_pos r.source.grants c)
          (parse-blob_header blob now (f_pos + bucket_blob_header_size) key)
      ∙ visited_lem _ _ (visit_blob c (stat_of blob now (f_pos + bucket_blob_header_size))) (λ d.
        ap (λ n. recur (f_pos + bucket_blob_header_size + n) r.source.grants d)
          (mod-eq_of_lt {n = blob.size} {m = u32} small)
        ∙ ih r.source.grants d (flows fl))
  at_blob recur f_pos c gs r end blob now more rs ((key, full), small) fl ih (lt, _, _, _, _) =
      absurd (
        omega
          (arith, lt, length-append (blob_header blob now) more, length-blob_header blob now key))
  at_blob recur f_pos c gs r error blob now more rs h fl ih bad = absurd (bad fl)
  at_blob recur f_pos c gs r _ blob now more rs h fl ih bad = absurd bad

  read_header :
      (bytes : List ℕ) (gs : List Grant)
      → ReadSpec
          (λ n bs. n + length bs)
          bytes
          gs
          bucket_blob_header_size
          []
          0
          (read_n visited_bytes_counter_se
            (record { bytes = bytes; grants = gs })
            bucket_blob_header_size
            0)
  unfolding visited_bytes_counter_se
  read_header bytes gs =
      read_n_exact visited_bytes_counter_se (λ n bs. n + length bs) (λ n bs. refl)
        (λ n. omega arith) (λ n xs ys. omega (arith, length-append xs ys))
        (record { bytes = bytes; grants = gs }) bucket_blob_header_size 0

  -- one round of the loop on the bytes that are left
  abbrev round : Recur → ℕ → List Grant → C → List ℕ → Status × C
  unfolding read_n visited_bytes_counter_se parse_blob_header
  round recur f_pos gs c bytes =
      let r =
        read_n visited_bytes_counter_se (record { bytes = bytes; grants = gs })
          bucket_blob_header_size 0 in
      walk_header visit_blob recur f_pos c r.status r.buffer r.ctx r.source.grants

  walk_loop_lem :
      (fuel : ℕ) (rs : List (WritingBlob × ℕ)) (front : List ℕ) (f_pos : ℕ) (gs : List Grant)
      (c : C)
      → f_pos ≡ length front
      → length rs < fuel
      → Flows gs
      → All IsStorable rs
      → walk_loop visit_blob fuel (front ++ records_bytes rs) f_pos gs c ≡ visits c (stats f_pos rs)
  unfolding walk_loop visits stats records_bytes round blob_record
  walk_loop_lem zero rs front f_pos gs c e lt fl h = absurd (omega arith)
  walk_loop_lem (suc fuel) [] front f_pos gs c e lt fl h =
      ap (round (walk_loop visit_blob fuel (front ++ [])) f_pos gs c) (drop-append f_pos front [] e)
      ∙ at_end (walk_loop visit_blob fuel (front ++ [])) f_pos c gs
          (read_n visited_bytes_counter_se (record { bytes = []; grants = gs })
            bucket_blob_header_size 0)
          _ fl (read_header [] gs)
  walk_loop_lem (suc fuel) ((blob, now) ∷ rs) front f_pos gs c e lt fl ((ready, small), h) =
      ap (round (walk_loop visit_blob fuel file) f_pos gs c) (
        drop-append f_pos front (blob_record blob now ++ records_bytes rs) e
        ∙ append_assoc (blob_header blob now) (take blob.size (concat blob.chunks))
            (records_bytes rs))
      ∙ at_blob (walk_loop visit_blob fuel file) f_pos c gs
          (read_n visited_bytes_counter_se
            (record { bytes = blob_header blob now ++ more; grants = gs }) bucket_blob_header_size
            0)
          _ blob now more rs (ready, small) fl
          (λ hs d flows.
            ap (λ x. walk_loop visit_blob fuel x (f_pos + bucket_blob_header_size + blob.size) hs d)
              (sym (append_assoc front (blob_record blob now) (records_bytes rs)))
            ∙ walk_loop_lem fuel rs (front ++ blob_record blob now)
                (f_pos + bucket_blob_header_size + blob.size) hs d
                (omega (
                  arith,
                  e,
                  length-append front (blob_record blob now),
                  length-blob_record blob now ready,
                ))
                (omega (arith, lt)) flows h)
          (read_header (blob_header blob now ++ more) gs)
    where
      file : List ℕ
      file = front ++ (blob_record blob now ++ records_bytes rs)

      more : List ℕ
      more = take blob.size (concat blob.chunks) ++ records_bytes rs

  length-records_bytes :
      (rs : List (WritingBlob × ℕ)) → All IsStorable rs → length rs ≤ length (records_bytes rs)
  unfolding records_bytes
  length-records_bytes [] h = omega arith
  length-records_bytes ((blob, now) ∷ rs) ((ready, small), h) = omega (
    arith,
    length-records_bytes rs h,
    length-append (blob_record blob now) (records_bytes rs),
    length-blob_record blob now ready,
  )

  offset_lem :
      (visit_bucket : C → ℕ → Status × C) (file : List ℕ) (c : C) (n : ℕ) (gs : List Grant)
      (r : Read ℕ) (s : Status) (body : List ℕ) (expect : C → Status × C)
      → n < u32
      → Flows gs
      → ((hs : List Grant) (d : C)
          → Flows hs
          → walk_loop visit_blob (suc (length file)) file bucket_header_size hs d ≡ expect d)
      → Ends (λ k bs. k) (push_be 4 n ++ body) gs 4 [] 0 r s
      → walk_from visit_blob visit_bucket file c s (pull_be 4 0 r.buffer) r.source.grants
        ≡ walk_visited expect (visit_bucket c n)
  offset_lem visit_bucket file c n gs r ok body expect lt fl h (le, b, _, _, flows) =
      ap (λ x. walk_from visit_blob visit_bucket file c ok x r.source.grants)
        (ap (pull_be 4 0) (
            b
            ∙ take-append 4 (push_be 4 n) body (sym (length-push_be 4 n))
            ∙ sym (append-nil (push_be 4 n)))
          ∙ pull_be-push_be_zero 4 n []
          ∙ ap (λ (k : ℕ). some (k, [])) (mod-eq_of_lt {n = n} {m = u32} lt))
      ∙ visited_lem _ expect (visit_bucket c n) (λ d. h r.source.grants d (flows fl))
  offset_lem visit_bucket file c n gs r end body expect lt fl h (short, _, _, _, _) =
      absurd (omega (arith, short, length-append (push_be 4 n) body, length-push_be 4 n))
  offset_lem visit_bucket file c n gs r error body expect lt fl h bad = absurd (bad fl)
  offset_lem visit_bucket file c n gs r _ body expect lt fl h bad = absurd bad

  -- On a bucket's file with the end offset n and the blobs rs, and nothing behind them, a walk
  -- whose reads do not fail, however they are cut, shows the visitor n, and then each blob in
  -- order: its key, its flags and time cut to the header's width, its size, where its data
  -- starts, and that its checksum is valid. It returns `ok` unless the visitor stops it, and
  -- what the visitor said if it does.
  pub walk_bucket_records :
      (visit_bucket : C → ℕ → Status × C) (rs : List (WritingBlob × ℕ)) (n : ℕ) (gs : List Grant)
      (c : C)
      → n < u32
      → Flows gs
      → All IsStorable rs
      → walk_bucket visit_blob visit_bucket (magic_number ++ push_be 4 n ++ records_bytes rs) gs c
        ≡ walk_visited (λ d. visits d (stats bucket_header_size rs)) (visit_bucket c n)
  unfolding walk_bucket
  walk_bucket_records visit_bucket rs n gs c lt fl h =
      offset_lem visit_bucket file c n gs
        (read_n {C = ℕ} none_se (record { bytes = push_be 4 n ++ records_bytes rs; grants = gs }) 4
          0)
        _ (records_bytes rs) (λ d. visits d (stats bucket_header_size rs)) lt fl
        (λ hs d flows.
          walk_loop_lem (suc (length file)) rs (magic_number ++ push_be 4 n) bucket_header_size hs d
            (omega (arith, length-append magic_number (push_be 4 n), length-push_be 4 n))
            (omega (
              arith,
              length-records_bytes rs h,
              length-append (magic_number ++ push_be 4 n) (records_bytes rs),
            ))
            flows h)
        (read_n_exact none_se (λ k bs. k) (λ k bs. refl) (λ k. refl) (λ k xs ys. refl)
          (record { bytes = push_be 4 n ++ records_bytes rs; grants = gs }) 4 0)
    where
      file : List ℕ
      file = magic_number ++ push_be 4 n ++ records_bytes rs
