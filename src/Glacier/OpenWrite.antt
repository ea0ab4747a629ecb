-- ===== src/Glacier/OpenWrite.antt =====
-- How `evr_create_glacier_write_ctx` of src/glacier.c finds the bucket to write, behind the lock and
-- the preparation of the statements. `listing` are the indices that `evr_walk_buckets` reads from
-- the file names of the directory. What a read of standard output would give, after an open that
-- failed, is no magic number.
use native.Mathlib.Nat.{mod-eq_of_lt}
use everarch.Prelude.{
  ℕ, zero, suc, ◌<◌, ◌≡◌, refl, sym, ap, ◌∙◌, Bool, true, false, Option, none, some, List, [], ◌∷◌,
  ◌++◌, if◌then◌else◌, is_zero, ltb, drop, arith, append-nil, take-append, length-append, All,
  Bool-cases, ltb→lt, ltb→le, ◌≤◌, inl, inr,
}
use everarch.Bytes.{u32, push_be, pull_be}
use everarch.Bytes.Codec.{pull_be-push_be_zero, length-push_be}
use everarch.Errors.{Status, ok, error, end}
use everarch.Files.{Grant, Read, read_n, none_se}
use everarch.Files.ReadN.{Flows, Ends, read_n_exact}
use everarch.Glacier.{Glacier, Exec, done, failed, closed, stdout, bucket, magic_number, IndexDb}
use everarch.Glacier.WriteBlob.{create_next_bucket}
use everarch.Glacier.ReadBlob.{validate_bucket_magic_number, magic_lem}

-- the visits of `evr_move_to_last_bucket_visitor`
unfoldable pub last_bucket_index : List ℕ → ℕ → ℕ
last_bucket_index [] current = current
last_bucket_index (i ∷ is) current = last_bucket_index is (if ltb current i then i else current)

abbrev pub offset_of : Option (ℕ × List ℕ) → Option ℕ
offset_of none = none
offset_of (some (n, rest)) = some n

abbrev pub read_end : Read ℕ → Status → Option ℕ × List Grant
read_end r ok = (offset_of (pull_be 4 0 r.buffer), r.source.grants)
read_end r _ = (none, r.source.grants)

unfoldable pub read_bucket_end_offset : List ℕ → List Grant → Option ℕ × List Grant
unfolding read_n
read_bucket_end_offset file gs =
    let r = read_n {C = ℕ} none_se (record { bytes = drop 3 file; grants = gs }) 4 0 in
    read_end r r.status

module _ {Db : Type 0} (sql : IndexDb Db) where
  -- An end offset of 0 says that the bucket is corrupt: the next one is written.
  abbrev pub end_known : Glacier Db → Option ℕ × List Grant → Exec Db
  end_known w (none, gs) = failed (record w { grants = gs })
  end_known w (some zero, gs) =
      create_next_bucket sql (record w { grants = gs; current_bucket_pos = 0 })
  end_known w (some (suc n), gs) = done (record w { grants = gs; current_bucket_pos = suc n })

  abbrev pub validated : List ℕ → Glacier Db → Bool × List Grant → Exec Db
  unfolding read_bucket_end_offset
  validated file w (false, gs) = failed (record w { grants = gs })
  validated file w (true, gs) = end_known w (read_bucket_end_offset file gs)

  abbrev pub open_file : Glacier Db → Option (List ℕ) → Exec Db
  unfolding validated validate_bucket_magic_number
  open_file w none = failed (record w { current_bucket_f = stdout })
  open_file w (some file) =
      validated file (record w { current_bucket_f = bucket w.current_bucket_index })
        (validate_bucket_magic_number file w.grants)

  abbrev pub open_last : Glacier Db → List Bool → Exec Db
  unfolding open_file
  open_last w [] = open_file w (w.files w.current_bucket_index)
  open_last w (true ∷ fs) = open_file (record w { fails = fs }) none
  open_last w (false ∷ fs) = open_file (record w { fails = fs }) (w.files w.current_bucket_index)

  unfoldable pub open_write_ctx : List ℕ → Glacier Db → Exec Db
  unfolding last_bucket_index open_last create_next_bucket
  open_write_ctx listing w =
      let v = record w {
        current_bucket_index = last_bucket_index listing 0;
        current_bucket_f = closed;
        current_bucket_pos = 0;
        current_bucket_sync = true;
      } in
      if is_zero v.current_bucket_index then create_next_bucket sql v else open_last v w.fails

end_lem :
    (n : ℕ) (more : List ℕ) (gs : List Grant) (r : Read ℕ) (s : Status)
    → n < u32
    → Flows gs
    → Ends (λ k bs. k) (push_be 4 n ++ more) gs 4 [] 0 r s
    → read_end r s ≡ (some n, r.source.grants)
end_lem n more gs r ok lt fl (le, b, _, _, flows) =
    ap (λ x. (offset_of x, r.source.grants))
      (ap (pull_be 4 0) (
          b
          ∙ take-append 4 (push_be 4 n) more (sym (length-push_be 4 n))
          ∙ sym (append-nil (push_be 4 n)))
        ∙ pull_be-push_be_zero 4 n []
        ∙ ap (λ (k : ℕ). some (k, [])) (mod-eq_of_lt {n = n} {m = u32} lt))
end_lem n more gs r end lt fl (short, _, _, _, _) =
    absurd (omega (arith, short, length-append (push_be 4 n) more, length-push_be 4 n))
end_lem n more gs r error lt fl bad = absurd (bad fl)
end_lem n more gs r _ lt fl bad = absurd bad

le→not_ltb : (j m : ℕ) → j ≤ m → ltb m j ≡ false
le→not_ltb j m le = elim (Bool-cases (ltb m j)) [
  | inl e ↦ let lt = ltb→lt m j e in absurd (omega (arith, le, lt))
  | inr e ↦ e
]

take_greater : (c m : ℕ) → c ≤ m → (if ltb c m then m else c) ≡ m
take_greater c m le = elim (Bool-cases (ltb c m)) [
  | inl e ↦ ap (λ b. if b then m else c) e
  | inr e ↦ ap (λ b. if b then m else c) e ∙ (let ge = ltb→le c m e in omega (arith, le, ge))
]

-- Nothing behind the greatest index replaces it.
kept_lem : (m : ℕ) (back : List ℕ) → All (λ j. j ≤ m) back → last_bucket_index back m ≡ m
unfolding last_bucket_index
kept_lem m [] all = refl
kept_lem m (j ∷ back) (le, all) =
    ap (λ b. last_bucket_index back (if b then j else m)) (le→not_ltb j m le) ∙ kept_lem m back all

last_lem :
    (front : List ℕ) (m : ℕ) (back : List ℕ) (c : ℕ)
    → All (λ j. j ≤ m) front
    → All (λ j. j ≤ m) back
    → c ≤ m
    → last_bucket_index (front ++ (m ∷ back)) c ≡ m
unfolding last_bucket_index
last_lem [] m back c all all' le =
    ap (last_bucket_index back) (take_greater c m le) ∙ kept_lem m back all'
last_lem (j ∷ front) m back c (lj, all) all' le =
    last_lem front m back (if ltb c j then j else c) all all' (either (ltb c j))
  where
    either : (b : Bool) → (if b then j else c) ≤ m
    either true = lj
    either false = le

-- When i + 1 is the greatest of the bucket indices in the directory, whatever stands in front of it and
-- behind it in the listing, and has a file with the magic number and
-- the end offset n + 1, and no call fails, the context writes that bucket at n + 1, whatever stands
-- behind in the file, and no file and no row of the index database has changed.
pub open_write_ctx_lem :
    {Db : Type 0} (sql : IndexDb Db) (front back : List ℕ) (w : Glacier Db) (i n : ℕ)
    (more : List ℕ)
    → All (λ j. j ≤ suc i) front
    → All (λ j. j ≤ suc i) back
    → w.files (suc i) ≡ some (magic_number ++ (push_be 4 (suc n) ++ more))
    → suc n < u32
    → Flows w.grants
    → w.fails ≡ []
    → (v : Glacier Db) × (open_write_ctx sql (front ++ (suc i ∷ back)) w ≡ done v)
      × (v.current_bucket_f ≡ bucket (suc i))
      × (v.current_bucket_index ≡ suc i)
      × (v.current_bucket_pos ≡ suc n)
      × (v.files ≡ w.files)
      × (v.db ≡ w.db)
unfolding open_write_ctx open_last open_file validated validate_bucket_magic_number
    read_bucket_end_offset
open_write_ctx_lem {Db} sql front back w i n more all all' file lt fl none_fail =
    let bytes : List ℕ = magic_number ++ (push_be 4 (suc n) ++ more) in
    let (hs, flows, magic) =
      magic_lem (push_be 4 (suc n) ++ more) w.grants
        (read_n {C = ℕ} none_se (record { bytes = bytes; grants = w.grants }) 3 0) _ fl
        (read_n_exact none_se (λ k bs. k) (λ k bs. refl) (λ k. refl) (λ k xs ys. refl)
          (record { bytes = bytes; grants = w.grants }) 3 0) in
    let r =
      read_n {C = ℕ} none_se (record { bytes = push_be 4 (suc n) ++ more; grants = hs }) 4 0 in
    (
      record w {
        grants = r.source.grants;
        current_bucket_index = suc i;
        current_bucket_f = bucket (suc i);
        current_bucket_pos = suc n;
        current_bucket_sync = true;
      },
      ap
            (λ k.
              if is_zero k
              then create_next_bucket sql (start k)
              else open_last sql (start k) w.fails)
            (last_lem front (suc i) back 0 all all' (omega arith))
          ∙ ap (open_last sql (start (suc i))) none_fail
          ∙ ap (open_file sql (start (suc i))) file
          ∙ ap
              (validated sql bytes (record w {
                current_bucket_index = suc i;
                current_bucket_f = bucket (suc i);
                current_bucket_pos = 0;
                current_bucket_sync = true;
              }))
              magic
          ∙ ap
              (end_known sql (record w {
                current_bucket_index = suc i;
                current_bucket_f = bucket (suc i);
                current_bucket_pos = 0;
                current_bucket_sync = true;
              }))
              (end_lem (suc n) more hs r _ lt flows (
                read_n_exact none_se (λ k bs. k) (λ k bs. refl) (λ k. refl) (λ k xs ys. refl)
                  (record { bytes = push_be 4 (suc n) ++ more; grants = hs }) 4 0)),
      refl,
      refl,
      refl,
      refl,
      refl,
    )
  where
    start : ℕ → Glacier Db
    start k = record w {
      current_bucket_index = k;
      current_bucket_f = closed;
      current_bucket_pos = 0;
      current_bucket_sync = true;
    }
