-- ===== src/Glacier/ListBlobs.antt =====
-- `evr_glacier_list_blobs` of src/glacier.c. The rows come from sqlite, in the order of the
-- statement that the filter names, and a step may fail.
use everarch.Prelude.{
  ℕ, ◌-◌, ◌^◌, ◌<◌, ◌⊎◌, inl, inr, ne→==, ◌≡◌, refl, sym, ap, ◌∙◌, Bool, true, false, Option, none,
  some, List, [], ◌∷◌, ltb, if◌then◌else◌, ◌==◌, length, All, arith, ==_iff,
}
use Prim.Native.Nat.{bit_and}
use everarch.Errors.{Status, ok, error}
use everarch.GlacierCmd.{BlobFilter}

pub record Row : Type 0 where
  pub key : List ℕ
  pub flags : ℕ
  pub last_modified : ℕ

-- what the steps of a statement give
pub data Cursor : Type 0 where
  row : Row → Cursor → Cursor
  finished broken : Cursor

-- the two prepared statements, with the time from which on rows are selected
pub record ListDb (Db : Type 0) : Type 0 where
  pub list_order_last_modified : Db → ℕ → Cursor
  pub list_order_blob_ref : Db → ℕ → Cursor

module _ {C : Type 0} where
  -- `if(visit(…) != evr_ok) goto out_with_reset_stmt`
  abbrev pub visited : (C → Status × C) → Status × C → Status × C
  visited next (ok, ctx) = next ctx
  visited next (_, ctx) = (error, ctx)

module _ {C : Type 0} (visit : C → Row → Bool → Status × C) where
  abbrev pub visit_found : (C → Status × C) → Option Row → Bool → C → Status × C
  visit_found next none last_blob ctx = next ctx
  visit_found next (some r) last_blob ctx = visited next (visit ctx r last_blob)

  -- the test of the key's size, behind the visit of the row that was found before
  abbrev pub list_key : (C → Status × C) → Row → C → Status × C
  list_key next r ctx = if length r.key == 28 then next ctx else (error, ctx)

  abbrev pub list_row : (Option Row → C → Status × C) → Option Row → Row → C → Bool → Status × C
  list_row recur found r ctx false = recur found ctx
  list_row recur found r ctx true = visit_found (list_key (recur (some r)) r) found false ctx

  -- the loop over the statement's rows; a row is visited when the next one is found
  unfoldable pub list_loop : ℕ → Cursor → Option Row → C → Status × C
  list_loop flags_filter finished found ctx = visit_found (λ c. (ok, c)) found true ctx
  list_loop flags_filter broken found ctx = (error, ctx)
  list_loop flags_filter (row r rest) found ctx =
      list_row (list_loop flags_filter rest) found r ctx
        (bit_and r.flags flags_filter == flags_filter)

  unfoldable pub list_blobs : {Db : Type 0} → ListDb Db → Db → BlobFilter → C → Status × C
  unfolding list_loop
  list_blobs sql db filter ctx =
      if ltb (2 ^ 63 - 1) filter.last_modified_after
      then (error, ctx)
      else if filter.sort_order == 1
      then list_loop filter.flags_filter
          (sql.list_order_last_modified db filter.last_modified_after) none ctx
      else if filter.sort_order == 2
      then list_loop filter.flags_filter (sql.list_order_blob_ref db filter.last_modified_after)
          none ctx
      else (error, ctx)

-- a statement that gives the rows and ends
abbrev pub cursor : List Row → Cursor
cursor [] = finished
cursor (r ∷ rs) = row r (cursor rs)

-- the rows whose flags have all bits of the filter
abbrev pub keep : ℕ → Row → List Row → Bool → List Row
keep flags_filter r rs true = r ∷ rs
keep flags_filter r rs false = rs

unfoldable pub matching : ℕ → List Row → List Row
matching flags_filter [] = []
matching flags_filter (r ∷ rs) =
    keep flags_filter r (matching flags_filter rs) (bit_and r.flags flags_filter == flags_filter)

module _ {C : Type 0} (visit : C → Row → Bool → Status × C) where
  -- Each row is visited in order, the last one as the last, until a visit fails.
  unfoldable pub visit_all : C → List Row → Status × C
  visit_all c [] = (ok, c)
  visit_all c (r ∷ []) = visited (λ d. (ok, d)) (visit c r true)
  visit_all c (r ∷ s ∷ rs) = visited (λ d. visit_all d (s ∷ rs)) (visit c r false)

  abbrev found_first : Option Row → List Row → List Row
  found_first none rs = rs
  found_first (some r) rs = r ∷ rs

  visited_lem :
      (f g : C → Status × C) (x : Status × C) → ((c : C) → f c ≡ g c) → visited f x ≡ visited g x
  visited_lem f g (ok, c) h = h c
  visited_lem f g (_, c) h = refl

  module _ (f : ℕ) (r : Row) (rs : List Row) (c : C) (k : length r.key ≡ 28)
      (ih : (found : Option Row) (d : C)
        → list_loop visit f (cursor rs) found d
          ≡ visit_all d (found_first found (matching f rs))) where
    keyed :
        (d : C)
        → list_key visit (list_loop visit f (cursor rs) (some r)) r d
          ≡ visit_all d (r ∷ matching f rs)
    keyed d =
        ap (λ b. if b then list_loop visit f (cursor rs) (some r) d else (error, d))
          ((==_iff (length r.key) 28).1 k)
        ∙ ih (some r) d

    row_lem :
        (found : Option Row) (b : Bool)
        → list_row visit (list_loop visit f (cursor rs)) found r c b
          ≡ visit_all c (found_first found (keep f r (matching f rs) b))
    unfolding visit_all
    row_lem found false = ih found c
    row_lem none true = keyed c
    row_lem (some p) true = visited_lem _ _ (visit c p false) keyed

  list_loop_lem :
      (flags_filter : ℕ) (rs : List Row) (found : Option Row) (c : C)
      → All (λ r. length r.key ≡ 28) rs
      → list_loop visit flags_filter (cursor rs) found c
        ≡ visit_all c (found_first found (matching flags_filter rs))
  unfolding list_loop visit_all matching
  list_loop_lem f [] none c h = refl
  list_loop_lem f [] (some r) c h = refl
  list_loop_lem f (r ∷ rs) found c (k, h) =
      row_lem f r rs c k (λ o d. list_loop_lem f rs o d h) found (bit_and r.flags f == f)

  -- the order of the refs
  pub by_ref_lem :
      {Db : Type 0} (sql : ListDb Db) (db : Db) (filter : BlobFilter) (by_ref : List Row) (c : C)
      → filter.last_modified_after < 2 ^ 63
      → filter.sort_order ≡ 2
      → sql.list_order_blob_ref db filter.last_modified_after ≡ cursor by_ref
      → All (λ r. length r.key ≡ 28) by_ref
      → list_blobs visit sql db filter c ≡ visit_all c (matching filter.flags_filter by_ref)
  unfolding list_blobs
  by_ref_lem sql db filter by_ref c lt o er kr =
      rw (small, ne→== filter.sort_order 1 (omega (arith, o)), (==_iff filter.sort_order 2).1 o, er)
        (list_loop_lem filter.flags_filter by_ref none c kr)
    where
      small : ltb (2 ^ 63 - 1) filter.last_modified_after ≡ false
      small = ground arith

  -- When the statement of the filter's order gives rows with keys of 28 bytes and does not fail,
  -- the visitor is shown, in that order, exactly the rows whose flags have every bit of the
  -- filter, the last of them as the last, until it fails.
  pub list_blobs-matching :
      {Db : Type 0} (sql : ListDb Db) (db : Db) (filter : BlobFilter) (by_time by_ref : List Row)
      (c : C)
      → filter.last_modified_after < 2 ^ 63
      → (filter.sort_order ≡ 1) ⊎ (filter.sort_order ≡ 2)
      → sql.list_order_last_modified db filter.last_modified_after ≡ cursor by_time
      → sql.list_order_blob_ref db filter.last_modified_after ≡ cursor by_ref
      → All (λ r. length r.key ≡ 28) by_time
      → All (λ r. length r.key ≡ 28) by_ref
      → list_blobs visit sql db filter c
        ≡ visit_all c
            (matching filter.flags_filter (if filter.sort_order == 1 then by_time else by_ref))
  unfolding list_blobs
  list_blobs-matching sql db filter by_time by_ref c lt (inl o) et er kt kr =
      rw (small, (==_iff filter.sort_order 1).1 o, et)
        (list_loop_lem filter.flags_filter by_time none c kt)
    where
      small : ltb (2 ^ 63 - 1) filter.last_modified_after ≡ false
      small = ground arith
  list_blobs-matching sql db filter by_time by_ref c lt (inr o) et er kt kr =
      by_ref_lem sql db filter by_ref c lt o er kr
      ∙ ap (λ b. visit_all c (matching filter.flags_filter (if b then by_time else by_ref)))
          (sym (ne→== filter.sort_order 1 (omega (arith, o))))
