-- ===== src/ChunkSet.antt =====
-- `read_into_chunks` of src/files.c reads a file into a chunk set, each chunk by one `read_n`.
mod Tests
use native.Mathlib.Nat.{div-add-mod, mod-lt}
use everarch.Prelude.{
  ℕ, zero, suc, ◌+◌, ◌-◌, ◌*◌, ◌/◌, ◌≤◌, ◌<◌, ◌≡◌, refl, sym, ap, subst, ◌∙◌, min, Bool, true,
  false, Option, none, some, List, [], ◌∷◌, ◌++◌, append-nil, append_assoc, arith, length, take,
  drop, take-add, drop-drop, length-drop,
}
use everarch.Errors.{Status, ok, error, end}
use everarch.Files.{Source, SideEffect, Read, read_n}
use everarch.Files.ReadN.{Flows, Ends, read_n_exact}
use everarch.Glacier.Chunks.{concat}

-- What `read_into_chunks` leaves: the chunks with their bytes in use, unless it returns NULL, the
-- side effect's context and the file.
pub record IntoChunks (C : Type 0) : Type 0 where
  pub chunks : Option (List (List ℕ))
  pub ctx : C
  pub source : Source

module _ {C : Type 0} where
  abbrev pub chunk_read :
      (Source → List (List ℕ) → C → IntoChunks C) → List (List ℕ) → Read C → Status → IntoChunks C
  chunk_read recur chunks r ok = recur r.source (chunks ++ (r.buffer ∷ [])) r.ctx
  chunk_read recur chunks r _ = record { chunks = none; ctx = r.ctx; source = r.source }

module _ {C : Type 0} (side_effect : SideEffect C) (evr_chunk_size : ℕ) where
  -- the loop over the chunks that are left
  unfoldable pub into_chunks_loop : ℕ → ℕ → Source → List (List ℕ) → C → IntoChunks C
  into_chunks_loop zero remaining f chunks ctx = record {
    chunks = some chunks;
    ctx = ctx;
    source = f;
  }
  into_chunks_loop (suc n) remaining f chunks ctx =
      let chunk_read_size = min remaining evr_chunk_size in
      let r = read_n side_effect f chunk_read_size ctx in
      chunk_read (into_chunks_loop n (remaining - chunk_read_size)) chunks r r.status

  -- `allocated` says whether evr_allocate_chunk_set gives a chunk set.
  unfoldable pub read_into_chunks : Bool → Source → ℕ → C → IntoChunks C
  unfolding into_chunks_loop
  read_into_chunks false f size ctx = record { chunks = none; ctx = ctx; source = f }
  read_into_chunks true f size ctx =
      into_chunks_loop ((size + (evr_chunk_size - 1)) / evr_chunk_size) size f [] ctx

module _ {C : Type 0} (update : C → List ℕ → C) where
  -- What is read into the chunks is the next bytes of the file, in order; where none are given, the
  -- file is too short, or a read failed.
  abbrev pub Filled : List ℕ → Source → ℕ → C → IntoChunks C → Option (List (List ℕ)) → Type 0
  Filled front f size c r (some chunks) =
      (size ≤ length f.bytes)
      × (concat chunks ≡ front ++ take size f.bytes)
      × (r.ctx ≡ update c (take size f.bytes))
      × (r.source.bytes ≡ drop size f.bytes)
      × (Flows f.grants → Flows r.source.grants)
  Filled front f size c r none = Flows f.grants → length f.bytes < size

module _ {C : Type 0} (update : C → List ℕ → C)
    (update-append : (c : C) (xs ys : List ℕ) → update (update c xs) ys ≡ update c (xs ++ ys)) where
  -- A chunk of `k` bytes, and what is read behind it.
  chunk_glue :
      (o : Option (List (List ℕ))) (front buffer : List ℕ) (f g : Source) (size k : ℕ) (c d : C)
      (r : IntoChunks C)
      → k ≤ size
      → k ≤ length f.bytes
      → buffer ≡ take k f.bytes
      → d ≡ update c (take k f.bytes)
      → g.bytes ≡ drop k f.bytes
      → (Flows f.grants → Flows g.grants)
      → Filled update (front ++ buffer) g (size - k) d r o
      → Filled update front f size c r o
  chunk_glue (some chunks) front buffer f g size k c d r hk fits b e rest flows
        (more, all, shown, left, onward) =
      let parts : take size f.bytes ≡ take k f.bytes ++ take (size - k) g.bytes =
        rw rest (take-add k (size - k) size f.bytes (omega arith)) in
      (
        omega (arith, ap length rest, length-drop k f.bytes),
        all
            ∙ append_assoc front buffer (take (size - k) g.bytes)
            ∙ ap (λ x. front ++ (x ++ take (size - k) g.bytes)) b
            ∙ ap (λ x. front ++ x) (sym parts),
        shown
            ∙ ap (λ x. update x (take (size - k) g.bytes)) e
            ∙ update-append c (take k f.bytes) (take (size - k) g.bytes)
            ∙ ap (update c) (sym parts),
        left ∙ ap (drop (size - k)) rest ∙ drop-drop (size - k) k size f.bytes (omega arith),
        λ x. onward (flows x),
      )
  chunk_glue none front buffer f g size k c d r hk fits b e rest flows short =
      λ x. let lt = short (flows x) in omega (arith, lt, ap length rest, length-drop k f.bytes)

concat-append : (xs ys : List (List ℕ)) → concat (xs ++ ys) ≡ concat xs ++ concat ys
unfolding concat
concat-append [] ys = refl
concat-append (x ∷ xs) ys =
    ap (λ z. x ++ z) (concat-append xs ys) ∙ sym (append_assoc x (concat xs) (concat ys))

concat-append_one : (xs : List (List ℕ)) (y : List ℕ) → concat (xs ++ (y ∷ [])) ≡ concat xs ++ y
unfolding concat
concat-append_one xs y = concat-append xs (y ∷ []) ∙ ap (λ z. concat xs ++ z) (append-nil y)

ceil_div_lem : (n k : ℕ) → 0 < k → n ≤ (n + (k - 1)) / k * k
ceil_div_lem n k h = omega (arith, div-add-mod (n + (k - 1)) k, mod-lt (n + (k - 1)) h)

module _ {C : Type 0} (se : SideEffect C) (update : C → List ℕ → C)
    (se_ok : (c : C) (bs : List ℕ) → se c bs ≡ (ok, update c bs))
    (update-nil : (c : C) → update c [] ≡ c)
    (update-append : (c : C) (xs ys : List ℕ) → update (update c xs) ys ≡ update c (xs ++ ys))
    (evr_chunk_size : ℕ) where
  chunk_read_lem :
      (recur : Source → List (List ℕ) → C → IntoChunks C) (chunks : List (List ℕ)) (f : Source)
      (size k : ℕ) (c : C) (r : Read C) (s : Status)
      → k ≤ size
      → Ends update f.bytes f.grants k [] c r s
      → ((g : Source) (done : List (List ℕ)) (d : C)
          → Filled update (concat done) g (size - k) d (recur g done d) (recur g done d).chunks)
      → Filled update
          (concat chunks)
          f
          size
          c
          (chunk_read recur chunks r s)
          (chunk_read recur chunks r s).chunks
  chunk_read_lem recur chunks f size k c r ok hk (fits, b, e, rest, flows) ih =
      let next = recur r.source (chunks ++ (r.buffer ∷ [])) r.ctx in
      chunk_glue update update-append next.chunks (concat chunks) r.buffer f r.source size k c r.ctx
        next hk fits b e rest flows
        (subst (λ x. Filled update x r.source (size - k) r.ctx next next.chunks)
          (concat-append_one chunks r.buffer) (ih r.source (chunks ++ (r.buffer ∷ [])) r.ctx))
  chunk_read_lem recur chunks f size k c r end hk (short, _, _, _, _) ih = λ x. omega arith
  chunk_read_lem recur chunks f size k c r error hk bad ih = λ x. absurd (bad x)
  chunk_read_lem recur chunks f size k c r _ hk bad ih = absurd bad

  into_chunks_loop_lem :
      (n size : ℕ) (f : Source) (chunks : List (List ℕ)) (c : C)
      → size ≤ n * evr_chunk_size
      → Filled update
          (concat chunks)
          f
          size
          c
          (into_chunks_loop se evr_chunk_size n size f chunks c)
          (into_chunks_loop se evr_chunk_size n size f chunks c).chunks
  unfolding into_chunks_loop
  into_chunks_loop_lem zero zero f chunks c h =
      (omega arith, sym (append-nil (concat chunks)), sym (update-nil c), refl, λ x. x)
  into_chunks_loop_lem zero (suc size) f chunks c h = absurd (omega arith)
  into_chunks_loop_lem (suc n) size f chunks c h =
      let k = min size evr_chunk_size in
      let r = read_n se f k c in
      chunk_read_lem (into_chunks_loop se evr_chunk_size n (size - k)) chunks f size k c r r.status
        (omega arith) (read_n_exact se update se_ok update-nil update-append f k c)
        (λ g done d. into_chunks_loop_lem n (size - k) g done d (grind arith))

  pub read_into_chunks_lem :
      (allocated : Bool) (f : Source) (size : ℕ) (c : C)
      → 0 < evr_chunk_size
      → allocated ≡ true
      → Filled update [] f size c
          (read_into_chunks se evr_chunk_size allocated f size c)
          (read_into_chunks se evr_chunk_size allocated f size c).chunks
  unfolding read_into_chunks concat
  read_into_chunks_lem true f size c h a =
      into_chunks_loop_lem ((size + (evr_chunk_size - 1)) / evr_chunk_size) size f [] c
        (ceil_div_lem size evr_chunk_size h)
  read_into_chunks_lem false f size c h a = cc
