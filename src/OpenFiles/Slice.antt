-- ===== src/OpenFiles/Slice.antt =====
-- The cache of src/open-files.c is filled with the blob of a slice.
use everarch.Prelude.{
  ℕ, zero, suc, ◌+◌, ◌-◌, ◌≤◌, ◌<◌, ◌≡◌, refl, sym, ap, ap₂, subst, ◌∙◌, inl, inr, Bool, true, not,
  Option, none, some, List, [], ◌∷◌, ◌++◌, append-nil, arith, length, take, drop, min, ◌≢◌,
  get_elem?, leb, le→ltb, ==_iff, if◌then◌else◌, Bool-cases, length-drop, take-append_le,
  take-append_ge, drop-append_le, take_all,
}
use everarch.Errors.{ok, error}
use everarch.Bytes.{push_u8}
use everarch.Keys.TinySet.Spec.{ref_eq_iff}
use everarch.Server.Commands.{max_blob_data_size}
use everarch.Client.{Link, dump_over, must}
use everarch.Client.Fetch.{Answers, req_lem}
use everarch.OpenFiles.{
  FileSlice, OpenFile, slice_flags, slice_read, slice_matched, slice_answered, slice_dumped,
  cache_slice_over, open_file_cache_slice, is_cached, load_slice,
}

-- where a list begins behind its first elements
pub get_elem?-drop {ℓ} :
    {A : Type ℓ} (i : ℕ) (xs ys : List A) (x : A)
    → drop i xs ≡ x ∷ ys
    → (get_elem? xs i ≡ some x) × (drop (suc i) xs ≡ ys)
get_elem?-drop zero [] ys x e = cc
get_elem?-drop zero (z ∷ xs) ys x e = (cc, cc)
get_elem?-drop (suc i) [] ys x e = cc
get_elem?-drop (suc i) (z ∷ xs) ys x e = get_elem?-drop i xs ys x e

-- the offset into the slice
pub offset_lem : (off so : ℕ) → (if leb off so then 0 else off - so) ≡ off - so
offset_lem off so = ground arith

pub smaller_lem : (a b : ℕ) → (if leb a b then a else b) ≡ min a b
smaller_lem a b = ground arith

-- Where a slice has the byte at the offset: what is copied from it, and what the slices behind it
-- have to give.
pub piece_lem :
    (b rest : List ℕ) (d n m : ℕ)
    → d ≤ length b
    → m ≡ min (length b - d) n
    → m ≢ n
    → take n (drop d (b ++ rest)) ≡ take m (drop d b) ++ take (n - m) rest
piece_lem b rest d n m hd hm less =
    let all : length (drop d b) ≡ m = omega (arith, length-drop d b, hm, less) in
    ap (take n) (drop-append_le d b rest hd)
    ∙ take-append_ge n (drop d b) rest (omega (arith, all, hm))
    ∙ ap₂ (λ x k. x ++ take k rest) (sym (take_all m (drop d b) (omega (arith, all))))
        (omega (arith, all))

pub last_lem :
    (b rest : List ℕ) (d n m : ℕ)
    → d ≤ length b
    → m ≡ min (length b - d) n
    → m ≡ n
    → take n (drop d (b ++ rest)) ≡ take m (drop d b)
last_lem b rest d n m hd hm same =
    ap (take n) (drop-append_le d b rest hd)
    ∙ take-append_le n (drop d b) rest (omega (arith, length-drop d b, hm, same))
    ∙ ap (λ k. take k (drop d b)) (sym same)

module _ {C : Type 0} (link : Link C) (Pending : C → List ℕ → Type 0)
    (blobs : List ℕ → Option (ℕ × List ℕ)) (answers : Answers link Pending blobs)
    (hash : List ℕ → List ℕ) where
  -- the slice's ref names a blob with these bytes, smaller than the client reads at most
  abbrev pub IsBlob : FileSlice → List ℕ → Type 0
  IsBlob s b =
      (length s.ref ≡ 28)
      × (length b < max_blob_data_size)
      × (hash b ≡ s.ref)
      × (flags : ℕ) × (blobs s.ref ≡ some (flags, b))

  -- each slice has a blob of the size that the claim says
  abbrev pub Sliced : List FileSlice → List (List ℕ) → Type 0
  Sliced [] [] = Unit {0}
  Sliced (s ∷ ss) (b ∷ bs) = IsBlob s b × (s.size ≡ length b) × Sliced ss bs
  Sliced _ _ = ⊥

  -- what the cache has is the blob of the slice that it says
  abbrev pub CacheIs : Option (List ℕ) → ℕ → List (List ℕ) → Type 0
  CacheIs none i bodies = Unit {0}
  CacheIs (some buf) i bodies = get_elem? bodies i ≡ some buf

  -- The connection is open with nothing to be read, and the cache is right.
  abbrev pub Coherent : OpenFile C → List (List ℕ) → Type 0
  Coherent f bodies =
      (c : C) × (f.gc ≡ some c)
      × Pending c []
      × CacheIs f.cached_slice_buf f.cached_slice_index bodies

  module _ (allocates : ℕ → Bool) (has_memory : (n : ℕ) → allocates n ≡ true) where
    -- the file behind a slice that was fetched
    abbrev fetched : OpenFile C → ℕ → List ℕ → C → OpenFile C
    fetched f si b c = record f { gc = some c; cached_slice_index = si; cached_slice_buf = some b }

    cache_slice_lem :
        (f : OpenFile C) (s : FileSlice) (si : ℕ) (b : List ℕ) (c : C)
        → f.gc ≡ some c
        → Pending c []
        → IsBlob s b
        → (e : C) × (open_file_cache_slice link hash allocates true f s si ≡ (ok, fetched f si b e))
          × Pending e []
    unfolding open_file_cache_slice push_u8
    cache_slice_lem f s si b c open_gc idle (size, small, hashed, flags, has) =
        let (d, asked, pending) =
          req_lem link Pending blobs answers c s.ref flags b size (omega (arith, small)) idle has in
        let (e, dumped, left) = answers.dumps d (push_u8 flags) b pending in
        let (g, read, none_left) =
          answers.reads e b [] (subst (Pending e) (sym (append-nil b)) left) in
        let loaded : OpenFile C = record f { gc = some e; cached_slice_index = si } in
        let got : OpenFile C = record f { gc = some g; cached_slice_index = si } in
        (
          g,
          ap (cache_slice_over link hash allocates true f s si) open_gc
              ∙ ap (slice_answered link hash allocates true f s si) asked
              ∙ ap
                  (λ t.
                    if t
                    then slice_dumped link hash allocates true f (dump_over link (1 + length b) d)
                    else slice_flags link hash allocates true f s si (1 + length b - 1)
                        (dump_over link 1 d))
                  (le→ltb (1 + length b) 1 (omega arith))
              ∙ ap (λ n. slice_flags link hash allocates true f s si n (dump_over link 1 d))
                  (omega arith)
              ∙ ap (λ r. slice_flags link hash allocates true f s si (length b) (must r)) dumped
              ∙ ap
                  (λ t.
                    if not t
                    then (
                      error,
                      record f { gc = none; cached_slice_index = si; cached_slice_buf = none },
                    )
                    else slice_read link hash allocates true loaded s (link.read_n e (length b)))
                  (has_memory (length b))
              ∙ ap (slice_read link hash allocates true loaded s) read
              ∙ ap (slice_matched link hash allocates true got b)
                  ((ref_eq_iff (hash b) s.ref).1 hashed),
          none_left,
        )

    cached_lem :
        (buf : Option (List ℕ)) (i si : ℕ) (b : List ℕ) (bodies : List (List ℕ))
        → is_cached link hash allocates true buf i si ≡ true
        → CacheIs buf i bodies
        → get_elem? bodies si ≡ some b
        → buf ≡ some b
    cached_lem none i si b bodies e at get = cc
    cached_lem (some x) i si b bodies e at get =
        let same : i ≡ si = (==_iff i si).0 e in sym at ∙ ap (get_elem? bodies) same ∙ get

    pub load_lem :
        (f : OpenFile C) (s : FileSlice) (si : ℕ) (b : List ℕ) (bodies : List (List ℕ))
        → Coherent f bodies
        → IsBlob s b
        → get_elem? bodies si ≡ some b
        → (g : OpenFile C) × (load_slice link hash allocates true f s si ≡ (ok, g))
          × (g.cached_slice_buf ≡ some b)
          × Coherent g bodies
    load_lem f s si b bodies (c, open_gc, idle, at) blob get =
        elim (Bool-cases
          (is_cached link hash allocates true f.cached_slice_buf f.cached_slice_index si)) [
            | inl e ↦ (
              f,
              ap (λ t. if t then (ok, f) else open_file_cache_slice link hash allocates true f s si)
                  e,
              cached_lem f.cached_slice_buf f.cached_slice_index si b bodies e at get,
              (c, open_gc, idle, at),
            )
            | inr e ↦
                let (d, loaded, idle') = cache_slice_lem f s si b c open_gc idle blob in
                (
                  fetched f si b d,
                  ap
                        (λ t.
                          if t
                          then (ok, f)
                          else open_file_cache_slice link hash allocates true f s si)
                        e
                      ∙ loaded,
                  refl,
                  (d, refl, idle', get),
                )
          ]
