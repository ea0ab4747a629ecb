-- ===== src/OpenFiles/Read.antt =====
-- evr_open_file_read of src/open-files.c gives the bytes of the file, whatever slice is cached.
use everarch.Prelude.{
  ℕ, suc, ◌+◌, ◌-◌, ◌≤◌, ◌<◌, ◌≡◌, refl, sym, ap, ap₂, subst, ◌∙◌, inl, inr, Bool, true, Option,
  none, some, List, [], ◌∷◌, ◌++◌, append-nil, append_assoc, arith, length, take, drop, min, ltb,
  leb, lt→ltb, ltb→lt, ltb→le, ◌==◌, ==_iff, ==_ne, if◌then◌else◌, Bool-cases, length-append,
  length-take, length-drop, drop-append_ge, take_all, drop_all, le→leb, lt→leb,
}
use everarch.Errors.{Status, ok}
use everarch.Glacier.Chunks.{concat}
use everarch.Client.{Link}
use everarch.Client.Fetch.{Answers}
use everarch.OpenFiles.{
  FileSlice, OpenFile, load_slice, copied, read_copied, read_loaded, read_slices, open_file_read,
}
use everarch.OpenFiles.Slice.{
  get_elem?-drop, offset_lem, smaller_lem, piece_lem, last_lem, IsBlob, Sliced, Coherent, load_lem,
}

module _ {C : Type 0} (link : Link C) (Pending : C → List ℕ → Type 0)
    (blobs : List ℕ → Option (ℕ × List ℕ)) (answers : Answers link Pending blobs)
    (hash : List ℕ → List ℕ) (allocates : ℕ → Bool)
    (has_memory : (n : ℕ) → allocates n ≡ true) where
  -- What a call of the loop gives.
  abbrev Reads :
      OpenFile C → List (List ℕ) → List ℕ → Option (Status × List ℕ × OpenFile C) → Type 0
  Reads f bodies bytes r =
      (g : OpenFile C) × (r ≡ some (ok, bytes, g))
      × Coherent link Pending blobs answers hash g bodies

  -- One slice that has the byte at the offset, if the loop behind it keeps what it promises.
  copied-Reads :
      (recur : List ℕ → OpenFile C → Option (Status × List ℕ × OpenFile C)) (bodies : List (List ℕ))
      (b rest buf : List ℕ) (size d m : ℕ) (g : OpenFile C)
      → length buf ≤ size
      → d ≤ length b
      → m ≡ min (length b - d) (size - length buf)
      → Coherent link Pending blobs answers hash g bodies
      → ((x : List ℕ)
          → length x ≤ size
          → Reads g bodies (x ++ take (size - length x) rest) (recur x g))
      → Reads g bodies (buf ++ take (size - length buf) (drop d (b ++ rest))) (
          read_copied link hash allocates true recur size buf g
            (copied link hash allocates true (some b) d m))
  copied-Reads recur bodies b rest buf size d m g room hd hm coherent ih =
      let bytes = take m (drop d b) in
      let len : length bytes ≡ m = omega (arith, length-take m (drop d b), length-drop d b, hm) in
      let total : length (buf ++ bytes) ≡ length buf + m =
        omega (arith, length-append buf bytes, len) in
      let within : leb (d + m) (length b) ≡ true = le→leb _ _ (omega (arith, hm, hd)) in
      let start =
        ap
          (λ t.
            read_copied link hash allocates true recur size buf g (if t then some bytes else none))
          within in
      elim (Bool-cases (length (buf ++ bytes) == size)) [
        | inl e ↦ (
          g,
          start
              ∙ ap (λ t. if t then some (ok, buf ++ bytes, g) else recur (buf ++ bytes) g) e
              ∙ ap (λ x. some (ok, buf ++ x, g))
                  (sym (
                    last_lem b rest d (size - length buf) m hd hm
                      (omega (arith, total, (==_iff (length (buf ++ bytes)) size).0 e, room)))),
          coherent,
        )
        | inr e ↦
            let differs = ==_ne (length (buf ++ bytes)) size e in
            let (x, more, coherent') = ih (buf ++ bytes) (omega (arith, total, hm, room)) in
            (
              x,
              start
                  ∙ ap (λ t. if t then some (ok, buf ++ bytes, g) else recur (buf ++ bytes) g) e
                  ∙ more
                  ∙ ap (λ z. some (ok, z, x))
                      (append_assoc buf bytes (take (size - length (buf ++ bytes)) rest)
                        ∙ ap (λ z. buf ++ z)
                            (ap (λ k. bytes ++ take k rest) (omega (arith, total))
                              ∙ sym (
                                  piece_lem b rest d (size - length buf) m hd hm
                                    (λ same. differs (omega (arith, total, same, room)))))),
              coherent',
            )
      ]

  read_slices_lem :
      (size off : ℕ) (bodies : List (List ℕ)) (ss : List FileSlice) (bs : List (List ℕ)) (si so : ℕ)
      (buf : List ℕ) (f : OpenFile C)
      → Sliced link Pending blobs answers hash ss bs
      → drop si bodies ≡ bs
      → length buf ≤ size
      → Coherent link Pending blobs answers hash f bodies
      → Reads f bodies
          (buf ++ take (size - length buf) (drop (off - so) (concat bs)))
          (read_slices link hash allocates true size off ss si so buf f)
  unfolding read_slices concat
  read_slices_lem size off bodies [] [] si so buf f is at room coherent = (
    f,
    ap (λ x. some (ok, x, f))
        (sym (
          ap (λ x. buf ++ take (size - length buf) x) (drop_all (off - so) [] (omega arith))
          ∙ ap (λ x. buf ++ x) (take_all (size - length buf) [] (omega arith))
          ∙ append-nil buf)),
    coherent,
  )
  read_slices_lem size off bodies [] (b ∷ bs) si so buf f is at room coherent = absurd is
  read_slices_lem size off bodies (s ∷ ss) [] si so buf f is at room coherent = absurd is
  read_slices_lem size off bodies (s ∷ ss) (b ∷ bs) si so buf f (blob, whole, is) at room coherent =
      let recur = read_slices link hash allocates true size off ss (suc si) (so + s.size) in
      let (get, at') = get_elem?-drop si bodies bs b at in
      let here = λ (t : Bool).
        if t
        then read_loaded link hash allocates true recur size off s so buf
            (load_slice link hash allocates true f s si)
        else recur buf f in
      elim (Bool-cases (ltb off (so + s.size))) [
        | inl e ↦
            let (g, loaded, cached, coherent') =
              load_lem link Pending blobs answers hash allocates has_memory f s si b bodies coherent
                blob get in
            let d = off - so in
            let behind : off - (so + s.size) ≡ 0 = omega (arith, ltb→lt off (so + s.size) e) in
            let m = min (length b - d) (size - length buf) in
            let copy = λ (buffer : Option (List ℕ)) (k n : ℕ).
              read_copied link hash allocates true recur size buf g
                (copied link hash allocates true buffer k n) in
            let (x, read, coherent'') =
              copied-Reads recur bodies b (concat bs) buf size d m g room
                (omega (arith, ltb→lt off (so + s.size) e, whole)) refl coherent'
                (λ y fits.
                  subst
                    (λ k.
                      Reads g bodies (y ++ take (size - length y) (drop k (concat bs))) (recur y g))
                    behind
                    (read_slices_lem size off bodies ss bs (suc si) (so + s.size) y g is at' fits
                      coherent')) in
            (
              x,
              ap here e
                  ∙ ap (read_loaded link hash allocates true recur size off s so buf) loaded
                  ∙ ap
                      (λ k. copy g.cached_slice_buf k (
                        if leb (s.size - k) (size - length buf)
                        then s.size - k
                        else size - length buf))
                      (offset_lem off so)
                  ∙ ap (copy g.cached_slice_buf d) (
                      smaller_lem (s.size - d) (size - length buf)
                      ∙ ap (λ n. min (n - d) (size - length buf)) whole)
                  ∙ ap (λ c. copy c d m) cached
                  ∙ read,
              coherent'',
            )
        | inr e ↦
            let past = ltb→le off (so + s.size) e in
            let (x, read, coherent') =
              read_slices_lem size off bodies ss bs (suc si) (so + s.size) buf f is at' room
                coherent in
            (
              x,
              ap here e
                  ∙ read
                  ∙ ap (λ z. some (ok, buf ++ take (size - length buf) z, x))
                      (ap (λ k. drop k (concat bs)) (omega (arith, whole))
                        ∙ sym
                            (drop-append_ge (off - so) b (concat bs) (omega (arith, past, whole)))),
              coherent',
            )
      ]

  -- For a file whose slices have blobs of the sizes that its claim says, evr_open_file_read at any
  -- offset and for any size gives exactly the bytes of the file from the offset on, no more than
  -- were asked for and fewer only at the end of the file, whichever slice is in the cache; then
  -- the cache has the blob of the slice that it names, and the connection is open with nothing of
  -- an answer left unread. This holds where memory is found and the server answers with the blobs.
  pub open_file_read_lem :
      (f : OpenFile C) (size off : ℕ) (bodies : List (List ℕ))
      → Sliced link Pending blobs answers hash f.slices bodies
      → Coherent link Pending blobs answers hash f bodies
      → (g : OpenFile C) × (open_file_read link hash allocates true f size off
          ≡ some (ok, take size (drop off (concat bodies)), g))
        × Coherent link Pending blobs answers hash g bodies
  unfolding open_file_read
  open_file_read_lem f size off bodies is coherent =
      let (g, read, coherent') =
        read_slices_lem size off bodies f.slices bodies 0 0 [] f is refl (omega arith) coherent in
      (
        g,
        read
            ∙ ap₂ (λ n k. some (ok, take n (drop k (concat bodies)), g)) (omega arith)
                (omega arith),
        coherent',
      )

  -- When the claim gives the first slice of a file a larger size than its blob has, a read at the
  -- start of the file that asks for more bytes than the blob has copies bytes from behind the end of
  -- the buffer that has the blob, whatever slices follow.
  pub short_blob_overread :
      (f : OpenFile C) (s : FileSlice) (more : List FileSlice) (b : List ℕ) (bs : List (List ℕ))
      (size : ℕ)
      → f.slices ≡ s ∷ more
      → IsBlob link Pending blobs answers hash s b
      → length b < s.size
      → length b < size
      → Coherent link Pending blobs answers hash f (b ∷ bs)
      → open_file_read link hash allocates true f size 0 ≡ none
  unfolding open_file_read read_slices
  short_blob_overread f s more b bs size slices blob short long coherent =
      let (g, loaded, cached, _) =
        load_lem link Pending blobs answers hash allocates has_memory f s 0 b (b ∷ bs) coherent blob
          refl in
      let n = min (s.size - 0) (size - 0) in
      let recur = read_slices link hash allocates true size 0 more 1 (0 + s.size) in
      let copy = λ (buffer : Option (List ℕ)) (n : ℕ).
        read_copied link hash allocates true recur size [] g
          (copied link hash allocates true buffer 0 n) in
      ap (λ ss. read_slices link hash allocates true size 0 ss 0 0 [] f) slices
      ∙ ap
          (λ t.
            if t
            then read_loaded link hash allocates true recur size 0 s 0 []
                (load_slice link hash allocates true f s 0)
            else recur [] f)
          (lt→ltb 0 (0 + s.size) (omega arith))
      ∙ ap (read_loaded link hash allocates true recur size 0 s 0 []) loaded
      ∙ ap (copy g.cached_slice_buf) (smaller_lem (s.size - 0) (size - 0))
      ∙ ap (λ c. copy c n) cached
      ∙ ap
          (λ t.
            read_copied link hash allocates true recur size [] g
              (if t then some (take n (drop 0 b)) else none))
          (lt→leb (length b) (0 + n) (omega arith))
