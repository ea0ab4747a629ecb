-- ===== src/Server/Steps.antt =====
-- What the steps of a handler do where no call fails: the bytes that are there are taken from the
-- front of the input, and those that are sent stand behind the output.
use everarch.Prelude.{
  ℕ, ◌≡◌, refl, ap, ap₂, subst, ◌∙◌, inl, inr, Bool-cases, if◌then◌else◌, true, Option, none, some,
  List, [], ◌++◌, append-nil, append_assoc, arith, length, take, drop, length-append, take-append,
  drop-append,
}
use everarch.Errors.{Status, ok, error, end}
use everarch.Files.{Source, Sink, Read, read_n, none_se, write_n}
use everarch.Files.Pipe.{dump_n}
use everarch.Files.ReadN.{Flows, Ends, read_n_exact}
use everarch.Files.WriteN.{WriteEnds, write_n_exact}
use everarch.Files.PipeN.{DumpEnds, dump_n_exact}
use everarch.ChunkSet.{IntoChunks, Filled, read_into_chunks, read_into_chunks_lem}
use everarch.Glacier.{chunk_size}
use everarch.Glacier.Chunks.{concat}
use everarch.Glacier.Reindex.{blob_ref_write_se}
use everarch.Server.Actions.{
  World, Store, received, recv, dump, send_done, send, chunks_received, recv_chunks,
}
use everarch.Server.Watch.{ensure_worker_rctx_exists}

-- A source with exactly these bytes left whose reads do not fail.
abbrev pub Holds : Source → List ℕ → Type 0
Holds f bs = (f.bytes ≡ bs) × Flows f.grants

-- A sink that has these bytes more than another, and whose writes do not fail.
abbrev pub Wrote : Sink → List ℕ → Sink → Type 0
Wrote f bs g = (g.out ≡ f.out ++ bs) × Flows g.grants

pub write-Flows :
    (f : Sink) (buf : List ℕ)
    → Flows f.grants
    → (g : Sink) × (write_n f buf ≡ (ok, g)) × Wrote f buf g
write-Flows f buf fl = by_case (write_n f buf).0 (write_n f buf).1 (write_n_exact f buf)
  where
    by_case :
        (s : Status) (g : Sink)
        → WriteEnds buf f.out f.grants g s
        → (h : Sink) × (◌≡◌ {A = Status × Sink} (s, g) (ok, h)) × Wrote f buf h
    by_case ok g (e, flows) = (g, refl, (e, flows fl))
    by_case end g (_, _, _, _, bad) = absurd (bad fl)
    by_case error g (_, _, _, _, bad) = absurd (bad fl)
    by_case _ g bad = absurd bad

module _ {G : Type 0} where
  pub send_lem :
      (buf : List ℕ) (w : World G)
      → Flows w.output.grants
      → (f : Sink) × (send buf w ≡ (some tt, record w { output = f })) × Wrote w.output buf f
  unfolding send
  send_lem buf w fl =
      let (f, e, wrote) = write-Flows w.output buf fl in (f, ap (send_done w) e, wrote)

  received_lem :
      (r : Read ℕ) (s : Status) (xs ys : List ℕ) (w : World G)
      → Holds w.input (xs ++ ys)
      → Ends (λ k bs. k) w.input.bytes w.input.grants (length xs) [] 0 r s
      → (f : Source) × (received w r s ≡ (some xs, record w { input = f })) × Holds f ys
  received_lem r ok xs ys w (e, fl) (fits, b, _, rest, flows) = (
    r.source,
    ap (λ x. (some x, record w { input = r.source }))
        (b ∙ ap (take (length xs)) e ∙ take-append (length xs) xs ys refl),
    (rest ∙ ap (drop (length xs)) e ∙ drop-append (length xs) xs ys refl, flows fl),
  )
  received_lem r end xs ys w (e, fl) (short, _, _, _, _) =
      absurd (omega (arith, short, ap length e, length-append xs ys))
  received_lem r error xs ys w (e, fl) bad = absurd (bad fl)
  received_lem r _ xs ys w (e, fl) bad = absurd bad

  pub recv_lem :
      (n : ℕ) (xs ys : List ℕ) (w : World G)
      → length xs ≡ n
      → Holds w.input (xs ++ ys)
      → (f : Source) × (recv n w ≡ (some xs, record w { input = f })) × Holds f ys
  unfolding recv
  recv_lem n xs ys w h holds =
      subst
        (λ k.
          (f : Source) × ((let r = read_n {C = ℕ} none_se w.input k 0 in received w r r.status)
            ≡ (some xs, record w { input = f }))
          × Holds f ys)
        h
        (received_lem (read_n {C = ℕ} none_se w.input (length xs) 0)
          (read_n {C = ℕ} none_se w.input (length xs) 0).status xs ys w holds
          (read_n_exact none_se (λ k bs. k) (λ k bs. refl) (λ k. refl) (λ k cs bs. refl) w.input
            (length xs) 0))

  dumped_lem :
      (r : Read ℕ) (s : Status) (xs ys : List ℕ) (w : World G)
      → Holds w.input (xs ++ ys)
      → DumpEnds (λ k bs. k) w.input.bytes w.input.grants (length xs) 0 r s
      → (bs : List ℕ) × (f : Source) × (received w r s ≡ (some bs, record w { input = f }))
        × Holds f ys
  dumped_lem r ok xs ys w (e, fl) (fits, _, rest, flows) = (
    r.buffer,
    r.source,
    refl,
    (rest ∙ ap (drop (length xs)) e ∙ drop-append (length xs) xs ys refl, flows fl),
  )
  dumped_lem r end xs ys w (e, fl) (short, _) =
      absurd (omega (arith, short, ap length e, length-append xs ys))
  dumped_lem r error xs ys w (e, fl) bad = absurd (bad fl)
  dumped_lem r _ xs ys w (e, fl) bad = absurd bad

  pub dump_lem :
      (xs ys : List ℕ) (w : World G)
      → Holds w.input (xs ++ ys)
      → (bs : List ℕ) × (f : Source) × (dump (length xs) w ≡ (some bs, record w { input = f }))
        × Holds f ys
  unfolding dump
  dump_lem xs ys w holds =
      let r = dump_n {C = ℕ} none_se w.input (length xs) 0 in
      dumped_lem r r.status xs ys w holds (
        dump_n_exact none_se (λ k bs. k) (λ k bs. refl) (λ k. refl) (λ k cs bs. refl) w.input
          (length xs) 0)

  chunks_received_lem :
      (r : IntoChunks (List ℕ)) (o : Option (List (List ℕ))) (xs ys : List ℕ) (w : World G)
      → Holds w.input (xs ++ ys)
      → Filled (λ hd bs. hd ++ bs) [] w.input (length xs) [] r o
      → (chunks : List (List ℕ)) × (f : Source) × (chunks_received w r o
          ≡ (some (chunks, xs), record w { input = f }))
        × (concat chunks ≡ xs)
        × Holds f ys
  chunks_received_lem r (some chunks) xs ys w (e, fl) (fits, all, hashed, rest, flows) =
      let front : take (length xs) w.input.bytes ≡ xs =
        ap (take (length xs)) e ∙ take-append (length xs) xs ys refl in
      (
        chunks,
        r.source,
        ap (λ x. (some (chunks, x), record w { input = r.source })) (hashed ∙ front),
        all ∙ front,
        (rest ∙ ap (drop (length xs)) e ∙ drop-append (length xs) xs ys refl, flows fl),
      )
  chunks_received_lem r none xs ys w (e, fl) short =
      let lt = short fl in absurd (omega (arith, lt, ap length e, length-append xs ys))

  pub recv_chunks_lem :
      (st : Store G) (xs ys : List ℕ) (w : World G)
      → st.allocate_chunk_set w.glacier (length xs) ≡ true
      → Holds w.input (xs ++ ys)
      → (chunks : List (List ℕ)) × (f : Source) × (recv_chunks st (length xs) w
          ≡ (some (chunks, xs), record w { input = f }))
        × (concat chunks ≡ xs)
        × Holds f ys
  unfolding recv_chunks
  recv_chunks_lem st xs ys w a holds =
      let r =
        read_into_chunks blob_ref_write_se chunk_size (st.allocate_chunk_set w.glacier (length xs))
          w.input (length xs) [] in
      chunks_received_lem r r.chunks xs ys w holds (
        read_into_chunks_lem blob_ref_write_se (λ hd bs. hd ++ bs) hashes append-nil append_assoc
          chunk_size (st.allocate_chunk_set w.glacier (length xs)) w.input (length xs) []
          (omega arith) a)
    where
      hashes : (hd bs : List ℕ) → blob_ref_write_se hd bs ≡ (ok, hd ++ bs)
      hashes hd bs = unfold blob_ref_write_se in refl

  pub ensure_lem :
      (st : Store G) (w : World G)
      → st.create_read_ctx w.glacier ≡ true
      → ensure_worker_rctx_exists st w ≡ (some tt, record w { rctx = true })
  unfolding ensure_worker_rctx_exists
  ensure_lem st w created = elim (Bool-cases w.rctx) [
    | inl there ↦
        ap
          (λ b.
            if b
            then (some tt, w)
            else if st.create_read_ctx w.glacier
            then (some tt, record w { rctx = true })
            else (none, w))
          there
        ∙ ap (λ b. (some tt, record w { rctx = b })) there
    | inr not_there ↦
        ap₂
          (λ b c.
            if b
            then (some tt, w)
            else if c
            then (some tt, record w { rctx = true })
            else (none, w))
          not_there created
  ]
