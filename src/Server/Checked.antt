-- ===== src/Server/Checked.antt =====
-- evr_work_put_blob of src/evr-glacier-storage.c refuses blobs whose bytes do not have the hash that they
-- are put under, whatever calls fail.
use everarch.Prelude.{
  ℕ, ◌+◌, ◌-◌, ◌%◌, ◌≤◌, ◌<◌, ◌≡◌, ◌⊎◌, inl, inr, refl, sym, ap, ap₂, subst, ◌∙◌, Bool, true, false,
  Option, none, some, List, [], ◌++◌, append-nil, append_assoc, arith, length, length-take, ltb,
  ltb→le, if◌then◌else◌, Bool-cases,
}
use everarch.Errors.{Status, ok}
use everarch.Bytes.{u64}
use everarch.Files.{Read, read_n, none_se}
use everarch.Files.ReadN.{Ends, read_n_exact}
use everarch.ChunkSet.{IntoChunks, Filled, read_into_chunks, read_into_chunks_lem}
use everarch.Keys.TinySet.{ref_eq}
use everarch.Keys.TinySet.Spec.{ref_eq_iff}
use everarch.Glacier.{chunk_size}
use everarch.Glacier.Chunks.{concat}
use everarch.Glacier.Reindex.{blob_ref_write_se}
use everarch.GlacierCmd.{CmdHeader}
use everarch.Server.Commands.{
  max_blob_data_size, store_blob, work_put_blob, task_destroyed, run_task, writing_blob,
}
use everarch.Exec.{bind_next, give_up}
use everarch.Server.Actions.{World, Store, guard, received, recv, chunks_received, recv_chunks}
use everarch.Server.Refuse.{Untouched}

module _ {G : Type 0} (st : Store G) where
  -- What a handler leaves that gave up: nothing was sent and the store is as it was.
  abbrev pub Refused : World G → Option (Unit {0}) × World G → Type 0
  Refused w res = (res.0 ≡ none) × Untouched st w res.1

  -- A received buffer has the bytes asked for, or the handler gives up.
  abbrev Received : World G → ℕ → Option (List ℕ) × World G → Type 0
  Received w n (none, w') = Untouched st w w'
  Received w n (some bs, w') =
      Untouched st w w' × (length bs ≡ n) × (w'.sync_strategy ≡ w.sync_strategy)

  received-Received :
      (w : World G) (n : ℕ) (r : Read ℕ) (s : Status)
      → Ends (λ k bs. k) w.input.bytes w.input.grants n [] 0 r s
      → Received w n (received w r s)
  received-Received w n r ok (fits, b, _, _, _) =
      ((refl, refl), ap length b ∙ omega (arith, fits, length-take n w.input.bytes), refl)
  received-Received w n r _ ends = (refl, refl)

  recv-Received : (w : World G) (n : ℕ) → Received w n (recv n w)
  unfolding recv
  recv-Received w n =
      let r = read_n {C = ℕ} none_se w.input n 0 in
      received-Received w n r r.status
        (read_n_exact none_se (λ k bs. k) (λ k bs. refl) (λ k. refl) (λ k cs bs. refl) w.input n 0)

  -- The blob that is stored: its bytes are those that were read, and have the hash of its key.
  abbrev pub Stored : World G → CmdHeader → Option (Unit {0}) × World G → Type 0
  Stored w cmd res =
      (key : List ℕ) × (flags : List ℕ) × (chunks : List (List ℕ)) × (v : World G) × (res
        ≡ store_blob st key flags (length (concat chunks)) (chunks, concat chunks) v)
      × (st.hash (concat chunks) ≡ key)
      × (length key ≡ 28)
      × (length flags ≡ 1)
      × (29 + length (concat chunks) ≡ cmd.body_size)
      × (length (concat chunks) ≤ max_blob_data_size)
      × Untouched st w v

  module _ (w : World G) (cmd : CmdHeader) (size : ℕ) (fits : 29 + size ≡ cmd.body_size)
      (small : size ≤ max_blob_data_size) where
    abbrev Checked : Option (Unit {0}) × World G → Type 0
    Checked res = Refused w res ⊎ Stored w cmd res

    chunks-Checked :
        (key flags : List ℕ) (v : World G) (r : IntoChunks (List ℕ)) (o : Option (List (List ℕ)))
        → length key ≡ 28
        → length flags ≡ 1
        → Untouched st w v
        → Filled (λ hd bs. hd ++ bs) [] v.input size [] r o
        → Checked (bind_next (store_blob st key flags size) (chunks_received v r o))
    unfolding store_blob
    chunks-Checked key flags v r none hk hf same filled = inl (refl, same)
    chunks-Checked key flags v r (some chunks) hk hf same (le, all, hashed, _, _) =
        let len : size ≡ length (concat chunks) =
          omega (arith, ap length all, length-take size v.input.bytes, le) in
        let hd : r.ctx ≡ concat chunks = hashed ∙ sym all in
        let u : World G = record v { input = r.source } in
        elim (Bool-cases (ref_eq (st.hash r.ctx) key)) [
          | inl e ↦ inr (
            key,
            flags,
            chunks,
            u,
            ap₂ (λ n x. store_blob st key flags n (chunks, x) u) len hd,
            ap st.hash (sym hd) ∙ (ref_eq_iff (st.hash r.ctx) key).0 e,
            hk,
            hf,
            omega (arith, len, fits),
            omega (arith, len, small),
            same,
          )
          | inr e ↦
              subst
                (λ b. Checked (
                  (if b
                      then (λ y.
                          bind_next
                            (λ _ x. task_destroyed st (
                              run_task st (writing_blob st key flags size chunks x.sync_strategy)
                                x))
                            (guard st.init_task y))
                      else give_up)
                    u))
                (sym e) (inl (refl, same))
        ]

    open-Checked :
        (key flags : List ℕ) (v : World G)
        → length key ≡ 28
        → length flags ≡ 1
        → Untouched st w v
        → Checked (bind_next (store_blob st key flags size) (recv_chunks st size v))
    unfolding recv_chunks
    open-Checked key flags v hk hf same = elim (Bool-cases (st.allocate_chunk_set v.glacier size)) [
      | inl e ↦
          let r =
            read_into_chunks blob_ref_write_se chunk_size (st.allocate_chunk_set v.glacier size)
              v.input size [] in
          chunks-Checked key flags v r r.chunks hk hf same (
            read_into_chunks_lem blob_ref_write_se (λ hd bs. hd ++ bs) hashes append-nil
              append_assoc chunk_size (st.allocate_chunk_set v.glacier size) v.input size []
              (omega arith) e)
      | inr e ↦
          subst
            (λ b.
              let r = read_into_chunks blob_ref_write_se chunk_size b v.input size [] in
              Checked (bind_next (store_blob st key flags size) (chunks_received v r r.chunks)))
            (sym e) (unfold read_into_chunks in inl (refl, same))
    ]
      where
        hashes : (hd bs : List ℕ) → blob_ref_write_se hd bs ≡ (ok, hd ++ bs)
        hashes hd bs = unfold blob_ref_write_se in refl

    opened-Checked :
        (key flags : List ℕ) (v : World G)
        → length key ≡ 28
        → length flags ≡ 1
        → Untouched st w v
        → Checked (
            bind_next
              (λ _ u. bind_next (store_blob st key flags size) (recv_chunks st size u))
              (guard st.blob_ref_open v))
    opened-Checked key flags v hk hf same = elim (Bool-cases (st.blob_ref_open v.glacier)) [
      | inl e ↦
          subst (λ b. Checked (bind_next next (if b then (some tt, v) else (none, v)))) (sym e)
            (open-Checked key flags v hk hf same)
      | inr e ↦
          subst (λ b. Checked (bind_next next (if b then (some tt, v) else (none, v)))) (sym e)
            (inl (refl, same))
    ]
      where
        next : Unit {0} → World G → Option (Unit {0}) × World G
        next _ u = bind_next (store_blob st key flags size) (recv_chunks st size u)

    abbrev with_flags : List ℕ → List ℕ → World G → Option (Unit {0}) × World G
    with_flags key flags v =
        bind_next (λ _ u. bind_next (store_blob st key flags size) (recv_chunks st size u))
          (guard st.blob_ref_open v)

    flags-Checked :
        (key : List ℕ) (v : World G) (res : Option (List ℕ) × World G)
        → length key ≡ 28
        → Untouched st w v
        → Received v 1 res
        → Checked (bind_next (with_flags key) res)
    flags-Checked key v (none, u) hk same left = inl (refl, (left.0 ∙ same.0, left.1 ∙ same.1))
    flags-Checked key v (some flags, u) hk same (left, hf, _) =
        opened-Checked key flags u hk hf (left.0 ∙ same.0, left.1 ∙ same.1)

    key-Checked :
        (res : Option (List ℕ) × World G)
        → Received w 28 res
        → Checked (bind_next (λ key v. bind_next (with_flags key) (recv 1 v)) res)
    key-Checked (none, v) left = inl (refl, left)
    key-Checked (some key, v) (left, hk, _) =
        flags-Checked key v (recv 1 v) hk left (recv-Received v 1)

  abbrev from_key : ℕ → World G → Option (Unit {0}) × World G
  from_key size v =
      bind_next
        (λ key u.
          bind_next
            (λ flags t.
              bind_next (λ _ x. bind_next (store_blob st key flags size) (recv_chunks st size x))
                (guard st.blob_ref_open t))
            (recv 1 u))
        (recv 28 v)

  sizes_checked :
      (w : World G) (cmd : CmdHeader) (size : ℕ) (few big : Bool)
      → cmd.body_size < u64
      → size ≡ (cmd.body_size + u64 - 29) % u64
      → few ≡ ltb cmd.body_size 28
      → big ≡ ltb max_blob_data_size size
      → Refused w ((if few then give_up else if big then give_up else from_key size) w)
        ⊎ Stored w cmd ((if few then give_up else if big then give_up else from_key size) w)
  sizes_checked w cmd size true big wide computed f b = inl (refl, (refl, refl))
  sizes_checked w cmd size false true wide computed f b = inl (refl, (refl, refl))
  sizes_checked w cmd size false false wide computed f b =
      let enough = ltb→le cmd.body_size 28 (sym f) in
      let small = ltb→le max_blob_data_size size (sym b) in
      key-Checked w cmd size (omega (arith, enough, small, computed, wide)) small (recv 28 w)
        (recv-Received w 28)

  -- For any command to put a blob, and whatever calls fail: either evr_work_put_blob gives up with
  -- nothing sent and nothing done to the store, or it goes on to store a blob that has as many bytes
  -- as the command says and no more than are allowed, under a key of 28 bytes that is their hash.
  pub put_blob_checked :
      (w : World G) (cmd : CmdHeader)
      → cmd.body_size < u64
      → Refused w (work_put_blob st cmd w) ⊎ Stored w cmd (work_put_blob st cmd w)
  unfolding work_put_blob
  put_blob_checked w cmd wide =
      let size = (cmd.body_size + u64 - 29) % u64 in
      sizes_checked w cmd size (ltb cmd.body_size 28) (ltb max_blob_data_size size) wide refl refl
        refl
