-- ===== src/Server/Blobs.antt =====
-- The handlers of src/evr-glacier-storage.c that move blobs answer as the abstract store does, where no
-- call fails.
use everarch.Prelude.{
  ℕ, ◌+◌, ◌-◌, ◌%◌, ◌≤◌, ◌≡◌, refl, sym, ap, ◌∙◌, true, false, Option, none, some, List, [], ◌∷◌,
  ◌++◌, append-nil, append_assoc, arith, length, ltb, le→ltb, if◌then◌else◌,
}
use everarch.Bytes.{u64, push_u8}
use everarch.Files.{Sink}
use everarch.Files.ReadN.{Flows}
use everarch.Keys.TinySet.Spec.{ref_eq_iff}
use everarch.Glacier.Chunks.{concat}
use everarch.Glacier.ReadBlob.{read_blob, told_missing}
use everarch.Glacier.ReadShown.{read_blob-Shows}
use everarch.GlacierCmd.{format_resp_header}
use everarch.Server.Commands.{
  max_blob_data_size, empty_resp, writing_blob, work_put_blob, work_get_blob, sent_blob,
  send_get_response, pipe_data, piped, written, store_blob, task_destroyed, task_done, run_task,
}
use everarch.Exec.{bind_next, give_up}
use everarch.Server.Actions.{World, Store, recv, recv_chunks, guard, glacier_next}
use everarch.Server.Watch.{ensure_worker_rctx_exists}
use everarch.Server.Steps.{Wrote, write-Flows, ensure_lem, send_lem, recv_lem, recv_chunks_lem}
use everarch.Server.Requests.{get_blob, put_blob, get_reply, Works}
use everarch.Server.Handlers.{Served, Ready}

module _ {G : Type 0} (st : Store G) (holds : G → List ℕ → Option (ℕ × List ℕ)) (fuel : ℕ)
    (IsSound : G → Type 0) (works : Works st holds fuel IsSound) where
  -- what the callbacks of evr_glacier_read_blob make of the blob that the store holds
  get_reply_lem :
      (key : List ℕ) (f : Sink) (g : G) (o : Option (ℕ × List ℕ))
      → IsSound g
      → Flows f.grants
      → holds g key ≡ o
      → (w : World G)
      → (x : Sink) × (sent_blob st w (
            read_blob send_get_response pipe_data fuel
              (st.buckets g)
              (st.find_blob g key)
              (st.bucket_grants g)
              f)
          ≡ (some tt, record w { output = x }))
        × Wrote f (get_reply o) x
  unfolding read_blob send_get_response pipe_data
  get_reply_lem key f g none sound fl e w =
      let (x, sent, wrote) = write-Flows f (empty_resp 69) fl in
      (
        x,
        ap
              (λ l. sent_blob st w (
                read_blob send_get_response pipe_data fuel (st.buckets g) l (st.bucket_grants g) f))
              (works.is_missing g key sound e)
            ∙ ap (λ r. sent_blob st w (some (told_missing send_get_response pipe_data (written r))))
                sent,
        wrote,
      )
  get_reply_lem key f g (some (flags, body)) sound fl e w =
      let head =
        format_resp_header (record { status_code = 32; body_size = 1 + length body })
        ++ push_u8 flags in
      let (x, sent, (out, flows)) = write-Flows f head fl in
      let (y, read, good, shown) =
        read_blob-Shows send_get_response pipe_data (λ c bs d. d.out ≡ c.out ++ bs)
          (λ c. sym (append-nil c.out))
          (λ c d e xs ys p q. q ∙ ap (λ z. z ++ ys) p ∙ append_assoc c.out xs ys)
          (λ c. Flows c.grants)
          (λ c bs good.
            let (d, wrote, (shown, good')) = write-Flows c bs good in
            (d, ap piped wrote, good', shown))
          fuel (st.find_blob g key) (st.buckets g) flags body (st.bucket_grants g) f x
          (works.is_at g key flags body sound e) (works.is_short g key flags body sound e)
          (works.reads g sound) (ap written sent) flows in
      (
        y,
        ap (sent_blob st w) read,
        (shown ∙ ap (λ z. z ++ body) out ∙ append_assoc f.out head body, good),
      )

  pub get_lem :
      (key rest : List ℕ) (type : ℕ) (w : World G)
      → length key ≡ 28
      → Ready st holds fuel IsSound works w (key ++ rest)
      → Served st holds fuel IsSound works tt w
          (get_blob key)
          rest
          (work_get_blob st fuel (record { type = type; body_size = 28 }) w)
  unfolding work_get_blob
  get_lem key rest type w size (input, fl, sound) =
      let (f, got, input') = recv_lem 28 key rest w size input in
      let w1 : World G = record w { input = f } in
      let w2 : World G = record w1 { rctx = true } in
      let (o, sent, wrote) =
        get_reply_lem key w.output w.glacier (holds w.glacier key) sound fl refl w2 in
      let last : List ℕ → World G → Option (Unit {0}) × World G = λ k u. sent_blob st u (
        read_blob send_get_response pipe_data fuel (st.buckets u.glacier) (st.find_blob u.glacier k)
          (st.bucket_grants u.glacier) u.output) in
      (
        record w2 { output = o },
        get_reply (holds w.glacier key),
        ap (bind_next (λ k v. bind_next (λ _. last k) (ensure_worker_rctx_exists st v))) got
            ∙ ap (bind_next (λ _. last key)) (ensure_lem st w1 (works.creates w1.glacier sound))
            ∙ sent,
        input',
        wrote,
        sound,
        (refl, refl),
        refl,
      )

  store_lem :
      (key body : List ℕ) (flags : ℕ) (chunks : List (List ℕ)) (rest : List ℕ) (w : World G)
      → concat chunks ≡ body
      → length body ≤ max_blob_data_size
      → st.hash body ≡ key
      → Ready st holds fuel IsSound works w rest
      → Served st holds fuel IsSound works tt w
          (put_blob key flags body)
          rest
          (store_blob st key (flags ∷ []) (length body) (chunks, body) w)
  unfolding store_blob
  store_lem key body flags chunks rest w whole short hashed (input, fl, sound) =
      let blob = writing_blob st key (flags ∷ []) (length body) chunks w.sync_strategy in
      let (g1, g', queued, waited, result, sound') =
        works.persists w.glacier key (flags ∷ []) body chunks w.sync_strategy sound whole short
          hashed in
      let w1 : World G = record w { glacier = g1 } in
      let w2 : World G = record w { glacier = g' } in
      let (o, sent, wrote) = send_lem (empty_resp 32) w2 fl in
      let w3 : World G = record w2 { output = o } in
      let body_task : Unit {0} → World G → Option (Unit {0}) × World G = λ _ v.
        task_destroyed st
          (run_task st (writing_blob st key (flags ∷ []) (length body) chunks v.sync_strategy) v) in
      let ran : run_task st blob w ≡ (some tt, w3) =
        ap
          (λ r.
            bind_next
              (λ _ v.
                bind_next (λ _ u. task_done st (st.task_result u.glacier) u)
                  (glacier_next v (st.wait_for_task v.glacier)))
              (glacier_next w r))
          queued
        ∙ ap (λ r. bind_next (λ _ u. task_done st (st.task_result u.glacier) u) (glacier_next w1 r))
            waited
        ∙ ap (λ s. task_done st s w2) result
        ∙ sent in
      (
        w3,
        empty_resp 32,
        ap (λ b. (if b then (λ u. bind_next body_task (guard st.init_task u)) else give_up) w)
              ((ref_eq_iff (st.hash body) key).1 hashed)
            ∙ ap (λ b. bind_next body_task (if b then (some tt, w) else (none, w)))
                (works.inits w.glacier sound)
            ∙ ap (task_destroyed st) ran
            ∙ ap (λ b. if b then (some tt, w3) else (none, w3)) (works.destroys g' sound'),
        input,
        wrote,
        sound',
        (refl, (chunks, g1, whole, queued, waited, result)),
        refl,
      )

  pub put_lem :
      (key body : List ℕ) (flags : ℕ) (rest : List ℕ) (type : ℕ) (w : World G)
      → length key ≡ 28
      → length body ≤ max_blob_data_size
      → st.hash body ≡ key
      → Ready st holds fuel IsSound works w ((key ++ ((flags ∷ []) ++ body)) ++ rest)
      → Served st holds fuel IsSound works tt w
          (put_blob key flags body)
          rest
          (work_put_blob st (record { type = type; body_size = 29 + length body }) w)
  unfolding work_put_blob
  put_lem key body flags rest type w size short hashed (input, fl, sound) =
      let parts : (key ++ ((flags ∷ []) ++ body)) ++ rest
          ≡ key ++ ((flags ∷ []) ++ (body ++ rest)) =
        append_assoc key (flags ∷ body) rest in
      let (f, got, input') =
        recv_lem 28 key ((flags ∷ []) ++ (body ++ rest)) w size (input.0 ∙ parts, input.1) in
      let w1 : World G = record w { input = f } in
      let (f2, got2, input2) = recv_lem 1 (flags ∷ []) (body ++ rest) w1 refl input' in
      let w2 : World G = record w { input = f2 } in
      let (chunks, f3, got3, whole, input3) =
        recv_chunks_lem st body rest w2 (works.allocates w.glacier (length body) sound short)
          input2 in
      let w3 : World G = record w { input = f3 } in
      let (w', resp, stored, left, wrote, sound', answers, strategy) =
        store_lem key body flags chunks rest w3 whole short hashed (input3, fl, sound) in
      let from_blob : List ℕ → List ℕ → ℕ → Unit {0} → World G → Option (Unit {0}) × World G =
        λ k fs n _ v. bind_next (store_blob st k fs n) (recv_chunks st n v) in
      let from_key : ℕ → World G → Option (Unit {0}) × World G = λ n v.
        bind_next
          (λ k u.
            bind_next (λ fs t. bind_next (from_blob k fs n) (guard st.blob_ref_open t)) (recv 1 u))
          (recv 28 v) in
      let big : ltb max_blob_data_size (length body) ≡ false = le→ltb _ _ short in
      let few : ltb (29 + length body) 28 ≡ false = le→ltb _ _ (omega arith) in
      let computed : (29 + length body + u64 - 29) % u64 ≡ length body = omega arith in
      (
        w',
        resp,
        ap
              (λ b.
                (if b
                    then give_up
                    else if ltb max_blob_data_size ((29 + length body + u64 - 29) % u64)
                    then give_up
                    else from_key ((29 + length body + u64 - 29) % u64))
                  w)
              few
            ∙ ap (λ n. (if ltb max_blob_data_size n then give_up else from_key n) w) computed
            ∙ ap (λ b. (if b then give_up else from_key (length body)) w) big
            ∙ ap
                (bind_next (λ k u.
                  bind_next
                    (λ fs t. bind_next (from_blob k fs (length body)) (guard st.blob_ref_open t))
                    (recv 1 u)))
                got
            ∙ ap
                (bind_next
                  (λ fs t. bind_next (from_blob key fs (length body)) (guard st.blob_ref_open t)))
                got2
            ∙ ap
                (λ b.
                  bind_next (from_blob key (flags ∷ []) (length body))
                    (if b then (some tt, w2) else (none, w2)))
                (works.opens w.glacier sound)
            ∙ ap (bind_next (store_blob st key (flags ∷ []) (length body))) got3
            ∙ stored,
        left,
        wrote,
        sound',
        answers,
        strategy,
      )
