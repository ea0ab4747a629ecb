-- ===== src/Server/Handlers.antt =====
-- Each handler of src/evr-glacier-storage.c answers its request as the abstract store does, where no
-- call fails.
use everarch.Prelude.{
  ℕ, suc, ◌<◌, ◌≡◌, refl, ap, ap₂, ◌∙◌, true, false, ◌||◌, Option, none, some, List, ◌∷◌, ◌++◌,
  arith, length, ltb, get_or,
}
use everarch.Files.ReadN.{Flows}
use everarch.Glacier.ReadBlob.{stat_blob}
use everarch.GlacierCmd.{format_resp_header, format_stat_blob_resp}
use everarch.Server.Commands.{
  empty_resp, known_strategy, work_stat_blob, work_configure_connection, work_unknown_cmd,
  stat_response,
}
use everarch.Exec.{bind_next}
use everarch.Server.Actions.{World, Store, send}
use everarch.Server.Watch.{ensure_worker_rctx_exists}
use everarch.Server.Steps.{Holds, Wrote, ensure_lem, send_lem, recv_lem, dump_lem}
use everarch.Server.Requests.{
  Request, stat_blob as stat_request, configure_connection, unknown, stat_reply, strategy_after,
  Answers, Works,
}

module _ {G : Type 0} (st : Store G) (holds : G → List ℕ → Option (ℕ × List ℕ)) (fuel : ℕ)
    (IsSound : G → Type 0) (works : Works st holds fuel IsSound) where
  -- The rest of the input is left, the answer is sent, and the store is the one behind the request.
  abbrev pub Served : {A : Type 0} → A → World G → Request → List ℕ → Option A × World G → Type 0
  Served a w r rest res =
      (w' : World G) × (resp : List ℕ) × (res ≡ (some a, w'))
      × Holds w'.input rest
      × Wrote w.output resp w'.output
      × IsSound w'.glacier
      × Answers st holds w.glacier w.sync_strategy r resp w'.glacier
      × (w'.sync_strategy ≡ strategy_after r w.sync_strategy)

  -- what a handler finds: the request's body in front of the input
  abbrev pub Ready : World G → List ℕ → Type 0
  Ready w bs = Holds w.input bs × Flows w.output.grants × IsSound w.glacier

  stat_response_lem :
      (key : List ℕ) (w : World G) (o : Option (ℕ × List ℕ))
      → IsSound w.glacier
      → holds w.glacier key ≡ o
      → stat_response st (stat_blob (st.find_blob w.glacier key)) w ≡ send (stat_reply o) w
  unfolding stat_blob
  stat_response_lem key w none sound e =
      ap (λ l. stat_response st (stat_blob l) w) (works.is_missing w.glacier key sound e)
  stat_response_lem key w (some (flags, body)) sound e =
      let at = works.is_at w.glacier key flags body sound e in
      ap (λ l. stat_response st (stat_blob l) w) at.is_found
      ∙ ap₂
          (λ a b.
            send
              (format_resp_header (record { status_code = 32; body_size = 5 })
                ++ format_stat_blob_resp (record { flags = a; blob_size = b }))
              w)
          at.is_flags at.is_size

  pub stat_lem :
      (key rest : List ℕ) (type : ℕ) (w : World G)
      → length key ≡ 28
      → Ready w (key ++ rest)
      → Served tt w
          (stat_request key)
          rest
          (work_stat_blob st (record { type = type; body_size = 28 }) w)
  unfolding work_stat_blob
  stat_lem key rest type w size (input, fl, sound) =
      let (f, got, input') = recv_lem 28 key rest w size input in
      let w1 : World G = record w { input = f } in
      let w2 : World G = record w1 { rctx = true } in
      let reply = stat_reply (holds w.glacier key) in
      let (o, sent, wrote) = send_lem reply w2 fl in
      (
        record w2 { output = o },
        reply,
        ap
              (bind_next (λ k v.
                bind_next (λ _ u. stat_response st (stat_blob (st.find_blob u.glacier k)) u)
                  (ensure_worker_rctx_exists st v)))
              got
            ∙ ap (bind_next (λ _ u. stat_response st (stat_blob (st.find_blob u.glacier key)) u))
                (ensure_lem st w1 (works.creates w1.glacier sound))
            ∙ stat_response_lem key w2 (holds w.glacier key) sound refl
            ∙ sent,
        input',
        wrote,
        sound,
        (refl, refl),
        refl,
      )

  pub configure_lem :
      (strategy : ℕ) (more rest : List ℕ) (type : ℕ) (w : World G)
      → length more < 512
      → Ready w ((strategy ∷ more) ++ rest)
      → Served tt w
          (configure_connection strategy more)
          rest
          (work_configure_connection (record { type = type; body_size = suc (length more) }) w)
  unfolding work_configure_connection
  configure_lem strategy more rest type w short (input, fl, sound) =
      let (f, got, input') = recv_lem (suc (length more)) (strategy ∷ more) rest w refl input in
      let w1 : World G = record w { input = f; sync_strategy = known_strategy strategy } in
      let (o, sent, wrote) = send_lem (empty_resp 32) w1 fl in
      let within : (ltb (suc (length more)) 1 || ltb 512 (suc (length more))) ≡ false =
        ground arith in
      (
        record w1 { output = o },
        empty_resp 32,
        rw within (
            ap
              (bind_next (λ buf v.
                send (empty_resp 32)
                  (record v { sync_strategy = known_strategy (get_or buf 0 0) })))
              got
            ∙ sent),
        input',
        wrote,
        sound,
        (refl, refl),
        refl,
      )

  pub unknown_lem :
      (type : ℕ) (body rest : List ℕ) (w : World G)
      → Ready w (body ++ rest)
      → Served tt w
          (unknown type body)
          rest
          (work_unknown_cmd (record { type = type; body_size = length body }) w)
  unfolding work_unknown_cmd
  unknown_lem type body rest w (input, fl, sound) =
      let (bs, f, dumped, input') = dump_lem body rest w input in
      let w1 : World G = record w { input = f } in
      let (o, sent, wrote) = send_lem (empty_resp 7) w1 fl in
      (
        record w1 { output = o },
        empty_resp 7,
        ap (bind_next (λ _. send (empty_resp 7))) dumped ∙ sent,
        input',
        wrote,
        sound,
        (refl, refl),
        refl,
      )
