-- ===== src/Server/Dispatch.antt =====
-- The switch of the worker in src/evr-glacier-storage.c over the type of a request, and one round of
-- its loop.
use everarch.Prelude.{
  ℕ, suc, ◌+◌, ◌%◌, ◌≡◌, refl, sym, ap, ap₂, subst, ◌∙◌, true, Option, some, List, [], ◌∷◌, ◌++◌,
  append-nil, append_assoc, arith, length, take, drop, length-append, take-append, drop-append,
  ne→==,
}
use everarch.Errors.{Status, ok, error, end}
use everarch.Bytes.{u32}
use everarch.Files.{Source, Read, read_n, none_se}
use everarch.Files.ReadN.{Ends, read_n_exact}
use everarch.GlacierCmd.{parse_cmd_header, format_cmd_header}
use everarch.GlacierCmd.RoundTrip.{parse-format_cmd_header, length-format_cmd_header}
use everarch.Server.{work_cmd, and_go_on, header_read, header_parsed, cmd_worked, worker_loop}
use everarch.Server.Commands.{
  work_get_blob, work_put_blob, work_stat_blob, work_configure_connection, work_unknown_cmd,
}
use everarch.Exec.{Exec, bind_next}
use everarch.Server.Actions.{World, Store}
use everarch.Server.Steps.{Holds}
use everarch.Server.Requests.{
  Request, get_blob, put_blob, stat_blob, configure_connection, unknown, request_type, request_body,
  request_header, format_request, IsRequest, Works, Answers, strategy_after,
}
use everarch.Server.Handlers.{Ready, Served, stat_lem, configure_lem, unknown_lem}
use everarch.Server.Blobs.{get_lem, put_lem}

-- What the server parses is the header that the client wrote.
header_cut :
    (hash : List ℕ → List ℕ) (r : Request)
    → IsRequest hash r
    → (request_type r % 256 ≡ request_type r)
      × (length (request_body r) % u32 ≡ length (request_body r))
header_cut hash (get_blob key) h = (refl, rw h refl)
header_cut hash (put_blob key flags body) (size, short, hashed) =
    (refl, omega (arith, short, size, length-append key (flags ∷ body)))
header_cut hash (stat_blob key) h = (refl, rw h refl)
header_cut hash (configure_connection strategy more) h = (refl, omega arith)
header_cut hash (unknown type body) (_, small, short) = (omega arith, omega arith)

pub request-header :
    (hash : List ℕ → List ℕ) (r : Request)
    → IsRequest hash r
    → parse_cmd_header (format_cmd_header (request_header r)) ≡ some (request_header r, [])
request-header hash r h =
    let (type, size) = header_cut hash r h in
    ap parse_cmd_header (sym (append-nil (format_cmd_header (request_header r))))
    ∙ parse-format_cmd_header (request_header r) []
    ∙ ap₂ (λ t n. some (record { type = t; body_size = n }, [])) type size

module _ {G : Type 0} (st : Store G) (holds : G → List ℕ → Option (ℕ × List ℕ)) (fuel : ℕ)
    (IsSound : G → Type 0) (works : Works st holds fuel IsSound) where
  going_on :
      (r : Request) (rest : List ℕ) (w : World G) (m : Exec (World G) (Unit {0}))
      → Served st holds fuel IsSound works tt w r rest (m w)
      → Served st holds fuel IsSound works true w r rest (and_go_on st true m w)
  going_on r rest w m (w', resp, e, left, wrote, sound, answers, strategy) =
      (w', resp, ap (bind_next (λ _ v. (some true, v))) e, left, wrote, sound, answers, strategy)

  pub work_cmd_lem :
      (r : Request) (rest : List ℕ) (w : World G)
      → IsRequest st.hash r
      → Ready st holds fuel IsSound works w (request_body r ++ rest)
      → Served st holds fuel IsSound works true w r rest (work_cmd st fuel (request_header r) w)
  unfolding work_cmd
  work_cmd_lem (get_blob key) rest w h ready =
      subst
        (λ n.
          Served st holds fuel IsSound works true w (get_blob key) rest
            (work_cmd st fuel (record { type = 1; body_size = n }) w))
        (sym h)
        (going_on (get_blob key) rest w
          (work_get_blob st fuel (record { type = 1; body_size = 28 }))
          (get_lem st holds fuel IsSound works key rest 1 w h ready))
  work_cmd_lem (put_blob key flags body) rest w (size, short, hashed) ready =
      let whole : 29 + length body ≡ length (key ++ (flags ∷ body)) =
        omega (arith, size, length-append key (flags ∷ body)) in
      subst
        (λ n.
          Served st holds fuel IsSound works true w (put_blob key flags body) rest
            (work_cmd st fuel (record { type = 2; body_size = n }) w))
        whole
        (going_on (put_blob key flags body) rest w
          (work_put_blob st (record { type = 2; body_size = 29 + length body }))
          (put_lem st holds fuel IsSound works key body flags rest 2 w size short hashed ready))
  work_cmd_lem (stat_blob key) rest w h ready =
      subst
        (λ n.
          Served st holds fuel IsSound works true w (stat_blob key) rest
            (work_cmd st fuel (record { type = 3; body_size = n }) w))
        (sym h)
        (going_on (stat_blob key) rest w (work_stat_blob st (record { type = 3; body_size = 28 }))
          (stat_lem st holds fuel IsSound works key rest 3 w h ready))
  work_cmd_lem (configure_connection strategy more) rest w h ready =
      going_on (configure_connection strategy more) rest w
        (work_configure_connection (record { type = 5; body_size = suc (length more) }))
        (configure_lem st holds fuel IsSound works strategy more rest 5 w h ready)
  work_cmd_lem (unknown type body) rest w (other, _, _) ready =
      rw
        (
          ne→== type 1 (omega arith),
          ne→== type 2 (omega arith),
          ne→== type 3 (omega arith),
          ne→== type 4 (omega arith),
          ne→== type 5 (omega arith),
        )
        (going_on (unknown type body) rest w
          (work_unknown_cmd (record { type = type; body_size = length body }))
          (unknown_lem st holds fuel IsSound works type body rest w ready))

  -- Reading the header of the next request.
  header_read_lem :
      (recur : World G → Status × World G) (r : Request) (rest : List ℕ) (w : World G) (h : Read ℕ)
      (s : Status)
      → IsRequest st.hash r
      → Holds w.input (format_request r ++ rest)
      → Ends (λ k bs. k) w.input.bytes w.input.grants 5 [] 0 h s
      → (f : Source) × (header_read st fuel recur w h s
          ≡ cmd_worked st recur (work_cmd st fuel (request_header r) (record w { input = f })))
        × Holds f (request_body r ++ rest)
  unfolding format_request
  header_read_lem recur r rest w h ok is (e, fl) (fits, b, _, left, flows) =
      let head = format_cmd_header (request_header r) in
      let len = sym (length-format_cmd_header (request_header r)) in
      let parts = e ∙ append_assoc head (request_body r) rest in
      (
        h.source,
        ap (λ x. header_parsed st fuel recur (parse_cmd_header x) (record w { input = h.source }))
              (b ∙ ap (take 5) parts ∙ take-append 5 head (request_body r ++ rest) len)
            ∙ ap (λ x. header_parsed st fuel recur x (record w { input = h.source }))
                (request-header st.hash r is),
        (left ∙ ap (drop 5) parts ∙ drop-append 5 head (request_body r ++ rest) len, flows fl),
      )
  header_read_lem recur r rest w h end is (e, fl) (short, _, _, _, _) =
      let len = length-format_cmd_header (request_header r) in
      absurd (
        omega (
          arith,
          short,
          len,
          ap length (e ∙ append_assoc _ (request_body r) rest),
          length-append (format_cmd_header (request_header r)) (request_body r ++ rest),
        ))
  header_read_lem recur r rest w h error is (e, fl) bad = absurd (bad fl)
  header_read_lem recur r rest w h _ is (e, fl) bad = absurd bad

  -- One round of the loop on a request.
  pub worker_round :
      (rounds : ℕ) (r : Request) (rest : List ℕ) (w : World G)
      → IsRequest st.hash r
      → Ready st holds fuel IsSound works w (format_request r ++ rest)
      → (w' : World G) × (resp : List ℕ) × (worker_loop st fuel (suc rounds) w
          ≡ worker_loop st fuel rounds w')
        × Ready st holds fuel IsSound works w' rest
        × (w'.output.out ≡ w.output.out ++ resp)
        × Answers st holds (st.others w.glacier) w.sync_strategy r resp w'.glacier
        × (w'.sync_strategy ≡ strategy_after r w.sync_strategy)
  unfolding worker_loop
  worker_round rounds r rest w is ((e, fl), out, sound) =
      let w0 : World G = record w { glacier = st.others w.glacier } in
      let h = read_n {C = ℕ} none_se w.input 5 0 in
      let (f, read, input) =
        header_read_lem (worker_loop st fuel rounds) r rest w0 h h.status is (e, fl)
          (read_n_exact none_se (λ k bs. k) (λ k bs. refl) (λ k. refl) (λ k cs bs. refl) w.input 5
            0) in
      let w1 : World G = record w0 { input = f } in
      let (w', resp, worked, left, (wrote, flows), sound', answers, strategy) =
        work_cmd_lem r rest w1 is (input, out, works.others_sound w.glacier sound) in
      (
        w',
        resp,
        read ∙ ap (cmd_worked st (worker_loop st fuel rounds)) worked,
        (left, flows, sound'),
        wrote,
        answers,
        strategy,
      )

  -- At the end of the input the worker ends with ok.
  header_end :
      (recur : World G → Status × World G) (w : World G) (h : Read ℕ) (s : Status)
      → Holds w.input []
      → Ends (λ k bs. k) w.input.bytes w.input.grants 5 [] 0 h s
      → (f : Source) × (header_read st fuel recur w h s ≡ (ok, record w { input = f }))
  header_end recur w h ok (e, fl) (fits, _, _, _, _) = absurd (omega (arith, fits, ap length e))
  header_end recur w h end (e, fl) ends = (h.source, refl)
  header_end recur w h error (e, fl) bad = absurd (bad fl)
  header_end recur w h _ (e, fl) bad = absurd bad

  pub worker_end :
      (rounds : ℕ) (w : World G)
      → Holds w.input []
      → (f : Source) × (worker_loop st fuel (suc rounds) w
          ≡ (ok, record w { input = f; glacier = st.others w.glacier }))
  unfolding worker_loop
  worker_end rounds w (e, fl) =
      let h = read_n {C = ℕ} none_se w.input 5 0 in
      header_end (worker_loop st fuel rounds) (record w { glacier = st.others w.glacier }) h
        h.status (e, fl)
        (read_n_exact none_se (λ k bs. k) (λ k bs. refl) (λ k. refl) (λ k cs bs. refl) w.input 5 0)
