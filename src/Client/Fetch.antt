-- ===== src/Client/Fetch.antt =====
-- The client of src/evr-glacier-client.c reads what the server of src/evr-glacier-storage.c answers.
use everarch.Prelude.{
  ℕ, ◌+◌, ◌-◌, ◌≤◌, ◌<◌, ◌≡◌, sym, ap, ap₂, subst, ◌∙◌, true, false, ◌||◌, Option, none, some, List,
  [], ◌++◌, append-nil, append_assoc, arith, length, ltb, le→ltb, lt→ltb, if◌then◌else◌,
}
use everarch.Bytes.{u32, push_u8}
use everarch.Bytes.Codec.{length-push_be}
use everarch.Keys.TinySet.{ref_eq}
use everarch.Keys.TinySet.Spec.{ref_eq_iff}
use everarch.GlacierCmd.{RespHeader, parse_resp_header, format_resp_header, format_cmd_header}
use everarch.GlacierCmd.RoundTrip.{parse-format_resp_header}
use everarch.Server.Commands.{max_blob_data_size}
use everarch.Server.Requests.{get_blob, format_request, get_reply}
use everarch.Exec.{bind_next, give_up}
use everarch.Client.{
  Link, unless, must, resp_read, write_cmd_get_blob, read_resp_header, req_cmd_get_blob,
  read_cmd_get_resp_blob,
}

-- A connection to a server that has blobs. `Pending c bs` says that exactly the bytes `bs` are still
-- to be read; a request for a blob that is written while none are makes the server's answer pending.
pub record Answers {C : Type 0} (link : Link C) (Pending : C → List ℕ → Type 0)
    (blobs : List ℕ → Option (ℕ × List ℕ)) : Type 0 where
  pub reads :
      (c : C) (xs ys : List ℕ)
      → Pending c (xs ++ ys)
      → (d : C) × (link.read_n c (length xs) ≡ (some xs, d)) × Pending d ys
  pub dumps :
      (c : C) (xs ys : List ℕ)
      → Pending c (xs ++ ys)
      → (d : C) × (link.dump_n c (length xs) ≡ (true, d)) × Pending d ys
  pub asks :
      (c : C) (key : List ℕ) (flags : ℕ) (body : List ℕ)
      → Pending c []
      → blobs key ≡ some (flags, body)
      → (d : C) × (link.write_n c (format_request (get_blob key)) ≡ (true, d))
        × Pending d (get_reply (some (flags, body)))

-- the header of the answer with a blob
abbrev pub blob_resp : List ℕ → RespHeader
blob_resp body = record { status_code = 32; body_size = 1 + length body }

length-format_resp_header : (h : RespHeader) → 5 ≡ length (format_resp_header h)
unfolding format_resp_header
length-format_resp_header h = omega (arith, length-push_be 4 h.body_size)

resp_parsed :
    (body : List ℕ)
    → 1 + length body < u32
    → parse_resp_header (format_resp_header (blob_resp body)) ≡ some (blob_resp body, [])
resp_parsed body small =
    ap parse_resp_header (sym (append-nil (format_resp_header (blob_resp body))))
    ∙ parse-format_resp_header (blob_resp body) []
    ∙ ap (λ n. some (record { status_code = 32; body_size = n }, [])) (omega (arith, small))

module _ {C : Type 0} (link : Link C) (Pending : C → List ℕ → Type 0)
    (blobs : List ℕ → Option (ℕ × List ℕ)) (answers : Answers link Pending blobs) where
  -- the request is the one that the server reads, and the header of its answer is read back
  header_lem :
      (c : C) (key : List ℕ) (flags : ℕ) (body : List ℕ)
      → length key ≡ 28
      → 1 + length body < u32
      → Pending c []
      → blobs key ≡ some (flags, body)
      → (d : C) × (req_cmd_get_blob link key c
          ≡ bind_next
              (λ _ e. (some (blob_resp body), e))
              (unless (ltb max_blob_data_size (1 + length body)) d))
        × Pending d (push_u8 flags ++ body)
  unfolding req_cmd_get_blob write_cmd_get_blob read_resp_header format_request
  header_lem c key flags body size small idle has =
      let (d, asked, pending) = answers.asks c key flags body idle has in
      let head = format_resp_header (blob_resp body) in
      let (e, read, left) =
        answers.reads d head (push_u8 flags ++ body)
          (subst (Pending d) (append_assoc head (push_u8 flags) body) pending) in
      let read' : link.read_n d 5 ≡ (some head, e) =
        ap (link.read_n d) (length-format_resp_header (blob_resp body)) ∙ read in
      let last : RespHeader → C → Option RespHeader × C = λ resp x.
        bind_next (λ _ y. (some resp, y)) (unless (ltb max_blob_data_size resp.body_size) x) in
      let rest : Unit {0} → C → Option RespHeader × C = λ _ x.
        bind_next last
          (bind_next (λ buf. resp_read link (parse_resp_header buf)) (link.read_n x 5)) in
      (
        e,
        ap
              (λ n. bind_next rest (
                must
                  (link.write_n c (format_cmd_header (record { type = 1; body_size = n }) ++ key))))
              (sym size)
            ∙ ap (λ r. bind_next rest (must r)) asked
            ∙ ap (λ r. bind_next last (bind_next (λ buf. resp_read link (parse_resp_header buf)) r))
                read'
            ∙ ap (λ p. bind_next last (resp_read link p e)) (resp_parsed body small),
        left,
      )

  pub req_lem :
      (c : C) (key : List ℕ) (flags : ℕ) (body : List ℕ)
      → length key ≡ 28
      → 1 + length body ≤ max_blob_data_size
      → Pending c []
      → blobs key ≡ some (flags, body)
      → (d : C) × (req_cmd_get_blob link key c ≡ (some (blob_resp body), d))
        × Pending d (push_u8 flags ++ body)
  req_lem c key flags body size small idle has =
      let (d, e, left) = header_lem c key flags body size (omega (arith, small)) idle has in
      (
        d,
        e
            ∙ ap
                (λ b.
                  bind_next (λ _ x. (some (blob_resp body), x))
                    (if b then (none, d) else (some tt, d)))
                (le→ltb max_blob_data_size (1 + length body) small),
        left,
      )

  -- For a blob of one byte less than the server accepts at most, evr_req_cmd_get_blob and
  -- evr_read_cmd_get_resp_blob give back its bytes and leave nothing of the answer unread.
  pub fetch_blob_lem :
      (hash : List ℕ → List ℕ) (c : C) (key : List ℕ) (flags : ℕ) (body : List ℕ)
      → length key ≡ 28
      → length body < max_blob_data_size
      → hash body ≡ key
      → Pending c []
      → blobs key ≡ some (flags, body)
      → (d : C) × (e : C) × (req_cmd_get_blob link key c ≡ (some (blob_resp body), d))
        × (read_cmd_get_resp_blob link hash true true (1 + length body) key d ≡ (some body, e))
        × Pending e []
  unfolding read_cmd_get_resp_blob push_u8
  fetch_blob_lem hash c key flags body size small hashed idle has =
      let (d, asked, pending) = req_lem c key flags body size (omega (arith, small)) idle has in
      let (e, flag, left) = answers.reads d (push_u8 flags) body pending in
      let (f, read, none_left) =
        answers.reads e body [] (subst (Pending e) (sym (append-nil body)) left) in
      let matched : List ℕ → C → Option (List ℕ) × C = λ buf x.
        bind_next (λ _ y. (some buf, y))
          (unless (if ref_eq (hash buf) key then false else true) x) in
      let rest : ℕ → List ℕ → C → Option (List ℕ) × C =
        λ n _ x. bind_next matched (link.read_n x n) in
      let enough : ltb (1 + length body) 1 ≡ false = le→ltb _ _ (omega arith) in
      let fits : ltb (max_blob_data_size + 1) (1 + length body) ≡ false =
        le→ltb _ _ (omega (arith, small)) in
      let counted : 1 + length body - 1 ≡ length body = omega arith in
      (
        d,
        f,
        asked,
        ap₂
              (λ a b.
                (if a || b
                    then give_up
                    else (λ x. bind_next (rest (1 + length body - 1)) (link.read_n x 1)))
                  d)
              enough fits
            ∙ ap (λ n. bind_next (rest n) (link.read_n d 1)) counted
            ∙ ap (bind_next (rest (length body))) flag
            ∙ ap (bind_next matched) read
            ∙ ap (λ b. bind_next (λ _ y. (some body, y)) (unless (if b then false else true) f))
                ((ref_eq_iff (hash body) key).1 hashed),
        none_left,
      )

  -- A blob of the largest size, which the server accepts and answers with, is refused by
  -- evr_req_cmd_get_blob: it compares the size of the answer, in which the flags count, with the
  -- largest size of a blob.
  pub largest_blob_refused :
      (c : C) (key : List ℕ) (flags : ℕ) (body : List ℕ)
      → length key ≡ 28
      → length body ≡ max_blob_data_size
      → Pending c []
      → blobs key ≡ some (flags, body)
      → (req_cmd_get_blob link key c).0 ≡ none
  largest_blob_refused c key flags body size large idle has =
      let (d, e, left) = header_lem c key flags body size (omega (arith, large)) idle has in
      ap (λ r. r.0) e
      ∙ ap
          (λ b.
            (bind_next {A = Unit {0}} {B = RespHeader} (λ _ x. (some (blob_resp body), x))
              (if b then (none, d) else (some tt, d))).0)
          (lt→ltb max_blob_data_size (1 + length body) (omega (arith, large)))
