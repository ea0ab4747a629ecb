-- ===== src/Server/Listing.antt =====
-- What a client that watches is sent by evr_work_watch_blobs of src/evr-glacier-storage.c: the rows
-- of the index in order, however they are put into packets.
use everarch.Prelude.{
  ℕ, ◌%◌, ◌^◌, ◌<◌, ◌≡◌, refl, sym, ap, ap₂, ◌∙◌, true, some, List, [], ◌++◌, append-nil,
  append_assoc, arith, length, All, ◌==◌, ne→==,
}
use everarch.Bytes.{u64}
use everarch.Bytes.Codec.{length-push_be}
use everarch.Files.{Source, Sink}
use everarch.Files.ReadN.{Flows}
use everarch.Glacier.ListBlobs.{Row, cursor, matching, visit_all, list_blobs, by_ref_lem}
use everarch.GlacierCmd.{BlobFilter, format_blob_filter, parse_blob_filter, format_resp_header}
use everarch.GlacierCmd.RoundTrip.{parse-format_blob_filter}
use everarch.Exec.{bind_next}
use everarch.Server.Actions.{World, Store}
use everarch.Server.Watch.{
  ListBlobsCtx, format_blobs, flush_list_blobs_ctx, handle_blob_list, list_flushed, list_sent,
  send_list, work_watch_blobs, watch_parsed, watch_listed,
}
use everarch.Server.Steps.{Holds, Wrote, ensure_lem, send_lem, recv_lem}
use everarch.Server.ListRows.{entries, flush_blobs_lem, visit_all_lem}

length-format_blob_filter : (f : BlobFilter) → length (format_blob_filter f) ≡ 10
unfolding format_blob_filter
length-format_blob_filter f = omega (arith, length-push_be 8 f.last_modified_after)

-- A filter whose fields fit their widths on the wire is read back.
filter_parsed :
    (f : BlobFilter)
    → f.sort_order ≡ 2
    → f.flags_filter < 256
    → f.last_modified_after < 2 ^ 63
    → parse_blob_filter (format_blob_filter f) ≡ some (f, [])
filter_parsed f order flags time =
    ap parse_blob_filter (sym (append-nil (format_blob_filter f)))
    ∙ parse-format_blob_filter f []
    ∙ ap (λ g. some (g, []))
        (ap
            (λ a. record {
              sort_order = a;
              flags_filter = f.flags_filter % 256;
              last_modified_after = f.last_modified_after % u64;
            })
            (omega (arith, order))
          ∙ ap₂
              (λ b c. record {
                sort_order = f.sort_order;
                flags_filter = b;
                last_modified_after = c;
              })
              (omega arith) (omega arith))

module _ {G : Type 0} (st : Store G) where
  send_list_lem :
      (f : BlobFilter) (rows : List Row) (w : World G)
      → Flows w.output.grants
      → ((c : ListBlobsCtx)
          → list_blobs handle_blob_list st.list_db w.glacier f c
            ≡ visit_all handle_blob_list c rows)
      → (x : Sink) × (send_list st f w ≡ (some tt, record w { output = x }))
        × Wrote w.output (format_blobs (entries rows)) x
  unfolding send_list flush_list_blobs_ctx
  send_list_lem f rows w fl lists =
      let start : ListBlobsCtx = record { connection = w.output; blobs = [] } in
      let (c, visits, (flows, room), all) = visit_all_lem rows start (fl, omega arith) in
      let (d, flush, (flows', _), _, out) = flush_blobs_lem c c.blobs flows refl in
      (
        d.connection,
        ap (list_flushed st w) (lists start ∙ visits) ∙ ap (list_sent st w) flush,
        (
          out
              ∙ all
              ∙ ap (λ x. x ++ format_blobs (entries rows))
                  (unfold format_blobs in append-nil w.output.out),
          flows',
        ),
      )

  -- A client that asks for the blobs in the order of their refs is sent, behind a response that the
  -- request is fine, one entry for each row of the index that the filter selects, in the order of
  -- the statement, the last one marked as the end, however the entries are put into packets; then
  -- the handler returns ok. This holds where the statement gives rows with keys of 28 bytes and no
  -- call fails.
  pub watch_blobs_lists :
      (f : BlobFilter) (rows : List Row) (rest : List ℕ) (w : World G)
      → f.sort_order ≡ 2
      → f.flags_filter < 256
      → f.last_modified_after < 2 ^ 63
      → Holds w.input (format_blob_filter f ++ rest)
      → Flows w.output.grants
      → st.create_read_ctx w.glacier ≡ true
      → st.list_db.list_order_blob_ref w.glacier f.last_modified_after ≡ cursor rows
      → All (λ r. length r.key ≡ 28) rows
      → (i : Source) × (x : Sink) × (work_watch_blobs st (record { type = 4; body_size = 10 }) w
          ≡ (some tt, record w { input = i; output = x; rctx = true }))
        × Holds i rest
        × Wrote w.output
            (format_resp_header (record { status_code = 32; body_size = 0 })
              ++ format_blobs (entries (matching f.flags_filter rows)))
            x
  unfolding work_watch_blobs
  watch_blobs_lists f rows rest w order flags time input fl created statement keys =
      let head = format_resp_header (record { status_code = 32; body_size = 0 }) in
      let (i, got, input') =
        recv_lem 10 (format_blob_filter f) rest w (length-format_blob_filter f) input in
      let w1 : World G = record w { input = i } in
      let (o, sent, (out, flows)) = send_lem head w1 fl in
      let w2 : World G = record w1 { output = o } in
      let w3 : World G = record w2 { rctx = true } in
      let (x, sends, (out', flows')) = send_list_lem f (matching f.flags_filter rows) w3 flows (λ c.
        by_ref_lem handle_blob_list st.list_db w.glacier f rows c time order statement keys) in
      (
        i,
        x,
        ap (bind_next (λ buf. watch_parsed st (parse_blob_filter buf))) got
            ∙ ap (λ p. watch_parsed st p w1) (filter_parsed f order flags time)
            ∙ ap (bind_next (λ _. watch_listed st f (f.sort_order == 1))) sent
            ∙ ap (λ b. watch_listed st f b w2) (ne→== f.sort_order 1 (omega (arith, order)))
            ∙ ap (bind_next (λ _. send_list st f)) (ensure_lem st w2 created)
            ∙ sends,
        input',
        (
          out'
              ∙ ap (λ z. z ++ format_blobs (entries (matching f.flags_filter rows))) out
              ∙ append_assoc w.output.out head
                  (format_blobs (entries (matching f.flags_filter rows))),
          flows',
        ),
      )
