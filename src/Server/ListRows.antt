-- ===== src/Server/ListRows.antt =====
-- What evr_handle_blob_list of src/evr-glacier-storage.c sends of the rows that it is given, however they
-- are put into packets.
use everarch.Prelude.{
  ℕ, ◌≤◌, ◌≡◌, refl, sym, ap, ◌∙◌, inl, inr, Bool, true, false, List, [], ◌∷◌, ◌++◌, append-nil,
  append_assoc, arith, length, length-append, ◌==◌, ==_ne, if◌then◌else◌, Bool-cases,
}
use everarch.Errors.{ok}
use everarch.Files.ReadN.{Flows}
use everarch.Glacier.ListBlobs.{Row, visited, visit_all}
use everarch.GlacierCmd.{WatchBlobsBody, format_watch_blobs_body}
use everarch.Server.Watch.{
  ListBlobsCtx, list_blobs_blobs_len, format_blobs, flushed, flush_blobs, flush_list_blobs_ctx,
  listed, list_entry, handle_blob_list,
}
use everarch.Server.Steps.{write-Flows}

-- the entries of the rows, with the flag that says that the list ends
unfoldable pub entries : List Row → List WatchBlobsBody
entries [] = []
entries (r ∷ []) = listed r true ∷ []
entries (r ∷ s ∷ rs) = listed r false ∷ entries (s ∷ rs)

format_blobs-append :
    (xs ys : List WatchBlobsBody) → format_blobs (xs ++ ys) ≡ format_blobs xs ++ format_blobs ys
unfolding format_blobs
format_blobs-append [] ys = refl
format_blobs-append (x ∷ xs) ys =
    ap (λ z. format_watch_blobs_body x ++ z) (format_blobs-append xs ys)
    ∙ sym (append_assoc (format_watch_blobs_body x) (format_blobs xs) (format_blobs ys))

-- what was sent and what is waiting to be
abbrev total : ListBlobsCtx → List ℕ
total ctx = ctx.connection.out ++ format_blobs ctx.blobs

-- No write fails, and the entries that wait have room in the array.
abbrev IsOpen : ListBlobsCtx → Type 0
IsOpen ctx = Flows ctx.connection.grants × (length ctx.blobs ≤ list_blobs_blobs_len)

pub flush_blobs_lem :
    (ctx : ListBlobsCtx) (bs : List WatchBlobsBody)
    → Flows ctx.connection.grants
    → ctx.blobs ≡ bs
    → (d : ListBlobsCtx) × (flush_blobs ctx bs ≡ (ok, d))
      × IsOpen d
      × (d.blobs ≡ [])
      × (d.connection.out ≡ total ctx)
unfolding format_blobs
flush_blobs_lem ctx [] fl e = (
  ctx,
  refl,
  (fl, omega (arith, ap length e)),
  e,
  sym (ap (λ b. ctx.connection.out ++ format_blobs b) e ∙ append-nil ctx.connection.out),
)
flush_blobs_lem ctx (b ∷ bs) fl e =
    let (f, wrote, (out, flows)) = write-Flows ctx.connection (format_blobs (b ∷ bs)) fl in
    (
      record { connection = f; blobs = [] },
      ap (flushed ctx) wrote,
      (flows, omega arith),
      refl,
      out ∙ ap (λ x. ctx.connection.out ++ format_blobs x) (sym e),
    )

-- one more entry that waits
entry_lem :
    (ctx : ListBlobsCtx) (b : WatchBlobsBody)
    → total (record ctx { blobs = ctx.blobs ++ (b ∷ []) }) ≡ total ctx ++ format_watch_blobs_body b
unfolding format_blobs
entry_lem ctx b =
    ap (λ x. ctx.connection.out ++ x)
      (format_blobs-append ctx.blobs (b ∷ [])
        ∙ ap (λ x. format_blobs ctx.blobs ++ x) (append-nil (format_watch_blobs_body b)))
    ∙ sym (append_assoc ctx.connection.out (format_blobs ctx.blobs) (format_watch_blobs_body b))

handle_lem :
    (ctx : ListBlobsCtx) (r : Row) (last_blob : Bool)
    → IsOpen ctx
    → (d : ListBlobsCtx) × (handle_blob_list ctx r last_blob ≡ (ok, d))
      × IsOpen d
      × (total d ≡ total ctx ++ format_watch_blobs_body (listed r last_blob))
unfolding handle_blob_list flush_list_blobs_ctx
handle_lem ctx r last_blob (fl, room) =
    let b = listed r last_blob in
    let at = λ (t : Bool). list_entry b (if t then flush_blobs ctx ctx.blobs else (ok, ctx)) in
    elim (Bool-cases (length ctx.blobs == list_blobs_blobs_len)) [
      | inl full ↦
          let (d, e, (flows, _), empty, out) = flush_blobs_lem ctx ctx.blobs fl refl in
          (
            record d { blobs = d.blobs ++ (b ∷ []) },
            ap at full ∙ ap (list_entry b) e,
            (flows, omega (arith, ap length empty, length-append d.blobs (b ∷ []))),
            entry_lem d b
                ∙ ap (λ x. x ++ format_watch_blobs_body b)
                    (ap (λ x. d.connection.out ++ format_blobs x) empty
                      ∙ unfold format_blobs in append-nil d.connection.out ∙ out),
          )
      | inr more ↦ (
        record ctx { blobs = ctx.blobs ++ (b ∷ []) },
        ap at more,
        (
          fl,
          omega (
            arith,
            room,
            ==_ne (length ctx.blobs) list_blobs_blobs_len more,
            length-append ctx.blobs (b ∷ []),
          ),
        ),
        entry_lem ctx b,
      )
    ]

pub visit_all_lem :
    (rs : List Row) (ctx : ListBlobsCtx)
    → IsOpen ctx
    → (d : ListBlobsCtx) × (visit_all handle_blob_list ctx rs ≡ (ok, d))
      × IsOpen d
      × (total d ≡ total ctx ++ format_blobs (entries rs))
unfolding visit_all entries format_blobs
visit_all_lem [] ctx is = (ctx, refl, is, sym (append-nil (total ctx)))
visit_all_lem (r ∷ []) ctx is =
    let (d, e, is', all) = handle_lem ctx r true is in
    (
      d,
      ap (visited (λ x. (ok, x))) e,
      is',
      all ∙ ap (λ z. total ctx ++ z) (sym (append-nil (format_watch_blobs_body (listed r true)))),
    )
visit_all_lem (r ∷ s ∷ rs) ctx is =
    let (d, e, is', all) = handle_lem ctx r false is in
    let (x, e', is'', all') = visit_all_lem (s ∷ rs) d is' in
    (
      x,
      ap (visited (λ x. visit_all handle_blob_list x (s ∷ rs))) e ∙ e',
      is'',
      all'
          ∙ ap (λ z. z ++ format_blobs (entries (s ∷ rs))) all
          ∙ append_assoc (total ctx) (format_watch_blobs_body (listed r false))
              (format_blobs (entries (s ∷ rs))),
    )
