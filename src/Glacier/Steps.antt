-- ===== src/Glacier/Steps.antt =====
-- The single calls on the current bucket's file: seeking, writing and syncing.
use everarch.Prelude.{
  ℕ, ◌+◌, ◌≡◌, refl, sym, ap, subst, ◌∙◌, Bool, true, false, some, List, [], ◌∷◌, ◌++◌, arith,
  length, drop, length-append,
}
use everarch.Errors.{Status, ok, error, end}
use everarch.Files.{Grant, Sink, write_n}
use everarch.Files.WriteN.{WriteSpec, write_n_exact}
use everarch.Glacier.{
  Glacier, Exec, done, contents, store, write_at, lseek, lseek_fd, syscall_next, wrote_bucket,
  write_fd, write_current, fdatasync, sync_when,
}
use everarch.Glacier.Frame.{Post, Steady, At, Torn, store-same, store-other, write_at-append}

module _ {Db : Type 0} where
  -- A system call that fails changes the schedule only.
  pub syscall_lem :
      (R Q : Glacier Db → Type 0) (next : Glacier Db → Exec Db) (w : Glacier Db) (fs : List Bool)
      → ((gs : List Bool) → Post R Q (next (record w { fails = gs })))
      → ((gs : List Bool) → Q (record w { fails = gs }))
      → Post R Q (next w)
      → Post R Q (syscall_next next w fs)
  syscall_lem R Q next w [] h q e = e
  syscall_lem R Q next w (false ∷ fs) h q e = h fs
  syscall_lem R Q next w (true ∷ fs) h q e = q fs

  module _ (i : ℕ) (w0 w : Glacier Db) (steady : Steady i w0 w) where
    -- the same state with another schedule or position
    pub moved : (gs : List Bool) (pos : ℕ) → Steady i w0 (record w { fails = gs; f_pos = pos })
    moved gs pos = record {
      fd = steady.fd;
      pos = steady.pos;
      index = steady.index;
      max = steady.max;
      db = steady.db;
      others = steady.others;
    }

    -- the same state with the bucket's file changed
    pub wrote :
        (bs : List ℕ) (pos : ℕ) (gs : List Grant)
        → Steady i w0 (record w { files = store w.files i bs; f_pos = pos; grants = gs })
    wrote bs pos gs = record {
      fd = steady.fd;
      pos = steady.pos;
      index = steady.index;
      max = steady.max;
      db = steady.db;
      others = λ j ne. store-other w.files i bs j ne ∙ steady.others j ne;
    }

    pub lseek_lem :
        (front tail : List ℕ)
        → w.files i ≡ some (front ++ tail)
        → (n : ℕ) → n ≡ length front
        → Post (At i front tail w0) (λ v. Steady i w0 v × (v.files i ≡ w.files i)) (lseek n w)
    unfolding lseek
    lseek_lem front tail file n e =
        subst
          (λ fd.
            Post (At i front tail w0) (λ v. Steady i w0 v × (v.files i ≡ w.files i))
              (lseek_fd fd n w))
          (sym steady.fd)
          (syscall_lem (At i front tail w0) (λ v. Steady i w0 v × (v.files i ≡ w.files i))
            (λ v. done (record v { f_pos = n })) w w.fails
            (λ gs. record { steady = moved gs n; file = file; here = e })
            (λ gs. (moved gs w.f_pos, refl))
            (record { steady = moved w.fails n; file = file; here = e }))

    pub sync_when_lem :
        (Q : Glacier Db → Type 0) (sync : Bool)
        → ((v : Glacier Db) → Steady i w0 v → v.files i ≡ w.files i → Q v)
        → Post (λ v. Steady i w0 v × (v.files i ≡ w.files i)) Q (sync_when sync w)
    unfolding fdatasync
    sync_when_lem Q true h =
        syscall_lem (λ v. Steady i w0 v × (v.files i ≡ w.files i)) Q done w w.fails
          (λ gs. (moved gs w.f_pos, refl))
          (λ gs. h (record w { fails = gs }) (moved gs w.f_pos) refl) (moved w.fails w.f_pos, refl)
    sync_when_lem Q false h = (moved w.fails w.f_pos, refl)

  module _ (i : ℕ) (front tail buf : List ℕ) (w0 w : Glacier Db) (a : At i front tail w0 w) where
    abbrev written : List ℕ → List ℕ
    written out = write_at (contents (w.files i)) w.f_pos out

    written-eq : (out : List ℕ) → written out ≡ front ++ out ++ drop (length out) tail
    written-eq out =
        ap (λ f. write_at (contents f) w.f_pos out) a.file
        ∙ ap (λ n. write_at (front ++ tail) n out) a.here
        ∙ write_at-append front tail out

    -- what the bucket's file holds behind a write of `out`
    wrote-file :
        (out : List ℕ)
        → store w.files i (written out) i ≡ some (front ++ out ++ drop (length out) tail)
    wrote-file out = store-same w.files i (written out) ∙ ap some (written-eq out)

    torn_lem :
        (out back : List ℕ) (gs : List Grant)
        → buf ≡ out ++ back
        → Torn i front (length buf) tail w0 (record w {
          files = store w.files i (written out);
          f_pos = w.f_pos + length out;
          grants = gs;
        })
    torn_lem out back gs e = record {
      out = out;
      short = omega (arith, ap length e, length-append out back);
      steady = wrote i w0 w a.steady (written out) (w.f_pos + length out) gs;
      file = wrote-file out;
    }

    wrote_bucket_lem :
        (s : Status) (f : Sink)
        → WriteSpec buf [] w.grants (s, f)
        → Post
            (At i (front ++ buf) (drop (length buf) tail) w0)
            (Torn i front (length buf) tail w0)
            (wrote_bucket w i (contents (w.files i)) (s, f))
    wrote_bucket_lem ok f (e, h) = record {
      steady = wrote i w0 w a.steady (written f.out) (w.f_pos + length f.out) f.grants;
      file = ap (λ out. store w.files i (written out) i) e ∙ wrote-file buf;
      here = omega (arith, a.here, ap length e, length-append front buf);
    }
    wrote_bucket_lem end f (out, back, e, h, g) =
        subst
          (λ o. Torn i front (length buf) tail w0 (record w {
            files = store w.files i (written o);
            f_pos = w.f_pos + length o;
            grants = f.grants;
          }))
          (sym h) (torn_lem out back f.grants e)
    wrote_bucket_lem error f (out, back, e, h, g) =
        subst
          (λ o. Torn i front (length buf) tail w0 (record w {
            files = store w.files i (written o);
            f_pos = w.f_pos + length o;
            grants = f.grants;
          }))
          (sym h) (torn_lem out back f.grants e)
    wrote_bucket_lem _ f e = absurd e

    -- A write puts the buffer at the file position, or a front of it.
    pub write_current_lem :
        Post
          (At i (front ++ buf) (drop (length buf) tail) w0)
          (Torn i front (length buf) tail w0)
          (write_current buf w)
    unfolding write_current
    write_current_lem =
        subst
          (λ fd.
            Post (At i (front ++ buf) (drop (length buf) tail) w0)
              (Torn i front (length buf) tail w0) (write_fd fd buf w))
          (sym a.steady.fd)
          (wrote_bucket_lem (write_n sink buf).0 (write_n sink buf).1 (write_n_exact sink buf))
      where
        sink : Sink
        sink = record { out = []; grants = w.grants }
