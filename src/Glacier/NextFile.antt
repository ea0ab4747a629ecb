-- ===== src/Glacier/NextFile.antt =====
-- Closing the current bucket and opening the file of the next, in `create_next_bucket` of src/glacier.c.
use everarch.Prelude.{
  ℕ, suc, ◌≡◌, ◌≢◌, ◌⊎◌, inl, inr, refl, sym, ap, ◌∙◌, Bool, true, false, not, Option, none, List,
  [], ◌∷◌, some,
}
use everarch.Glacier.{
  Fd, Glacier, Exec, done, ◌|>◌, closed, stdout, bucket, sync_when, syscall, fdatasync, close_fd,
  close_current_bucket, is_some, store,
}
use everarch.Glacier.WriteBlob.{create_bucket_file, open_next, opened, open_new_bucket, back_index}
use everarch.Glacier.Frame.{Post, Post-bind, store-same, store-other}
use everarch.Glacier.Steps.{syscall_lem}

-- Every file that was there is as it was.
abbrev pub Kept : {Db : Type 0} → Glacier Db → Glacier Db → Type 0
Kept w v = (j : ℕ) (bs : List ℕ) → w.files j ≡ some bs → v.files j ≡ some bs

module _ {Db : Type 0} (i : ℕ) (w : Glacier Db) where
  abbrev pub Same : Glacier Db → Type 0
  Same v = (v.files ≡ w.files) × (v.current_bucket_index ≡ i) × (v.db ≡ w.db)

  -- Whatever the context has open, closing it changes no file.
  pub close_lem : w.current_bucket_index ≡ i → Post Same Same (close_current_bucket w)
  unfolding close_current_bucket fdatasync
  close_lem e = at_fd w.current_bucket_f
    where
      synced : (b : Bool) → Post Same Same (sync_when b w)
      synced true =
          syscall_lem Same Same done w w.fails (λ gs. (refl, e, refl)) (λ gs. (refl, e, refl))
            (refl, e, refl)
      synced false = (refl, e, refl)

      closing : Post Same Same (
          sync_when (not w.current_bucket_sync) w
          |> (λ v. syscall done (record v { current_bucket_sync = true }))
          |> (λ v. done (record v { current_bucket_f = closed })))
      closing =
          Post-bind Same Same Same (λ v. done (record v { current_bucket_f = closed }))
            (sync_when (not w.current_bucket_sync) w
              |> (λ v. syscall done (record v { current_bucket_sync = true })))
            (Post-bind Same Same Same (λ v. syscall done (record v { current_bucket_sync = true }))
              (sync_when (not w.current_bucket_sync) w) (synced (not w.current_bucket_sync))
              (λ v s.
                syscall_lem Same Same done (record v { current_bucket_sync = true }) v.fails
                  (λ gs. s) (λ gs. s) s))
            (λ v s. s)

      at_fd : (fd : Fd) → Post Same Same (close_fd fd w.current_bucket_sync w)
      at_fd closed = (refl, e, refl)
      at_fd stdout = closing
      at_fd (bucket j) = closing

  -- the new file is open, or the call failed and 1 is taken for its descriptor
  abbrev pub Created : Glacier Db → Type 0
  Created v =
      ((v.current_bucket_f ≡ bucket (suc i))
        × (v.current_bucket_index ≡ suc i)
        × (v.db ≡ w.db)
        × (v.files (suc i) ≡ some [])
        × (w.files (suc i) ≡ none)
        × ((j : ℕ) → j ≢ suc i → v.files j ≡ w.files j))
      ⊎ ((v.current_bucket_f ≡ stdout) × (v.files ≡ w.files))

  is_some-none : (f : Option (List ℕ)) → is_some f ≡ false → f ≡ none
  is_some-none none e = refl
  is_some-none (some bs) e = cc

  abbrev create_and_open : Glacier Db → Bool → Exec Db
  create_and_open u b = back_index (
      opened (create_bucket_file u u.current_bucket_index b).current_bucket_f
        (create_bucket_file u u.current_bucket_index b))

  create_lem :
      (u : Glacier Db) (b : Bool)
      → u.files ≡ w.files
      → u.current_bucket_index ≡ suc i
      → u.db ≡ w.db
      → (b ≡ true) ⊎ (is_some (u.files u.current_bucket_index) ≡ b)
      → Post Created (Kept w) (create_and_open u b)
  create_lem u true f x d e = inr (refl, f)
  create_lem u false f x d (inl e) = cc
  create_lem u false f x d (inr e) = inl (
    ap bucket x,
    x,
    d,
    ap (λ k. store u.files u.current_bucket_index [] k) (sym x)
        ∙ store-same u.files u.current_bucket_index [],
    is_some-none (w.files (suc i))
        (ap is_some (sym (ap (λ g. g (suc i)) f) ∙ ap u.files (sym x)) ∙ e),
    λ j ne. store-other u.files u.current_bucket_index [] j (λ q. ne (q ∙ x)) ∙ ap (λ g. g j) f,
  )

  pub open_lem :
      (v : Glacier Db)
      → Same v
      → Post Created (Kept w) (
          back_index
            (open_new_bucket (record v { current_bucket_index = suc v.current_bucket_index })))
  unfolding open_new_bucket
  open_lem v (f, x, d) = go v.fails
    where
      go :
          (fs : List Bool)
          → Post Created (Kept w) (
              back_index (
                opened
                  (open_next
                    (record v { current_bucket_index = suc v.current_bucket_index })
                    (suc v.current_bucket_index)
                    fs).current_bucket_f
                  (open_next
                    (record v { current_bucket_index = suc v.current_bucket_index })
                    (suc v.current_bucket_index)
                    fs)))
      go [] =
          create_lem (record v { current_bucket_index = suc v.current_bucket_index }) _ f (ap suc x)
            d (inr refl)
      go (true ∷ fs) =
          create_lem (record v { current_bucket_index = suc v.current_bucket_index; fails = fs })
            true f (ap suc x) d (inl refl)
      go (false ∷ fs) =
          create_lem (record v { current_bucket_index = suc v.current_bucket_index; fails = fs }) _
            f (ap suc x) d (inr refl)
