-- ===== src/Server/Refuse.antt =====
-- Clients without the token of the server are refused by src/evr-glacier-storage.c, whatever calls fail.
use everarch.Prelude.{
  ℕ, ◌≡◌, ◌≢◌, inl, inr, refl, sym, ap, ap₂, subst, ◌∙◌, Bool, true, false, List, [], ◌∷◌, arith,
  length, take, drop, length-take, get_or, ◌==◌, ==_iff, ◌&&◌, if◌then◌else◌, Bool-cases,
}
use everarch.Errors.{Status, ok, error, user_data_invalid}
use everarch.Files.{Read, read_n, none_se}
use everarch.Files.ReadN.{Ends, read_n_exact}
use everarch.Keys.TinySet.{ref_eq}
use everarch.Keys.TinySet.Spec.{ref_eq_iff}
use everarch.Server.{
  worker_loop, auth_read, authenticate_client, authorized, socket_closed, connection_worker,
}
use everarch.Server.Actions.{World, Store}

and_parts : (a b : Bool) → (a && b) ≡ true → (a ≡ true) × (b ≡ true)
and_parts a b h = ground arith

-- A list of 33 bytes that starts with 1 and goes on with the token.
auth_bytes :
    (token buf : List ℕ)
    → length buf ≡ 33
    → (get_or buf 0 0 == 1 && ref_eq token (drop 1 buf)) ≡ true
    → buf ≡ 1 ∷ token
auth_bytes token [] size h = absurd (omega arith)
auth_bytes token (b ∷ bs) size h =
    let (type, same) = and_parts (b == 1) (ref_eq token bs) h in
    ap₂ (λ x xs. x ∷ xs) ((==_iff b 1).0 type) (sym ((ref_eq_iff token bs).0 same))

module _ {G : Type 0} (st : Store G) where
  -- Nothing was sent, and nothing has happened to the store.
  abbrev pub Untouched : World G → World G → Type 0
  Untouched w w' = (w'.output ≡ w.output) × (w'.glacier ≡ w.glacier)

  ended-Untouched :
      (b : Bool) (s : Status) (w v : World G)
      → Untouched w v
      → Untouched w (if◌then◌else◌ {A = Status × World G} b (s, v) (error, v)).1
  ended-Untouched true s w v h = h
  ended-Untouched false s w v h = h

  closed-Untouched :
      (s : Status) (w v : World G) → Untouched w v → Untouched w (socket_closed st (s, v)).1
  closed-Untouched s w v h = ended-Untouched (st.close_socket v.glacier) s w v h

  refused :
      (loop : World G → Status × World G) (token : List ℕ) (w : World G) (r : Read ℕ) (s : Status)
      → take 33 w.input.bytes ≢ 1 ∷ token
      → Ends (λ k bs. k) w.input.bytes w.input.grants 33 [] 0 r s
      → Untouched w (authorized st loop (auth_read st token w r s)).1
  refused loop token w r ok other (fits, b, _, _, _) = elim (Bool-cases test) [
    | inl e ↦ absurd (other (sym b ∙ auth_bytes token r.buffer size e))
    | inr e ↦
        subst
          (λ x.
            Untouched w
              (authorized st loop
                (if x then ok else user_data_invalid, record w { input = r.source })).1)
          (sym e) (closed-Untouched ok w (record w { input = r.source }) (refl, refl))
  ]
    where
      test : Bool
      test = get_or r.buffer 0 0 == 1 && ref_eq token (drop 1 r.buffer)

      size : length r.buffer ≡ 33
      size = ap length b ∙ omega (arith, fits, length-take 33 w.input.bytes)
  refused loop token w r s other ends =
      closed-Untouched error w (record w { input = r.source }) (refl, refl)

  -- To a client whose first bytes are not the authentication type and the token of the server, the
  -- worker sends nothing and does nothing for it, whatever else it sends and whatever calls fail.
  pub unauthorized_refused :
      (fuel rounds : ℕ) (token : List ℕ) (w : World G)
      → take 33 w.input.bytes ≢ 1 ∷ token
      → Untouched w (connection_worker st fuel token rounds w).1
  unfolding connection_worker authenticate_client
  unauthorized_refused fuel rounds token w other =
      let r = read_n {C = ℕ} none_se w.input 33 0 in
      refused (worker_loop st fuel rounds) token w r r.status other
        (read_n_exact none_se (λ k bs. k) (λ k bs. refl) (λ k. refl) (λ k cs bs. refl) w.input 33 0)
