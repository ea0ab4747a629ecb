-- ===== src/Queue/Take.antt =====
-- `evr_queue_take` of src/queue.c hands out the entries in the order in which they were put.
use everarch.Prelude.{
  ℕ, zero, suc, ◌-◌, ◌^◌, ◌≡◌, inl, inr, refl, sym, ap, subst, ◌∙◌, Option, none, some, List, [],
  ◌∷◌, ◌++◌, arith, length, take, append-nil, append_assoc, length-append,
}
use everarch.Errors.{Status, ok, temporary_occupied, not_found}
use everarch.Queue.{Queue, queue_put, put_status, put_all}
use everarch.Queue.Refine.{Holds, queue_put_refines}

module _ {ℓ} {A : Type ℓ} where
  -- A queue that was full takes no more entries.
  put_all_full : (q : Queue A) (es : List A) → q.status ≡ temporary_occupied → put_all q es ≡ q
  unfolding put_all queue_put
  put_all_full q [] s = refl
  put_all_full q (e ∷ es) s = ap (λ t. put_all (put_status q e t).1 es) s ∙ put_all_full q es s

  take_none : (n : ℕ) → take {A = A} n [] ≡ []
  take_none zero = refl
  take_none (suc n) = refl

module _ {ℓ} {A : Type ℓ} (garbage : A) (k : ℕ) where
  -- Of several entries put, as many are kept as there is room for.
  pub put_all_refines :
      (es xs : List A) (q : Queue A)
      → Holds garbage k xs q
      → q.status ≡ ok
      → Holds garbage k (xs ++ take (2 ^ k - 1 - length xs) es) (put_all q es)
  unfolding put_all
  put_all_refines [] xs q h s =
      subst (λ l. Holds garbage k l q)
        (sym (ap (λ t. xs ++ t) (take_none (2 ^ k - 1 - length xs)) ∙ append-nil xs)) h
  put_all_refines (e ∷ es) xs q h s = elim (queue_put_refines garbage k xs q h s e) [
    | inl (room, _, s', h') ↦
        subst (λ l. Holds garbage k l (put_all (queue_put q e).1 es))
          (append_assoc xs (e ∷ []) (take (2 ^ k - 1 - length (xs ++ (e ∷ []))) es)
            ∙ ap (λ n. xs ++ (e ∷ take n es)) (omega (arith, length-append xs (e ∷ [])))
            ∙ ap (λ n. xs ++ take n (e ∷ es)) {x = suc (2 ^ k - 1 - suc (length xs))}
                {y = 2 ^ k - 1 - length xs} (omega (arith, room)))
          (put_all_refines es (xs ++ (e ∷ [])) (queue_put q e).1 h' s')
    | inr (full, _, s', h') ↦
        subst (λ r. Holds garbage k (xs ++ take (2 ^ k - 1 - length xs) (e ∷ es)) r)
          (sym (put_all_full (queue_put q e).1 es s'))
          (subst (λ l. Holds garbage k l (queue_put q e).1)
            (sym (append-nil xs)
              ∙ ap (λ n. xs ++ take n (e ∷ es)) {x = 0} {y = 2 ^ k - 1 - length xs}
                  (omega (arith, full)))
            h')
  ]

  -- The first entry is handed out, if there is one.
  abbrev pub TakeEnds : List A → Option A × Status × Queue A → Type ℓ
  TakeEnds [] (o, s, q) = (o ≡ none) × (s ≡ not_found) × Holds garbage k [] q
  TakeEnds (x ∷ xs) (o, s, q) = (o ≡ some x) × (s ≡ ok) × Holds garbage k xs q

  -- What a take finds: the entries that are there, or those that are put while it waits.
  abbrev pub available : List A → List A → List A
  available [] meanwhile = take (2 ^ k - 1) meanwhile
  available (x ∷ xs) meanwhile = x ∷ xs
