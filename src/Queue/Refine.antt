-- ===== src/Queue/Refine.antt =====
-- The ring buffer of src/queue.c holds a list of at most `2 ^ items_len_exp - 1` entries, which are
-- taken in the order in which they were put.
use everarch.Prelude.{
  ℕ, suc, ◌^◌, ◌<◌, ◌≡◌, ◌⊎◌, inl, inr, refl, sym, ap, subst, ◌∙◌, Bool, true, false, List, [], ◌∷◌,
  ◌++◌, arith, length, set, ◌==◌, ==_iff, ==_ne, length-replicate,
}
use everarch.Prelude.Mask.{two_pow_pos}
use everarch.Errors.{Status, ok, temporary_occupied}
use everarch.Queue.{Queue, next_i, create_queue, queue_put, put_next, put_status}
use everarch.Queue.Slots.{Slots, put-Slots, full_lem, room_lem}
use everarch.Queue.Ring.{step, next_i-step, EndsAt, window}

module _ {ℓ} {A : Type ℓ} (garbage : A) (k : ℕ) where
  -- The ring is well formed, and its slots from `reading_i` up to `writing_i` are the list `xs`.
  pub record Holds (xs : List A) (q : Queue A) : Type ℓ where
    pub len : q.items_len ≡ 2 ^ k
    pub buf : length q.items_buf ≡ 2 ^ k
    pub reading : q.reading_i < 2 ^ k
    pub writing : q.writing_i < 2 ^ k
    pub fits : length xs < 2 ^ k
    pub ends : EndsAt (2 ^ k) q.writing_i q.reading_i (length xs)
    pub same : window garbage (2 ^ k) q.items_buf (length xs) q.reading_i ≡ xs

  pub create_queue-Holds : Holds [] (create_queue garbage k)
  unfolding create_queue
  create_queue-Holds = record {
    len = refl;
    buf = length-replicate (2 ^ k) garbage;
    reading = two_pow_pos k;
    writing = two_pow_pos k;
    fits = two_pow_pos k;
    ends = inl (omega arith);
    same = refl;
  }

  -- A put into a queue that holds `xs` adds the entry, or finds the queue full.
  abbrev pub PutEnds : List A → A → Status × Queue A → Type ℓ
  PutEnds xs e (s, q) =
      ((suc (length xs) < 2 ^ k) × (s ≡ ok) × (q.status ≡ ok) × Holds (xs ++ (e ∷ [])) q)
      ⊎ ((suc (length xs) ≡ 2 ^ k)
          × (s ≡ temporary_occupied)
          × (q.status ≡ temporary_occupied)
          × Holds xs q)

  module _ (xs : List A) (q : Queue A) (h : Holds xs q) where
    pub next-step : (i : ℕ) → i < 2 ^ k → next_i q.items_len i ≡ step (2 ^ k) i
    next-step i lt = ap (λ n. next_i n i) h.len ∙ next_i-step k i lt

    put_lem :
        (e : A) (i : ℕ)
        → i ≡ step (2 ^ k) q.writing_i
        → suc (length xs) < 2 ^ k
        → Holds
            (xs ++ (e ∷ []))
            (record q { items_buf = set q.items_buf q.writing_i e; writing_i = i })
    put_lem e i at room = record {
      len = h.len;
      buf = put.len;
      reading = put.reading;
      writing = subst (λ j. j < 2 ^ k) (sym at) put.writing;
      fits = put.fits;
      ends = subst (λ j. EndsAt (2 ^ k) j q.reading_i (length (xs ++ (e ∷ [])))) (sym at) put.ends;
      same = put.same;
    }
      where
        put :
            Slots
              (2 ^ k)
              garbage
              (xs ++ (e ∷ []))
              (set q.items_buf q.writing_i e)
              (step (2 ^ k) q.writing_i)
              q.reading_i
        put = put-Slots (2 ^ k) garbage xs q.items_buf q.writing_i q.reading_i e room (record {
          len = h.buf;
          reading = h.reading;
          writing = h.writing;
          fits = h.fits;
          ends = h.ends;
          same = h.same;
        })

    put_next_lem :
        (e : A) (b : Bool)
        → (next_i q.items_len q.writing_i == q.reading_i) ≡ b
        → q.status ≡ ok
        → PutEnds xs e (put_next q e b)
    put_next_lem e true t s = inr (
      full_lem (2 ^ k) q.writing_i q.reading_i (length xs) h.reading h.writing h.fits h.ends (
          sym (next-step q.writing_i h.writing)
          ∙ (==_iff (next_i q.items_len q.writing_i) q.reading_i).0 t),
      refl,
      refl,
      record {
        len = h.len;
        buf = h.buf;
        reading = h.reading;
        writing = h.writing;
        fits = h.fits;
        ends = h.ends;
        same = h.same;
      },
    )
    put_next_lem e false t s =
        inl (room, refl, s, put_lem e _ (next-step q.writing_i h.writing) room)
      where
        room : suc (length xs) < 2 ^ k
        room =
            room_lem (2 ^ k) q.writing_i q.reading_i (length xs) h.reading h.writing h.fits h.ends
              (λ e.
                ==_ne (next_i q.items_len q.writing_i) q.reading_i t
                  (next-step q.writing_i h.writing ∙ e))

    pub queue_put_refines : q.status ≡ ok → (e : A) → PutEnds xs e (queue_put q e)
    unfolding queue_put
    queue_put_refines s e =
        subst (λ t. PutEnds xs e (put_status q e t)) (sym s) (put_next_lem e _ refl s)
