-- ===== src/Glacier/EndOffset.antt =====
-- `evr_write_bucket_end_offset`: the four bytes behind the magic number change, and nothing else.
use everarch.Prelude.{
  ℕ, ◌≤◌, ◌≡◌, refl, sym, ap, subst, ◌∙◌, Bool, List, ◌++◌, some, arith, length, drop, append_assoc,
  length-append, length-drop, drop-append, drop-append_le,
}
use everarch.Bytes.{push_be}
use everarch.Bytes.Codec.{length-push_be}
use everarch.Glacier.{
  Glacier, ◌|>◌, magic_number, lseek, write_current, sync_when, write_bucket_end_offset,
}
use everarch.Glacier.Frame.{Post, Post-bind, Post-map, Steady, At, Torn, Extends}
use everarch.Glacier.Steps.{lseek_lem, sync_when_lem, write_current_lem}

module _ {Db : Type 0} where
  -- The bucket's file has a magic number, some end offset, the bytes `blobs`, and anything behind.
  pub record Holds (i : ℕ) (blobs : List ℕ) (w v : Glacier Db) : Type 0 where
    pub end_bytes : List ℕ
    pub rest : List ℕ
    pub four : length end_bytes ≡ 4
    pub steady : Steady i w v
    pub file : v.files i ≡ some (magic_number ++ end_bytes ++ blobs ++ rest)

  -- The same with the end offset `n`.
  pub record Sealed (i n : ℕ) (blobs : List ℕ) (w v : Glacier Db) : Type 0 where
    pub rest : List ℕ
    pub steady : Steady i w v
    pub file : v.files i ≡ some (magic_number ++ push_be 4 n ++ blobs ++ rest)

  pub Sealed-Holds :
      (i n : ℕ) (blobs : List ℕ) (w v : Glacier Db) → Sealed i n blobs w v → Holds i blobs w v
  Sealed-Holds i n blobs w v s = record {
    end_bytes = push_be 4 n;
    rest = s.rest;
    four = length-push_be 4 n;
    steady = s.steady;
    file = s.file;
  }

  pub Extends-Holds :
      (i : ℕ) (e blobs : List ℕ) (w v : Glacier Db)
      → length e ≡ 4
      → Extends i (magic_number ++ e ++ blobs) w v
      → Holds i blobs w v
  Extends-Holds i e blobs w v four x = record {
    end_bytes = e;
    rest = x.rest;
    four = four;
    steady = x.steady;
    file = x.file;
  }

-- Regrouping a bucket's bytes round its end offset.
regroup :
    (e blobs rest : List ℕ)
    → magic_number ++ e ++ blobs ++ rest ≡ magic_number ++ (e ++ (blobs ++ rest))
regroup e blobs rest =
    append_assoc (magic_number ++ e) blobs rest ∙ append_assoc magic_number e (blobs ++ rest)

module _ {Db : Type 0} (i n : ℕ) (blobs : List ℕ) (w0 : Glacier Db) where
  Torn-end_offset :
      (e rest : List ℕ) (v : Glacier Db)
      → length e ≡ 4
      → Torn i magic_number (length (push_be 4 n)) (e ++ (blobs ++ rest)) w0 v
      → Holds i blobs w0 v
  Torn-end_offset e rest v four t = record {
    end_bytes = t.out ++ drop (length t.out) e;
    rest = rest;
    four = omega (
      arith,
      length-append t.out (drop (length t.out) e),
      length-drop (length t.out) e,
      four,
      short,
    );
    steady = t.steady;
    file =
        t.file
        ∙ ap (λ x. some (magic_number ++ t.out ++ x))
            (drop-append_le (length t.out) e (blobs ++ rest) (omega (arith, four, short)))
        ∙ ap some (append_assoc magic_number t.out (drop (length t.out) e ++ (blobs ++ rest)))
        ∙ ap (λ x. some (magic_number ++ x))
            (sym (append_assoc t.out (drop (length t.out) e) (blobs ++ rest)))
        ∙ ap some (sym (regroup (t.out ++ drop (length t.out) e) blobs rest));
  }
    where
      short : length t.out ≤ 4
      short = subst (λ m. length t.out ≤ m) (length-push_be 4 n) t.short

  sealed_lem :
      (e rest : List ℕ) (v : Glacier Db)
      → length e ≡ 4
      → At i (magic_number ++ push_be 4 n) (drop (length (push_be 4 n)) (e ++ (blobs ++ rest))) w0 v
      → Sealed i n blobs w0 v
  sealed_lem e rest v four a = record {
    rest = rest;
    steady = a.steady;
    file =
        a.file
        ∙ ap (λ x. some (magic_number ++ push_be 4 n ++ x))
            (drop-append (length (push_be 4 n)) e (blobs ++ rest) (length-push_be 4 n ∙ sym four))
        ∙ ap some (sym (append_assoc (magic_number ++ push_be 4 n) blobs rest));
  }

  unmoved :
      (w v : Glacier Db)
      → Holds i blobs w0 w
      → Steady i w0 v × (v.files i ≡ w.files i)
      → Holds i blobs w0 v
  unmoved w v h (steady, e) = record {
    end_bytes = h.end_bytes;
    rest = h.rest;
    four = h.four;
    steady = steady;
    file = e ∙ h.file;
  }

  synced :
      (w v : Glacier Db)
      → Sealed i n blobs w0 w
      → Steady i w0 v × (v.files i ≡ w.files i)
      → Sealed i n blobs w0 v
  synced w v s (steady, e) = record { rest = s.rest; steady = steady; file = e ∙ s.file }

  write_lem :
      (w : Glacier Db)
      → Holds i blobs w0 w
      → Post (Sealed i n blobs w0) (Holds i blobs w0) (lseek 3 w |> write_current (push_be 4 n))
  write_lem w h =
      Post-bind (At i magic_number (h.end_bytes ++ (blobs ++ h.rest)) w0) (Sealed i n blobs w0)
        (Holds i blobs w0) (write_current (push_be 4 n)) (lseek 3 w)
        (Post-map (lseek 3 w)
          (lseek_lem i w0 w h.steady magic_number (h.end_bytes ++ (blobs ++ h.rest))
            (h.file ∙ ap some (regroup h.end_bytes blobs h.rest)) 3 refl)
          (λ v a. a) (λ v u. unmoved w v h u))
        (λ v a.
          Post-map (write_current (push_be 4 n) v)
            (write_current_lem i magic_number (h.end_bytes ++ (blobs ++ h.rest)) (push_be 4 n) w0 v
              a)
            (λ u x. sealed_lem h.end_bytes h.rest u h.four x)
            (λ u t. Torn-end_offset h.end_bytes h.rest u h.four t))

  -- On a bucket's file with a magic number, four bytes of end offset and blobs: on success the end
  -- offset is the new one and the blobs stand where they stood; on a failure, also one in the middle
  -- of the write, the magic number and the blobs still stand where they stood. No other file changes.
  pub write_bucket_end_offset_lem :
      (sync : Bool) (w : Glacier Db)
      → Holds i blobs w0 w
      → Post (Sealed i n blobs w0) (Holds i blobs w0) (write_bucket_end_offset n sync w)
  unfolding write_bucket_end_offset
  write_bucket_end_offset_lem sync w h =
      Post-bind (Sealed i n blobs w0) (Sealed i n blobs w0) (Holds i blobs w0) (sync_when sync)
        (lseek 3 w |> write_current (push_be 4 n)) (write_lem w h)
        (λ v s.
          Post-map (sync_when sync v)
            (sync_when_lem i w0 v s.steady (Holds i blobs w0) sync
              (λ u st e. unmoved v u (Sealed-Holds i n blobs w0 v s) (st, e)))
            (λ u x. synced v u s x) (λ u x. x))
