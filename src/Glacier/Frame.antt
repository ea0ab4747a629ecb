-- ===== src/Glacier/Frame.antt =====
-- How a call of src/glacier.c changes the state: what it may return with, which files it leaves
-- alone, and what the current bucket's file holds in front of the file position.
use everarch.Prelude.{
  ℕ, ◌+◌, ◌-◌, ◌≤◌, ◌≡◌, refl, sym, ap, ap₂, subst, ◌∙◌, ◌≢◌, Option, some, List, ◌++◌, arith,
  length, drop, replicate, if◌then◌else◌, ==_iff, ne→==, length-append, take-append, drop-append,
  drop-drop, append-nil, append_assoc,
}
use everarch.Glacier.{Glacier, Exec, done, failed, ◌|>◌, bucket, write_at, store}

module _ {Db : Type 0} where
  -- A call that returns `evr_ok` leaves a state with `R`, and any other call one with `Q`.
  abbrev pub Post : (R Q : Glacier Db → Type 0) → Exec Db → Type 0
  Post R Q (done w) = R w
  Post R Q (failed w) = Q w

  pub Post-bind :
      (R R' Q : Glacier Db → Type 0) (next : Glacier Db → Exec Db) (x : Exec Db)
      → Post R Q x
      → ((w : Glacier Db) → R w → Post R' Q (next w))
      → Post R' Q (x |> next)
  Post-bind R R' Q next (done w) r h = h w r
  Post-bind R R' Q next (failed w) q h = q

  -- the same for several calls, which a failure skips
  pub Post-run :
      (R R' Q : Glacier Db → Type 0) (run : Exec Db → Exec Db) (x : Exec Db)
      → ((w : Glacier Db) → run (failed w) ≡ failed w)
      → Post R Q x
      → ((w : Glacier Db) → R w → Post R' Q (run (done w)))
      → Post R' Q (run x)
  Post-run R R' Q run (done w) skip r h = h w r
  Post-run R R' Q run (failed w) skip q h = subst (Post R' Q) (sym (skip w)) q

  pub Post-map :
      {R R' Q Q' : Glacier Db → Type 0} (x : Exec Db)
      → Post R Q x
      → ((w : Glacier Db) → R w → R' w)
      → ((w : Glacier Db) → Q w → Q' w)
      → Post R' Q' x
  Post-map (done w) r f g = f w r
  Post-map (failed w) q f g = g w q

  -- No file but the bucket `i` changes, nor do the context and the index database.
  pub record Steady (i : ℕ) (w v : Glacier Db) : Type 0 where
    pub fd : v.current_bucket_f ≡ bucket i
    pub pos : v.current_bucket_pos ≡ w.current_bucket_pos
    pub index : v.current_bucket_index ≡ w.current_bucket_index
    pub max : v.max_bucket_size ≡ w.max_bucket_size
    pub db : v.db ≡ w.db
    pub others : (j : ℕ) → j ≢ i → v.files j ≡ w.files j

  pub Steady-trans : (i : ℕ) (u v w : Glacier Db) → Steady i u v → Steady i v w → Steady i u w
  Steady-trans i u v w a b = record {
    fd = b.fd;
    pos = b.pos ∙ a.pos;
    index = b.index ∙ a.index;
    max = b.max ∙ a.max;
    db = b.db ∙ a.db;
    others = λ j ne. b.others j ne ∙ a.others j ne;
  }

  -- The file of the bucket `i` is `front ++ tail`, and the file position stands between the two.
  pub record At (i : ℕ) (front tail : List ℕ) (w v : Glacier Db) : Type 0 where
    pub steady : Steady i w v
    pub file : v.files i ≡ some (front ++ tail)
    pub here : v.f_pos ≡ length front

  -- A write of at most `n` bytes behind `front` stopped somewhere.
  pub record Torn (i : ℕ) (front : List ℕ) (n : ℕ) (tail : List ℕ) (w v : Glacier Db) : Type 0 where
    pub out : List ℕ
    pub short : length out ≤ n
    pub steady : Steady i w v
    pub file : v.files i ≡ some (front ++ out ++ drop (length out) tail)

module _ {Db : Type 0} where
  -- The file still starts with `front`, whatever follows.
  pub record Extends (i : ℕ) (front : List ℕ) (w v : Glacier Db) : Type 0 where
    pub rest : List ℕ
    pub steady : Steady i w v
    pub file : v.files i ≡ some (front ++ rest)

  pub Torn-Extends :
      (i : ℕ) (front : List ℕ) (n : ℕ) (tail : List ℕ) (w v : Glacier Db)
      → Torn i front n tail w v
      → Extends i front w v
  Torn-Extends i front n tail w v t = record {
    rest = t.out ++ drop (length t.out) tail;
    steady = t.steady;
    file = t.file ∙ ap some (append_assoc front t.out (drop (length t.out) tail));
  }

  pub Extends-shorter :
      (i : ℕ) (front more : List ℕ) (w v : Glacier Db)
      → Extends i (front ++ more) w v
      → Extends i front w v
  Extends-shorter i front more w v x = record {
    rest = more ++ x.rest;
    steady = x.steady;
    file = x.file ∙ ap some (append_assoc front more x.rest);
  }

pub store-same : (files : ℕ → Option (List ℕ)) (i : ℕ) (bs : List ℕ) → store files i bs i ≡ some bs
store-same files i bs = ap (λ b. if b then some bs else files i) ((==_iff i i).1 refl)

pub store-other :
    (files : ℕ → Option (List ℕ)) (i : ℕ) (bs : List ℕ) (j : ℕ)
    → j ≢ i
    → store files i bs j ≡ files j
store-other files i bs j ne = ap (λ b. if b then some bs else files j) (ne→== j i ne)

pub write_at-append :
    (front tail out : List ℕ)
    → write_at (front ++ tail) (length front) out ≡ front ++ out ++ drop (length out) tail
write_at-append front tail out =
    ap₂ (λ x n. x ++ replicate n 0 ++ out ++ drop (length front + length out) (front ++ tail))
      (take-append (length front) front tail refl) gap
    ∙ ap₂ (λ x y. x ++ out ++ y) (append-nil front) rest
  where
    gap : length front - length (front ++ tail) ≡ 0
    gap = omega (arith, length-append front tail)

    rest : drop (length front + length out) (front ++ tail) ≡ drop (length out) tail
    rest =
        sym (drop-drop (length out) (length front) (length front + length out) (front ++ tail) refl)
        ∙ ap (drop (length out)) (drop-append (length front) front tail refl)
