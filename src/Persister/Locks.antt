-- ===== src/Persister/Locks.antt =====
-- The locks of the tasks, and that no task is there twice.
use everarch.Prelude.{ℕ, ◌≡◌, ◌≢◌, ap, Bool, true, false, List, [], ◌∷◌, ◌++◌, All, arith, update}
use everarch.Persister.Order.{Distinct, Locked}

-- A lock more keeps the others.
pub lock_keeps :
    (locked : ℕ → Bool) (t : ℕ) (ts : List ℕ) → Locked locked ts → Locked (update locked t true) ts
lock_keeps locked t [] h = tt
lock_keeps locked t (u ∷ ts) (h, hs) = (ground arith, lock_keeps locked t ts hs)

pub lock_snoc :
    (locked : ℕ → Bool) (t : ℕ) (ts : List ℕ)
    → Locked locked ts
    → Locked (update locked t true) (ts ++ (t ∷ []))
lock_snoc locked t [] h = (ground arith, tt)
lock_snoc locked t (u ∷ ts) (h, hs) = (ground arith, lock_snoc locked t ts hs)

pub unlock_keeps :
    (locked : ℕ → Bool) (t : ℕ) (ts : List ℕ)
    → All (λ u. t ≢ u) ts
    → Locked locked ts
    → Locked (update locked t false) ts
unlock_keeps locked t [] n h = tt
unlock_keeps locked t (u ∷ ts) (n, ns) (h, hs) = (ground arith, unlock_keeps locked t ts ns hs)

pub Distinct-snoc :
    (locked : ℕ → Bool) (t : ℕ) (ts : List ℕ)
    → locked t ≡ false
    → Locked locked ts
    → Distinct ts
    → Distinct (ts ++ (t ∷ []))
Distinct-snoc locked t [] f h d = (tt, tt)
Distinct-snoc locked t (u ∷ ts) f (h, hs) (d, ds) = (apart ts d, Distinct-snoc locked t ts f hs ds)
  where
    u_ne : u ≢ t
    u_ne e = cc (ap locked e)

    apart : (xs : List ℕ) → All (λ y. u ≢ y) xs → All (λ y. u ≢ y) (xs ++ (t ∷ []))
    apart [] k = (u_ne, tt)
    apart (x ∷ xs) (k, ks) = (k, apart xs ks)
