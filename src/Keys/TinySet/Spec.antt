-- ===== src/Keys/TinySet/Spec.antt =====
-- The tiny set behaves as a set with a limit on its size.
use everarch.Prelude.{
  ℕ, zero, suc, ◌≤◌, ◌<◌, ◌≡◌, refl, ◌∙◌, Bool, true, false, ◌&&◌, ◌||◌, List, [], ◌∷◌, ◌++◌, leb,
  if◌then◌else◌, ◌==◌, ◌↔◌, inl, inr, length, set, get_or, arith, Bool-cases, length-append,
  length-set, length-replicate,
}
use everarch.Errors.{Status, ok, error, exists}
use everarch.Keys.TinySet.{TinySet, ref_eq, create, contains, push_ref, add}

-- `memcmp` decides equality.
pub ref_eq_iff : (r q : List ℕ) → (ref_eq r q ≡ true) ↔ (r ≡ q)
unfolding ref_eq
ref_eq_iff [] [] = (λ e. refl, λ e. refl)
ref_eq_iff [] (b ∷ q) = (λ e. cc, λ e. cc)
ref_eq_iff (a ∷ r) [] = (λ e. cc, λ e. cc)
ref_eq_iff (a ∷ r) (b ∷ q) = ground (arith, ref_eq_iff r q)

contains-append :
    (refs : List (List ℕ)) (q r : List ℕ)
    → contains (refs ++ (q ∷ [])) r ≡ (contains refs r || ref_eq r q)
unfolding contains
contains-append [] q r = ground arith
contains-append (x ∷ refs) q r = ground (arith, contains-append refs q r)

get_or-set :
    (xs : List Bool) (i j : ℕ) (v d : Bool)
    → i < length xs
    → get_or (set xs i v) j d ≡ (if i == j then v else get_or xs j d)
get_or-set [] i j v d h = absurd (omega arith)
get_or-set (x ∷ xs) zero zero v d h = refl
get_or-set (x ∷ xs) zero (suc j) v d h = ground arith
get_or-set (x ∷ xs) (suc i) zero v d h = ground arith
get_or-set (x ∷ xs) (suc i) (suc j) v d h = ground (arith, get_or-set xs i j v d)

-- Every ref in the set has its flag, and there is room for what is in it.
pub record IsValid (s : TinySet) : Type 0 where
  pub slots : length s.hash_set ≡ 256
  pub fits : length s.refs ≤ s.refs_len
  pub flagged :
      (r : List ℕ) → contains s.refs r ≡ true → get_or s.hash_set (get_or r 0 0) false ≡ true

pub create-IsValid : (refs_len : ℕ) → IsValid (create refs_len)
unfolding create contains
create-IsValid refs_len = record {
  slots = length-replicate 256 false;
  fits = omega arith;
  flagged = λ r e. cc;
}

-- The result of adding `ref`, by what the set holds and how many.
abbrev pub add_status : TinySet → List ℕ → Status
add_status s ref =
    if contains s.refs ref then exists else if leb s.refs_len (length s.refs) then error else ok

abbrev pub is_ok : Status → Bool
is_ok ok = true
is_ok _ = false

module _ (s : TinySet) (ref : List ℕ) (v : IsValid s) (h : get_or ref 0 0 < 256) where
  -- A set that has the flag of `ref` and all the refs of a valid one.
  flag : TinySet
  flag = record s { hash_set = set s.hash_set (get_or ref 0 0) true }

  flag-IsValid : IsValid flag
  unfolding flag
  flag-IsValid = record {
    slots = length-set s.hash_set (get_or ref 0 0) true ∙ v.slots;
    fits = v.fits;
    flagged = λ r e. ground (
      arith,
      v.slots,
      v.flagged r e,
      get_or-set s.hash_set (get_or ref 0 0) (get_or r 0 0) true false,
    );
  }

  flag_set : get_or flag.hash_set (get_or ref 0 0) false ≡ true
  unfolding flag
  flag_set =
      ground (arith, v.slots, get_or-set s.hash_set (get_or ref 0 0) (get_or ref 0 0) true false)

-- What the test for room and the copy do, if the ref is new and its flag is set.
record Pushed (s s' : TinySet) (ref : List ℕ) (st : Status) : Type 0 where
  status : st ≡ (if leb s.refs_len (length s.refs) then error else ok)
  holds : (r : List ℕ) → contains s'.refs r ≡ (contains s.refs r || (is_ok st && ref_eq r ref))
  valid : IsValid s'

push_ref-Pushed :
    (s : TinySet) (ref : List ℕ)
    → IsValid s
    → get_or s.hash_set (get_or ref 0 0) false ≡ true
    → Pushed s (push_ref s ref).1 ref (push_ref s ref).0
push_ref-Pushed s ref v h = elim (Bool-cases (leb s.refs_len (length s.refs))) [
  | inl full ↦ rw full (record { status = rw full; holds = λ r. ground arith; valid = v })
  | inr room ↦ rw room (record {
    status = rw room;
    holds = λ r. contains-append s.refs ref r;
    valid = record {
      slots = v.slots;
      fits = ground (arith, length-append s.refs (ref ∷ []));
      flagged =
          λ r e. ground (arith, v.flagged r, contains-append s.refs ref r, ref_eq_iff r ref, h);
    };
  })
]

-- For a valid set, adding a ref that starts with a byte returns `exists` exactly if it is there,
-- `error` if it is not and the set is full, and `ok` otherwise; the set then holds what it held
-- and, after `ok`, the ref, and stays valid.
pub add_refines :
    (s : TinySet) (ref : List ℕ)
    → IsValid s
    → get_or ref 0 0 < 256
    → let (st, s') = add s ref in
      (st ≡ add_status s ref)
      × ((r : List ℕ) → contains s'.refs r ≡ (contains s.refs r || (is_ok st && ref_eq r ref)))
      × IsValid s'
unfolding add flag
add_refines s ref v h = elim (Bool-cases (get_or s.hash_set (get_or ref 0 0) false)) [
  | inl p ↦ elim (Bool-cases (contains s.refs ref)) [
    | inl c ↦ rw (p, c) (refl, λ r. ground arith, v)
    | inr c ↦ let w = push_ref-Pushed s ref v p in rw (p, c) (w.status, w.holds, w.valid)
  ]
  | inr p ↦
      let c : contains s.refs ref ≡ false = ground (arith, v.flagged ref) in
      let w = push_ref-Pushed (flag s ref v h) ref (flag-IsValid s ref v h) (flag_set s ref v h) in
      rw (p, c) (w.status, w.holds, w.valid)
]
