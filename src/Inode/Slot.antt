-- ===== src/Inode/Slot.antt =====
-- `evr_inode_get_available` of src/fs-inode.c: a slot that nothing uses, where the array may grow.
use everarch.Prelude.{
  ℕ, zero, suc, ◌+◌, ◌-◌, ◌≤◌, ◌<◌, ◌≡◌, ◌≢◌, inl, inr, refl, sym, ap, subst, ◌∙◌, Bool, true,
  false, Option, none, some, List, arith, if◌then◌else◌, ltb, ltb→lt, ltb→le, Bool-cases,
}
use everarch.Inode.{
  Kind, unlinked, dir, file, status_online, Inode, InodeSet, root_id, alloc, free_inode, is_linked,
  children_of, find_unlinked, grown, grow, available, get_available,
}
use everarch.Inode.Tree.{IsIn, IsTree, is_dir, Keeps, same-Kept}

-- The slot that is handed out is not the root, and nothing was linked there.
abbrev pub Free : InodeSet → ℕ × InodeSet → Type 0
Free s (n, t) =
    n ≢ 0
    → IsTree t
      × Keeps s.inodes t.inodes
      × (2 ≤ n)
      × (is_linked (t.inodes n).kind ≡ false)
      × (n < t.inodes_len)

find_lem :
    (f : ℕ → Inode) (count n m : ℕ)
    → find_unlinked f count n ≡ some m
    → (n ≤ m) × (m < n + count) × (is_linked (f m).kind ≡ false)
unfolding find_unlinked
find_lem f zero n m e = cc
find_lem f (suc count) n m e = elim (Bool-cases (is_linked (f n).kind)) [
  | inl l ↦
      let (a, b, c) =
        find_lem f count (suc n) m
          (ap (λ x. if x then find_unlinked f count (suc n) else some n) (sym l) ∙ e) in
      (omega (arith, a), omega (arith, b), c)
  | inr u ↦
      let q : n ≡ m =
        some-inj (ap (λ x. if x then find_unlinked f count (suc n) else some n) (sym u) ∙ e) in
      (omega (arith, q), omega (arith, q), subst (λ x. is_linked (f x).kind ≡ false) q u)
]
  where
    some-inj : {a b : ℕ} → some a ≡ some b → a ≡ b
    some-inj h = cc

grown_same :
    (s : InodeSet)
    → IsTree s
    → (n : ℕ) → (is_linked (s.inodes n).kind ≡ true)
    → grown s.inodes s.inodes_len n ≡ s.inodes n
grown_same s t n l = elim (Bool-cases (ltb n s.inodes_len)) [
  | inl e ↦ ap (λ b. if b then s.inodes n else free_inode) e
  | inr e ↦ absurd (clash (t.beyond n (ltb→le n s.inodes_len e)))
]
  where
    clash : is_linked (s.inodes n).kind ≡ false → ⊥
    clash f = cc

grown_children :
    (s : InodeSet) (p c : ℕ)
    → IsIn c (children_of (grown s.inodes s.inodes_len p).kind)
    → IsIn c (children_of (s.inodes p).kind)
grown_children s p c = split (ltb p s.inodes_len)
  where
    split :
        (b : Bool)
        → IsIn c (children_of (if b then s.inodes p else free_inode).kind)
        → IsIn c (children_of (s.inodes p).kind)
    split true h = h
    split false h = absurd h

grown_beyond :
    (s : InodeSet) (n : ℕ)
    → s.inodes_len ≤ n
    → is_linked (grown s.inodes s.inodes_len n).kind ≡ false
grown_beyond s n le = elim (Bool-cases (ltb n s.inodes_len)) [
  | inl e ↦ let lt = ltb→lt n s.inodes_len e in absurd (omega (arith, le, lt))
  | inr e ↦ ap (λ b. is_linked (if b then s.inodes n else free_inode).kind) e
]

grown_listed :
    (s : InodeSet)
    → IsTree s
    → (n : ℕ) → (is_linked (grown s.inodes s.inodes_len n).kind ≡ true)
    → n ≢ root_id
    → IsIn n (children_of (grown s.inodes s.inodes_len (grown s.inodes s.inodes_len n).parent).kind)
grown_listed s t n l ne =
    let k = was_linked (ltb n s.inodes_len) l in
    let h = t.listed n k ne in
    let d = parent_linked (s.inodes (s.inodes n).parent).kind h in
    subst (λ (x : Inode). IsIn n (children_of (grown s.inodes s.inodes_len x.parent).kind))
      (sym (grown_same s t n k))
      (subst (λ (x : Inode). IsIn n (children_of x.kind))
        (sym (grown_same s t (s.inodes n).parent d)) h)
  where
    was_linked :
        (b : Bool)
        → is_linked (if b then s.inodes n else free_inode).kind ≡ true
        → is_linked (s.inodes n).kind ≡ true
    was_linked true h = h
    was_linked false h = cc

    parent_linked : (k : Kind) → IsIn n (children_of k) → is_linked k ≡ true
    parent_linked (dir cs) h = refl
    parent_linked unlinked h = absurd h
    parent_linked (file x) h = absurd h
    parent_linked status_online h = absurd h

pub available-Free : (s : InodeSet) → IsTree s → Free s (get_available s)
unfolding get_available
available-Free s t = split (find_unlinked s.inodes (s.inodes_len - 2) 2) refl
  where
    grow-Free : (a : Bool × List Bool) → Free s (grow s a)
    grow-Free (false, bs) = λ ne. absurd (ne refl)
    grow-Free (true, bs) = λ ne. (
      record {
        long = let l = t.long in omega (arith, l);
        beyond = λ n le. grown_beyond s n (omega (arith, le));
        root = ap (λ (x : Inode). is_linked x.kind) (grown_same s t root_id t.root) ∙ t.root;
        parent = λ p c h.
            let i = grown_children s p c h in
            ap (λ (x : Inode). x.parent) (grown_same s t c (t.linked p c i)) ∙ t.parent p c i;
        linked = λ p c h.
            let l = t.linked p c (grown_children s p c h) in
            ap (λ (x : Inode). is_linked x.kind) (grown_same s t c l) ∙ l;
        below_root = λ p h. t.below_root p (grown_children s p root_id h);
        root_dir = ap (λ (x : Inode). is_dir x.kind) (grown_same s t root_id t.root) ∙ t.root_dir;
        listed = λ n l ne. grown_listed s t n l ne;
      },
      (λ j l. same-Kept (s.inodes j) (grown s.inodes s.inodes_len j) (grown_same s t j l) l),
      t.long,
      grown_beyond s s.inodes_len (omega arith),
      (let l = t.long in omega (arith, l)),
    )

    split :
        (o : Option ℕ) → find_unlinked s.inodes (s.inodes_len - 2) 2 ≡ o → Free s (available s o)
    split none e = grow-Free (alloc s.allocs)
    split (some n) e = λ ne.
        let (a, b, c) = find_lem s.inodes (s.inodes_len - 2) 2 n e in
        let l = t.long in
        (t, (λ j k. same-Kept (s.inodes j) (s.inodes j) refl k), a, c, omega (arith, b, l))
