-- ===== src/Inode/Append.antt =====
-- `evr_inode_append_dir` and `evr_inode_append_file` of src/fs-inode.c keep the tree.
use everarch.Prelude.{
  ℕ, zero, suc, ◌≤◌, ◌<◌, ◌≡◌, ◌≢◌, ◌⊎◌, inl, inr, refl, sym, ap, subst, ◌∙◌, Bool, true, false,
  List, [], ◌∷◌, ◌++◌, arith, if◌then◌else◌, ◌==◌, ==_iff, ==_ne, ne→==, update,
}
use everarch.Inode.{
  Kind, unlinked, dir, file, status_online, Inode, InodeSet, root_id, alloc, is_linked, children_of,
  get_available, with_child, added, add_child, named, append_added, append_at, append,
}
use everarch.Inode.Tree.{
  IsIn, IsIn-snoc, Linked, IsTree, is_dir, Kept, Keeps, same-Kept, Keeps-trans, Keeps-unlinked,
}
use everarch.Inode.Slot.{Free, available-Free}

-- What an append that succeeds leaves.
abbrev pub Appended : InodeSet → ℕ → List ℕ → Kind → ℕ × InodeSet → Type 0
Appended s p name kind (n, t) =
    n ≢ 0
    → IsTree t
      × Keeps s.inodes t.inodes
      × ((t.inodes n).parent ≡ p)
      × ((t.inodes n).name ≡ name)
      × ((t.inodes n).kind ≡ kind)
      × (n ≢ root_id)
      × ¬ (Linked s.inodes n)

pub is_dir-linked : (k : Kind) → is_dir k ≡ true → is_linked k ≡ true
is_dir-linked (dir cs) e = refl
is_dir-linked unlinked e = cc
is_dir-linked (file f) e = cc
is_dir-linked status_online e = cc

module _ (s : InodeSet) (t : IsTree s) (p n : ℕ) (name : List ℕ) (kind : Kind) (bs : List Bool)
    (fresh : is_linked kind ≡ true) (childless : children_of kind ≡ [])
    (at : is_dir (s.inodes p).kind ≡ true) (big : 2 ≤ n)
    (free : is_linked (s.inodes n).kind ≡ false) (inside : n < s.inodes_len) where
  abbrev listed : Inode
  listed = record (s.inodes p) { kind = with_child (s.inodes p).kind n }

  abbrev node : Inode
  node = record { parent = p; name = name; kind = kind }

  abbrev after : ℕ → Inode
  after = update (update s.inodes p listed) n node

  at-Linked : Linked s.inodes p
  at-Linked = is_dir-linked (s.inodes p).kind at

  p_ne : p ≢ n
  p_ne e = cc (at-Linked, ap (λ x. is_linked (s.inodes x).kind) e)

  after_self : after n ≡ node
  after_self = ap (λ b. if b then node else update s.inodes p listed n) ((==_iff n n).1 refl)

  after_old : (j : ℕ) → n ≢ j → after j ≡ update s.inodes p listed j
  after_old j ne = ap (λ b. if b then node else update s.inodes p listed j) (ne→== n j ne)

  old_ne : (j : ℕ) → Linked s.inodes j → n ≢ j
  old_ne j l e = cc (ap (λ x. is_linked (s.inodes x).kind) e)

  with_child-linked : (k : Kind) → is_linked (with_child k n) ≡ is_linked k
  with_child-linked (dir cs) = refl
  with_child-linked unlinked = refl
  with_child-linked (file f) = refl
  with_child-linked status_online = refl

  with_child-dir : (k : Kind) → is_dir k ≡ true → is_dir (with_child k n) ≡ true
  with_child-dir (dir cs) e = refl
  with_child-dir unlinked e = cc
  with_child-dir (file f) e = cc
  with_child-dir status_online e = cc

  IsIn-front : (c : ℕ) (xs ys : List ℕ) → IsIn c xs → IsIn c (xs ++ ys)
  IsIn-front c [] ys h = absurd h
  IsIn-front c (x ∷ xs) ys (inl e) = inl e
  IsIn-front c (x ∷ xs) ys (inr h) = inr (IsIn-front c xs ys h)

  IsIn-back : (xs : List ℕ) → IsIn n (xs ++ (n ∷ []))
  IsIn-back [] = inl refl
  IsIn-back (x ∷ xs) = inr (IsIn-back xs)

  with_child-old :
      (k : Kind) (c : ℕ) → IsIn c (children_of k) → IsIn c (children_of (with_child k n))
  with_child-old (dir cs) c h = IsIn-front c cs (n ∷ []) h
  with_child-old unlinked c h = absurd h
  with_child-old (file f) c h = absurd h
  with_child-old status_online c h = absurd h

  with_child-new : (k : Kind) → is_dir k ≡ true → IsIn n (children_of (with_child k n))
  with_child-new (dir cs) e = IsIn-back cs
  with_child-new unlinked e = cc
  with_child-new (file f) e = cc
  with_child-new status_online e = cc

  listed-Kept : Kept (s.inodes p) listed
  listed-Kept = record {
    parent = refl;
    name = refl;
    linked = with_child-linked (s.inodes p).kind ∙ at-Linked;
    dir = λ d. with_child-dir (s.inodes p).kind d;
    children = λ c h. with_child-old (s.inodes p).kind c h;
  }

  after-Keeps : Keeps s.inodes after
  after-Keeps j l = subst (Kept (s.inodes j)) (sym (after_old j (old_ne j l))) (split (p == j) refl)
    where
      split : (b : Bool) → (p == j) ≡ b → Kept (s.inodes j) (if b then listed else s.inodes j)
      split true e = subst (λ x. Kept (s.inodes x) listed) ((==_iff p j).0 e) listed-Kept
      split false e = same-Kept (s.inodes j) (s.inodes j) refl l

  -- The new inode is among the children of `p`.
  new_listed : IsIn n (children_of (after p).kind)
  new_listed =
      subst (λ (x : Inode). IsIn n (children_of x.kind))
        (sym (
          after_old p (λ e. p_ne (sym e))
          ∙ ap (λ b. if b then listed else s.inodes p) ((==_iff p p).1 refl)))
        (with_child-new (s.inodes p).kind at)

  kept-Linked : (j : ℕ) → n ≢ j → Linked after j → Linked s.inodes j
  kept-Linked j ne l =
      split (p == j) refl (sym (ap (λ (x : Inode). is_linked x.kind) (after_old j ne)) ∙ l)
    where
      split :
          (b : Bool)
          → (p == j) ≡ b
          → is_linked (if b then listed else s.inodes j).kind ≡ true
          → Linked s.inodes j
      split true e h = subst (Linked s.inodes) ((==_iff p j).0 e) at-Linked
      split false e h = h

  child-linked : (k : Kind) (c : ℕ) → IsIn c (children_of k) → is_linked k ≡ true
  child-linked (dir cs) c h = refl
  child-linked unlinked c h = absurd h
  child-linked (file f) c h = absurd h
  child-linked status_online c h = absurd h

  after-listed :
      (j : ℕ) → Linked after j → j ≢ root_id → IsIn j (children_of (after (after j).parent).kind)
  after-listed j l ne = split (n == j) refl
    where
      split : (b : Bool) → (n == j) ≡ b → IsIn j (children_of (after (after j).parent).kind)
      split true e =
          let q : n ≡ j = (==_iff n j).0 e in
          subst (λ x. IsIn x (children_of (after (after x).parent).kind)) q
            (subst (λ (x : Inode). IsIn n (children_of (after x.parent).kind)) (sym after_self)
              new_listed)
      split false e =
          let k = kept-Linked j (==_ne n j e) l in
          let h = t.listed j k ne in
          let d = child-linked (s.inodes (s.inodes j).parent).kind j h in
          subst (λ x. IsIn j (children_of (after x).kind)) (sym (after-Keeps j k).parent)
            ((after-Keeps (s.inodes j).parent d).children j h)

  child_cases :
      (k : Kind) (c : ℕ) → IsIn c (children_of (with_child k n)) → IsIn c (children_of k) ⊎ (c ≡ n)
  child_cases (dir cs) c h = IsIn-snoc c n cs h
  child_cases unlinked c h = absurd h
  child_cases (file f) c h = absurd h
  child_cases status_online c h = absurd h

  -- A child is an old one of the same directory, or the new inode below `p`.
  after_children :
      (q c : ℕ)
      → IsIn c (children_of (after q).kind)
      → IsIn c (children_of (s.inodes q).kind) ⊎ ((q ≡ p) × (c ≡ n))
  after_children q c = split (n == q) (p == q) refl
    where
      split :
          (a b : Bool)
          → (p == q) ≡ b
          → IsIn c (children_of (if a then node else if b then listed else s.inodes q).kind)
          → IsIn c (children_of (s.inodes q).kind) ⊎ ((q ≡ p) × (c ≡ n))
      split true b e h = absurd (subst (IsIn c) childless h)
      split false true e h =
          let r : p ≡ q = (==_iff p q).0 e in
          elim (child_cases (s.inodes p).kind c h) [
            | inl i ↦ inl (subst (λ x. IsIn c (children_of (s.inodes x).kind)) r i)
            | inr i ↦ inr (sym r, i)
          ]
      split false false e h = inl h

  after-IsTree : IsTree (record s { inodes = after; allocs = bs })
  after-IsTree = record {
    long = t.long;
    beyond = λ j le.
        ap (λ (x : Inode). is_linked x.kind) (after_old j (λ e. omega (arith, le, inside, e)))
        ∙ ap (λ b. is_linked (if b then listed else s.inodes j).kind)
            (ne→== p j (λ e. out_ne j le e))
        ∙ t.beyond j le;
    root = (after-Keeps root_id t.root).linked;
    parent = λ q c h. elim (after_children q c h) [
      | inl i ↦ (after-Keeps c (t.linked q c i)).parent ∙ t.parent q c i
      | inr (eq, ec) ↦
          ap (λ x. (after x).parent) ec ∙ ap (λ (x : Inode). x.parent) after_self ∙ sym eq
    ];
    linked = λ q c h. elim (after_children q c h) [
      | inl i ↦ (after-Keeps c (t.linked q c i)).linked
      | inr (eq, ec) ↦
          ap (λ x. is_linked (after x).kind) ec
          ∙ ap (λ (x : Inode). is_linked x.kind) after_self
          ∙ fresh
    ];
    below_root = λ q h. elim (after_children q root_id h) [
      | inl i ↦ t.below_root q i
      | inr (eq, ec) ↦ omega (arith, big, ec)
    ];
    root_dir = (after-Keeps root_id t.root).dir t.root_dir;
    listed = λ j l ne. after-listed j l ne;
  }
    where
      out_ne : (j : ℕ) → s.inodes_len ≤ j → p ≡ j → ⊥
      out_ne j le e = cc (at-Linked, t.beyond j le, ap (λ x. is_linked (s.inodes x).kind) e)

pub append-Appended :
    (kind : Kind) (s : InodeSet) (p : ℕ) (name : List ℕ)
    → is_linked kind ≡ true
    → children_of kind ≡ []
    → IsTree s
    → is_dir (s.inodes p).kind ≡ true
    → Appended s p name kind (append kind s p name)
unfolding append append_at add_child
append-Appended kind s p name fresh childless t at = placed (get_available s) (available-Free s t)
  where
    named_lem :
        (s1 : InodeSet) (n : ℕ) (bs : List Bool) (a : Bool × List Bool)
        → IsTree s1
        → Keeps s.inodes s1.inodes
        → 2 ≤ suc n
        → is_linked (s1.inodes (suc n)).kind ≡ false
        → suc n < s1.inodes_len
        → Appended s p name kind (
            named kind
              (record s1 {
                inodes =
                    update s1.inodes p
                      (record (s1.inodes p) { kind = with_child (s1.inodes p).kind (suc n) });
                allocs = bs;
              })
              p
              name
              (suc n)
              a)
    named_lem s1 n bs (false, cs) t1 k big free inside = λ ne. absurd (ne refl)
    named_lem s1 n bs (true, cs) t1 k big free inside = λ ne.
        let at1 = (k p (is_dir-linked (s.inodes p).kind at)).dir at in
        (
          after-IsTree s1 t1 p (suc n) name kind cs fresh childless at1 big free inside,
          Keeps-trans s.inodes s1.inodes
              (after s1 t1 p (suc n) name kind cs fresh childless at1 big free inside) k
              (after-Keeps s1 t1 p (suc n) name kind cs fresh childless at1 big free inside),
          ap (λ (x : Inode). x.parent)
              (after_self s1 t1 p (suc n) name kind cs fresh childless at1 big free inside),
          ap (λ (x : Inode). x.name)
              (after_self s1 t1 p (suc n) name kind cs fresh childless at1 big free inside),
          ap (λ (x : Inode). x.kind)
              (after_self s1 t1 p (suc n) name kind cs fresh childless at1 big free inside),
          (λ e. omega (arith, big, e)),
          Keeps-unlinked s.inodes s1.inodes (suc n) k free,
        )

    added_lem :
        (s1 : InodeSet) (n : ℕ) (a : Bool × List Bool)
        → IsTree s1
        → Keeps s.inodes s1.inodes
        → 2 ≤ suc n
        → is_linked (s1.inodes (suc n)).kind ≡ false
        → suc n < s1.inodes_len
        → Appended s p name kind (append_added kind p name (suc n) (added s1 p (suc n) a))
    added_lem s1 n (false, bs) t1 k big free inside = λ ne. absurd (ne refl)
    added_lem s1 n (true, bs) t1 k big free inside =
        named_lem s1 n bs (alloc bs) t1 k big free inside

    placed : (r : ℕ × InodeSet) → Free s r → Appended s p name kind (append_at kind p name r)
    placed (zero, s1) fr = λ ne. absurd (ne refl)
    placed (suc n, s1) fr =
        let (t1, k, big, free, inside) = fr (λ e. omega (arith, e)) in
        added_lem s1 n (alloc s1.allocs) t1 k big free inside
