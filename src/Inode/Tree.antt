-- ===== src/Inode/Tree.antt =====
-- When the inodes of src/fs-inode.c are a tree, and what the names from its root are.
use everarch.Prelude.{
  ℕ, ◌≤◌, ◌≡◌, ◌≢◌, ◌⊎◌, inl, inr, refl, sym, ap, subst, ◌∙◌, Bool, true, false, List, [], ◌∷◌,
  ◌++◌,
}
use everarch.Inode.{Kind, dir, Inode, InodeSet, root_id, is_linked, children_of}

abbrev pub IsIn : ℕ → List ℕ → Type 0
IsIn c [] = ⊥
IsIn c (x ∷ xs) = (c ≡ x) ⊎ IsIn c xs

pub IsIn-snoc : (c n : ℕ) (xs : List ℕ) → IsIn c (xs ++ (n ∷ [])) → IsIn c xs ⊎ (c ≡ n)
IsIn-snoc c n [] (inl e) = inr e
IsIn-snoc c n [] (inr z) = absurd z
IsIn-snoc c n (x ∷ xs) (inl e) = inl (inl e)
IsIn-snoc c n (x ∷ xs) (inr h) = elim (IsIn-snoc c n xs h) [ inl a ↦ inl (inr a) | inr e ↦ inr e ]

abbrev pub Linked : (ℕ → Inode) → ℕ → Type 0
Linked f n = is_linked (f n).kind ≡ true

abbrev pub is_dir : Kind → Bool
is_dir (dir children) = true
is_dir _ = false

-- The array is a tree: what a directory lists is linked and names the directory as its parent, and
-- each linked inode but the root is listed by its parent.
pub record IsTree (s : InodeSet) : Type 0 where
  pub long : 2 ≤ s.inodes_len
  pub beyond : (n : ℕ) → s.inodes_len ≤ n → is_linked (s.inodes n).kind ≡ false
  pub root : Linked s.inodes root_id
  pub parent : (p c : ℕ) → IsIn c (children_of (s.inodes p).kind) → (s.inodes c).parent ≡ p
  pub linked : (p c : ℕ) → IsIn c (children_of (s.inodes p).kind) → Linked s.inodes c
  pub below_root : (p : ℕ) → IsIn root_id (children_of (s.inodes p).kind) → ⊥
  pub root_dir : is_dir (s.inodes root_id).kind ≡ true
  pub listed :
      (n : ℕ)
      → Linked s.inodes n
      → n ≢ root_id
      → IsIn n (children_of (s.inodes (s.inodes n).parent).kind)

-- The names from the root down to the inode.
pub data Spelled (f : ℕ → Inode) : ℕ → List (List ℕ) → Type 0 where
  at_root : {n : ℕ} → n ≡ root_id → Spelled f n []
  below :
      {n p : ℕ} {names all : List (List ℕ)}
      → (f n).parent ≡ p
      → Linked f n
      → n ≢ root_id
      → Spelled f p names
      → all ≡ names ++ ((f n).name ∷ [])
      → Spelled f n all

-- What became of a linked inode: it is linked, with its parent, its name and all of its children.
pub record Kept (x y : Inode) : Type 0 where
  pub parent : y.parent ≡ x.parent
  pub name : y.name ≡ x.name
  pub linked : is_linked y.kind ≡ true
  pub dir : is_dir x.kind ≡ true → is_dir y.kind ≡ true
  pub children : (c : ℕ) → IsIn c (children_of x.kind) → IsIn c (children_of y.kind)

-- What is linked stays linked, with its parent, its name and its children.
abbrev pub Keeps : (ℕ → Inode) → (ℕ → Inode) → Type 0
Keeps f g = (j : ℕ) → Linked f j → Kept (f j) (g j)

pub same-Kept : (x y : Inode) → y ≡ x → is_linked x.kind ≡ true → Kept x y
same-Kept x y e l =
    subst (Kept x) (sym e)
      (record { parent = refl; name = refl; linked = l; dir = λ d. d; children = λ c h. h })

pub Keeps-trans : (f g h : ℕ → Inode) → Keeps f g → Keeps g h → Keeps f h
Keeps-trans f g h a b j l =
    let k = a j l in
    let m = b j k.linked in
    record {
      parent = m.parent ∙ k.parent;
      name = m.name ∙ k.name;
      linked = m.linked;
      dir = λ d. m.dir (k.dir d);
      children = λ c i. m.children c (k.children c i);
    }

-- What was not linked in the end was not linked before.
pub Keeps-unlinked :
    (f g : ℕ → Inode) (n : ℕ) → Keeps f g → (is_linked (g n).kind ≡ false) → ¬ (Linked f n)
Keeps-unlinked f g n k u l = let m = (k n l).linked in cc (u, m)

pub Spelled-Keeps :
    (f g : ℕ → Inode) (n : ℕ) (names : List (List ℕ))
    → Keeps f g
    → Spelled f n names
    → Spelled g n names
Spelled-Keeps f g n names k (at_root e) = at_root e
Spelled-Keeps f g n all k (below {names = names} p l ne sp e) =
    let m = k n l in
    below (m.parent ∙ p) m.linked ne (Spelled-Keeps f g _ names k sp)
      (e ∙ ap (λ x. names ++ (x ∷ [])) (sym m.name))
