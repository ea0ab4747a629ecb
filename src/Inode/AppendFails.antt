-- ===== src/Inode/AppendFails.antt =====
-- `evr_inode_append_dir` and `evr_inode_append_file` of src/fs-inode.c when strdup fails.
use everarch.Prelude.{
  ℕ, suc, ◌≡◌, ◌≢◌, inl, inr, refl, sym, ap, subst, ◌∙◌, Bool, true, false, List, [], ◌∷◌, ◌++◌,
  arith, if◌then◌else◌, ==_iff, ne→==, update,
}
use everarch.Inode.{
  Kind, unlinked, dir, file, status_online, Inode, InodeSet, alloc, is_linked, children_of,
  get_available, with_child, added, add_child, append_added, append_at, append,
}
use everarch.Inode.Tree.{IsIn, IsTree, is_dir}
use everarch.Inode.Append.{is_dir-linked}
use everarch.Inode.Slot.{Free, available-Free}

IsIn-last : (n : ℕ) (cs : List ℕ) → IsIn n (cs ++ (n ∷ []))
IsIn-last n [] = inl refl
IsIn-last n (c ∷ cs) = inr (IsIn-last n cs)

with_child-new : (k : Kind) (n : ℕ) → is_dir k ≡ true → IsIn n (children_of (with_child k n))
with_child-new (dir cs) n e = IsIn-last n cs
with_child-new unlinked n e = cc
with_child-new (file f) n e = cc
with_child-new status_online n e = cc

-- The directory lists the inode, which is not linked.
abbrev pub Dangles : InodeSet → ℕ → ℕ → Type 0
Dangles u p n = IsIn n (children_of (u.inodes p).kind) × (is_linked (u.inodes n).kind ≡ false)

module _ (kind : Kind) (s u : InodeSet) (p n : ℕ) (name : List ℕ) (bs : List Bool) (t : IsTree s)
    (directory : is_dir (s.inodes p).kind ≡ true) (slot : get_available s ≡ (suc n, u))
    (memory : u.allocs ≡ true ∷ false ∷ bs) where
  abbrev listed : Inode
  listed = record (u.inodes p) { kind = with_child (u.inodes p).kind (suc n) }

  abbrev half : Inode
  half = record (update u.inodes p listed (suc n)) { parent = p; name = [] }

  abbrev after : InodeSet
  after = record u { inodes = update (update u.inodes p listed) (suc n) half; allocs = bs }

  handed : Free s (suc n, u)
  handed = subst (Free s) slot (available-Free s t)

  free : is_linked (u.inodes (suc n)).kind ≡ false
  free = (handed (λ e. omega (arith, e))).3

  still_dir : is_dir (u.inodes p).kind ≡ true
  still_dir =
      ((handed (λ e. omega (arith, e))).1 p (is_dir-linked (s.inodes p).kind directory)).dir
        directory

  p_ne : p ≢ suc n
  p_ne e =
      cc (is_dir-linked (u.inodes p).kind still_dir, free, ap (λ x. is_linked (u.inodes x).kind) e)

  half_done : append kind s p name ≡ (0, after)
  unfolding append append_at add_child
  half_done =
      ap (append_at kind p name) slot
      ∙ ap (λ a. append_added kind p name (suc n) (added u p (suc n) (alloc a))) memory

  half_free : is_linked (after.inodes (suc n)).kind ≡ false
  half_free =
      ap (λ b. is_linked (if b then half else update u.inodes p listed (suc n)).kind)
        ((==_iff (suc n) (suc n)).1 refl)
      ∙ ap (λ b. is_linked (if b then listed else u.inodes (suc n)).kind) (ne→== p (suc n) p_ne)
      ∙ free

  half_listed : IsIn (suc n) (children_of (after.inodes p).kind)
  half_listed =
      subst (λ (x : Inode). IsIn (suc n) (children_of x.kind))
        (sym (
          ap (λ b. if b then half else update u.inodes p listed p)
            (ne→== (suc n) p (λ e. p_ne (sym e)))
          ∙ ap (λ b. if b then listed else u.inodes p) ((==_iff p p).1 refl)))
        (with_child-new (u.inodes p).kind (suc n) still_dir)

-- When on a sound tree evr_inode_get_available finds a slot for a new inode of a directory, by
-- growing the array or not, and there is memory for the list of the children, but strdup fails, the
-- call returns 0 and leaves the directory listing the inode of the slot, which is not linked. So the
-- tree is no longer sound.
pub append_strdup_fails :
    (kind : Kind) (s u : InodeSet) (p n : ℕ) (name : List ℕ) (bs : List Bool)
    → IsTree s
    → is_dir (s.inodes p).kind ≡ true
    → get_available s ≡ (suc n, u)
    → u.allocs ≡ true ∷ false ∷ bs
    → ((append kind s p name).0 ≡ 0)
      × Dangles (append kind s p name).1 p (suc n)
      × ¬ (IsTree (append kind s p name).1)
append_strdup_fails kind s u p n name bs t directory slot memory =
    subst (λ r. (r.0 ≡ 0) × Dangles r.1 p (suc n) × ¬ (IsTree r.1))
      (sym (half_done kind s u p n name bs t directory slot memory))
      (refl, (listed, free), λ v. let l = v.linked p (suc n) listed in cc (l, free))
  where
    listed :
        IsIn
          (suc n)
          (children_of ((after kind s u p n name bs t directory slot memory).inodes p).kind)
    listed = half_listed kind s u p n name bs t directory slot memory

    free :
        is_linked ((after kind s u p n name bs t directory slot memory).inodes (suc n)).kind ≡ false
    free = half_free kind s u p n name bs t directory slot memory
