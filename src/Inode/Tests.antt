-- ===== src/Inode/Tests.antt =====
-- A first file for the theorem on the inodes.
use everarch.Prelude.{
  ℕ, none, ◌≡◌, refl, ap, Bool, true, false, List, [], ◌∷◌, arith, codes, if◌then◌else◌, ◌==◌,
  ne→==, ==_iff, ◌≢◌,
}
use everarch.Inode.{
  Inode, InodeSet, dir, root_id, free_inode, init_inode_set, is_linked, children_of, create_file,
  file, append, get_available,
}
use everarch.Inode.AppendFails.{Dangles, append_strdup_fails}
use everarch.Inode.Tree.{IsIn, IsTree}
use everarch.Inode.Create.{Created, segments, create_file_lem}

-- The first inodes are a tree with the root alone.
init-IsTree : (allocs : List Bool) → IsTree (init_inode_set allocs)
unfolding init_inode_set
init-IsTree allocs = record {
  long = omega arith;
  beyond = λ n le.
      ap (λ b. is_linked (if b then top else free_inode).kind)
        (ne→== n root_id (λ e. omega (arith, le, e)));
  root = refl;
  parent = λ p c h. absurd (empty (p == root_id) c h);
  linked = λ p c h. absurd (empty (p == root_id) c h);
  below_root = λ p h. empty (p == root_id) root_id h;
  root_dir = refl;
  listed = λ n l ne. absurd (alone (n == root_id) (λ e. ne ((==_iff n root_id).0 e)) l);
}
  where
    top : Inode
    top = record { parent = root_id; name = []; kind = dir [] }

    empty : (b : Bool) (c : ℕ) → IsIn c (children_of (if b then top else free_inode).kind) → ⊥
    empty true c h = h
    empty false c h = h

    alone : (b : Bool) → b ≢ true → is_linked (if b then top else free_inode).kind ≡ true → ⊥
    alone true ne l = ne refl
    alone false ne l = cc

-- the new directory and the file in it
created : (create_file (init_inode_set []) (codes "a/bc")).0 ≡ 3
unfolding create_file init_inode_set
created = refl

create_file_lem_example :
    Created
      (init_inode_set [])
      (segments [] (codes "a/bc"))
      (create_file (init_inode_set []) (codes "a/bc"))
create_file_lem_example =
    create_file_lem (init_inode_set []) (codes "a/bc") (init-IsTree [])
      (λ e. omega (arith, created, e))

-- strdup fails for the name of the first file
abbrev short : InodeSet
short = init_inode_set (true ∷ false ∷ [])

append_strdup_fails_example :
    ((append (file none) short root_id (codes "a")).0 ≡ 0)
    × Dangles (append (file none) short root_id (codes "a")).1 root_id 2
    × ¬ (IsTree (append (file none) short root_id (codes "a")).1)
unfolding init_inode_set get_available
append_strdup_fails_example =
    append_strdup_fails (file none) short short root_id 1 (codes "a") []
      (init-IsTree (true ∷ false ∷ [])) refl refl refl
