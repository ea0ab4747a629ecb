-- ===== src/Inode/Create.antt =====
-- `evr_inode_create_file` of src/fs-inode.c gives the file the path that it was asked for.
use everarch.Prelude.{
  ℕ, zero, suc, ◌≡◌, ◌≢◌, inl, inr, refl, sym, ap, subst, ◌∙◌, Bool, true, false, none, List, [],
  ◌∷◌, ◌++◌, arith, if◌then◌else◌, ◌==◌, Bool-cases, append_assoc,
}
use everarch.Inode.{
  Kind, unlinked, dir, file, status_online, Inode, InodeSet, root_id, is_linked, children_of,
  is_dir_named, get_child_dir, append, append_dir, append_file, enter_found, enter, entered,
  create_from, create_file,
}
use everarch.Keys.TinySet.Spec.{ref_eq_iff}
use everarch.Inode.Tree.{
  IsIn, Linked, IsTree, is_dir, Spelled, at_root, below, Keeps, same-Kept, Keeps-trans,
  Spelled-Keeps,
}
use everarch.Inode.Append.{Appended, append-Appended}

get_child_lem :
    (f : ℕ → Inode) (name cs : List ℕ)
    → get_child_dir f name cs ≢ 0
    → IsIn (get_child_dir f name cs) cs
      × ((f (get_child_dir f name cs)).name ≡ name)
      × (is_dir (f (get_child_dir f name cs)).kind ≡ true)
unfolding get_child_dir
get_child_lem f name [] = λ ne. absurd (ne refl)
get_child_lem f name (c ∷ cs) =
    split (λ ne. get_child_lem f name cs ne) (is_dir_named name (f c).kind (f c).name) refl
  where
    same :
        (k : Kind) (own : List ℕ)
        → is_dir_named name k own ≡ true
        → (own ≡ name) × (is_dir k ≡ true)
    same (dir xs) own e = (sym ((ref_eq_iff name own).0 e), refl)
    same unlinked own e = cc
    same (file x) own e = cc
    same status_online own e = cc

    split :
        (get_child_dir f name cs ≢ 0
          → IsIn (get_child_dir f name cs) cs
            × ((f (get_child_dir f name cs)).name ≡ name)
            × (is_dir (f (get_child_dir f name cs)).kind ≡ true))
        → (b : Bool) → is_dir_named name (f c).kind (f c).name ≡ b
        → (if b then c else get_child_dir f name cs) ≢ 0
        → IsIn (if b then c else get_child_dir f name cs) (c ∷ cs)
          × ((f (if b then c else get_child_dir f name cs)).name ≡ name)
          × (is_dir (f (if b then c else get_child_dir f name cs)).kind ≡ true)
    split ih true e ne = let (nm, d) = same (f c).kind (f c).name e in (inl refl, nm, d)
    split ih false e ne = let (a, b, d) = ih ne in (inr a, b, d)

-- the path cut at its slashes, where `name` stands in front of it
unfoldable pub segments : List ℕ → List ℕ → List (List ℕ)
segments name [] = name ∷ []
segments name (c ∷ cs) =
    let cut = name ∷ segments [] cs in
    let rest = segments (name ++ (c ∷ [])) cs in if c == b'/' then cut else rest

-- What a successful call leaves at the inode that it returns.
abbrev Reached : (InodeSet → ℕ → Kind → Type 0) → InodeSet → List (List ℕ) → ℕ × InodeSet → Type 0
Reached K s names (n, t) =
    n ≢ 0 → IsTree t × Keeps s.inodes t.inodes × Spelled t.inodes n names × K s n (t.inodes n).kind

abbrev IsDir : InodeSet → ℕ → Kind → Type 0
IsDir s n k = is_dir k ≡ true

abbrev IsNewFile : InodeSet → ℕ → Kind → Type 0
IsNewFile s n k = (k ≡ file none) × ¬ (Linked s.inodes n)

Appended-Reached :
    (K : InodeSet → ℕ → Kind → Type 0) (kind : Kind) (s : InodeSet) (p : ℕ) (name : List ℕ)
    (names : List (List ℕ)) (r : ℕ × InodeSet)
    → is_linked kind ≡ true
    → ((m : ℕ) → ¬ (Linked s.inodes m) → K s m kind)
    → Spelled s.inodes p names
    → Appended s p name kind r
    → Reached K s (names ++ (name ∷ [])) r
Appended-Reached K kind s p name names (n, u) fresh k sp a = λ ne.
    let (t, keeps, par, nam, kin, root, new) = a ne in
    (
      t,
      keeps,
      below par (ap is_linked kin ∙ fresh) root (Spelled-Keeps s.inodes u.inodes p names keeps sp)
          (ap (λ x. names ++ (x ∷ [])) (sym nam)),
      subst (K s n) (sym kin) (k n new),
    )

enter-Reached :
    (s : InodeSet) (n : ℕ) (name : List ℕ) (names : List (List ℕ))
    → IsTree s
    → is_dir (s.inodes n).kind ≡ true
    → Spelled s.inodes n names
    → Reached IsDir s (names ++ (name ∷ [])) (enter s n name)
unfolding enter append_dir enter_found
enter-Reached s n name names t at sp =
    split (get_child_dir s.inodes name (children_of (s.inodes n).kind)) refl
  where
    split :
        (c : ℕ)
        → get_child_dir s.inodes name (children_of (s.inodes n).kind) ≡ c
        → Reached IsDir s (names ++ (name ∷ [])) (enter_found s n name c)
    split zero e =
        Appended-Reached IsDir (dir []) s n name names (append (dir []) s n name) refl (λ m _. refl)
          sp (append-Appended (dir []) s n name refl refl t at)
    split (suc c) e = λ ne.
        let (i, nm, d) =
          get_child_lem s.inodes name (children_of (s.inodes n).kind) (λ z. ne (sym e ∙ z)) in
        let j : IsIn (suc c) (children_of (s.inodes n).kind) =
          subst (λ x. IsIn x (children_of (s.inodes n).kind)) e i in
        (
          t,
          (λ k l. same-Kept (s.inodes k) (s.inodes k) refl l),
          below (t.parent n (suc c) j) (t.linked n (suc c) j)
              (λ r. t.below_root n (subst (λ x. IsIn x (children_of (s.inodes n).kind)) r j)) sp
              (ap (λ x. names ++ (x ∷ [])) (sym nm ∙ ap (λ x. (s.inodes x).name) e)),
          sym (ap (λ x. is_dir (s.inodes x).kind) e) ∙ d,
        )

entered-Reached :
    (recur : InodeSet → ℕ → ℕ × InodeSet) (s : InodeSet) (names more : List (List ℕ))
    (r : ℕ × InodeSet)
    → Reached IsDir s names r
    → ((u : InodeSet) (m : ℕ)
        → IsTree u
        → is_dir (u.inodes m).kind ≡ true
        → Spelled u.inodes m names
        → Reached IsNewFile u more (recur u m))
    → Reached IsNewFile s more (entered recur r)
entered-Reached recur s names more (zero, u) a ih = λ ne. absurd (ne refl)
entered-Reached recur s names more (suc m, u) a ih = λ ne.
    let (t, k, sp, at) = a (λ e. omega (arith, e)) in
    let (t', k', sp', (f, new)) = ih u (suc m) t at sp ne in
    (
      t',
      Keeps-trans s.inodes u.inodes (recur u (suc m)).1.inodes k k',
      sp',
      (f, λ l. new ((k (recur u (suc m)).0 l).linked)),
    )

create_from-Reached :
    (path : List ℕ) (s : InodeSet) (n : ℕ) (name : List ℕ) (names : List (List ℕ))
    → IsTree s
    → is_dir (s.inodes n).kind ≡ true
    → Spelled s.inodes n names
    → Reached IsNewFile s (names ++ segments name path) (create_from s n name path)
unfolding create_from segments append_file
create_from-Reached [] s n name names t at sp =
    Appended-Reached IsNewFile (file none) s n name names (append (file none) s n name) refl
      (λ m new. (refl, new)) sp (append-Appended (file none) s n name refl refl t at)
create_from-Reached (c ∷ cs) s n name names t at sp = elim (Bool-cases (c == b'/')) [
  | inl e ↦
      subst
        (λ b.
          Reached IsNewFile s
            (names ++ (if b then name ∷ segments [] cs else segments (name ++ (c ∷ [])) cs))
            (if b
              then entered (λ u m. create_from u m [] cs) (enter s n name)
              else create_from s n (name ++ (c ∷ [])) cs))
        (sym e)
        (entered-Reached (λ u m. create_from u m [] cs) s (names ++ (name ∷ []))
          (names ++ (name ∷ segments [] cs)) (enter s n name) (enter-Reached s n name names t at sp)
          (λ u m tu au su.
            subst (λ ns. Reached IsNewFile u ns (create_from u m [] cs))
              (append_assoc names (name ∷ []) (segments [] cs))
              (create_from-Reached cs u m [] (names ++ (name ∷ [])) tu au su)))
  | inr e ↦
      subst
        (λ b.
          Reached IsNewFile s
            (names ++ (if b then name ∷ segments [] cs else segments (name ++ (c ∷ [])) cs))
            (if b
              then entered (λ u m. create_from u m [] cs) (enter s n name)
              else create_from s n (name ++ (c ∷ [])) cs))
        (sym e) (create_from-Reached cs s n (name ++ (c ∷ [])) names t at sp)
]

-- The new file stands at its path in a sound tree, below directories that list it, at a place where
-- nothing was, and what was linked is as it was.
abbrev pub Created : InodeSet → List (List ℕ) → ℕ × InodeSet → Type 0
Created s names (n, t) =
    IsTree t
    × Keeps s.inodes t.inodes
    × Spelled t.inodes n names
    × ((t.inodes n).kind ≡ file none)
    × ¬ (Linked s.inodes n)
    × IsIn n (children_of (t.inodes (t.inodes n).parent).kind)

not_root : (f : ℕ → Inode) (n : ℕ) → Linked f root_id → ¬ (Linked f n) → n ≢ root_id
not_root f n l new e = new (subst (Linked f) (sym e) l)

-- On a sound tree, where each linked inode but the root is listed by its parent, a call that does not
-- return 0 returns a new file, which was not linked before. Its names, from the root down, are the
-- path cut at its slashes, and its directory lists it. The tree is sound again, and every inode that
-- was linked still is, with the parent, the name and the children it had. Which allocations fail does
-- not matter, as long as the call succeeds.
pub create_file_lem :
    (s : InodeSet) (file_path : List ℕ)
    → IsTree s
    → (create_file s file_path).0 ≢ 0
    → Created s (segments [] file_path) (create_file s file_path)
unfolding create_file
create_file_lem s file_path t ne =
    let r : ℕ × InodeSet = create_from s root_id [] file_path in
    let (u, k, sp, (kin, new)) =
      create_from-Reached file_path s root_id [] [] t t.root_dir (at_root refl) ne in
    (u, k, sp, kin, new, u.listed r.0 (ap is_linked kin) (not_root s.inodes r.0 t.root new))
