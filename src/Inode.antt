-- ===== src/Inode.antt =====
-- The inodes of src/fs-inode.c. The array is a function with its length; behind the length all inodes
-- are unlinked. `allocs` says of the coming calls of malloc, realloc and strdup whether they succeed.
-- The times of an inode are not modelled.
pub mod Tree
mod Slot
mod Append
pub mod Create
pub mod AppendFails
mod Tests
use everarch.Prelude.{
  ℕ, zero, suc, ◌+◌, ◌-◌, ◌*◌, Bool, true, false, ◌||◌, Option, none, some, List, [], ◌∷◌, ◌++◌,
  if◌then◌else◌, ◌==◌, ltb, update, is_zero,
}
use everarch.Keys.TinySet.{ref_eq, contains}

pub record FileNode : Type 0 where
  pub seed : List ℕ
  pub dependent_seeds : List (List ℕ)

-- A file that was only just created has nothing in its part of the union yet.
pub data Kind : Type 0 where
  unlinked : Kind
  dir : List ℕ → Kind
  file : Option FileNode → Kind
  status_online : Kind

pub record Inode : Type 0 where
  pub parent : ℕ
  pub name : List ℕ
  pub kind : Kind

pub record InodeSet : Type 0 where
  pub inodes : ℕ → Inode
  pub inodes_len : ℕ
  pub allocs : List Bool

-- FUSE_ROOT_ID
abbrev pub root_id : ℕ
root_id = 1

abbrev pub alloc : List Bool → Bool × List Bool
alloc [] = (true, [])
alloc (b ∷ bs) = (b, bs)

abbrev pub free_inode : Inode
free_inode = record { parent = 0; name = []; kind = unlinked }

-- `evr_init_inode_set` with `evr_create_inodes`
unfoldable pub init_inode_set : List Bool → InodeSet
init_inode_set allocs = record {
  inodes = λ n.
      if n == root_id then record { parent = root_id; name = []; kind = dir [] } else free_inode;
  inodes_len = 1024;
  allocs = allocs;
}

abbrev pub is_linked : Kind → Bool
is_linked unlinked = false
is_linked _ = true

abbrev pub children_of : Kind → List ℕ
children_of (dir children) = children
children_of _ = []

abbrev pub is_dir_named : List ℕ → Kind → List ℕ → Bool
is_dir_named name (dir children) own = ref_eq name own
is_dir_named name _ own = false

-- `evr_inode_get_child_dir`, over the children that are left
unfoldable pub get_child_dir : (ℕ → Inode) → List ℕ → List ℕ → ℕ
get_child_dir inodes name [] = 0
get_child_dir inodes name (c ∷ cs) =
    let rest = get_child_dir inodes name cs in
    if is_dir_named name (inodes c).kind (inodes c).name then c else rest

-- the loop of `evr_inode_get_available`, over `count` inodes from `n` on
unfoldable pub find_unlinked : (ℕ → Inode) → ℕ → ℕ → Option ℕ
find_unlinked inodes zero n = none
find_unlinked inodes (suc count) n =
    let rest = find_unlinked inodes count (suc n) in
    if is_linked (inodes n).kind then rest else some n

abbrev pub grown : (ℕ → Inode) → ℕ → ℕ → Inode
grown inodes old_inodes_len n = if ltb n old_inodes_len then inodes n else free_inode

abbrev pub grow : InodeSet → Bool × List Bool → ℕ × InodeSet
grow s (false, bs) = (0, record s { allocs = bs })
grow s (true, bs) = (
  s.inodes_len,
  record s { inodes = grown s.inodes s.inodes_len; inodes_len = s.inodes_len * 2; allocs = bs },
)

abbrev pub available : InodeSet → Option ℕ → ℕ × InodeSet
available s (some n) = (n, s)
available s none = grow s (alloc s.allocs)

unfoldable pub get_available : InodeSet → ℕ × InodeSet
unfolding find_unlinked
get_available s = available s (find_unlinked s.inodes (s.inodes_len - 2) 2)

abbrev pub with_child : Kind → ℕ → Kind
with_child (dir children) child = dir (children ++ (child ∷ []))
with_child k child = k

-- `evr_inode_add_child`
abbrev pub added : InodeSet → ℕ → ℕ → Bool × List Bool → Bool × InodeSet
added s parent child (false, bs) = (false, record s { allocs = bs })
added s parent child (true, bs) = (
  true,
  record s {
    inodes =
        update s.inodes parent
          (record (s.inodes parent) { kind = with_child (s.inodes parent).kind child });
    allocs = bs;
  },
)

unfoldable pub add_child : InodeSet → ℕ → ℕ → Bool × InodeSet
add_child s parent child = added s parent child (alloc s.allocs)

-- the end of `evr_inode_append_dir` and `evr_inode_append_file`, from the strdup on
abbrev pub named : Kind → InodeSet → ℕ → List ℕ → ℕ → Bool × List Bool → ℕ × InodeSet
named kind s parent name n (false, bs) = (
  0,
  record s {
    inodes = update s.inodes n (record (s.inodes n) { parent = parent; name = [] });
    allocs = bs;
  },
)
named kind s parent name n (true, bs) = (
  n,
  record s {
    inodes = update s.inodes n (record { parent = parent; name = name; kind = kind });
    allocs = bs;
  },
)

abbrev pub append_added : Kind → ℕ → List ℕ → ℕ → Bool × InodeSet → ℕ × InodeSet
append_added kind parent name n (false, s) = (0, s)
append_added kind parent name n (true, s) = named kind s parent name n (alloc s.allocs)

abbrev pub append_at : Kind → ℕ → List ℕ → ℕ × InodeSet → ℕ × InodeSet
unfolding add_child
append_at kind parent name (zero, s) = (0, s)
append_at kind parent name (suc n, s) =
    append_added kind parent name (suc n) (add_child s parent (suc n))

unfoldable pub append : Kind → InodeSet → ℕ → List ℕ → ℕ × InodeSet
unfolding get_available append_at
append kind s parent name = append_at kind parent name (get_available s)

-- `evr_inode_append_dir` and `evr_inode_append_file`
abbrev pub append_dir : InodeSet → ℕ → List ℕ → ℕ × InodeSet
unfolding append
append_dir s parent name = append (dir []) s parent name

abbrev pub append_file : InodeSet → ℕ → List ℕ → ℕ × InodeSet
unfolding append
append_file s parent name = append (file none) s parent name

abbrev pub enter_found : InodeSet → ℕ → List ℕ → ℕ → ℕ × InodeSet
unfolding append_dir
enter_found s n name zero = append_dir s n name
enter_found s n name (suc c) = (suc c, s)

abbrev pub enter : InodeSet → ℕ → List ℕ → ℕ × InodeSet
unfolding get_child_dir enter_found
enter s n name = enter_found s n name (get_child_dir s.inodes name (children_of (s.inodes n).kind))

abbrev pub entered : (InodeSet → ℕ → ℕ × InodeSet) → ℕ × InodeSet → ℕ × InodeSet
entered recur (zero, s) = (0, s)
entered recur (suc n, s) = recur s (suc n)

-- `while(1)` of `evr_inode_create_file`; `name` is what stands between `name` and `p_it`
unfoldable pub create_from : InodeSet → ℕ → List ℕ → List ℕ → ℕ × InodeSet
unfolding append_file enter
create_from s n name [] = append_file s n name
create_from s n name (c ∷ cs) =
    let below = entered (λ t m. create_from t m [] cs) (enter s n name) in
    let rest = create_from s n (name ++ (c ∷ [])) cs in if c == b'/' then below else rest

unfoldable pub create_file : InodeSet → List ℕ → ℕ × InodeSet
unfolding create_from
create_file s file_path = create_from s root_id [] file_path
