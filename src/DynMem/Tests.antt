-- ===== src/DynMem/Tests.antt =====
-- A small dynamic array for the theorems on src/dyn-mem.c.
use everarch.Prelude.{ℕ, Bool, true, [], ◌∷◌, ◌==◌}
use everarch.DynMem.{DynamicArray, write_n_dynamic_array}
use everarch.DynMem.Laws.{WriteEnds, write_n_dynamic_array_lem}

abbrev array : DynamicArray
array = record { size_allocated = 4; bytes = 1 ∷ 2 ∷ 32 ∷ [] }

write_n_dynamic_array_lem_example :
    WriteEnds true array (7 ∷ 8 ∷ []) (write_n_dynamic_array true array (7 ∷ 8 ∷ []))
write_n_dynamic_array_lem_example = write_n_dynamic_array_lem array (7 ∷ 8 ∷ []) true

abbrev is_space : ℕ → Bool
is_space c = c == 32
