-- ===== src/Keys/Tests.antt =====
-- Concrete refs for the theorems on src/keys.c.
use everarch.Prelude.{ℕ, ◌≡◌, refl, ◌||◌, ◌&&◌, List, ◌∷◌, arith, replicate, All}
use everarch.Bytes.{IsByte}
use everarch.Errors.{ok, is_ok}
use everarch.Keys.{fmt_blob_ref, parse_blob_ref}
use everarch.Keys.BlobRef.{parse-fmt_blob_ref}
use everarch.Keys.TinySet.{ref_eq, create, contains, add}
use everarch.Keys.TinySet.Spec.{create-IsValid, IsValid, add_status, add_refines}

abbrev ref : List ℕ
ref = 3 ∷ 171 ∷ replicate 26 250

abbrev cells : List ℕ
cells = replicate 28 0

ref-IsByte : All IsByte ref
ref-IsByte = ground arith

parse-fmt_blob_ref_example : parse_blob_ref cells (fmt_blob_ref ref) ≡ (ok, ref)
parse-fmt_blob_ref_example = parse-fmt_blob_ref cells ref refl refl ref-IsByte

abbrev no_ref : List ℕ
no_ref = replicate 65 b'x'

add_refines_example :
    let (st, s) = add (create 4) ref in
    (st ≡ add_status (create 4) ref)
    × ((r : List ℕ)
        → contains s.refs r ≡ (contains (create 4).refs r || (is_ok st && ref_eq r ref)))
    × IsValid s
add_refines_example = add_refines (create 4) ref (create-IsValid 4) (omega arith)
