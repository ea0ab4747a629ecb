-- ===== src/Configp/Tests.antt =====
-- Concrete configuration files for the theorems on the configuration parser.
use everarch.Prelude.{
  ℕ, ◌≡◌, refl, true, false, Option, none, some, List, [], ◌∷◌, ◌++◌, All, arith, codes,
}
use everarch.Bytes.{◌>>=◌}
use everarch.Files.{give, Source}
use everarch.Configp.{
  Options, end_value, run, finish, initial, configp_parse_file, missing, readable, configp_parse,
}
use everarch.Configp.Bounds.{IsValid, HasRoom, run-IsValid, OnSome}
use everarch.Configp.Loop.{configp_parse_file_whole}
use everarch.Configp.Lines.{
  Line, option_line, comment_line, blank_line, render_all, apply_all, configp_parse_file_lines,
  IsLine,
}

abbrev options : Options
options = (codes "host", 104) ∷ (codes "port", 112) ∷ []

-- An option parser that keeps what it is given, and refuses an empty value.
abbrev keep : ℕ → List ℕ → List (ℕ × List ℕ) → Option (List (ℕ × List ℕ))
keep opt_key [] input = none
keep opt_key (v ∷ val) input = some (input ++ ((opt_key, v ∷ val) ∷ []))

abbrev lines : List Line
lines =
    comment_line (codes " glacier")
    ∷ option_line b'h' (codes "ost") (codes "10.0.0.7") true
    ∷ blank_line
    ∷ option_line b'p' (codes "ort") (codes "2361") false
    ∷ []

-- the file with reads of 7 and of 3 bytes
abbrev file : Source
file = record {
  bytes = codes "# glacier\nhost = 10.0.0.7\n\nport=2361\n";
  grants = give 6 ∷ give 2 ∷ [];
}

lines_valid : All IsLine lines
lines_valid = ground arith

rendered : codes "# glacier\nhost = 10.0.0.7\n\nport=2361\n" ≡ render_all lines
unfolding render_all
rendered = refl

parsed :
    configp_parse options keep (missing ∷ readable file ∷ []) []
    ≡ some ((104, codes "10.0.0.7") ∷ (112, codes "2361") ∷ [])
unfolding configp_parse end_value
parsed = refl

run-IsValid_example :
    OnSome
      (λ p. IsValid p × ((b : ℕ) → HasRoom options keep p b))
      (run options keep (initial options keep []) (codes "port=23"))
run-IsValid_example = run-IsValid options keep [] (codes "port=23")

configp_parse_file_whole_example : configp_parse_file options keep file [] ≡ (
    run options keep (initial options keep []) (codes "# glacier\nhost = 10.0.0.7\n\nport=2361\n")
    >>= (λ t. finish options keep t))
configp_parse_file_whole_example = configp_parse_file_whole options keep file [] (omega arith)

configp_parse_file_lines_example :
    configp_parse_file options keep file [] ≡ apply_all options keep lines []
configp_parse_file_lines_example =
    configp_parse_file_lines options keep lines file [] lines_valid (omega arith) rendered
