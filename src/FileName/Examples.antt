-- ===== src/FileName/Examples.antt =====
-- The names of the files with the number 1234567 in "/d".
use am_kv.Prelude.{◌∷◌, [], arith}
use am_kv.FileName.RoundTrip.{AreParsed, parse_file_name-basename}

parse_file_name-basename_example : AreParsed (47 ∷ 100 ∷ []) 1234567
parse_file_name-basename_example = parse_file_name-basename (47 ∷ 100 ∷ []) 1234567 (omega arith)
