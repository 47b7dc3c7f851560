-- ===== src/Tests/TextFiles.antt =====
-- A small text file, read in three splits.
use go_spark.Prelude.{ℕ, ◌≡◌, refl, List, [], ◌∷◌, length}
use go_spark.Prelude.Results.{ok, err}
use go_spark.TextInput.{trim_suffix, line_too_long, read_splits, split_text_file}
use go_spark.TextInput.Lines.{text_lines}
use go_spark.TextInput.Whole.{read_splits-text_lines}

-- A line, one that ends in a carriage return, an empty one, and one without a newline.
abbrev bytes : List ℕ
bytes = 97 ∷ 10 ∷ 98 ∷ 99 ∷ 13 ∷ 10 ∷ 10 ∷ 100 ∷ []

four_lines : text_lines 4 bytes ≡ ok ((97 ∷ []) ∷ (98 ∷ 99 ∷ []) ∷ [] ∷ (100 ∷ []) ∷ [])
unfolding trim_suffix
four_lines = refl

long_line : text_lines 3 bytes ≡ err line_too_long
long_line = refl

read_splits-text_lines_example :
    read_splits 4 bytes (split_text_file (length bytes) 3) ≡ text_lines 4 bytes
read_splits-text_lines_example = read_splits-text_lines 4 3 bytes
