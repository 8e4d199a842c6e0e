-- ===== src/Tests/Disk.antt =====
-- Runs of the file server at concrete inputs.
use compio_pool.Prelude.{
  ℕ, zero, suc, ◌<◌, Bool-cases, Bool, true, false, Option, some, ◌⊎◌, inl, inr, ◌≡◌, refl, arith,
  List, [], ◌∷◌, ◌++◌, if◌then◌else◌,
}
use compio_pool.Prelude.Text.{codes, same_text, same_text_lem, decimal, emit, trim_end_newline}
use compio_pool.Files.{File, Turn, has_slash, has_dots, serve}
use compio_pool.Files.Whole.{
  IsRead, IsFile, whole_file, not_inside, closed, asked, serve-AllAnswered,
}
use compio_pool.Files.Names.{IsOutside, slash, bad_name-IsOutside}
use compio_pool.Files.Inside.{IsInside, serve_inside}

abbrev all_text : List ℕ → Bool
all_text req = true

-- A file "a" of two bytes, read one at a time.
abbrev read_one : ℕ → Option (List ℕ)
read_one zero = some (b'x' ∷ [])
read_one (suc zero) = some (b'y' ∷ [])
read_one (suc (suc n)) = some []

abbrev file_a : File
file_a = record { metadata = inr 2; read_at = read_one }

file_a-IsFile : IsFile file_a (codes "xy")
file_a-IsFile = record {
  metadata = refl;
  reads = λ offset lt. reads_of offset lt;
  fits = omega arith;
}
  where
    reads_of : (offset : ℕ) → offset < 2 → IsRead (codes "xy") offset (read_one offset)
    reads_of zero lt = record { first = b'x'; bytes = []; same = refl; there = refl }
    reads_of (suc zero) lt = record { first = b'y'; bytes = []; same = refl; there = refl }
    reads_of (suc (suc n)) lt = absurd (omega arith)

abbrev directory : List ℕ → List ℕ ⊎ File
directory name = if same_text name (codes "a") then inr file_a else inl (codes "absent")

-- A directory beside which a secret stands.
abbrev with_secret : List ℕ → List ℕ ⊎ File
with_secret name = if same_text name (codes "../s") then inr file_a else directory name

abbrev requests : List Turn
requests =
    record { read = some (b'a', 10 ∷ []); leased = true }
    ∷ record { read = some (b'.', codes "./s" ++ (10 ∷ [])); leased = true }
    ∷ []

a_inside : ¬ IsOutside (codes "a")
unfolding has_slash has_dots
a_inside o = cc (bad_name-IsOutside (codes "a") o)

serve-AllAnswered_example :
    (serve all_text directory requests []).bytes
    ≡ codes "2" ++ (10 ∷ (codes "xyERR bad name" ++ (10 ∷ [])))
unfolding trim_end_newline has_slash has_dots decimal emit
serve-AllAnswered_example = serve-AllAnswered all_text directory (
    asked (whole_file refl a_inside refl file_a-IsFile)
      (asked (not_inside refl (slash (codes "..") (codes "s"))) closed))

same_inside : (name : List ℕ) → IsInside name → directory name ≡ with_secret name
same_inside name inside = elim (Bool-cases (same_text name (codes "../s"))) [
  | inl up ↦
      absurd (inside.one_component (codes "..") (codes "s") (same_text_lem name (codes "../s") up))
  | inr other ↦ rw (other) refl
]

serve_inside_example :
    serve all_text directory requests (true ∷ false ∷ [])
    ≡ serve all_text with_secret requests (true ∷ false ∷ [])
serve_inside_example =
    serve_inside all_text directory with_secret same_inside requests (true ∷ false ∷ [])
