-- ===== src/Text/Path.antt =====
-- path/filepath on Unix: Clean, Join of two elements, and Base.
use mathlib.Core.List.{reverse}
use pi_bully.Prelude.{
  ℕ, ◌≡◌, refl, Bool, true, false, ◌||◌, List, [], ◌∷◌, ◌++◌, ◌==◌, if◌then◌else◌,
}
use pi_bully.Text.{Text, codes, text_eq, is_empty}
use pi_bully.Text.Split.{split, join}

abbrev slash : ℕ
slash = b'/'

abbrev is_rooted : Text → Bool
is_rooted [] = false
is_rooted (c ∷ s) = c == slash

-- `..` goes up, above the root nowhere, and stays in front of a relative path.
abbrev up : Bool → List Text → List Text
up true [] = []
up false [] = codes ".." ∷ []
up rooted (d ∷ done) = if text_eq d (codes "..") then codes ".." ∷ d ∷ done else done

-- The elements that are left, the last one first.
unfoldable pub clean_elements : Bool → List Text → List Text → List Text
clean_elements rooted done [] = done
clean_elements rooted done (p ∷ parts) =
    clean_elements rooted
      (if is_empty p || text_eq p (codes ".")
        then done
        else (if text_eq p (codes "..") then up rooted done else p ∷ done))
      parts

abbrev or_dot : Text → Text
or_dot [] = codes "."
or_dot (c ∷ s) = c ∷ s

-- `filepath.Clean`
unfoldable pub clean : Text → Text
unfolding clean_elements split join
clean path =
    let rooted = is_rooted path in
    let elements = join slash (reverse (clean_elements rooted [] (split slash path))) in
    if rooted then slash ∷ elements else or_dot elements

-- `filepath.Join(a, b)`
unfoldable pub join_path : Text → Text → Text
unfolding clean
join_path [] [] = []
join_path [] (c ∷ b) = clean (c ∷ b)
join_path (c ∷ a) b = clean ((c ∷ a) ++ slash ∷ b)

unfoldable pub drop_slashes : Text → Text
drop_slashes [] = []
drop_slashes (c ∷ s) = let rest = drop_slashes s in if c == slash then rest else c ∷ s

unfoldable pub before_slash : Text → Text
before_slash [] = []
before_slash (c ∷ s) = let rest = before_slash s in if c == slash then [] else c ∷ rest

abbrev last_element : Text → Text
last_element [] = codes "/"
last_element (c ∷ s) = reverse (before_slash (c ∷ s))

-- `filepath.Base`
unfoldable pub base : Text → Text
unfolding drop_slashes before_slash
base [] = codes "."
base (c ∷ s) = last_element (drop_slashes (reverse (c ∷ s)))

base_uri : base (codes "s3://bucket/out/movie.mp4") ≡ codes "movie.mp4"
unfolding base
base_uri = refl

join_path_up : join_path (codes "/tmp/task-1") (codes "..") ≡ codes "/tmp"
unfolding join_path
join_path_up = refl

join_path_down : join_path (codes "/tmp/task-1") (codes "input") ≡ codes "/tmp/task-1/input"
unfolding join_path
join_path_down = refl
