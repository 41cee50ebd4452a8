-- ===== src/Migrate.antt =====
-- payflow-app/internal/migrate/migrate.go: the embedded SQL files, run at every start of cmd/api.
pub mod Restart
pub mod Order
use payflow_payments_ops_pla.Base.{
  ℕ, Bool, true, false, not, ◌&&◌, ◌||◌, Option, none, some, List, [], ◌∷◌, ltb, ◌==◌,
  if◌then◌else◌,
}
use payflow_payments_ops_pla.Text.{Text, text_eq, is_empty, codes, trim_space}

-- An entry under sql/; `body` is `none` where reading it fails.
pub record File : Type 0 where
  pub path : Text
  pub is_dir : Bool
  pub body : Option Text

-- strings.HasSuffix.
unfoldable pub has_suffix : Text → Text → Bool
has_suffix [] suffix = is_empty suffix
has_suffix (c ∷ t) suffix = let rest = has_suffix t suffix in text_eq (c ∷ t) suffix || rest

-- The files that the walk keeps.
abbrev pub is_up : File → Bool
is_up f = not f.is_dir && has_suffix f.path (codes ".up.sql")

unfoldable pub ups : List File → List File
ups [] = []
ups (f ∷ fs) = let rest = ups fs in if is_up f then f ∷ rest else rest

-- The order of Go's strings.
unfoldable pub text_le : Text → Text → Bool
text_le [] b = true
text_le (x ∷ a) [] = false
text_le (x ∷ a) (y ∷ b) = let rest = text_le a b in if ltb x y then true else (x == y) && rest

-- sort.Strings, with the file of each path.
abbrev pub insert_path : File → List File → List File
insert_path f [] = f ∷ []
insert_path f (g ∷ gs) =
    let rest = insert_path f gs in if text_le f.path g.path then f ∷ g ∷ gs else g ∷ rest

unfoldable pub sort_paths : List File → List File
unfolding text_le
sort_paths [] = []
sort_paths (f ∷ fs) = insert_path f (sort_paths fs)

-- What Up returns: nil, or an error with the path.
pub data Outcome : Type 0 where
  applied : Outcome
  walk_failed : Outcome
  read_failed exec_failed : Text → Outcome

-- `exec` is pool.Exec of a script: the database afterwards, or `none` where the script fails, which
-- rolls it back.
module _ {D : Type 0} (exec : Text → D → Option D) where
  -- The loop of Up: the files in order, until one fails.
  unfoldable pub apply_all : List File → D → Outcome × D
  apply_all [] db = (applied, db)
  apply_all (f ∷ fs) db = elim f.body [
    | none ↦ (read_failed f.path, db)
    | some body ↦
        let sql = trim_space body in
        elim (is_empty sql) [
          | true ↦ apply_all fs db
          | false ↦ elim (exec sql db) [
            | none ↦ (exec_failed f.path, db)
            | some db' ↦ apply_all fs db'
          ]
        ]
  ]

  -- Up; the walk is `none` where it fails.
  unfoldable pub up : Option (List File) → D → Outcome × D
  up none db = (walk_failed, db)
  up (some files) db = apply_all (sort_paths (ups files)) db
