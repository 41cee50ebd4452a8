-- ===== src/Tests/Migrations.antt =====
-- Two migrations with one that is not run, and a database that is the list of its tables.
use payflow_payments_ops_pla.Base.{
  ◌≡◌, refl, sym, subst, true, false, Option, none, some, List, [], ◌∷◌, any, select, take, not,
  ◌==◌, arith, if◌then◌else◌,
}
use payflow_payments_ops_pla.Text.{Text, codes, text_eq, trim_space}
use payflow_payments_ops_pla.Migrate.{
  File, has_suffix, ups, text_le, sort_paths, exec_failed, apply_all, up,
}
use payflow_payments_ops_pla.Migrate.Restart.{MakesOnce, up-again}

abbrev script : Text → Text → File
script path body = record { path = path; is_dir = false; body = some body }

abbrev initial : File
initial = script (codes "sql/1.up.sql") (codes "CREATE TABLE a ();")

abbrev second : File
second = script (codes "sql/2.up.sql") (codes "CREATE TABLE b ();")

abbrev files : List File
files = second ∷ script (codes "sql/1.down.sql") (codes "DROP TABLE a;") ∷ initial ∷ []

-- The first letter after this prefix: the name of a table.
abbrev strip : Text → Text → Option Text
strip [] t = some (take 1 t)
strip (c ∷ p) [] = none
strip (c ∷ p) (d ∷ t) = let rest = strip p t in if c == d then rest else none

-- A database is its tables; CREATE TABLE fails where the table is there, DROP TABLE where it is not.
abbrev exec : Text → List Text → Option (List Text)
exec sql db = elim (strip (codes "CREATE TABLE ") sql) [
  | some t ↦ if any (text_eq t) db then none else some (t ∷ db)
  | none ↦ elim (strip (codes "DROP TABLE ") sql) [
    | some t ↦ if any (text_eq t) db then some (select (λ x. not (text_eq t x)) db) else none
    | none ↦ none
  ]
]

abbrev table_a : Text
table_a = codes "a"

abbrev table_b : Text
table_b = codes "b"

-- Later tables leave the first one there.
second-Keeps :
    (body : Text) (db db' : List Text)
    → second.body ≡ some body
    → exec (trim_space body) db ≡ some db'
    → any (text_eq table_a) db ≡ true
    → any (text_eq table_a) db' ≡ true
unfolding trim_space
second-Keeps body db db' read run there =
    let same : codes "CREATE TABLE b ();" ≡ body = ground (arith, read) in
    let runs : exec (trim_space (codes "CREATE TABLE b ();")) db ≡ some db' =
      subst (λ t. exec (trim_space t) db ≡ some db') (sym same) run in
    ground (arith, runs)

made :
    (db db' : List Text)
    → exec (codes "CREATE TABLE a ();") db ≡ some db'
    → any (text_eq table_a) db' ≡ true
made db db' run = ground (arith, run)

initial-MakesOnce : MakesOnce exec (codes "CREATE TABLE a ();") (second ∷ [])
initial-MakesOnce = record {
  Made = λ db. any (text_eq table_a) db ≡ true;
  makes = made;
  keeps = (second-Keeps, tt);
  refuses = λ db there. rw there refl;
}

down_drops : exec (codes "DROP TABLE a;") (table_b ∷ table_a ∷ []) ≡ some (table_b ∷ [])
down_drops = refl

up-again_example :
    up exec (some files) (table_b ∷ table_a ∷ [])
    ≡ (exec_failed (codes "sql/1.up.sql"), table_b ∷ table_a ∷ [])
unfolding ups has_suffix sort_paths text_le up apply_all trim_space
up-again_example =
    up-again exec files initial (second ∷ []) (codes "CREATE TABLE a ();")
      (codes "CREATE TABLE a ();") [] (table_b ∷ table_a ∷ []) refl refl refl refl initial-MakesOnce
      refl
