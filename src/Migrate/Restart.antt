-- ===== src/Migrate/Restart.antt =====
-- Up of payflow-app/internal/migrate/migrate.go, run again over the tables that it has made.
use payflow_payments_ops_pla.Base.{
  ◌≡◌, sym, ◌∙◌, ap, subst, inl, inr, false, Bool-cases, Option, Option-cases, none, some, List,
  All, [], ◌∷◌, arith,
}
use payflow_payments_ops_pla.Text.{Text, is_empty, trim_space}
use payflow_payments_ops_pla.Migrate.{File, ups, sort_paths, applied, exec_failed, apply_all, up}

-- A script that makes tables which are not there before, as CREATE TABLE without IF NOT EXISTS does:
-- afterwards they are there, none of the later files drops them, and the script fails where they are
-- there.
pub record MakesOnce {D : Type 0} (exec : Text → D → Option D) (sql : Text) (later : List File)
    : Type 1 where
  pub Made : D → Type 0
  pub makes : (db db' : D) → exec sql db ≡ some db' → Made db'
  pub keeps :
      All
        (λ f.
          (body : Text) (db db' : D)
          → f.body ≡ some body
          → exec (trim_space body) db ≡ some db'
          → Made db
          → Made db')
        later
  pub refuses : (db : D) → Made db → exec sql db ≡ none

module _ {D : Type 0} (exec : Text → D → Option D) (Made : D → Type 0) where
  apply_all-Made :
      (fs : List File) (db db' : D)
      → All
          (λ f.
            (body : Text) (d d' : D)
            → f.body ≡ some body
            → exec (trim_space body) d ≡ some d'
            → Made d
            → Made d')
          fs
      → apply_all exec fs db ≡ (applied, db')
      → Made db
      → Made db'
  unfolding apply_all
  apply_all-Made [] db db' keeps run made = let e : db ≡ db' = ground arith in subst Made e made
  apply_all-Made (f ∷ fs) db db' keeps run made = elim (Option-cases f.body) [
    | inl unread ↦ absurd (ground (arith, unread))
    | inr (body, read) ↦ elim (Bool-cases (is_empty (trim_space body))) [
      | inl blank ↦
          let rest : apply_all exec fs db ≡ (applied, db') = ground (arith, read, blank) in
          apply_all-Made fs db db' keeps.1 rest made
      | inr given ↦ elim (Option-cases (exec (trim_space body) db)) [
        | inl failed ↦ absurd (ground (arith, read, given, failed))
        | inr (mid, done) ↦
            let rest : apply_all exec fs mid ≡ (applied, db') = ground (arith, read, given, done) in
            apply_all-Made fs mid db' keeps.1 rest (keeps.0 body db mid read done made)
      ]
    ]
  ]

module _ {D : Type 0} (exec : Text → D → Option D) (sql : Text) (f : File) (fs : List File)
    (once : MakesOnce exec sql fs) where
  apply_all-first :
      (body : Text) (db db' : D)
      → f.body ≡ some body
      → trim_space body ≡ sql
      → is_empty sql ≡ false
      → apply_all exec (f ∷ fs) db ≡ (applied, db')
      → once.Made db'
  unfolding apply_all
  apply_all-first body db db' read shape given run = elim (Option-cases (exec sql db)) [
    | inl failed ↦ absurd (ground (arith, read, shape, given, failed))
    | inr (mid, done) ↦
        let rest : apply_all exec fs mid ≡ (applied, db') =
          ground (arith, read, shape, given, done) in
        apply_all-Made exec once.Made fs mid db' once.keeps rest (once.makes db mid done)
  ]

  apply_all-refused :
      (body : Text) (db : D)
      → f.body ≡ some body
      → trim_space body ≡ sql
      → is_empty sql ≡ false
      → once.Made db
      → apply_all exec (f ∷ fs) db ≡ (exec_failed f.path, db)
  unfolding apply_all
  apply_all-refused body db read shape given made =
      ground (arith, read, shape, given, once.refuses db made)

-- Where the script of the first of the sorted files is not blank and makes tables that no later file
-- drops, and fails where they are there, a second Up over the database that a successful one has
-- brought about fails at this file and changes nothing.
pub up-again :
    {D : Type 0} (exec : Text → D → Option D) (files : List File) (f : File) (fs : List File)
    (body sql : Text) (db db' : D)
    → sort_paths (ups files) ≡ f ∷ fs
    → f.body ≡ some body
    → trim_space body ≡ sql
    → is_empty sql ≡ false
    → MakesOnce exec sql fs
    → up exec (some files) db ≡ (applied, db')
    → up exec (some files) db' ≡ (exec_failed f.path, db')
unfolding up
up-again exec files f fs body sql db db' order read shape given once run =
    let first : apply_all exec (f ∷ fs) db ≡ (applied, db') =
      ap (λ xs. apply_all exec xs db) (sym order) ∙ run in
    let made = apply_all-first exec sql f fs once body db db' read shape given first in
    ap (λ xs. apply_all exec xs db') order
    ∙ apply_all-refused exec sql f fs once body db' read shape given made
