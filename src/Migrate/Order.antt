-- ===== src/Migrate/Order.antt =====
-- The order in which Up of payflow-app/internal/migrate/migrate.go runs the files.
use payflow_payments_ops_pla.Base.{
  ◌≡◌, ◌+◌, refl, ◌∙◌, inl, inr, Bool, true, false, Bool-cases, List, [], ◌∷◌, count_where, ◌&&◌,
  arith, if◌then◌else◌,
}
use payflow_payments_ops_pla.Text.{Text}
use payflow_payments_ops_pla.Migrate.{File, ups, is_up, text_le, insert_path, sort_paths}

-- No file stands before one with a smaller path.
abbrev pub Follows : File → List File → Type 0
Follows f [] = Unit
Follows f (g ∷ gs) = text_le f.path g.path ≡ true

abbrev InOrder : List File → Type 0
InOrder [] = Unit
InOrder (f ∷ fs) = Follows f fs × InOrder fs

text_le_total : (a b : Text) → text_le a b ≡ false → text_le b a ≡ true
unfolding text_le
text_le_total [] b h = absurd (ground arith)
text_le_total (x ∷ a) [] h = refl
text_le_total (x ∷ a) (y ∷ b) h = grind (arith, text_le_total a b)

insert_path-Follows :
    (g f : File) (fs : List File)
    → text_le g.path f.path ≡ true
    → Follows g fs
    → Follows g (insert_path f fs)
insert_path-Follows g f [] le before = le
insert_path-Follows g f (x ∷ xs) le before = elim (Bool-cases (text_le f.path x.path)) [
  | inl fits ↦ rw fits le
  | inr late ↦ rw late before
]

insert_path-InOrder : (f : File) (fs : List File) → InOrder fs → InOrder (insert_path f fs)
insert_path-InOrder f [] before = (tt, tt)
insert_path-InOrder f (x ∷ xs) before = elim (Bool-cases (text_le f.path x.path)) [
  | inl fits ↦ rw fits (fits, before)
  | inr late ↦ rw late (
    insert_path-Follows x f xs (text_le_total f.path x.path late) before.0,
    insert_path-InOrder f xs before.1,
  )
]

insert_path-count :
    (p : File → Bool) (f : File) (fs : List File)
    → count_where p (insert_path f fs) ≡ (if p f then 1 else 0) + count_where p fs
insert_path-count p f [] = refl
insert_path-count p f (x ∷ xs) = grind (arith, insert_path-count p f xs)

sort_paths-InOrder : (fs : List File) → InOrder (sort_paths fs)
unfolding sort_paths
sort_paths-InOrder [] = tt
sort_paths-InOrder (f ∷ fs) = insert_path-InOrder f (sort_paths fs) (sort_paths-InOrder fs)

sort_paths-count :
    (p : File → Bool) (fs : List File) → count_where p (sort_paths fs) ≡ count_where p fs
unfolding sort_paths
sort_paths-count p [] = refl
sort_paths-count p (f ∷ fs) =
    insert_path-count p f (sort_paths fs) ∙ omega (arith, sort_paths-count p fs)

ups-count :
    (p : File → Bool) (fs : List File)
    → count_where p (ups fs) ≡ count_where (λ f. is_up f && p f) fs
unfolding ups
ups-count p [] = refl
ups-count p (f ∷ fs) = ground (arith, ups-count p fs)

-- The files that Up runs are in the order of their paths, and they are the files whose path ends in
-- `.up.sql`, each as often as the walk has it.
sort_paths-ups :
    (files : List File) (p : File → Bool)
    → InOrder (sort_paths (ups files))
      × (count_where p (sort_paths (ups files)) ≡ count_where (λ f. is_up f && p f) files)
sort_paths-ups files p =
    (sort_paths-InOrder (ups files), sort_paths-count p (ups files) ∙ ups-count p files)
