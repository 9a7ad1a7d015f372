-- ===== src/Hosts/Lines/Kept.antt =====
-- The lines that a test keeps, in a text and in its lines: a test that leaves out the empty line does
-- not see how the text is cut and joined.
use vops.Prelude.{
  ◌≢◌, ap, ◌≡◌, refl, ◌∙◌, inl, inr, Bool, true, false, List, [], ◌∷◌, ◌++◌, any, keep, find,
  Bool-cases,
}
use mathlib.Core.List.{append-nil}
use vops.Hosts.Lines.{Line, File, first, to_lines, cons_line, from_lines}

module _ (p : Line → Bool) (blank : p [] ≡ false) where
  pub keep-cons_line : (l : Line) (ls : List Line) → keep p (cons_line l ls) ≡ keep p (l ∷ ls)
  unfolding cons_line keep
  keep-cons_line [] [] = rw blank refl
  keep-cons_line [] (x ∷ r) = refl
  keep-cons_line (c ∷ l) ls = refl

  pub keep-to_lines : (f : File) → keep p (to_lines f) ≡ keep p f
  unfolding to_lines keep
  keep-to_lines [] = refl
  keep-to_lines (l ∷ r) = keep-cons_line l (to_lines r) ∙ rw (keep-to_lines r) refl

  pub keep-append : (xs ys : List Line) → keep p (xs ++ ys) ≡ keep p xs ++ keep p ys
  unfolding keep
  keep-append [] ys = refl
  keep-append (x ∷ xs) ys = elim (Bool-cases (p x)) [
    | inl e ↦ rw (e, keep-append xs ys) refl
    | inr e ↦ rw (e, keep-append xs ys) refl
  ]

  pub keep-from_lines : (ls : List Line) → keep p (from_lines ls) ≡ keep p ls
  unfolding from_lines keep
  keep-from_lines [] = rw blank refl
  keep-from_lines (x ∷ r) = keep-append (x ∷ r) ([] ∷ []) ∙ rw blank (append-nil (keep p (x ∷ r)))

  -- The lines that a wider test has kept.
  pub keep-keep :
      (q : Line → Bool)
      → ((l : Line) → q l ≡ false → p l ≡ false)
      → (ls : List Line) → keep p (keep q ls) ≡ keep p ls
  unfolding keep
  keep-keep q wider [] = refl
  keep-keep q wider (x ∷ r) = elim (Bool-cases (q x)) [
    | inl e ↦ rw (e, keep-keep q wider r) refl
    | inr e ↦ rw (e, wider x e) (keep-keep q wider r)
  ]

  -- The lines that another test has left out.
  pub keep-apart :
      (q : Line → Bool)
      → ((l : Line) → q l ≡ true → p l ≡ false)
      → (ls : List Line) → keep p (keep q ls) ≡ []
  unfolding keep
  keep-apart q apart [] = refl
  keep-apart q apart (x ∷ r) = elim (Bool-cases (q x)) [
    | inl e ↦ rw (e, apart x e) (keep-apart q apart r)
    | inr e ↦ rw e (keep-apart q apart r)
  ]

  pub any-keep : (ls : List Line) → any p ls ≡ any (λ l. true) (keep p ls)
  unfolding keep any
  any-keep [] = refl
  any-keep (x ∷ r) = elim (Bool-cases (p x)) [ inl e ↦ rw e refl | inr e ↦ rw e (any-keep r) ]

  pub find-keep : (ls : List Line) → find p ls ≡ first (keep p ls)
  unfolding keep find first
  find-keep [] = refl
  find-keep (x ∷ r) = elim (Bool-cases (p x)) [ inl e ↦ rw e refl | inr e ↦ rw e (find-keep r) ]

pub single_dropped : (p : Line → Bool) (l : Line) → p l ≡ false → keep p (l ∷ []) ≡ []
unfolding keep
single_dropped p l e = rw e refl

pub single_kept : (p : Line → Bool) (l : Line) → p l ≡ true → keep p (l ∷ []) ≡ l ∷ []
unfolding keep
single_kept p l e = rw e refl

pub keep-set :
    (p : Line → Bool) (ls : List Line) (line : Line)
    → p [] ≡ false
    → keep p (from_lines (ls ++ line ∷ [])) ≡ keep p ls ++ keep p (line ∷ [])
keep-set p ls line blank =
    keep-from_lines p blank (ls ++ line ∷ []) ∙ keep-append p blank ls (line ∷ [])

cons_line_full : (y x : Line) (ys : List Line) → cons_line y (ys ++ x ∷ []) ≡ y ∷ (ys ++ x ∷ [])
unfolding cons_line
cons_line_full [] x [] = refl
cons_line_full [] x (z ∷ ys) = refl
cons_line_full (c ∷ y) x ys = refl

to_lines_full :
    (ys : List Line) (x : Line) → x ≢ [] → to_lines ((ys ++ x ∷ []) ++ [] ∷ []) ≡ ys ++ x ∷ []
unfolding to_lines cons_line
to_lines_full [] [] full = elim (full refl) [ ]
to_lines_full [] (c ∷ x) full = refl
to_lines_full (y ∷ ys) x full = ap (cons_line y) (to_lines_full ys x full) ∙ cons_line_full y x ys

from_lines_full :
    (ys : List Line) (x : Line) → from_lines (ys ++ x ∷ []) ≡ (ys ++ x ∷ []) ++ [] ∷ []
unfolding from_lines
from_lines_full [] x = refl
from_lines_full (y ∷ ys) x = refl

-- Lines whose last is not empty come back from a text as they are.
pub to_lines-from_lines :
    (ys : List Line) (x : Line) → x ≢ [] → to_lines (from_lines (ys ++ x ∷ [])) ≡ ys ++ x ∷ []
to_lines-from_lines ys x full = ap to_lines (from_lines_full ys x) ∙ to_lines_full ys x full
