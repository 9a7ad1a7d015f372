-- ===== src/Hosts/Lines.antt =====
-- Lines of text as the source's string methods see them: lists of code units without a line feed; a
-- text is the list of its parts between line feeds (`text.split('\n')`), of which there is always one.
pub mod Kept
use Prim.Native.Char.{code}
use Prim.Native.String
use vops.Prelude.{
  ℕ, String, ◌≡◌, ◌≢◌, refl, arith, ◌⊎◌, inl, inr, Bool, true, false, not, ◌&&◌, ◌||◌, Option, none,
  some, List, [], ◌∷◌, ◌++◌, any, keep, is_empty, eqb, leb, if◌then◌else◌, Bool-cases,
}
use mathlib.Core.List.{reverse}

abbrev pub Line : Type 0
Line = List ℕ

abbrev pub codes : String → Line
codes String.[] = []
codes (String.◌∷◌ c s) = code c ∷ codes s

abbrev pub File : Type 0
File = List Line

-- a === b
unfoldable pub same_line : Line → Line → Bool
same_line [] [] = true
same_line [] (d ∷ s) = false
same_line (c ∷ r) [] = false
same_line (c ∷ r) (d ∷ s) = eqb c d && same_line r s

-- White space, as `trim` and `\s` take it; a line feed is in no line.
unfoldable pub is_space : ℕ → Bool
is_space c =
    (leb 9 c && leb c 13)
    || (eqb c 32
        || (eqb c 160
            || (eqb c 5760
                || ((leb 8192 c && leb c 8202)
                    || (eqb c 8232
                        || (eqb c 8233
                            || (eqb c 8239 || (eqb c 8287 || (eqb c 12288 || eqb c 65279)))))))))

unfoldable pub trim_start : Line → Line
unfolding is_space
trim_start [] = []
trim_start (c ∷ r) = let rest = trim_start r in if is_space c then rest else c ∷ r

unfoldable pub trim : Line → Line
unfolding trim_start
trim l = reverse (trim_start (reverse (trim_start l)))

-- s.startsWith(p)
unfoldable pub starts_with : Line → Line → Bool
starts_with s [] = true
starts_with [] (c ∷ p) = false
starts_with (d ∷ s) (c ∷ p) = eqb d c && starts_with s p

-- s.endsWith(p)
unfoldable pub ends_with : Line → Line → Bool
unfolding starts_with
ends_with s p = starts_with (reverse s) (reverse p)

-- s.includes(p)
unfoldable pub includes_text : Line → Line → Bool
unfolding starts_with
includes_text [] p = is_empty p
includes_text (c ∷ s) p = starts_with (c ∷ s) p || includes_text s p

-- s.split(/\s+/): the word so far, and whether a separator is being read
unfoldable pub split_words : Line → Bool → Line → List Line
unfolding is_space
split_words word gap [] = word ∷ []
split_words word gap (c ∷ r) =
    let skipped = split_words word true r in
    let ended = word ∷ split_words [] true r in
    let longer = split_words (word ++ c ∷ []) false r in
    if is_space c then (if gap then skipped else ended) else longer

unfoldable pub words : Line → List Line
unfolding split_words
words l = split_words [] false l

unfoldable pub first : List Line → Option Line
first [] = none
first (x ∷ r) = some x

unfoldable pub second : List Line → Option Line
second [] = none
second (x ∷ []) = none
second (x ∷ y ∷ r) = some y

unfoldable pub third : List Line → Option Line
third [] = none
third (x ∷ []) = none
third (x ∷ y ∷ []) = none
third (x ∷ y ∷ z ∷ r) = some z

-- o ?? ''
unfoldable pub or_blank : Option Line → Line
or_blank none = []
or_blank (some l) = l

unfoldable pub cons_line : Line → List Line → List Line
cons_line [] [] = []
cons_line [] (x ∷ r) = [] ∷ x ∷ r
cons_line (c ∷ l) r = (c ∷ l) ∷ r

-- The line feeds at the end are taken off, and an empty text has no lines.
unfoldable pub to_lines : File → List Line
unfolding cons_line
to_lines [] = []
to_lines (l ∷ r) = cons_line l (to_lines r)

unfoldable pub from_lines : List Line → File
from_lines [] = [] ∷ []
from_lines (l ∷ r) = (l ∷ r) ++ [] ∷ []

-- The line stands in the list.
abbrev pub In : Line → List Line → Type 0
In l [] = ⊥
In l (x ∷ r) = (l ≡ x) ⊎ In l r

pub In-append_left : (l : Line) (xs ys : List Line) → In l xs → In l (xs ++ ys)
In-append_left l [] ys h = elim h [ ]
In-append_left l (x ∷ xs) ys (inl e) = inl e
In-append_left l (x ∷ xs) ys (inr h) = inr (In-append_left l xs ys h)

pub In-append_right : (l : Line) (xs ys : List Line) → In l ys → In l (xs ++ ys)
In-append_right l [] ys h = h
In-append_right l (x ∷ xs) ys h = inr (In-append_right l xs ys h)

In-cons_line : (l x : Line) (r : List Line) → l ≢ [] → In l (x ∷ r) → In l (cons_line x r)
unfolding cons_line
In-cons_line l [] [] full (inr h) = elim h [ ]
In-cons_line l [] [] full (inl e) = elim (full e) [ ]
In-cons_line l [] (y ∷ r) full h = h
In-cons_line l (c ∷ x) r full h = h

-- A line that is not empty stands in a text and in its lines alike.
pub In-to_lines : (l : Line) (f : File) → l ≢ [] → In l f → In l (to_lines f)
unfolding to_lines
In-to_lines l [] full h = elim h [ ]
In-to_lines l (x ∷ r) full (inl e) = In-cons_line l x (to_lines r) full (inl e)
In-to_lines l (x ∷ r) full (inr h) =
    In-cons_line l x (to_lines r) full (inr (In-to_lines l r full h))

pub In-from_lines : (l : Line) (ls : List Line) → In l ls → In l (from_lines ls)
unfolding from_lines
In-from_lines l [] h = elim h [ ]
In-from_lines l (x ∷ r) h = In-append_left l (x ∷ r) ([] ∷ []) h

pub In-keep :
    (l : Line) (p : Line → Bool) (ls : List Line) → p l ≡ true → In l ls → In l (keep p ls)
unfolding keep
In-keep l p [] good h = elim h [ ]
In-keep l p (x ∷ r) good (inl e) = rw (← e) (rw good (inl refl))
In-keep l p (x ∷ r) good (inr h) = elim (Bool-cases (p x)) [
  | inl yes_x ↦ rw yes_x (inr (In-keep l p r good h))
  | inr no_x ↦ rw no_x (In-keep l p r good h)
]
