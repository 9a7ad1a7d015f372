-- ===== src/Hosts/AuthorizedKeys/View.antt =====
-- The file of authorized keys of src/host-ops/authorized-keys.ts as the lines of others, in their order,
-- and the lines of the profile.
use vops.Prelude.{
  ◌≡◌, refl, sym, ap, ◌∙◌, inl, inr, arith, Bool, true, false, not, ◌&&◌, List, [], ◌∷◌, any, keep,
  is_empty, Bool-cases,
}
use mathlib.Core.List.{append-nil}
use vops.Hosts.Lines.{Line, File, trim, trim_start, first, to_lines}
use vops.Hosts.Lines.Kept.{
  keep-to_lines, keep-from_lines, keep-keep, keep-apart, any-keep, find-keep, single_dropped,
  single_kept, keep-set,
}
use vops.Hosts.AuthorizedKeys.{
  is_comment, is_key_line, is_ops_line, upsert_ops_line, remove_ops_line, has_other_authorized_key,
  find_ops_line,
}

-- An empty line is in no part.
pub record View : Type 0 where
  pub others : List Line
  pub own : List Line

is_other : Line → Line → Bool
is_other tag l = not (is_empty l) && not (is_ops_line l tag)

unfoldable pub view : Line → File → View
unfolding is_other
view tag f = record { others = keep (λ l. is_other tag l) f; own = keep (λ l. is_ops_line l tag) f }

pub data Step : Type 0 where
  set : Line → Step
  unset : Step

-- The functions of the source
unfoldable pub change : Line → Step → File → File
change tag (set line) f = (upsert_ops_line f line tag).0
change tag unset f = (remove_ops_line f tag).0

unfoldable pub changes : Line → List Step → File → File
unfolding change
changes tag [] f = f
changes tag (x ∷ r) f = changes tag r (change tag x f)

-- What they promise
unfoldable pub change_view : Step → View → View
change_view (set line) v = record { others = v.others; own = line ∷ [] }
change_view unset v = record { others = v.others; own = [] }

unfoldable pub changes_view : List Step → View → View
unfolding change_view
changes_view [] v = v
changes_view (x ∷ r) v = changes_view r (change_view x v)

abbrev pub AllOwn : Line → List Step → Type 0
AllOwn tag [] = Unit
AllOwn tag (set line ∷ r) = (is_ops_line line tag ≡ true) × AllOwn tag r
AllOwn tag (unset ∷ r) = AllOwn tag r

is_ops_line_blank : (tag : Line) → is_ops_line [] tag ≡ false
unfolding is_ops_line is_comment trim trim_start
is_ops_line_blank tag = refl

is_key_line_blank : is_key_line [] ≡ false
unfolding is_key_line is_comment trim trim_start
is_key_line_blank = refl

other_blank : (tag : Line) → is_other tag [] ≡ false
unfolding is_other
other_blank tag = refl

-- No line is both.
other_narrow : (tag l : Line) → not (is_ops_line l tag) ≡ false → is_other tag l ≡ false
unfolding is_other
other_narrow tag l h = ground arith

own_apart : (tag l : Line) → not (is_ops_line l tag) ≡ true → is_ops_line l tag ≡ false
own_apart tag l h = ground arith

-- What was kept of a file, written again
kept-others :
    (tag : Line) (f : File)
    → keep (λ l. is_other tag l) (keep (λ l. not (is_ops_line l tag)) (to_lines f))
      ≡ keep (λ l. is_other tag l) f
kept-others tag f =
    keep-keep (λ l. is_other tag l) (other_blank tag) (λ l. not (is_ops_line l tag))
      (other_narrow tag) (to_lines f)
    ∙ keep-to_lines (λ l. is_other tag l) (other_blank tag) f

kept-own :
    (tag : Line) (f : File)
    → keep (λ l. is_ops_line l tag) (keep (λ l. not (is_ops_line l tag)) (to_lines f)) ≡ []
kept-own tag f =
    keep-apart (λ l. is_ops_line l tag) (is_ops_line_blank tag) (λ l. not (is_ops_line l tag))
      (own_apart tag) (to_lines f)

view-remove :
    (tag : Line) (f : File) → view tag (remove_ops_line f tag).0 ≡ change_view unset (view tag f)
unfolding view change_view remove_ops_line
view-remove tag f =
    rw
      (
        keep-from_lines (λ l. is_other tag l) (other_blank tag)
            (keep (λ l. not (is_ops_line l tag)) (to_lines f)),
        keep-from_lines (λ l. is_ops_line l tag) (is_ops_line_blank tag)
            (keep (λ l. not (is_ops_line l tag)) (to_lines f)),
        kept-others tag f,
        kept-own tag f,
      )
      refl

own_not_other : (tag l : Line) → is_ops_line l tag ≡ true → is_other tag l ≡ false
unfolding is_other
own_not_other tag l h = ground arith

set-others :
    (tag line : Line) (f : File)
    → is_ops_line line tag ≡ true
    → keep (λ l. is_other tag l) (upsert_ops_line f line tag).0 ≡ keep (λ l. is_other tag l) f
unfolding upsert_ops_line
set-others tag line f own =
    keep-set (λ l. is_other tag l) _ line (other_blank tag)
    ∙ rw (kept-others tag f, single_dropped (λ l. is_other tag l) line (own_not_other tag line own))
        (append-nil (keep (λ l. is_other tag l) f))

set-own :
    (tag line : Line) (f : File)
    → is_ops_line line tag ≡ true
    → keep (λ l. is_ops_line l tag) (upsert_ops_line f line tag).0 ≡ line ∷ []
unfolding upsert_ops_line
set-own tag line f own =
    keep-set (λ l. is_ops_line l tag) _ line (is_ops_line_blank tag)
    ∙ rw (kept-own tag f, single_kept (λ l. is_ops_line l tag) line own) refl

view-upsert :
    (tag line : Line) (f : File)
    → is_ops_line line tag ≡ true
    → view tag (upsert_ops_line f line tag).0 ≡ change_view (set line) (view tag f)
unfolding view change_view
view-upsert tag line f own = rw (set-others tag line f own, set-own tag line f own) refl

view-changes :
    (tag : Line) (steps : List Step) (f : File)
    → AllOwn tag steps
    → view tag (changes tag steps f) ≡ changes_view steps (view tag f)
unfolding changes changes_view change
view-changes tag [] f own = refl
view-changes tag (set line ∷ r) f (own, rest) =
    view-changes tag r (upsert_ops_line f line tag).0 rest
    ∙ ap (changes_view r) (view-upsert tag line f own)
view-changes tag (unset ∷ r) f rest =
    view-changes tag r (remove_ops_line f tag).0 rest ∙ ap (changes_view r) (view-remove tag f)

is_foreign : Line → Line → Bool
is_foreign tag l = is_key_line l && not (is_ops_line l tag)

foreign_blank : (tag : Line) → is_foreign tag [] ≡ false
unfolding is_foreign
foreign_blank tag = rw is_key_line_blank refl

any-others :
    (tag : Line) (f : File)
    → any (λ l. is_foreign tag l) f ≡ any (λ l. is_key_line l) (keep (λ l. is_other tag l) f)
unfolding any keep is_foreign is_other
any-others tag [] = refl
any-others tag ([] ∷ r) = rw (is_key_line_blank, any-others tag r) refl
any-others tag ((c ∷ l) ∷ r) = elim (Bool-cases (is_ops_line (c ∷ l) tag)) [
  | inl e ↦ ground (arith, any-others tag r)
  | inr e ↦ ground (arith, any-others tag r)
]

-- The two questions that the source asks of a file, of its view
has_other_lem :
    (tag : Line) (f : File)
    → has_other_authorized_key f tag ≡ any (λ l. is_key_line l) (view tag f).others
unfolding has_other_authorized_key view is_foreign
has_other_lem tag f =
    any-keep (λ l. is_foreign tag l) (foreign_blank tag) (to_lines f)
    ∙ ap (any (λ l. true)) (keep-to_lines (λ l. is_foreign tag l) (foreign_blank tag) f)
    ∙ sym (any-keep (λ l. is_foreign tag l) (foreign_blank tag) f)
    ∙ any-others tag f

find_lem : (tag : Line) (f : File) → find_ops_line f tag ≡ first (view tag f).own
unfolding find_ops_line view
find_lem tag f =
    find-keep (λ l. is_ops_line l tag) (is_ops_line_blank tag) (to_lines f)
    ∙ ap first (keep-to_lines (λ l. is_ops_line l tag) (is_ops_line_blank tag) f)

-- Hypothesis: each line that is set carries the tag of the profile. Any sequence of lines set and of removals, run
-- on the text by the source's functions, does to the view what it promises: the lines of others stay,
-- blank ones left aside, in their order, and the profile's are what was set last, or none after a removal.
-- The test for another authorized key and the search for the profile's line answer as the view does.
pub changes-refines :
    (tag : Line) (steps : List Step) (f : File)
    → AllOwn tag steps
    → (view tag (changes tag steps f) ≡ changes_view steps (view tag f))
      × (has_other_authorized_key (changes tag steps f) tag
          ≡ any (λ l. is_key_line l) (changes_view steps (view tag f)).others)
      × (find_ops_line (changes tag steps f) tag ≡ first (changes_view steps (view tag f)).own)
changes-refines tag steps f own =
    let same = view-changes tag steps f own in
    (
      same,
      has_other_lem tag (changes tag steps f) ∙ ap (λ v. any (λ l. is_key_line l) v.others) same,
      find_lem tag (changes tag steps f) ∙ ap (λ v. first v.own) same,
    )
