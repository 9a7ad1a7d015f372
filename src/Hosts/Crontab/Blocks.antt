-- ===== src/Hosts/Crontab/Blocks.antt =====
-- The block of src/host-ops/crontab.ts after it was written.
use vops.Prelude.{
  ◌≡◌, ◌≢◌, refl, sym, ap, ◌∙◌, inl, inr, arith, Bool, true, false, ◌||◌, eqb, any, any-append,
  length, List, [], ◌∷◌, ◌++◌, Bool-cases,
}
use mathlib.Core.List.{reverse, reverse-append, reverse-reverse, append_assoc, append-nil}
use vops.Hosts.Lines.{
  Line, File, codes, same_line, trim, trim_start, is_space, to_lines, from_lines,
}
use vops.Hosts.Lines.Kept.{to_lines-from_lines}
use vops.Hosts.Crontab.{
  block_start, block_end, strip_from, strip_block, upsert_cron_block, remove_cron_block,
  has_cron_block,
}

same_line_refl : (l : Line) → same_line l l ≡ true
unfolding same_line
same_line_refl [] = refl
same_line_refl (c ∷ l) = ground (arith, same_line_refl l)

same_line-append : (p x y : Line) → same_line (p ++ x) (p ++ y) ≡ same_line x y
unfolding same_line
same_line-append [] x y = refl
same_line-append (c ∷ p) x y = ground (arith, same_line-append p x y)

-- A line without white space at its ends
trim_keeps : (l : Line) → trim_start l ≡ l → trim_start (reverse l) ≡ reverse l → trim l ≡ l
unfolding trim
trim_keeps l front back = rw (front, back) (reverse-reverse l)

reverse_framed : (p t s : Line) → reverse (p ++ (t ++ s)) ≡ reverse s ++ (reverse t ++ reverse p)
reverse_framed p t s =
    reverse-append p (t ++ s)
    ∙ ap (λ x. x ++ reverse p) (reverse-append t s)
    ∙ append_assoc (reverse s) (reverse t) (reverse p)

trim-block_start : (tag : Line) → trim (block_start tag) ≡ block_start tag
unfolding block_start trim_start is_space
trim-block_start tag = trim_keeps (block_start tag) refl (
    ap trim_start (reverse_framed (codes "# vops:") tag (codes ":start"))
    ∙ sym (reverse_framed (codes "# vops:") tag (codes ":start")))

trim-block_end : (tag : Line) → trim (block_end tag) ≡ block_end tag
unfolding block_end trim_start is_space
trim-block_end tag = trim_keeps (block_end tag) refl (
    ap trim_start (reverse_framed (codes "# vops:") tag (codes ":end"))
    ∙ sym (reverse_framed (codes "# vops:") tag (codes ":end")))

markers_apart : (tag : Line) → same_line (block_end tag) (block_start tag) ≡ false
unfolding block_start block_end same_line
markers_apart tag = same_line-append tag (codes ":end") (codes ":start")

-- The two tests of a line
module _ (tag : Line) where
  opens : Line → Bool
  opens l = same_line (trim l) (block_start tag)

  closes : Line → Bool
  closes l = same_line (trim l) (block_end tag)

  opens_start : opens (block_start tag) ≡ true
  unfolding opens
  opens_start = rw (trim-block_start tag) (same_line_refl (block_start tag))

  closes_end : closes (block_end tag) ≡ true
  unfolding closes
  closes_end = rw (trim-block_end tag) (same_line_refl (block_end tag))

  opens_end : opens (block_end tag) ≡ false
  unfolding opens
  opens_end = rw (trim-block_end tag) (markers_apart tag)

  -- No line ends the block.
  abbrev pub NoEnd : List Line → Type 0
  NoEnd [] = Unit
  NoEnd (l ∷ rest) = (same_line (trim l) (block_end tag) ≡ false) × NoEnd rest

  -- Lines without a marker
  abbrev Plain : List Line → Type 0
  Plain [] = Unit
  Plain (l ∷ rest) = (opens l ≡ false) × (closes l ≡ false) × Plain rest

  strip_from-Plain : (inside : Bool) (ls : List Line) → Plain (strip_from inside tag ls)
  unfolding strip_from opens closes
  strip_from-Plain inside [] = tt
  strip_from-Plain inside (l ∷ rest) = elim (Bool-cases (same_line (trim l) (block_start tag))) [
    | inl e ↦ rw e (strip_from-Plain true rest)
    | inr e ↦ elim (Bool-cases (same_line (trim l) (block_end tag))) [
      | inl g ↦ rw (e, g) (strip_from-Plain false rest)
      | inr g ↦ elim (Bool-cases inside) [
        | inl i ↦ rw (e, g, i) (strip_from-Plain true rest)
        | inr i ↦ rw (e, g, i) (e, g, strip_from-Plain false rest)
      ]
    ]
  ]

  -- Lines without a marker stay before what follows.
  strip_from-append :
      (ls more : List Line)
      → Plain ls
      → strip_from false tag (ls ++ more) ≡ ls ++ strip_from false tag more
  unfolding strip_from opens closes
  strip_from-append [] more plain = refl
  strip_from-append (l ∷ rest) more (o, c, plain) =
      rw (o, c) (ap (λ x. l ∷ x) (strip_from-append rest more plain))

  -- The body goes, and the block ends at its marker.
  strip_body :
      (body more : List Line)
      → NoEnd body
      → strip_from true tag (body ++ block_end tag ∷ more) ≡ strip_from false tag more
  unfolding strip_from opens closes
  strip_body [] more free = rw (opens_end, closes_end) refl
  strip_body (l ∷ rest) more (c, free) = elim (Bool-cases (opens l)) [
    | inl e ↦ rw e (strip_body rest more free)
    | inr e ↦ rw (e, c) (strip_body rest more free)
  ]

  strip_written :
      (ls body : List Line)
      → NoEnd body
      → strip_block (strip_block ls tag ++ (block_start tag ∷ (body ++ block_end tag ∷ []))) tag
        ≡ strip_block ls tag
  unfolding strip_block strip_from opens
  strip_written ls body free =
      strip_from-append (strip_from false tag ls) (block_start tag ∷ (body ++ block_end tag ∷ []))
        (strip_from-Plain false ls)
      ∙ rw (opens_start) (rw (strip_body body [] free) (append-nil (strip_from false tag ls)))

longer : (xs ys : List Line) (y : Line) → eqb (length xs) (length (xs ++ y ∷ ys)) ≡ false
longer [] ys y = ground arith
longer (x ∷ xs) ys y = ground (arith, longer xs ys y)

module _ (content : File) (tag : Line) (body : List Line) where
  -- The lines that upsertCronBlock writes
  written : List Line
  written = strip_block (to_lines content) tag ++ (block_start tag ∷ (body ++ block_end tag ∷ []))

  end_full : block_end tag ≢ []
  unfolding block_end
  end_full e = ground arith

  lines-upsert : to_lines (upsert_cron_block content tag body) ≡ written
  unfolding upsert_cron_block written
  lines-upsert =
      ap (λ x. to_lines (from_lines x)) (sym regroup)
      ∙ to_lines-from_lines (strip_block (to_lines content) tag ++ block_start tag ∷ body)
          (block_end tag) end_full
      ∙ regroup
    where
      regroup :
          (strip_block (to_lines content) tag ++ block_start tag ∷ body) ++ block_end tag ∷ []
          ≡ strip_block (to_lines content) tag ++ (block_start tag ∷ (body ++ block_end tag ∷ []))
      regroup =
          append_assoc (strip_block (to_lines content) tag) (block_start tag ∷ body)
            (block_end tag ∷ [])

  strip-upsert :
      NoEnd tag body
      → strip_block (to_lines (upsert_cron_block content tag body)) tag
        ≡ strip_block (to_lines content) tag
  unfolding written
  strip-upsert free =
      ap (λ x. strip_block x tag) lines-upsert ∙ strip_written tag (to_lines content) body free

  removed-upsert :
      NoEnd tag body → (remove_cron_block (upsert_cron_block content tag body) tag).1 ≡ true
  unfolding remove_cron_block written
  removed-upsert free =
      rw (strip-upsert free, lines-upsert)
        (rw
          (longer (strip_block (to_lines content) tag) (body ++ block_end tag ∷ [])
            (block_start tag))
          refl)

  left-upsert :
      NoEnd tag body
      → remove_cron_block (upsert_cron_block content tag body) tag
        ≡ ((remove_cron_block content tag).0, true)
  unfolding remove_cron_block
  left-upsert free =
      ap (λ x. (x, (remove_cron_block (upsert_cron_block content tag body) tag).1))
        (ap from_lines (strip-upsert free))
      ∙ ap (λ x. ((remove_cron_block content tag).0, x)) (removed-upsert free)

  first_opens :
      (any (λ l. opens tag l) (strip_block (to_lines content) tag)
        || any (λ l. opens tag l) (block_start tag ∷ (body ++ block_end tag ∷ [])))
      ≡ true
  unfolding any
  first_opens = let e = opens_start tag in ground arith

  has-upsert : has_cron_block (upsert_cron_block content tag body) tag ≡ true
  unfolding has_cron_block written opens
  has-upsert =
      ap (any (λ l. opens tag l)) lines-upsert
      ∙ any-append (λ l. opens tag l) (strip_block (to_lines content) tag)
          (block_start tag ∷ (body ++ block_end tag ∷ []))
      ∙ first_opens

  again-upsert :
      (again : List Line)
      → NoEnd tag body
      → upsert_cron_block (upsert_cron_block content tag body) tag again
        ≡ upsert_cron_block content tag again
  unfolding upsert_cron_block
  again-upsert again free =
      ap (λ x. from_lines (x ++ (block_start tag ∷ (again ++ block_end tag ∷ []))))
        (strip-upsert free)

-- Hypothesis: no line of the body is the marker that ends the block. A block that was written over a
-- crontab, with or without a block of the tag in it, is found, and is taken off as a whole: what is left
-- is what would be left had it never been written. A block that is written over it leaves what it would
-- leave alone.
pub remove-upsert :
    (content : File) (tag : Line) (body again : List Line)
    → NoEnd tag body
    → (has_cron_block (upsert_cron_block content tag body) tag ≡ true)
      × (remove_cron_block (upsert_cron_block content tag body) tag
          ≡ ((remove_cron_block content tag).0, true))
      × (upsert_cron_block (upsert_cron_block content tag body) tag again
          ≡ upsert_cron_block content tag again)
remove-upsert content tag body again free = (
  has-upsert content tag body,
  left-upsert content tag body free,
  again-upsert content tag body again free,
)
