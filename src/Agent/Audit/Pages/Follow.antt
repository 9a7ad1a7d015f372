-- ===== src/Agent/Audit/Pages/Follow.antt =====
-- Following the pages of the audit log from the newest to the oldest, while events arrive.
use mathlib.Core.Path.{subst}
use vops.Prelude.{
  ℕ, zero, suc, ◌+◌, ◌-◌, ◌≤◌, ◌<◌, String, ◌≡◌, refl, sym, ap, ◌∙◌, true, Option, none, some, List,
  [], ◌∷◌, ◌++◌, keep, take, length, ltb, if◌then◌else◌, arith, tests, Bool-cases, inl, inr,
  not_ltb, ltb→lt, max_of, min_of,
}
use vops.Prelude.Texts.{ℤ, clamp}
use vops.Agent.Audit.{Row}
use vops.Agent.Audit.Pages.{
  Entry, entries_from, newest_first, in_session, is_before, page_limit, last_sequence, page_of,
  list_event_page,
}
use vops.Agent.Audit.Pages.Falling.{
  drop, IsBelow, IsFalling, keep-IsBelow, keep-IsFalling, entries_from-IsFalling, IsBelow-weaken,
  entries_from-IsBelow, last-IsBelow, keep_twice, before-IsBelow, keep-arrivals,
  entries_from-append, keep-rest,
}

-- The rows that a page is taken of.
abbrev pub found : Option String → Option ℕ → List Row → List Entry
found s before rows = keep (is_before before) (keep (in_session s) (newest_first rows))

found-IsFalling : (s : Option String) (b : Option ℕ) (rows : List Row) → IsFalling (found s b rows)
unfolding newest_first
found-IsFalling s b rows =
    keep-IsFalling (is_before b) (keep (in_session s) (newest_first rows))
      (keep-IsFalling (in_session s) (newest_first rows) (entries_from-IsFalling 0 rows [] tt tt))

found-IsBelow :
    (s : Option String) (b : Option ℕ) (rows : List Row)
    → IsBelow (suc (length rows)) (found s b rows)
unfolding newest_first
found-IsBelow s b rows =
    keep-IsBelow (is_before b) (suc (length rows)) (keep (in_session s) (newest_first rows)) (
      keep-IsBelow (in_session s) (suc (length rows)) (newest_first rows) (
        IsBelow-weaken (suc (0 + length rows)) (suc (length rows)) (newest_first rows) (omega arith)
          (entries_from-IsBelow 0 rows [] tt)))

arrived :
    (s : Option String) (rows new : List Row) (c : ℕ)
    → c ≤ suc (length rows)
    → found s (some c) (rows ++ new) ≡ found s (some c) rows
unfolding newest_first
arrived s rows new c h =
    ap (λ l. keep (is_before (some c)) (keep (in_session s) l)) (entries_from-append 0 rows new [])
    ∙ keep-arrivals s c (0 + length rows) new (entries_from 0 rows []) (omega arith)

keep_all : (xs : List Entry) → keep (is_before none) xs ≡ xs
unfolding keep is_before
keep_all [] = refl
keep_all (x ∷ xs) = ap (λ l. x ∷ l) (keep_all xs)

-- A cursor that is the last sequence of a page finds, among the rows and whatever has arrived, what the
-- page has left.
found-again :
    (s : Option String) (b : Option ℕ) (rows new : List Row) (c n : ℕ)
    → last_sequence (take n (found s b rows)) ≡ some c
    → found s (some c) (rows ++ new) ≡ keep (is_before (some c)) (found s b rows)
found-again s none rows new c n e =
    arrived s rows new c (
      omega (
        arith,
        last-IsBelow n (suc (length rows)) c (found s none rows) e (found-IsBelow s none rows),
      ))
    ∙ ap (keep (is_before (some c))) (sym (keep_all (keep (in_session s) (newest_first rows))))
found-again s (some b) rows new c n e =
    let zs = keep (in_session s) (newest_first rows) in
    arrived s rows new c (
      omega (
        arith,
        last-IsBelow n (suc (length rows)) c (found s (some b) rows) e
            (found-IsBelow s (some b) rows),
      ))
    ∙ sym (
        keep_twice b c zs
          (omega (arith, last-IsBelow n b c (found s (some b) rows) e (before-IsBelow b zs))))

take-suc : (k : ℕ) (xs : List Entry) → take k (take (suc k) xs) ≡ take k xs
take-suc zero xs = refl
take-suc (suc k) [] = refl
take-suc (suc k) (x ∷ xs) = ap (λ l. x ∷ l) (take-suc k xs)

more_left : (k : ℕ) (xs : List Entry) → ltb k (length (take (suc k) xs)) ≡ ltb k (length xs)
more_left k [] = refl
more_left zero (x ∷ xs) = ground arith
more_left (suc k) (x ∷ xs) = ground (arith, more_left k xs)

take-drop : (k : ℕ) (xs : List Entry) → take k xs ++ drop k xs ≡ xs
take-drop zero xs = refl
take-drop (suc k) [] = refl
take-drop (suc k) (x ∷ xs) = ap (λ l. x ∷ l) (take-drop k xs)

take_all : (k : ℕ) (xs : List Entry) → length xs ≤ k → take k xs ≡ xs
take_all zero [] h = refl
take_all zero (x ∷ xs) h = ground arith
take_all (suc k) [] h = refl
take_all (suc k) (x ∷ xs) h = ap (λ l. x ∷ l) (take_all k xs (omega (arith, h)))

drop_shorter :
    (k : ℕ) (xs : List Entry) → suc k < suc (length xs) → length (drop (suc k) xs) < length xs
drop_shorter zero [] h = ground arith
drop_shorter zero (x ∷ xs) h = omega arith
drop_shorter (suc k) [] h = ground arith
drop_shorter (suc k) (x ∷ []) h = ground arith
drop_shorter (suc k) (x ∷ y ∷ xs) h = omega (arith, drop_shorter k (y ∷ xs) (omega (arith, h)))

last_there :
    (k : ℕ) (x : Entry) (xs : List Entry)
    → (c : ℕ) × (last_sequence (take (suc k) (x ∷ xs)) ≡ some c)
unfolding last_sequence
last_there zero x xs = (x.sequence, refl)
last_there (suc k) x [] = (x.sequence, refl)
last_there (suc k) x (y ∷ xs) = last_there k y xs

-- Page after page, each from the cursor of the one before; before each next page, rows arrive.
unfoldable pub follow :
    Option String → Option ℤ → Option ℕ → List (List Row) → List Row → List Entry
follow s limit before [] rows = []
follow s limit before (new ∷ later) rows =
    let page = list_event_page s before limit rows in
    page.events
    ++ (elim page.next_cursor [ none ↦ [] | some c ↦ follow s limit (some c) later (rows ++ new) ])

limit_positive : (limit : Option ℤ) → (k : ℕ) × (page_limit limit 30 200 ≡ suc k)
unfolding page_limit
limit_positive none = (29, refl)
limit_positive (some n) = (max_of 1 (min_of (clamp n) 200) - 1, ground arith)

page_lem :
    (s : Option String) (before : Option ℕ) (limit : Option ℤ) (rows : List Row) (k : ℕ)
    → page_limit limit 30 200 ≡ suc k
    → list_event_page s before limit rows ≡ record {
      events = take (suc k) (found s before rows);
      next_cursor =
          if ltb (suc k) (length (found s before rows))
          then last_sequence (take (suc k) (found s before rows))
          else none;
    }
unfolding list_event_page page_of
page_lem s before limit rows k same =
    let ys = found s before rows in
    ap (λ m. page_of m ys) same ∙ (λ i. record {
      events = take-suc (suc k) ys i;
      next_cursor = if more_left (suc k) ys i then last_sequence (take-suc (suc k) ys i) else none;
    })

last_found :
    (k : ℕ) (xs : List Entry)
    → ltb (suc k) (length xs) ≡ true
    → (c : ℕ) × (last_sequence (take (suc k) xs) ≡ some c)
last_found k [] h = absurd (ground arith)
last_found k (x ∷ xs) h = last_there k x xs

append_nothing : (xs : List Entry) → xs ++ [] ≡ xs
append_nothing [] = refl
append_nothing (x ∷ xs) = ap (λ l. x ∷ l) (append_nothing xs)

follow_lem :
    (s : Option String) (limit : Option ℤ) (before : Option ℕ) (arrivals : List (List Row))
    (rows : List Row)
    → length (found s before rows) < length arrivals
    → follow s limit before arrivals rows ≡ found s before rows
unfolding follow
follow_lem s limit before [] rows h = absurd (omega (arith, h))
follow_lem s limit before (new ∷ later) rows h =
    let ys : List Entry = found s before rows in
    let (k, same) = limit_positive limit in
    elim (Bool-cases (ltb (suc k) (length ys))) [
      | inl more ↦
          let (c, last) = last_found k ys more in
          let rest : found s (some c) (rows ++ new) ≡ drop (suc k) ys =
            found-again s before rows new c (suc k) last
            ∙ keep-rest k ys c (found-IsFalling s before rows) last in
          let shorter : length (found s (some c) (rows ++ new)) < length later =
            subst (λ (l : List Entry). length l < length later) (sym rest)
              (omega
                (arith, drop_shorter k ys (omega (tests, ltb→lt (suc k) (length ys) more)), h)) in
          rw (page_lem s before limit rows k same) (
            rw more (
              rw last (
                ap (λ l. take (suc k) ys ++ l)
                  (follow_lem s limit (some c) later (rows ++ new) shorter ∙ rest)
                ∙ take-drop (suc k) ys)))
      | inr done ↦ rw (page_lem s before limit rows k same) (
          rw done (
            append_nothing (take (suc k) ys)
            ∙ take_all (suc k) ys (omega (tests, not_ltb (suc k) (length ys) done))))
    ]

-- Who follows the cursors from the newest page, whatever the size of a page, sees every event of the
-- session that was there at the start exactly once, newest first, and nothing else, whatever
-- events arrive meanwhile, if at least one page more may be read than there are such events.
pub follow_complete :
    (s : Option String) (limit : Option ℤ) (arrivals : List (List Row)) (rows : List Row)
    → length (keep (in_session s) (newest_first rows)) < length arrivals
    → follow s limit none arrivals rows ≡ keep (in_session s) (newest_first rows)
follow_complete s limit arrivals rows h =
    let zs : List Entry = keep (in_session s) (newest_first rows) in
    follow_lem s limit none arrivals rows
      (subst (λ (l : List Entry). length l < length arrivals) (sym (keep_all zs)) h)
    ∙ keep_all zs
