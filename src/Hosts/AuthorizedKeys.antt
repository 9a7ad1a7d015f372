-- ===== src/Hosts/AuthorizedKeys.antt =====
-- src/host-ops/authorized-keys.ts: the changes to a file of authorized keys. vops knows its own line by
-- the tag at its end.
pub mod View
use vops.Prelude.{
  ℕ, String, ◌≡◌, refl, ◌≢◌, inl, arith, Bool, true, false, not, ◌&&◌, ◌||◌, Option, none, some,
  List, [], ◌∷◌, ◌++◌, ◌-◌, any, keep, find, is_empty, length, if◌then◌else◌,
}
use vops.Hosts.Lines.{
  Line, File, codes, same_line, trim, starts_with, ends_with, includes_text, words, first, second,
  third, or_blank, to_lines, from_lines, In, In-to_lines, In-from_lines, In-keep, In-append_left,
  In-append_right,
}

unfoldable pub ops_tag : Line → Line
ops_tag profile_id = codes "vops-ops:" ++ profile_id

is_key_type : Line → Bool
is_key_type token =
    starts_with token (codes "ssh-")
    || (starts_with token (codes "ecdsa-sha2-")
        || (starts_with token (codes "sk-ssh-") || starts_with token (codes "sk-ecdsa-")))

-- Boolean(o)
is_full : Option Line → Bool
is_full none = false
is_full (some l) = not (is_empty l)

unfoldable pub is_comment : Line → Bool
is_comment t = is_empty t || starts_with t (codes "#")

-- A field that is missing is no key type.
unfoldable pub is_key_line : Line → Bool
unfolding is_key_type is_full is_comment
is_key_line line =
    let t = trim line in
    let parts = words t in
    if is_comment t
    then false
    else if is_key_type (or_blank (first parts))
    then is_full (second parts)
    else if is_key_type (or_blank (second parts))
    then is_full (third parts)
    else false

unfoldable pub is_ops_line : Line → Line → Bool
unfolding is_comment
is_ops_line line tag =
    let t = trim line in
    if is_comment t then false else ends_with t (codes " " ++ tag) || same_line t tag

unfoldable pub upsert_ops_line : File → Line → Line → File × Bool
upsert_ops_line content line tag =
    let lines = to_lines content in
    let identical = any (λ l. same_line (trim l) (trim line)) lines in
    (from_lines (keep (λ l. not (is_ops_line l tag)) lines ++ line ∷ []), not identical)

unfoldable pub remove_ops_line : File → Line → File × ℕ
remove_ops_line content tag =
    let lines = to_lines content in
    let kept = keep (λ l. not (is_ops_line l tag)) lines in
    (from_lines kept, length lines - length kept)

unfoldable pub has_other_authorized_key : File → Line → Bool
has_other_authorized_key content tag =
    any (λ l. is_key_line l && not (is_ops_line l tag)) (to_lines content)

-- The base64 field; nothing where there is none.
unfoldable pub key_blob : Line → Line
key_blob public_key = or_blank (second (words (trim public_key)))

unfoldable pub authorizes_blob : File → Line → Bool
authorizes_blob content blob = any (λ l. is_key_line l && includes_text l blob) (to_lines content)

unfoldable pub authorizes_key_data : File → Line → Bool
authorizes_key_data content public_key =
    let blob = key_blob public_key in if is_empty blob then false else authorizes_blob content blob

pub data RevokeSafetyReason : Type 0 where
  user_key_remains other_key_remains user_key_not_in_file user_key_is_being_removed
        no_verified_user_key :
      RevokeSafetyReason

pub record RevokeSafety : Type 0 where
  pub safe : Bool
  pub reason : RevokeSafetyReason

unfoldable pub assess_revoke_safety : File → File → Line → Option Line → RevokeSafety
assess_revoke_safety before after tag verified =
    let blob = key_blob (or_blank verified) in
    if not (is_empty blob) && authorizes_blob after blob
    then record { safe = true; reason = user_key_remains }
    else if has_other_authorized_key after tag
    then record { safe = true; reason = other_key_remains }
    else if is_empty blob
    then record { safe = false; reason = no_verified_user_key }
    else if not (authorizes_blob before blob)
    then record { safe = true; reason = user_key_not_in_file }
    else record { safe = false; reason = user_key_is_being_removed }

-- KEY_TYPE_RE, which is wider than the test above
unfoldable pub matches_key_type : Line → Bool
matches_key_type token =
    starts_with token (codes "ssh-")
    || (starts_with token (codes "ecdsa-") || starts_with token (codes "sk-"))

unfoldable pub extract_options : Line → Line
unfolding matches_key_type
extract_options line =
    let parts = words (trim line) in
    if matches_key_type (or_blank (first parts))
    then []
    else if matches_key_type (or_blank (second parts))
    then or_blank (first parts)
    else []

-- A field that is missing is printed as `undefined`.
unfoldable pub or_undefined : Option Line → Line
or_undefined none = codes "undefined"
or_undefined (some l) = l

unfoldable pub build_ops_line : Line → Line → Line → Line
unfolding or_undefined
build_ops_line public_key tag options =
    let parts = words public_key in
    trim (
      options
      ++ (codes " "
          ++ (or_undefined (first parts)
              ++ (codes " " ++ (or_undefined (second parts) ++ (codes " " ++ tag))))))

unfoldable pub find_ops_line : File → Line → Option Line
find_ops_line content tag = find (λ l. is_ops_line l tag) (to_lines content)

pub data RotateState : Type 0 where
  done mid old absent : RotateState

-- '\0' stands for the data of a key that has none.
unfoldable pub next_data : Option Line → Line
next_data none = 0 ∷ []
next_data (some l) = l

unfoldable pub has_data : Option Line → Line → Bool
has_data none blob = false
has_data (some l) blob = includes_text l blob

-- A line that is found is not empty.
unfoldable pub is_found : Option Line → Bool
is_found none = false
is_found (some l) = true

unfoldable pub classify_rotation : File → Line → Line → Line → RotateState
unfolding next_data has_data is_found
classify_rotation content canonical_tag temp_tag next_public_key =
    let canonical = find_ops_line content canonical_tag in
    if has_data canonical (next_data (second (words next_public_key)))
    then done
    else if is_found (find_ops_line content temp_tag)
    then mid
    else if is_found canonical
    then old
    else absent

-- A line without the tag is kept.
pub upsert-In :
    (l : Line) (content : File) (line tag : Line)
    → l ≢ []
    → is_ops_line l tag ≡ false
    → In l content
    → In l (upsert_ops_line content line tag).0
unfolding upsert_ops_line
upsert-In l content line tag full other h = In-from_lines l _ (
    In-append_left l _ (line ∷ []) (
      In-keep l (λ x. not (is_ops_line x tag)) (to_lines content) (rw other refl)
        (In-to_lines l content full h)))

pub upsert-In_line :
    (content : File) (line tag : Line) → In line (upsert_ops_line content line tag).0
unfolding upsert_ops_line
upsert-In_line content line tag = In-from_lines line _ (
    In-append_right line (keep (λ x. not (is_ops_line x tag)) (to_lines content)) (line ∷ [])
      (inl refl))

pub remove-In :
    (l : Line) (content : File) (tag : Line)
    → l ≢ []
    → is_ops_line l tag ≡ false
    → In l content
    → In l (remove_ops_line content tag).0
unfolding remove_ops_line
remove-In l content tag full other h = In-from_lines l _ (
    In-keep l (λ x. not (is_ops_line x tag)) (to_lines content) (rw other refl)
      (In-to_lines l content full h))
