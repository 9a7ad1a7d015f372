-- ===== src/Agent/Redaction.antt =====
-- src/agent-control/redaction.ts. The regular expressions are JavaScript's: what they do to a text
-- and to a key is a parameter.
pub mod Laws
use vops.Prelude.{String, Bool, true, false, not, ◌&&◌, ◌||◌, ◌==◌, if◌then◌else◌}
use vops.Agent.Json.{Json, null, bool, num, str, arr, obj, Items, nil, cons, Fields, end, field}

-- `scrub` replaces what BEARER, PRIVATE_KEY and URI_CREDENTIAL match; `is_sensitive` tests a key.
pub record Patterns : Type 0 where
  pub scrub : String → String
  pub is_sensitive : String → Bool

abbrev pub redacted : Json
redacted = str "[REDACTED]"

module _ (p : Patterns) where
  -- `key && isSensitiveKey(key)`
  unfoldable pub hides : String → Bool
  hides key = not (key == "") && p.is_sensitive key

  -- `applied` is the variable that the closure assigns: it goes through the walk as a state.
  unfoldable mutual
    pub visit : Json → Bool → Json × Bool
    visit null applied = (null, applied)
    visit (bool b) applied = (bool b, applied)
    visit (num n) applied = (num n, applied)
    visit (str s) applied = (str (p.scrub s), not (p.scrub s == s) || applied)
    visit (arr xs) applied = (arr (visit_items xs applied).0, (visit_items xs applied).1)
    visit (obj fs) applied = (obj (visit_fields fs applied).0, (visit_fields fs applied).1)

    pub visit_items : Items → Bool → Items × Bool
    visit_items nil applied = (nil, applied)
    visit_items (cons x xs) applied =
        let (y, applied') = visit x applied in
        let (ys, applied'') = visit_items xs applied' in (cons y ys, applied'')

    pub visit_fields : Fields → Bool → Fields × Bool
    visit_fields end applied = (end, applied)
    visit_fields (field k v fs) applied =
        let hidden : Json × Bool = (redacted, true) in
        let (w, applied') = if hides k then hidden else visit v applied in
        let (gs, applied'') = visit_fields fs applied' in (field k w gs, applied'')

  unfoldable pub redact_secrets : Json → Json × Bool
  redact_secrets input = visit input false

  unfoldable mutual
    pub contains_secret_like_field : Json → Bool
    contains_secret_like_field null = false
    contains_secret_like_field (bool b) = false
    contains_secret_like_field (num n) = false
    contains_secret_like_field (str s) = false
    contains_secret_like_field (arr xs) = some_item xs
    contains_secret_like_field (obj fs) = some_field fs

    pub some_item : Items → Bool
    some_item nil = false
    some_item (cons x xs) = contains_secret_like_field x || some_item xs

    pub some_field : Fields → Bool
    some_field end = false
    some_field (field k v fs) = p.is_sensitive k || (contains_secret_like_field v || some_field fs)
