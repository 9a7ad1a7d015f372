-- ===== src/Agent/Audit/Text.antt =====
-- `stableStringify` of src/agent-api/plan-store.ts: JSON with its keys sorted at every level.
use vops.Prelude.{ℕ, String, Bool, List, [], ◌∷◌, if◌then◌else◌}
use vops.Prelude.Texts.{◌⋯◌, join}
use vops.Agent.Json.{Json, null, bool, num, str, arr, obj, Items, nil, cons, Fields, end, field}

-- `JSON.stringify` of a text and of a number, and `a.localeCompare(b) <= 0`.
pub record Writer : Type 0 where
  pub quote : String → String
  pub show : ℕ → String
  pub before : String → String → Bool

module _ (w : Writer) where
  -- A stable sort of the entries by their keys.
  unfoldable pub insert : String × String → List (String × String) → List (String × String)
  insert (k, v) [] = (k, v) ∷ []
  insert (k, v) ((j, u) ∷ rest) =
      if w.before k j then (k, v) ∷ (j, u) ∷ rest else (j, u) ∷ insert (k, v) rest

  unfoldable pub entry : List (String × String) → List String
  entry [] = []
  entry ((k, v) ∷ rest) = (w.quote k ⋯ ":" ⋯ v) ∷ entry rest

  unfoldable mutual
    unfolding insert entry

    pub stringify : Json → String
    stringify null = "null"
    stringify (bool b) = if b then "true" else "false"
    stringify (num n) = w.show n
    stringify (str s) = w.quote s
    stringify (arr xs) = "[" ⋯ join "," (each xs) ⋯ "]"
    stringify (obj fs) = "{" ⋯ join "," (entry (sorted fs)) ⋯ "}"

    each : Items → List String
    each nil = []
    each (cons x xs) = stringify x ∷ each xs

    sorted : Fields → List (String × String)
    sorted end = []
    sorted (field k v fs) = insert (k, stringify v) (sorted fs)

  unfoldable pub stable_stringify : Json → String
  unfolding stringify
  stable_stringify j = stringify j
