-- ===== src/Agent/Policy/Scope.antt =====
-- scopeDenial and targetFrom of src/agent-control/policy-engine.ts as conditions on the session and the
-- input.
use vops.Prelude.{
  String, ◌≡◌, ◌≢◌, ◌↔◌, ◌⊎◌, refl, ◌∙◌, inl, inr, Bool, true, false, Option, none, some, List, [],
  ◌∷◌, arith, any, includes, is_empty, Bool-cases, eq_iff,
}
use vops.Agent.Json.{Json, null, bool, num, str, arr, obj, Fields, get}
use vops.Agent.Model.{Environment, Session, Capability}
use vops.Agent.Policy.{
  same_environment, nonempty_text, or_else, target_from, target_denial, scope_denial,
}
use vops.Agent.Policy.Allowed.{IsIn, IsTarget, HasNoTarget, InScope, includes_iff, environment_iff}

text_some :
    (o : Option Json) (t : String) → nonempty_text o ≡ some t → (o ≡ some (str t)) × (t ≢ "")
unfolding nonempty_text
text_some none t h = ground arith
text_some (some (str s)) t h = (ground (arith, eq_iff s ""), λ e. ground (arith, eq_iff s ""))
text_some (some null) t h = ground arith
text_some (some (bool b)) t h = ground arith
text_some (some (num n)) t h = ground arith
text_some (some (arr xs)) t h = ground arith
text_some (some (obj fs)) t h = ground arith

text_none : (o : Option Json) → nonempty_text o ≡ none → (t : String) → o ≡ some (str t) → t ≡ ""
unfolding nonempty_text
text_none none h t e = ground arith
text_none (some (str s)) h t e = ground (arith, eq_iff s "")
text_none (some null) h t e = ground arith
text_none (some (bool b)) h t e = ground arith
text_none (some (num n)) h t e = ground arith
text_none (some (arr xs)) h t e = ground arith
text_none (some (obj fs)) h t e = ground arith

some_text : (o : Option Json) (t : String) → o ≡ some (str t) → t ≢ "" → nonempty_text o ≡ some t
unfolding nonempty_text
some_text o t e full = rw e (ground (arith, eq_iff t ""))

none_text : (o : Option Json) → ((t : String) → o ≡ some (str t) → t ≡ "") → nonempty_text o ≡ none
unfolding nonempty_text
none_text none h = refl
none_text (some (str s)) h = let e : s ≡ "" = h s refl in ground (arith, eq_iff s "")
none_text (some null) h = refl
none_text (some (bool b)) h = refl
none_text (some (num n)) h = refl
none_text (some (arr xs)) h = refl
none_text (some (obj fs)) h = refl

IsTarget-some : (input : Fields) (t : String) → target_from input ≡ some t → IsTarget input t
unfolding target_from
IsTarget-some input t h =
    go (nonempty_text (get input "target")) (nonempty_text (get input "host")) refl refl h
  where
    go :
        (a b : Option String)
        → nonempty_text (get input "target") ≡ a
        → nonempty_text (get input "host") ≡ b
        → or_else a (or_else b (nonempty_text (get input "id"))) ≡ some t
        → IsTarget input t
    go (some x) b ea eb e = inl (text_some (get input "target") t (ea ∙ e))
    go none (some y) ea eb e =
        inr (inl (text_none (get input "target") ea, text_some (get input "host") t (eb ∙ e)))
    go none none ea eb e = inr (
        inr (
          text_none (get input "target") ea,
          text_none (get input "host") eb,
          text_some (get input "id") t e,
        ))

target_none : (input : Fields) → target_from input ≡ none → HasNoTarget input
unfolding target_from
target_none input h =
    go (nonempty_text (get input "target")) (nonempty_text (get input "host")) refl refl h
  where
    go :
        (a b : Option String)
        → nonempty_text (get input "target") ≡ a
        → nonempty_text (get input "host") ≡ b
        → or_else a (or_else b (nonempty_text (get input "id"))) ≡ none
        → HasNoTarget input
    go (some x) b ea eb e = ground arith
    go none (some y) ea eb e = ground arith
    go none none ea eb e = (
      text_none (get input "target") ea,
      text_none (get input "host") eb,
      text_none (get input "id") e,
    )

some_target : (input : Fields) (t : String) → IsTarget input t → target_from input ≡ some t
unfolding target_from or_else
some_target input t (inl h) = rw (some_text (get input "target") t h.0 h.1) refl
some_target input t (inr (inl h)) =
    rw (none_text (get input "target") h.0, some_text (get input "host") t h.1.0 h.1.1) refl
some_target input t (inr (inr h)) =
    rw
      (
        none_text (get input "target") h.0,
        none_text (get input "host") h.1,
        some_text (get input "id") t h.2.0 h.2.1,
      )
      refl

no_target : (input : Fields) → HasNoTarget input → target_from input ≡ none
unfolding target_from or_else
no_target input h =
    rw
      (
        none_text (get input "target") h.0,
        none_text (get input "host") h.1,
        none_text (get input "id") h.2,
      )
      refl

is_empty_iff : (xs : List String) → (is_empty xs ≡ true) ↔ (xs ≡ [])
is_empty_iff [] = (λ h. refl, λ h. refl)
is_empty_iff (x ∷ xs) = (λ h. ground arith, λ h. ground arith)

no_host :
    (host_scoped : Bool) (targets : List String)
    → target_denial targets host_scoped none ≡ none
    → host_scoped ≡ false
unfolding target_denial
no_host host_scoped targets h = ground arith

in_targets :
    (targets : List String) (t : String) (host_scoped : Bool)
    → target_denial targets host_scoped (some t) ≡ none
    → includes targets t ≡ true
unfolding target_denial
in_targets targets t host_scoped h = ground arith

allowed_target :
    (targets : List String) (t : String) (host_scoped : Bool)
    → includes targets t ≡ true
    → target_denial targets host_scoped (some t) ≡ none
unfolding target_denial
allowed_target targets t host_scoped h = rw h refl

allowed_untold : (targets : List String) → target_denial targets false none ≡ none
unfolding target_denial
allowed_untold targets = refl

denial_iff :
    (targets : List String) (host_scoped : Bool) (input : Fields)
    → (target_denial targets host_scoped (target_from input) ≡ none) ↔ (
        ((t : String) × IsTarget input t × IsIn t targets)
        ⊎ (HasNoTarget input × (host_scoped ≡ false)))
denial_iff targets host_scoped input = (λ h. there (target_from input) refl h, back)
  where
    there :
        (o : Option String)
        → target_from input ≡ o
        → target_denial targets host_scoped o ≡ none
        → ((t : String) × IsTarget input t × IsIn t targets)
          ⊎ (HasNoTarget input × (host_scoped ≡ false))
    there none e h = inr (target_none input e, no_host host_scoped targets h)
    there (some t) e h = inl (
      t,
      IsTarget-some input t e,
      (includes_iff targets t).0 (in_targets targets t host_scoped h),
    )

    back :
        ((t : String) × IsTarget input t × IsIn t targets)
          ⊎ (HasNoTarget input × (host_scoped ≡ false))
        → target_denial targets host_scoped (target_from input) ≡ none
    back (inl (t, aimed, member)) =
        rw (some_target input t aimed)
          (allowed_target targets t host_scoped ((includes_iff targets t).1 member))
    back (inr (untold, free)) = rw (no_target input untold, free) (allowed_untold targets)

pub scope_iff :
    (session : Session) (capability : Capability) (environment : Environment) (input : Fields)
    → (scope_denial session capability environment input ≡ none)
      ↔ InScope session capability environment input
unfolding scope_denial
scope_iff session capability environment input = (
  λ h. (
    ground (arith, environment_iff environment session.scope.environments),
    elim (Bool-cases (is_empty session.scope.targets)) [
      | inl e ↦ inl ((is_empty_iff session.scope.targets).0 e)
      | inr e ↦
          inr ((denial_iff session.scope.targets capability.host_scoped input).0 (ground arith))
    ],
  ),
  λ (inside, aimed).
      let known : any (same_environment environment) session.scope.environments ≡ true =
        (environment_iff environment session.scope.environments).1 inside in
      elim (Bool-cases (is_empty session.scope.targets)) [
        | inl e ↦ rw (known, e) refl
        | inr e ↦
            rw (known, e)
              (elim aimed [
                | inl empty ↦ ground (arith, is_empty_iff session.scope.targets)
                | inr told ↦ (denial_iff session.scope.targets capability.host_scoped input).1 told
              ])
      ],
)
