-- ===== src/Remote/Intents/Settled.antt =====
-- What src/remote/intent.service.ts makes of an intent once it has asked the catalogue.
use vops.Prelude.{
  suc, String, ◌≡◌, refl, ap, ◌∙◌, ◌==◌, eq_refl, arith, Bool, true, false, Option, none, some,
  List, ◌⊎◌, inl, inr, Bool-cases, Option-cases, if◌then◌else◌,
}
use vops.Prelude.Result.{Result, ok, err}
use vops.Agent.Model.{Operation}
use vops.Agent.Sessions
use vops.Agent.Broker
use vops.Agent.Store.Tables.{Table, get, upsert, get-upsert}
use vops.Remote.Model.{
  Intent, IntentStatus, triggered, executing, succeeded, failed, Fault, other, intent_updated,
}
use vops.Remote.Store.{
  RemoteWorld, State, Offer, M, ◌>>=◌, ◌>>◌, pure, catch, bind_result, catch_result, agent, now,
  get_device, save_intent, remove_secret, get_secret,
}
use vops.Remote.Store.Keeps.{Keeps, Keeps-then, Keeps-catch, after_bind}
use vops.Remote.Store.Quiet.{log-Keeps, message-Keeps}
use vops.Remote.Messenger
use vops.Remote.Messenger.{is_active}
use vops.Remote.Intents.{
  event, update, deactivate, notify, finish, matched, conclude, give_up, run_with, execute,
  check_offers, fail_check, evaluate, has_succeeded, secret_key, safe_error,
}

abbrev intents_of : State → Table Intent
intents_of s = s.intents

module _ (w : RemoteWorld) where
  event-Keeps : (i : Intent) (type summary : String) → Keeps intents_of (event w i type summary)
  unfolding event
  event-Keeps i type summary = log-Keeps intents_of (λ s l n c t. refl) w _ type _ summary _

  deactivate-Keeps : (i : Intent) → Keeps intents_of (deactivate w i)
  unfolding deactivate remove_secret
  deactivate-Keeps i =
      Keeps-then intents_of
        (catch (agent (Sessions.revoke w.agent_world i.agent_session_id) >> pure tt) (λ e. pure tt))
        (remove_secret w (secret_key w i.id))
        (Keeps-catch intents_of
          (agent (Sessions.revoke w.agent_world i.agent_session_id) >> pure tt) (λ e. pure tt)
          (Keeps-then intents_of (agent (Sessions.revoke w.agent_world i.agent_session_id))
            (pure tt) (λ s. refl) (λ s. refl))
          (λ e s. refl))
        (λ s. refl)

  notify-Keeps : (i : Intent) → Keeps intents_of (notify w i)
  unfolding notify get_device
  notify-Keeps i s = elim (Option-cases (get i.device_id s.devices)) [
    | inl e ↦ rw (e, notify) refl
    | inr (d, e) ↦
        rw (e, notify)
          (elim (Bool-cases (is_active d.status)) [
            | inr off ↦ rw off refl
            | inl on ↦ rw on (
                Keeps-catch intents_of (Messenger.send w d (intent_updated i)) (λ f. pure tt)
                  (message-Keeps intents_of (λ t l n c m. refl) w d (intent_updated i))
                  (λ f t. refl) s)
          ])
  ]

  finish-Keeps : (i : Intent) (type summary : String) → Keeps intents_of (finish w i type summary)
  unfolding finish
  finish-Keeps i type summary =
      Keeps-then intents_of (event w i type summary) _ (event-Keeps i type summary)
        (Keeps-then intents_of (deactivate w i) (notify w i) (deactivate-Keeps i) (notify-Keeps i))

  -- The intent as `update` writes it.
  abbrev pub written : Intent → Intent
  written i = record i { version = suc i.version; updated_at = now w }

  update_then :
      (i : Intent) (k : Intent → M (Unit {0})) (s : State)
      → ((j : Intent) → Keeps intents_of (k j))
      → get i.id ((update w i >>= k) s).1.intents ≡ some (written i)
  unfolding update save_intent
  update_then i k s h =
      ap (get i.id) (after_bind intents_of (update w i) k s h) ∙ simp (get-upsert, eq_refl)

  -- The store holds the intent as one that is over.
  abbrev pub HasEnded : String → State → Type 0
  HasEnded id s =
      (j : Intent) × (get id s.intents ≡ some j) × ((j.status ≡ succeeded) ⊎ (j.status ≡ failed))

  -- The action throws, or leaves the intent `id` over.
  abbrev Ends : {A : Type 0} → String → M A → Type 0
  Ends id m = (s : State) → ((e : Fault) × ((m s).0 ≡ err e)) ⊎ HasEnded id (m s).1

  Ends-result :
      {A B : Type 0} (id : String) (r : Result Fault A) (k : A → M B) (s : State)
      → ((a : A) → Ends id (k a))
      → ((e : Fault) × ((bind_result r k s).0 ≡ err e)) ⊎ HasEnded id (bind_result r k s).1
  Ends-result id (ok a) k s h = h a s
  Ends-result id (err e) k s h = inl (e, refl)

  Ends-bind :
      {A B : Type 0} (id : String) (m : M A) (k : A → M B)
      → ((a : A) → Ends id (k a))
      → Ends id (m >>= k)
  Ends-bind id m k h s = Ends-result id (m s).0 k (m s).1 h

  Ends-caught :
      {A : Type 0} (id : String) (r : Result Fault A) (h : Fault → M A) (s : State)
      → ((e : Fault) × (r ≡ err e)) ⊎ HasEnded id s
      → ((e : Fault) → Ends id (h e))
      → ((e : Fault) × ((catch_result r h s).0 ≡ err e)) ⊎ HasEnded id (catch_result r h s).1
  Ends-caught id (ok a) h s (inl (e, eq)) k = ground (arith, eq)
  Ends-caught id (ok a) h s (inr over) k = inr over
  Ends-caught id (err e) h s m k = k e s

  Ends-catch :
      {A : Type 0} (id : String) (m : M A) (h : Fault → M A)
      → Ends id m
      → ((e : Fault) → Ends id (h e))
      → Ends id (catch m h)
  Ends-catch id m h hm hh s = Ends-caught id (m s).0 h (m s).1 (hm s) hh

  IsOver : IntentStatus → Type 0
  IsOver t = (t ≡ succeeded) ⊎ (t ≡ failed)

  Ends-update :
      (j : Intent) (k : Intent → M (Unit {0}))
      → IsOver j.status
      → ((i : Intent) → Keeps intents_of (k i))
      → Ends j.id (update w j >>= k)
  unfolding IsOver
  Ends-update j k over keeps s = inr (written j, update_then j k s keeps, over)

  conclude-Ends : (i : Intent) (o : Operation) → Ends i.id (conclude w i o)
  unfolding conclude IsOver
  conclude-Ends i o =
      Ends-update
        (record i {
          status = if has_succeeded w o then succeeded else failed;
          execution_count = 1;
          operation_id = some o.id;
          last_error = elim o.error [
            | none ↦ i.last_error
            | some e ↦ some (w.message_of (Fault.of_agent e))
          ];
        })
        _ (over (has_succeeded w o)) (λ j. finish-Keeps j _ _)
    where
      over : (b : Bool) → IsOver (if b then succeeded else failed)
      over true = inl refl
      over false = inr refl

  give_up-Ends : (i : Intent) (e : Fault) → Ends i.id (give_up w i e)
  unfolding give_up IsOver
  give_up-Ends i e =
      Ends-update
        (record i { status = failed; execution_count = 1; last_error = some (safe_error w e) }) _
        (inr refl) (λ j. finish-Keeps j _ _)

  fail_check-HasEnded : (i : Intent) (e : Fault) (s : State) → HasEnded i.id (fail_check w i e s).1
  unfolding fail_check
  fail_check-HasEnded i e s =
      let j : Intent = record i { status = failed; last_error = some (safe_error w e) } in
      (written j, update_then j _ s (λ k. finish-Keeps k _ _), inr refl)

  run_with-Ends : (o : Option String) (i : Intent) → Ends i.id (run_with w o i)
  unfolding run_with update save_intent
  run_with-Ends none i s = inl (other "Intent execution credential is unavailable.", refl)
  run_with-Ends (some token) i s = elim (Bool-cases (token == "")) [
    | inl e ↦ inl (other "Intent execution credential is unavailable.", rw e refl)
    | inr e ↦ rw e (
        Ends-catch i.id
          (agent (Broker.execute_plan w.agent_world w.execute (some token) i.plan_id)
            >>= conclude w running)
          (give_up w running)
          (Ends-bind i.id
            (agent (Broker.execute_plan w.agent_world w.execute (some token) i.plan_id))
            (conclude w running) (λ o. conclude-Ends running o))
          (λ f. give_up-Ends running f) (update w (record i { status = executing }) s).1)
  ]
    where
      running : Intent
      running = written (record i { status = executing })

  execute-Ends : (i : Intent) → Ends i.id (execute w i)
  unfolding execute
  execute-Ends i =
      Ends-bind i.id (get_secret w (secret_key w i.id)) _ (λ token. run_with-Ends token i)

  check_offers-Ends :
      (i : Intent) (offers : List Offer)
      → matched w i offers ≡ true
      → Ends i.id (check_offers w i offers)
  unfolding check_offers update save_intent
  check_offers-Ends i offers hit s = rw hit (
      Ends-bind i.id (event w found "remote.intent.matched" "Conditional intent trigger matched.") _
        (λ u. execute-Ends found)
        (update w (record checked { status = triggered; matched_at = some (now w) })
          (update w (record i { last_checked_at = some (now w) }) s).1).1)
    where
      checked : Intent
      checked = written (record i { last_checked_at = some (now w) })

      found : Intent
      found = written (record checked { status = triggered; matched_at = some (now w) })

  check_offers_idle :
      (i : Intent) (offers : List Offer) (s : State)
      → matched w i offers ≡ false
      → (check_offers w i offers s) ≡ (
        ok tt,
        record s {
          intents = upsert i.id (written (record i { last_checked_at = some (now w) })) s.intents;
        },
      )
  unfolding check_offers update save_intent
  check_offers_idle i offers s miss = rw miss refl

  settled :
      (i : Intent) (q : Result Fault (Unit {0}) × State)
      → ((e : Fault) × (q.0 ≡ err e)) ⊎ HasEnded i.id q.1
      → HasEnded i.id (catch_result q.0 (fail_check w i) q.1).1
  settled i (ok u, s) (inl (e, eq)) = ground (arith, eq)
  settled i (ok u, s) (inr over) = over
  settled i (err e, s) h = fail_check-HasEnded i e s

  -- What `evaluate` comes to, once the catalogue has answered.
  abbrev Comes : Intent → Result Fault (List Offer) × State → State → Type 0
  Comes i q t =
      HasEnded i.id t
      ⊎ ((offers : List Offer) × (q.0 ≡ ok offers)
          × (matched w i offers ≡ false)
          × (get i.id t.intents ≡ some (written (record i { last_checked_at = some (now w) }))))

  answered :
      (i : Intent) (q : Result Fault (List Offer) × State)
      → Comes i q (catch (λ s. bind_result q.0 (check_offers w i) q.1) (fail_check w i) q.1).1
  answered i (err e, s) = inl (fail_check-HasEnded i e s)
  answered i (ok offers, s) = elim (Bool-cases (matched w i offers)) [
    | inl hit ↦ inl (settled i (check_offers w i offers s) (check_offers-Ends i offers hit s))
    | inr miss ↦
        inr
          (offers, refl, miss, rw (check_offers_idle i offers s miss) (simp (get-upsert, eq_refl)))
  ]

  -- When the catalogue has been asked about an intent, the store holds the intent as succeeded or failed,
  -- unless the catalogue has answered and nothing that it offers matches: then the store holds the intent
  -- as it was when the round began, with the time of the check, whatever has become of it meanwhile.
  pub evaluate-HasEnded :
      (i : Intent) (s : State)
      → HasEnded i.id (evaluate w i s).1
        ⊎ ((offers : List Offer) × ((w.availability i.trigger.provider i.trigger.server_type s).0
              ≡ ok offers)
            × (matched w i offers ≡ false)
            × (get i.id (evaluate w i s).1.intents
                ≡ some (written (record i { last_checked_at = some (now w) }))))
  unfolding evaluate
  evaluate-HasEnded i s = answered i (w.availability i.trigger.provider i.trigger.server_type s)
