-- ===== src/Remote/Store/Keeps.antt =====
-- What an action of src/remote leaves as it was: a view of the state, and the actions that keep it.
use vops.Prelude.{
  String, Bool-cases, inl, inr, ◌≡◌, refl, ◌∙◌, Bool, true, false, Option, List, if◌then◌else◌,
}
use vops.Prelude.Result.{Result, ok, err}
use vops.Agent.Json.{Json}
use vops.Agent.Store
use vops.Agent.Store.{Db}
use vops.Agent.Store.Tables
use vops.Agent.Store.Tables.{Table}
use vops.Remote.Model.{Fault, Device, active, Intent, Message}
use vops.Remote.Messenger
use vops.Remote.Messenger.{is_active}
use vops.Remote.Store.{
  RemoteWorld, State, Counter, Sent, M, ◌>>=◌, ◌>>◌, catch, bind_result, catch_result, agent,
  append_event, save_intent, set_secret, remove_secret, random_id, next_outbound_sequence,
}

module _ {X : Type 0} (f : State → X) where
  abbrev pub Keeps : {A : Type 0} → M A → Type 0
  Keeps m = (s : State) → f (m s).1 ≡ f s

  Keeps-result :
      {A B : Type 0} (r : Result Fault A) (k : A → M B) (s : State)
      → ((a : A) → Keeps (k a))
      → f (bind_result r k s).1 ≡ f s
  Keeps-result (ok a) k s h = h a s
  Keeps-result (err e) k s h = refl

  -- What comes after `m` keeps what `m` leaves.
  pub after_bind :
      {A B : Type 0} (m : M A) (k : A → M B) (s : State)
      → ((a : A) → Keeps (k a))
      → f ((m >>= k) s).1 ≡ f (m s).1
  after_bind m k s hk = Keeps-result (m s).0 k (m s).1 hk

  pub Keeps-bind :
      {A B : Type 0} (m : M A) (k : A → M B) → Keeps m → ((a : A) → Keeps (k a)) → Keeps (m >>= k)
  Keeps-bind m k hm hk s = Keeps-result (m s).0 k (m s).1 hk ∙ hm s

  pub Keeps-then : {A B : Type 0} (m : M A) (k : M B) → Keeps m → Keeps k → Keeps (m >> k)
  Keeps-then m k hm hk = Keeps-bind m (λ a. k) hm (λ a. hk)

  pub Keeps-if :
      {A : Type 0} (b : Bool) (m k : M A) → Keeps m → Keeps k → Keeps (if b then m else k)
  Keeps-if true m k hm hk = hm
  Keeps-if false m k hm hk = hk

  Keeps-handled :
      {A : Type 0} (r : Result Fault A) (h : Fault → M A) (s : State)
      → ((e : Fault) → Keeps (h e))
      → f (catch_result r h s).1 ≡ f s
  Keeps-handled (ok a) h s hh = refl
  Keeps-handled (err e) h s hh = hh e s

  pub Keeps-catch :
      {A : Type 0} (m : M A) (h : Fault → M A)
      → Keeps m
      → ((e : Fault) → Keeps (h e))
      → Keeps (catch m h)
  Keeps-catch m h hm hh s = Keeps-handled (m s).0 h (m s).1 hh ∙ hm s

-- A view that does not show the agent control, the intents, what they keep secret, and the messages.
abbrev pub IsAside : {X : Type 0} → (State → X) → Type 0
IsAside f =
    (s : State) (a : Db) (i : Table Intent) (x : Table String) (c : Table Counter) (t : List Sent)
    → f (record s { agent = a; intents = i; secrets = x; counters = c; sent = t }) ≡ f s

module _ {X : Type 0} (f : State → X) (aside : IsAside f) (w : RemoteWorld) where
  pub agent-Keeps : {A : Type 0} (m : Store.M A) → Keeps f (agent m)
  agent-Keeps m s = aside s (m s.agent).1 s.intents s.secrets s.counters s.sent

  pub Keeps-agent :
      {A B : Type 0} (m : Store.M A) (k : A → M B)
      → ((a : A) → Keeps f (k a))
      → Keeps f (agent m >>= k)
  Keeps-agent m k h = Keeps-bind f (agent m) k (agent-Keeps m) h

  pub append_event-Keeps :
      (actor type : String) (session : Option String) (summary : String) (detail : Json)
      → Keeps f (append_event w actor type session summary detail)
  unfolding append_event Store.local_id Store.append_event
  append_event-Keeps actor type session summary detail s =
      aside s (append_event w actor type session summary detail s).1.agent s.intents s.secrets
        s.counters s.sent

  pub save_intent-Keeps : (i : Intent) → Keeps f (save_intent w i)
  unfolding save_intent
  save_intent-Keeps i s =
      aside s s.agent (Tables.upsert i.id i s.intents) s.secrets s.counters s.sent

  pub remove_secret-Keeps : (key : String) → Keeps f (remove_secret w key)
  unfolding remove_secret
  remove_secret-Keeps key s =
      aside s s.agent s.intents (remove_secret w key s).1.secrets s.counters s.sent

  pub set_secret-Keeps : (key value : String) → Keeps f (set_secret w key value)
  unfolding set_secret
  set_secret-Keeps key value s =
      aside s s.agent s.intents (set_secret w key value s).1.secrets s.counters s.sent

  pub send-Keeps : (d : Device) (m : Message) → Keeps f (Messenger.send w d m)
  unfolding Messenger.send is_active Messenger.transmit random_id next_outbound_sequence
  send-Keeps d m s = elim (Bool-cases (is_active d.status)) [
    | inr e ↦ rw e refl
    | inl e ↦
        let t = (Messenger.send w (record d { status = active }) m s).1 in
        rw e (aside s t.agent s.intents s.secrets t.counters t.sent)
  ]
