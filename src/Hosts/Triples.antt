-- ===== src/Hosts/Triples.antt =====
-- What holds after an action on a host: a predicate of the state where it returns, and an invariant
-- where it throws.
use vops.Prelude.{◌≡◌, ◌⊎◌, String, List, [], ◌∷◌}
use vops.Prelude.Result.{Result, ok, err}
use vops.Hosts.Ssh.{Event, opened, wrote, audited, SshError, State, M, ◌>>=◌, bind_result}

-- The key opened a session.
abbrev pub HasOpened : String → List Event → Type 0
HasOpened key [] = ⊥
HasOpened key (opened k ∷ rest) = (k ≡ key) ⊎ HasOpened key rest
HasOpened key (wrote f ∷ rest) = HasOpened key rest
HasOpened key (audited ∷ rest) = HasOpened key rest

module _ (I : State → Type 0) where
  abbrev pub Post : {A : Type 0} → (A → State → Type 0) → Result SshError A → State → Type 0
  Post Q (ok a) s = Q a s
  Post Q (err e) s = I s

  abbrev pub Leads : {A : Type 0} → (State → Type 0) → M A → (A → State → Type 0) → Type 0
  Leads P m Q = (s : State) → P s → Post Q (m s).0 (m s).1

  Post-bind :
      {A B : Type 0} (Q : A → State → Type 0) (R : B → State → Type 0) (x : Result SshError A)
      (k : A → M B) (s : State)
      → Post Q x s
      → ((a : A) → Leads (Q a) (k a) R)
      → Post R (bind_result x k s).0 (bind_result x k s).1
  Post-bind Q R (ok a) k s h hk = hk a s h
  Post-bind Q R (err e) k s h hk = h

  pub Leads-bind :
      {A B : Type 0} (P : State → Type 0) (Q : A → State → Type 0) (R : B → State → Type 0)
      (m : M A) (k : A → M B)
      → Leads P m Q
      → ((a : A) → Leads (Q a) (k a) R)
      → Leads P (m >>= k) R
  Leads-bind P Q R m k hm hk s h = Post-bind Q R (m s).0 k (m s).1 (hm s h) hk

  -- An action that leads to the invariant keeps it in any case.
  pub at_end : {A : Type 0} (x : Result SshError A) (s : State) → Post (λ a. I) x s → I s
  at_end (ok a) s h = h
  at_end (err e) s h = h

  -- Nothing is asked of what follows.
  pub Leads-any :
      {A : Type 0} (P : State → Type 0) (m : M A) → ((s : State) → I s) → Leads P m (λ a s. Unit)
  Leads-any P m kept s h = go (m s).0 (m s).1
    where
      go : {A : Type 0} (x : Result SshError A) (t : State) → Post (λ a s. Unit) x t
      go (ok a) t = tt
      go (err e) t = kept t
