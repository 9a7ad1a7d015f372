-- ===== src/Lib.antt =====
-- A model of the control of coding agents in vops, of its keyring, of the telephones that steer it from
-- afar, and of the keys and jobs that it keeps on its hosts.
--
-- Agents reach hosts and providers through the broker of src/agent-control: a token opens a session,
-- the session proposes a plan, the policy says of each step whether it is allowed, needs an approval
-- or is denied, a person decides on the approval, and the plan then runs step by step as an
-- operation that is written to an audit log. The keyring of src/lib/keyring holds the master of the
-- vault in memory, hands out keys to processes that know its cookie, and limits how fast
-- passphrases can be tried. src/remote pairs a telephone with this node, takes its signed commands
-- over a relay, and runs intents, actions that wait for a server type to become available; both act
-- on the sessions, plans and approvals of src/agent-control. src/host-ops changes the file of
-- authorized keys of a host over SSH, and is never to take away the last key that opens it; it
-- disables password login only where that cannot lock the user out; in a crontab it owns a block of
-- lines between two markers.
--
-- Which file models what:
--   Agent.Model          src/agent-control/agent-model.ts, agent-control-error.ts
--   Agent.Registry       capability-registry.ts: describe, has, list, validate
--   Agent.Policy         policy-engine.ts: evaluate (`decide` below the lookup), scopeDenial, matches
--                        Allowed, Scope: the conditions of an action, spelled out
--   Agent.Redaction      redaction.ts: redactSecrets, containsSecretLikeField
--   Agent.Audit          agent-store.ts: appendEvent, verifyEventChain; Text: stableStringify of
--                        src/agent-api/plan-store.ts; Pages: listEvents, listEventPage
--   Agent.Store          agent-store.ts: the tables, as lists in the order of insertion
--   Agent.Sessions       agent-session-manager.ts
--   Agent.Plans          plan-engine.ts; Hash: hashPlan and planBody
--   Agent.Approvals      approval-manager.ts
--   Agent.Operations     operation-manager.ts
--   Agent.Verification   verification.ts
--   Agent.Safety         agent-safety-state.ts
--   Agent.Broker         action-broker.ts
--   Keyring.Throttle     src/lib/keyring/unlock-throttle.ts
--   Keyring.Server       src/lib/keyring/keyring-server.ts, derive.ts, constant-time.ts
--   Remote.Model         src/remote/remote-model.ts, remote-message.types.ts
--   Remote.Store         remote-store.ts, and what the parts of src/remote are given: RemoteWorld
--   Remote.Messenger     remote-messenger.ts
--   Remote.Devices       device-registry.ts
--   Remote.Intents       intent.service.ts; Proposals: what a plan proposes
--   Remote.Pairing       pairing.service.ts
--   Remote.Commands      remote-command.handler.ts; Checks: verify; Execution: execute
--   Hosts.Lines          strings as lists of code units; toLines and fromLines of
--                        src/host-ops/authorized-keys.ts
--   Hosts.AuthorizedKeys authorized-keys.ts; View: what a file holds, for others and for vops
--   Hosts.Ssh            remote-ak.ts, and run and putFile of src/lib/ssh-exec.ts on a host
--   Hosts.Rotation       vops-ops-rotation.service.ts: rotateHost; Fleet: rotate
--   Hosts.OpsKeys        vops-host-keys.service.ts
--   Hosts.Crontab        crontab.ts
--   Hosts.Lockdown       vops-ssh-lockdown.service.ts, and of ssh-lockdown.ts alreadyApplied
-- A method of a service is a function of the same name, in snake case, on the state of the store;
-- it returns a value or a failure together with the new state, so what is written before an
-- exception stays written. The modules below a component hold its theorems.
--
-- What is a parameter: the clock (which stands still during one call), random ids and tokens, the
-- regular expressions of src/agent-control, SHA-256, scrypt and HKDF, localeCompare and
-- JSON.stringify of texts and numbers, trim, slice and toFixed there, the document of
-- capabilities, the schema validator, the reader of the vault's header, and the executor of
-- capabilities (core-action-executor.ts), which may change the store in any way; in src/remote the
-- check of signatures, the box that encrypts, the relay and what the catalogue answers, during
-- which the store may change; in src/host-ops what a host answers to each call and to each script,
-- the write gate and the check of the connection.
--
-- What is written differently: a time is a number of milliseconds and an amount of money a number of
-- cents; the messages of errors, and the errors in the detail of a refused plan, are left out; a
-- number in JSON is natural; what runs in parallel runs in order; a state is that
-- of one process, which holds its emergency stop in memory beside the stored one; a text of
-- src/host-ops is the list of its parts between line feeds. All recursion is on the structure of its
-- argument: there is no fuel.
--
-- Not modelled: SQLite itself, the plain listing of plans and operations, files, sockets and
-- terminals, the services behind the executor, the agents that a telephone talks to and their
-- conversations, the scripts and the other changes of src/host-ops, the
-- command line, the dashboard.
pub mod Prelude
pub mod Keyring
pub mod Agent
pub mod Remote
pub mod Hosts
pub mod Tests
