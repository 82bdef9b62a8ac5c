-- ===== src/Lib.antt =====
-- herdr-tether starts workloads in tmux sessions that it owns, records them in a state file, and
-- shows them in Mission Control. This library models the parts that decide what is done with a
-- workload, and proves what keeps them correct.
--
-- Parts and files, with the code of the repository that each models:
--   Session, Session/Pace          src/state.rs: the persisted records, and how a restart is paced
--   Session/Validate               src/state.rs: `State::validate`
--   Store                          src/state.rs: `StateStore::load`, `update`, `exclusive`, and the
--                                  surroundings of the process, the parameter `Env`
--   Changes                        src/lifecycle.rs: what a closure under the lock writes
--   Lifecycle and its children     src/lifecycle.rs: `LifecycleService`; Stop, Open, Restart and
--                                  Remove have a method each, Service a sequence of requests;
--                                  `workload_without_its_pane` is from src/tmux.rs
--   Prune                          src/lifecycle.rs: `PruneService`
--   Interrupt                      src/interrupt.rs: `retry_interrupted`
--   Quote                          src/quote.rs, and `CommandSpec::posix_command_line` of
--                                  src/backend.rs
--   Observer and its children      src/observer.rs: `ObserverState`; Refresh, Attention and Update have
--                                  the refresh, its report and the captures, Select the
--                                  selection and the actions
--   Groups                         src/orchestration.rs: the operations of `OrchestrationService` on the
--                                  observer groups; Groups/Perform has any one of them as a request,
--                                  Groups/Plan the stop and restart of the workers of a group
--   Identifiers                    src/model.rs: what `from_str` accepts and `Display` writes
--   Manager and its children       src/observer_manager.rs: `ObserverManagerState`; Names has the names
--                                  that it makes, Open `from_state`, Operations and Handle what
--                                  an event does, Keys the events of keys
--   Prelude                        names, lists, tests and text that the others share
--   Examples                       runs at concrete inputs
-- The other files hold proofs, under the module that they are about.
--
-- A method of the service is a function of the world before it: the stored state, the number of
-- steps taken, the calls of tmux so far with their answers, and the audit trail. It returns a result
-- and the world after it. Between two critical sections other processes may save any state
-- (`Env.interfere`); locks, reads and writes may fail, and tmux may answer anything. These answers,
-- the clock, the bound on the serialized size and the check of a remote target are fields of `Env`.
--
-- A time is the number of nanoseconds since the least `DateTime<Utc>`, an identifier the number that
-- it wraps, a text the list of its scalar values (in Quote, of its bytes). A `HashMap` is a list with
-- the newest entry first, a `HashSet` a list of its elements. The retry loop runs on fuel; its
-- theorem says which fuel is enough, where a bound exists. The search for the name of a new group has
-- one round more than there are groups, and a decimal number 20 digits, which a `u64` never exceeds; the
-- part of an identifier in a label grows from 8 to 32 characters in 24 rounds. All other functions are
-- structural.
--
-- The manager of groups is opened on a stored state, and each event gives the manager after it and
-- possibly an action, which the service carries out on the state then stored. A panic of the manager is
-- `none`. What the uuid crate writes and reads is an argument of Identifiers and of Manager/Open.
--
-- Not modelled: the migration of older state files and the file formats, the source errors inside
-- `CloseOwnedError`, the reading of the audit trail, the words of reasons and failures, the processes,
-- sockets, terminals and configuration around these parts, and the rendering of the observer with
-- `sanitize_capture` (a parameter in Observer/Refresh and Observer/Update).
pub mod Prelude
pub mod Session
pub mod Store
pub mod Changes
pub mod Lifecycle
pub mod Quote
pub mod Interrupt
pub mod Observer
mod Examples
pub mod Prune
pub mod Groups
pub mod Identifiers
pub mod Manager
