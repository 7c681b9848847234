-- ===== src/Lib.antt =====
-- Floxy is a workflow engine in Go: a definition is a graph of steps, an engine executes one queue item
-- at a time on behalf of workers, and a store keeps definitions, instances, steps, the queue, join
-- states, requests and dead letters. This library models the in-memory store (memory_store.go) with the
-- data model (models.go), the builder and the validation of definitions (builder.go, builder_opts.go),
-- and the engine over that store (engine.go), as functions that pass the state explicitly. The builder
-- makes a definition from calls, Build validates it, the store keeps it, and the engine runs it: it
-- takes an item of the queue, executes its step, and writes what follows to the store.
--
-- Prelude     Tests on numbers and texts, lists, Go's maps as association lists, sorting, int64 and
--             float64 (Prelude/Machine).
-- Model       models.go: the enumerations and the structs.
-- Store       memory_store.go and errors.go. Store/Defs has the struct MemoryStore; each method is a
--             function of its name in snake case (CreateStep is create_step), from its arguments and the
--             store to its result and the new store. Store/Definitions, Instances, Steps, Queue, Events,
--             Joins, Requests, DeadLetters, Cleanup, Listings, Stats and Reports hold the methods by subject.
--             Store/Operations has an Operation for each method that changes the store, and the effect
--             of a sequence of them, which is what interleaved goroutines amount to under the mutex.
--             Store/Valid has the invariant of the tables, and Store/Claims what a claim of a queue item
--             promises; the child modules of Queue, Steps and Joins prove what these do.
-- Graph       builder.go: ValidateWorkflowDefinition, validateStepName, isVirtualStep, detectCycles.
--             Graph/Cycles has the links that a search follows and what the search finds; Graph/Valid
--             what a definition is that the validation passes.
-- Builder     builder.go and builder_opts.go: NewBuilder, Step, OnFailure, JoinStep, NewTask and the
--             options; Builder/Calls has Parallel, SavePoint, WaitHumanConfirm, Build, and sequences of
--             calls. Builder/Links, Sound, Reachable, Parallel and Ready prove what the calls keep.
-- Engine      engine.go over the in-memory store, with event_constants.go (Engine/Names), plugins.go and
--             execution_context.go (Engine/Env), CalculateRetryDelay of helpers.go (Engine/Calls) and
--             memory_tx_manager.go. Engine/Monad has the effects of a method, as an Action: it passes
--             the store on, returns a value or an error, or blocks. Each method is a function of its
--             name in snake case, with the Env of what the engine is given as its first argument. Walks
--             and Forks search a definition; Steps, Joins and Rollback change steps; Handlers, Human,
--             Branches and Outcome execute a step and settle its result; Cancel and Compensation,
--             Execute (executeStep), Next (ExecuteNext) and Start put these together. Contexts has the
--             table of contexts, and Throttle the throttle of events, each by itself. Engine/Traced
--             has the lemmas on actions as sequences of operations of the store, Engine/Ends those on
--             fuel, Engine/Leaves those on actions that leave the instances alone, and Engine/Exclusive
--             is about the claim of a queue item while its step is executed; the child modules of the
--             others are about what their methods do.
-- Tests       runs on small inputs.
--
-- How the model reads the code:
-- * int, int64, time.Duration and time.Time are natural numbers, durations and times in nanoseconds;
--   identifiers are counters that begin at 1, and no arithmetic of the modelled methods but the aging
--   of priorities and the retry delays goes beyond additions of one or of a delay. Priorities are not negative: the
--   constants go from 0 to 100. The selected priority of DequeueStep begins at -1, and the model keeps
--   that number plus one.
-- * The readings of time.Now in a method are its arguments `now` and `later`, uuid.NewString is the
--   argument `fresh`, and the result of json.Marshal is the argument `encoded`.
-- * json.RawMessage is a text, the empty text for nil; a nil pointer is `none`.
-- * The aging rate is in thousandths of a point per second, and the effective priority is computed
--   exactly, where the code uses float64.
-- * A map is an association list in an order that Go leaves open; the theorems hold for every order.
--   sort.Slice is a stable insertion sort by the code's comparison.
-- * The key of a join state, the text "%d:%s", is the pair of its parts.
-- * Methods are atomic, since each holds the mutex to its end. For the operations on join states the
--   mutex is part of the model, as two of them call a third while they hold it.
-- * In the cleanup a day is 24 hours.
-- * detectCycles recurs on fuel, one call more than there are steps, which is proved to be enough. Its
--   recursion stack is an argument, since a call that returns nil has restored it.
-- * The options of steps are those of builder_opts.go, by constructors. A write through the pointer to a
--   step is a write to the entry of the builder's map that holds it. The text of fmt.Sprintf for a
--   definition's identifier is an argument of `build`.
--
-- * The readings of the clock in one call of an engine method are one number, `now` of Env. uuid,
--   encoding/json, the condition language, the handlers and the plugins are functions of Env.
-- * An error is a Fault: an error of the store, a text, or an error with words before it. Where the
--   code writes an error's text to the store, so does the model. slog is left out, and so are the hooks
--   of plugins whose errors are only logged, since they cannot change what the engine does.
-- * The body of a transaction is run as it is, as MemoryTxManager does: what was written before an
--   error stays written. A call that takes the mutex of the store twice blocks.
-- * The code between two calls of handlers is one sequence of calls of the store. While a handler
--   runs, other goroutines do any operations of the store, the field `meanwhile` of Env; whether they
--   cancel the handler's context is the field `cancelled`. A timeout only ends that context.
-- * A pointer that the in-memory store returns is read where the code reads it: GetInstance is read
--   at once, and in MakeHumanDecision the step shows the status that was written after it was read.
--   The step that createFirstStep returns is read as it was created.
-- * processCancelRequests reads the store and the table at one moment, and returns the functions that it
--   calls. The execution of a step does not use the table: the field `cancelled` stands for it there.
-- * The searches along Prev links and the recursion of the rollback have fuel, a round or a call more
--   than the definition has steps, which is proved to be enough.
-- * CalculateRetryDelay is computed with int64 and float64: a product wraps around, the base delay is
--   rounded to 53 bits, and what Go leaves open for a float64 out of the range of time.Duration is the
--   field `out_of_range` of Env. Its result may be negative; the other delays are not.
-- * Each join state has a list of names of its own. The code's CreateJoinState keeps the slice of its
--   caller, which executeFork takes from the stored definition, and ReplaceInJoinWaitFor writes into
--   it. That this write also changes the definition, and the other join states that hold the same
--   slice, is not in the model, whose definitions change only when they are saved.
--
-- Not modelled: of the engine, its goroutines and timers (StartAwait, Shutdown, the loop of
-- cancelRequestsWorker), jitteredCooldown, whose result is the field `cooldown`, its options, the
-- channel of events for a waiting decision, and findForkStepForStepInBranch with
-- isStepReachableFrom, which nothing calls; Fork, Join and Condition of the builder, which call
-- functions on builders of their own, and the sub-builders that only these make; the SQL stores,
-- migrations and monitoring, whose behaviour is that of the database; the HTTP interfaces, the
-- plugins, the YAML parser, command line tools and examples, which are calls of other packages.
pub mod Prelude
pub mod Model
pub mod Store
pub mod Graph
pub mod Builder
pub mod Engine
pub mod Tests
