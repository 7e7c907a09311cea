-- ===== src/Lib.antt =====
-- The verification library of r42: a model of the research workflow and the theorems that make it
-- correct.
--
-- The program. r42 runs a research workflow with language models. A coordinator takes it through its
-- phases: Collection gathers evidence for a frozen plan of information needs, Collection QC assesses
-- each need against its stop conditions and sends the workflow back or on, Research writes a
-- candidate from the evidence, and Final QC passes the candidate or has it repaired. A workflow
-- state, shared by all, holds the phase and the budget of Collection rounds; the tools of the model
-- sessions change it and the Collection context.
--
-- The files.
--   Prelude: Boolean tests, lists, the integers of Go, its strings, and maps and sets as lists.
--   Workflow models internal/workflow/state.go. `new`, `begin`, `register_evidence_artifact`,
--     `submit_checkpoint` (the method `Checkpoint`), `acquire_gate`, `advance`, `snapshot`, `restore`
--     and `set_information_need_outcomes` are its methods; each returns the new state and its error.
--     Its children hold the invariant, sequences of calls, progress and the checkpoints.
--   Collection models internal/collection. Plan is the plan and its check, Verdict the checks of
--     dispositions and assessments, Lifecycle `ApplyQCAssessments`, Protocol the context with its
--     handlers `Set`, `Register` and `Submit` and its gates, Runner the round of
--     internal/collection/runner.go; Store is the interface of the artifact registry,
--     Targets the paths that may be written to, Checkpoint the checkpoints of the context
--     and, in Resumed, sequences of calls with restores among them.
--   Artifact models internal/artifact/registry.go: Paths the keys of paths and children, Source the
--     header of an evidence file, Register `Declare` and `RetainToolResult`, Evidence
--     `RegisterEvidence` and `RegisterRetainedEvidence`, Lookup the listings of records, Listing
--     `ListDirectoryFiles`, Page `ReadPage`, Checkpoint `Snapshot`, `Restore` and those of a workspace,
--     Merge `Merge`. Stored fills the interface of the Collection tools with it.
--   Concurrency models internal/concurrency/scope.go: the scopes, and in System the tasks of
--     `WithResearch` as a step relation.
--   CollectionQc models internal/collectionqc/runner.go: Recorder the verdict tool, Review `Review`.
--   Qc models internal/qc/runner.go and the issues of internal/spec/response.go: Ledger is the recorder
--     `VerdictRecorder` with the issues that the host numbers, Completion the two modes of `Review`.
--   Research models the run of a research block: Validator internal/artifact/validator.go, Terminal the
--     recorder of the terminal tool, Runtime `Runner.Run`, of internal/research/runtime/runtime.go.
--   Evidence models internal/evidence/quote.go: Quotes the registry of quotes, Expansion
--     `Expand`, Saved the checkpoints, and Normal the normalization of text in internal/evidence/io.go.
--   Coordinator models internal/coordinator/coordinator.go: its types and commits, and in Runner
--     `Runner.Run` with a handler for each phase. The agents are an interface with laws; Wiring fills
--     it with the models of Collection and Collection QC.
--   S3 models the retries of internal/s3/retry.go, with the check of their settings in
--     internal/s3/spec/schema.go: Retry is the policy and its backoff, Loop `RetryWithDelay`.
--   Tests applies the theorems to concrete inputs.
--
-- Choices. A method that holds its lock to its end is one step. Counters that start at 0 and
-- only grow are natural numbers; settings, and the counters of a stored workflow state, are
-- integers. A checkpoint's count of Final QC rounds is natural too, and so is its stall streak
-- of a need. Sets and maps are lists of their keys in the order of insertion; Go ranges over a
-- map in any order, so issues that name several conditions of one assessment may come in another
-- order. A session is a function from the attempt to the turn of the model. Loops over protocol
-- attempts recur on the attempts that are left; the loop of the coordinator recurs on fuel, 2
-- for each Collection round, 1 for each Final QC round and 5 more; a retried operation recurs on
-- fuel, 1 for each retry and 1 more; the loop of a research block on fuel, 1 for each protocol
-- attempt and at least 1. The parents of a path, and what a directory holds, are given whole. A
-- time.Duration is an integer whose doubling wraps at 64 bits; what errors.Is and errors.As find
-- in an error is a record. json.Marshal, json.Valid, regexp.Compile and the checkpoint writer
-- are parameters, and so is the host of the artifact registry: its files, path/filepath and the
-- source of its IDs. The bytes of a file do not change while a page of it is read. A nil map
-- counts as an empty one, and so a write to one is not an error. SHA-256 is a parameter under
-- which no two ranges of quotes meet.
--
-- Not modelled: texts of prompts and of errors, nil receivers, cancellation of contexts but in
-- Concurrency, and the program's other parts: the command line, the loading of configurations,
-- providers, tools, uploads, logs and progress streams.
mod Prelude
pub mod Workflow
pub mod Collection
pub mod CollectionQc
pub mod Qc
pub mod Coordinator
pub mod S3
pub mod Artifact
pub mod Concurrency
pub mod Research
pub mod Evidence
mod Tests
