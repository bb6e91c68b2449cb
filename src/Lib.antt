-- ===== src/Lib.antt =====
-- qe-report: a protocol for test results, the validator of recorded runs, and the SDK that records
-- them. A test producer writes a session of events through the SDK; a sink stores each session as a
-- file of JSON lines under `events/` of a run directory, beside the attachments named by their
-- hash; the validator reads a run directory, applies the lifecycle rules of the protocol to its
-- sessions, checks the attachments' bytes, and derives a report with a verdict.
--
-- Which file models what:
-- - Protocol/Model, Protocol/Errors, Protocol/Version: ts/packages/protocol/src/model.ts, errors.ts
--   and version.ts. The types of events and payloads, limits, errors with their JSON pointers, and
--   `parseProtocolVersion`.
-- - Protocol/Json: the JSON values that `JSON.parse` returns. Protocol/Patterns: the regular
--   expressions of codec.ts, as matchers over code points.
-- - Protocol/Codec: ts/packages/protocol/src/codec.ts. Fields, Parts and Read are `eventFromObject`
--   with its readers (`read_payload` is `readPayload`); Write is `eventToObject` with its writers.
--   An error that the source throws is the `err` of a `Result`.
-- - Validator: ts/packages/validator/src/validator.ts. Model has the state of `RunValidator` as a
--   record with the source's fields; Canonical is `canonical`; Decode, Feed and Events are `feed`,
--   one step for each block of its loop (`skip` is `continue`) and one function for each case of
--   its switch; Executions is `checkExecution`; FileSystem, Attachments and Finish are `finish`
--   with the checks of the file system; Directory has the entry points. `none` stands for an
--   exception that leaves the validator.
-- - Sdk: ts/packages/sdk/src. Redactor is redactor.ts, MediaTypes is media-types.ts, and Session is
--   session.ts over the interface of sink.ts: Write is `write`, Lifecycle has `emit`, `finish`,
--   `finishRun` and `close`, Attach has the attachment calls, and Calls applies a list of calls.
--   SafeName is safe-name.ts with the names of session files and run directories; FileSink is
--   file-sink.ts, a sink over a file system that acts on a world; Stored has its proof with the
--   laws of that file system (`Laws`).
-- - Client: ts/packages/http-client/src. Retry is retry.ts; Answer and Delivery are `read` and
--   `deliver` of client.ts, over a transport, a clock and sleeps that act on a world of their own.
--   `Progress` also counts the requests and the waits, which the source does not keep. Bounds and
--   Counted have the proofs.
-- - ReadModel: ts/packages/read-model/src. Project, Executions and Run are projector.ts (the loop
--   of `projectRun`, `groupExecutions`, and the whole), Instant and History are history-order.ts
--   with `historyOccurrencesOf`, Assemble and Views are the class of read-model.ts, Ingest is
--   ingest.ts and discovery.ts, ProjectId is project-id.ts, and Build is `buildReadModel`, which
--   composes them with the validator. An AmbiguousRunError is a result of its own (`ambiguous`).
--
-- A map is an association list in insertion order, and a mutated object is stored again under its
-- key. The laws of sorting are in Prelude/Sorting. The codec's proofs are in the modules of
-- Protocol/Codec from Built on: what a writer builds as a list of fields is found again by the
-- readers. Those of the read model are in its modules from Orders on. The validator's proofs are in
-- Validator/Hoare (triples on the steps of `feed`), Validity, Beside, Brackets and Complete; those
-- of the session in Sdk/Session/Order, Sound and Keep, for an arbitrary sink beside which Recorded
-- keeps the events that it has accepted.
--
-- Parameters, since they are no code of the repository: JSON.parse, JSON.stringify, SHA-256, the
-- compiled JSON schemas, the file system's answers, the clock and the id generator, the conversions
-- between texts and bytes, and each replacement of a regular expression that `redactText` makes;
-- for the read model `Date.parse` and JSON.stringify on a list of texts; for the client the tests
-- of a content type, `trim`, the reading of an HTTP date, and the rounded random delay.
--
-- Bounds: `canonical` runs on fuel, the number of rounds that its value takes (`rounds`): one for
-- each element and property, and one to close a collection. The loop of `finish` runs on three
-- rounds, since an outcome can be reduced twice. Every other loop is recursion on a list.
--
-- Not modelled: the wording of messages, the command lines, the Java binding, the HTTP API, the
-- transport and plans of its client, the stores of ts/packages/postgres and blob-fs, the Playwright
-- reporter, and the capture of the environment.
mod Prelude
pub mod Protocol
pub mod Validator
pub mod Sdk
pub mod Client
pub mod ReadModel
