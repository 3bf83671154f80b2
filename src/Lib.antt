-- ===== src/Lib.antt =====
-- Verification library of AI Video Studio, a service that turns an idea into a short video: a
-- pipeline of stages with reviews, background tasks that generate, and an editor of the timeline.
--
-- The parts and the files that model them, with paths from the repository's root:
--
-- - Errors: packages/creator-domain/creator_domain/exceptions.py. An exception is a value of the
--   type Error; a function that may raise returns a Result.
-- - Timeline: models/timeline.py and models/media_segment.py of creator_domain. Segment has the
--   records and the pydantic constraints with both validators; Intervals and Sorting have the
--   overlap check and the sort that it rests on; Valid says what an accepted timeline is.
-- - Editor: packages/creator-service/creator_service/editor_command_applier.py and
--   editor_history.py, with models/editor_commands.py. Command has the commands and their field
--   constraints; Assets the lookup of a source's duration; Segments, Cut, Replace and Place the
--   seven handlers (`_apply_trim` is apply_trim, and so on); Apply is apply_editor_command.
--   Found, Located and SourceBounds follow the handlers through the list of segments, Removal what is left
--   without a segment; Playback
--   and Moves say what a split and a move do. History/Defs is EditorHistory.
-- - Run: models/stage.py, models/pipeline_run.py and creator_service/run_service.py. Stage has the
--   tables of the stages and Graph their graph; Row and Storage are InMemoryRunStorage; PipelineRun
--   is from_row; Service and ServiceOther are RunService. Evolution and Operations say what any
--   sequence of storage operations keeps; Commit, Moves, Stop, Conditional, Back and Succeeds rest on it.
--   Review is creator_service/stage_review_service.py: Rows has the storage of reviews and
--   record_approval, Approve has approve_and_advance with its roll-back.
-- - Tasks: creator_service/memory_task_tracking_storage.py. Row, Storage, Claims and Broker have the
--   operations on tasks, Ownership those that change a run and its task together. Kept, Steps,
--   ClaimSteps and Sequences follow a row through any sequence of operations; Fencing and
--   Exclusive and Finish are about claims, Cleanup about the reconciler's lease, Atomic and Rollback about runs.
--   Failing is fail_claimed_and_cancel_quota, over the storages of runs, tasks and usage, and Failed is
--   about it; Lists has the sorted lists that the reconciler and the API read.
-- - Store: creator_service/timeline_service.py. Rows is InMemoryTimelineStorage, Service is
--   TimelineService; Revisions and Saved are about its optimistic concurrency.
-- - Usage: creator_service/usage_service.py with models/usage.py. Rows and Events have the
--   dictionaries of InMemoryUsageStorage; Admit has try_reserve_quota and try_reserve_owned; Owned what
--   follows an admission; Release readmit_owned and _decrement_reservation; Summary and Service are
--   UsageService. Admitted and Bounds are about admissions; Sequences has the operations in any order;
--   Owners follows one owner of a reservation through them, Log the events; Agree compares the
--   monthly summary with the sums of the admissions.
-- - Render: creator_service/render_frame_budget.py and timeline_compiler.py, with models/render_segment.py,
--   models/render_plan.py, models/media_asset.py and models/media_type.py. Budget has allocate_frames;
--   Compile the compiler of a timeline to a plan, which Compiled (what a plan is) and Compiles (what is compiled)
--   are about.
-- - Proposals: creator_service/shorten_proposal.py, command_proposal.py (the model CommandProposal) and
--   validate_ai_proposal.py. Proposal has the proposal and its application, Shorten the builder of a
--   shortening; Spanning, Cuts and Gaps are about its two ways to cut, Applied and Trimmed about its commands on
--   a valid timeline, and Shortens about the whole.
--
-- How they interact: the services read a row, decide, and write it with the version or the stage that
-- they read. The storages in memory never suspend, so each of their methods is one step; between two
-- awaits of a service other tasks run, and that is a list of storage operations given to the
-- method (`meanwhile`, `later`). The editor applies a command to a timeline, which is validated
-- whole; a stored timeline is validated again when it is read. A proposal is a batch of those commands
-- for one generation of the editor's history. A claimed task that fails takes its run to FAILED and
-- settles its reservation in one call, in that order.
--
-- What the model chooses:
--
-- - Seconds are whole numbers of nanoseconds, so that the tolerances 1e-9, 1e-6 and 1e-3 are
--   exact. The rounding of Python's floats is not modelled.
-- - Python's integers are unbounded and so are these. Ids, versions, revisions and times are
--   natural numbers; a time is a reading of the clock that the operation is given.
-- - A dictionary is an association list in order of insertion. `_past` and `_future` of
--   EditorHistory are kept with the last entry first.
-- - `str.lower` is applied to the ASCII kinds of assets only.
-- - Money is a whole number of micro-dollars, the scale that `_money` rounds to; an amount that is no
--   finite number of zero or more is a value of its own. An event's cost is none or an amount. The
--   first instant of a month comes with the reading of the clock.
-- - A message of an exception is its text with the value that the source puts into it.
-- - JSON columns of a run stay texts; whether the selection of models in one is accepted, how two
--   of them are merged, who owns an asset, and what a failing storage of reviews raises are parameters.
-- - No function runs on fuel: every loop of the source runs over a list, and so does its model.
--
-- Not modelled: the storages in Postgres, which implement the same protocols with SQL; the HTTP routes,
-- the worker's tasks and the providers, which are input and output; the parsing of a language model's
-- proposal and the proposals other than to shorten; the dispatch of tasks over the storages that are
-- modelled; the projection of scenes to segments.
mod Prelude
pub mod Errors
pub mod Timeline
pub mod Editor
pub mod Run
pub mod Render
pub mod Store
pub mod Tasks
pub mod Proposals
pub mod Usage
