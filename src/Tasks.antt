-- ===== src/Tasks.antt =====
-- src/mcp/server.rs and src/mcp/server_handlers.rs, the tasks: a tool call that asks for it runs on
-- a thread of its own, and the client polls for its result or cancels it. The content of a tool's
-- result is only moved; the parser of the parameters and the printing of a task's number are
-- serde's and the standard library's, and are parameters.
pub mod Life
pub mod Effects
pub mod Session
mod Tests
use axterminator.Prelude.{
  ℕ, ◌+◌, ◌%◌, ◌^◌, String, Bool, true, false, Option, none, some, List, [], ◌∷◌, map, Result, ok,
  err, if◌then◌else◌, format,
}
use axterminator.Prelude.TextMaps

-- `task_status`
pub data Status : Type 0 where
  working done failed cancelled : Status

abbrev pub is_working : Status → Bool
is_working Status.working = true
is_working _ = false

pub record TaskInfo : Type 0 where
  pub task_id : String
  pub status : Status
  pub status_message : Option String

-- `task_name` prints the number of a task; the two parsers are `serde_json::from_value`.
pub record Runtime : Type 1 where
  pub Content : Type 0
  pub Value : Type 0
  pub task_name : ℕ → String
  pub parse_result_params : Value → Result String String
  pub parse_cancel_params : Value → Result String String

module _ (rt : Runtime) where
  open rt use {Content, Value, task_name, parse_result_params, parse_cancel_params}

  pub record ToolCallResult : Type 0 where
    pub content : Content
    pub is_error : Bool

  pub record TaskEntry : Type 0 where
    pub info : TaskInfo
    pub result : Option ToolCallResult

  -- A thread that has not yet written its result: the task and the name of the tool.
  pub record Thread : Type 0 where
    pub task_id : String
    pub name : String

  -- The counter of task numbers, the shared store, and the threads still running.
  pub record Tasks : Type 0 where
    pub counter : ℕ
    pub entries : List (String × TaskEntry)
    pub threads : List Thread

  unfoldable pub tasks_new : Tasks
  tasks_new = record { counter = 1; entries = []; threads = [] }

  unfoldable pub next_task_id : Tasks → String × Tasks
  next_task_id t = (task_name t.counter, record t { counter = (t.counter + 1) % 2 ^ 64 })

  -- The part of `dispatch_as_task` before and including the spawn: the information it answers with.
  unfoldable pub dispatch_as_task : String → Tasks → TaskInfo × Tasks
  unfolding next_task_id
  dispatch_as_task tool_name t =
      let (task_id, t') = next_task_id t in
      let info : TaskInfo = record {
        task_id = task_id;
        status = Status.working;
        status_message = some (format ("Running " ∷ tool_name ∷ "…" ∷ []));
      } in
      (
        info,
        record t' {
          entries = TextMaps.insert task_id (record { info = info; result = none }) t'.entries;
          threads = record { task_id = task_id; name = tool_name } ∷ t'.threads;
        },
      )

  -- What the end of a thread makes of the entry that it finds.
  unfoldable pub finished : String → ToolCallResult → TaskEntry → TaskEntry
  finished name tool_result entry =
      if is_working entry.info.status
      then record {
        info = record (entry.info) {
          status = (if tool_result.is_error then Status.failed else Status.done);
          status_message =
              (if tool_result.is_error
                then some "Tool returned an error"
                else some (format (name ∷ " completed" ∷ [])));
        };
        result = some tool_result;
      }
      else entry

  -- The end of a thread, once its tool has given its result; the other threads go on.
  unfoldable pub finish : Thread → ToolCallResult → List Thread → Tasks → Tasks
  finish thread tool_result others t = elim (TextMaps.lookup thread.task_id t.entries) [
    | none ↦ record t { threads = others }
    | some entry ↦ record t {
      entries = TextMaps.insert thread.task_id (finished thread.name tool_result entry) t.entries;
      threads = others;
    }
  ]

  pub data Polled : Type 0 where
    complete : ToolCallResult → Polled
    pending : TaskInfo → Polled

  -- The errors are the messages of `INVALID_PARAMS`.
  unfoldable pub poll : String → Tasks → Result Polled String
  poll task_id t = elim (TextMaps.lookup task_id t.entries) [
    | none ↦ err (format ("Unknown taskId: " ∷ task_id ∷ []))
    | some entry ↦ elim entry.result [
      | some result ↦ ok (Polled.complete result)
      | none ↦ ok (Polled.pending entry.info)
    ]
  ]

  unfoldable pub handle_tasks_result : Option Value → Tasks → Result Polled String
  handle_tasks_result none t = err "Missing params"
  handle_tasks_result (some v) t = elim (parse_result_params v) [
    | ok task_id ↦ poll task_id t
    | err e ↦ err (format ("Invalid tasks/result params: " ∷ e ∷ []))
  ]

  -- What a cancellation makes of the entry that it finds.
  unfoldable pub cancelled_entry : TaskEntry → TaskEntry
  cancelled_entry entry =
      if is_working entry.info.status
      then record entry {
        info = record (entry.info) {
          status = Status.cancelled;
          status_message = some "Cancelled by client";
        };
      }
      else entry

  unfoldable pub cancel : String → Tasks → Result (Unit {0}) String × Tasks
  cancel task_id t = elim (TextMaps.lookup task_id t.entries) [
    | none ↦ (err (format ("Unknown taskId: " ∷ task_id ∷ [])), t)
    | some entry ↦
        (ok tt, record t { entries = TextMaps.insert task_id (cancelled_entry entry) t.entries })
  ]

  unfoldable pub handle_tasks_cancel : Option Value → Tasks → Result (Unit {0}) String × Tasks
  handle_tasks_cancel none t = (err "Missing params", t)
  handle_tasks_cancel (some v) t = elim (parse_cancel_params v) [
    | ok task_id ↦ cancel task_id t
    | err e ↦ (err (format ("Invalid tasks/cancel params: " ∷ e ∷ [])), t)
  ]
