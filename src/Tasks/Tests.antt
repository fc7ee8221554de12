-- ===== src/Tasks/Tests.antt =====
-- The tasks of a session at concrete inputs: a task is called, polled, ends and is polled again.
use axterminator.Prelude.{
  ℕ, zero, suc, ◌≡◌, refl, ap, ◌∙◌, sym, String, false, some, [], ok, arith, codes, length,
}
use axterminator.Prelude.TextMaps
use axterminator.Tasks.{
  Status, Runtime, ToolCallResult, TaskEntry, Tasks, Polled, tasks_new, next_task_id,
  dispatch_as_task, finished, finish, poll, handle_tasks_cancel,
}
use axterminator.Tasks.Life.{Steps, here, next, called, ended, asked, at}
use axterminator.Tasks.Session.{Steps-Delivered, Steps-terminal, poll_stays}

-- Names that tell the numbers apart by their length.
abbrev tally : ℕ → String
tally zero = ""
tally (suc n) = String.◌∷◌ "x" (tally n)

length-tally : (n : ℕ) → length (codes (tally n)) ≡ n
length-tally zero = refl
length-tally (suc n) = ap suc (length-tally n)

tally_differs : (m n : ℕ) → tally m ≡ tally n → m ≡ n
tally_differs m n h = sym (length-tally m) ∙ ap (λ s. length (codes s)) h ∙ length-tally n

abbrev toy : Runtime
toy = record {
  Content = ℕ;
  Value = String;
  task_name = tally;
  parse_result_params = ok;
  parse_cancel_params = ok;
}

abbrev first : Tasks toy
first = (dispatch_as_task toy "ax_tree" (tasks_new toy)).1

abbrev answer : ToolCallResult toy
answer = record { content = 42; is_error = false }

abbrev over : Tasks toy
over = finish toy (record { task_id = "x"; name = "ax_tree" }) answer [] first

abbrev after : Tasks toy
after = (handle_tasks_cancel toy (some "x") over).1

to_over : Steps toy (tasks_new toy) over
unfolding dispatch_as_task next_task_id tasks_new
to_over =
    next (next here (called "ax_tree" (ground arith)))
      (ended [] [] (record { task_id = "x"; name = "ax_tree" }) answer refl)

to_after : Steps toy over after
to_after = next here (asked (some "x"))

abbrev entry : TaskEntry toy
entry = record {
  info = record { task_id = "x"; status = Status.done; status_message = some "ax_tree completed" };
  result = some answer;
}

entry-over : at toy "x" over ≡ some entry
unfolding dispatch_as_task next_task_id tasks_new finish finished TextMaps.lookup TextMaps.insert
entry-over = refl

polled_over : poll toy "x" over ≡ ok (Polled.complete answer)
unfolding dispatch_as_task next_task_id tasks_new finish finished poll TextMaps.lookup
    TextMaps.insert
polled_over = refl

Steps-Delivered_example :
    ((r : ToolCallResult toy) × (some answer ≡ some r) × (r.is_error ≡ false))
    × (◌≡◌ {A = String} "x" "x")
Steps-Delivered_example = Steps-Delivered toy tally_differs "x" entry to_over entry-over

Steps-terminal_example : at toy "x" after ≡ some entry
Steps-terminal_example = Steps-terminal toy tally_differs "x" entry to_over entry-over refl to_after

poll_stays_example : poll toy "x" after ≡ ok (Polled.complete answer)
poll_stays_example = poll_stays toy tally_differs "x" answer to_over polled_over to_after
