-- ===== src/Tools/Definitions.antt =====
-- crates/arcc-core/src/tools.rs: the tools that are offered to a model.
use Prim.Native.String.{String}
use arcc.Base.{List, [], ◌∷◌, ◌++◌, false}
use arcc.Base.Text.{Text, codes}
use arcc.Model.Json.{string, obj, arr, str, ◌:=◌}
use arcc.Model.Types.{ToolDefinition}

-- A long text, written in pieces.
abbrev pub said : List String → Text
said [] = []
said (s ∷ ss) = codes s ++ said ss

unfoldable pub command_tool_definition : ToolDefinition
command_tool_definition = record {
  name = codes "execute_command";
  description = said (
      "Execute a shell command on the user's local system and return its "
      ∷ "stdout/stderr output. Use this when the user asks you to run a command, "
      ∷ "check system status, debug problems, or interact with files. The command "
      ∷ "runs through a safety allowlist." ∷ []);
  parameters = obj (
      ("type" := str "object")
      ∷ ("properties"
          := obj (
              ("command"
                := obj (
                    ("type" := str "string")
                    ∷ ("description"
                        := string (codes "The shell command to execute (e.g. \"ls -la /tmp\")"))
                    ∷ []))
              ∷ ("interactive"
                  := obj (
                      ("type" := str "boolean")
                      ∷ ("description"
                          := string (
                              said (
                                "CRITICAL: Set to true for ANY command that may prompt for "
                                ∷ "user input, require elevated privileges, or run an "
                                ∷ "interactive TUI. Examples: sudo, ssh, vim, nano, htop, "
                                ∷ "top, less, more, passwd, telnet, package managers, "
                                ∷ "editors, password prompts. The TUI will temporarily exit "
                                ∷ "alternate screen and let the command access the real "
                                ∷ "terminal. Set to false only for batch commands that run "
                                ∷ "to completion without any prompts. When in doubt, prefer "
                                ∷ "true." ∷ [])))
                      ∷ []))
              ∷ []))
      ∷ ("required" := arr (str "command" ∷ str "interactive" ∷ []))
      ∷ []);
  strict = false;
}

unfoldable pub reply_to_user_definition : ToolDefinition
reply_to_user_definition = record {
  name = codes "reply_to_user";
  description = said (
      "Send a text message to the user. Use this to proactively notify the user of "
      ∷ "progress, ask for confirmation, report results of long-running tasks, or "
      ∷ "send follow-up messages after a delay. The user will see this message " ∷ "immediately."
      ∷ []);
  parameters = obj (
      ("type" := str "object")
      ∷ ("properties"
          := obj (
              ("message"
                := obj (
                    ("type" := str "string")
                    ∷ ("description" := str "The message text to send to the user")
                    ∷ []))
              ∷ []))
      ∷ ("required" := arr (str "message" ∷ []))
      ∷ []);
  strict = false;
}

unfoldable pub schedule_task_definition : ToolDefinition
schedule_task_definition = record {
  name = codes "schedule_task";
  description = said (
      "Schedule a task to run later or on a recurring schedule. Use this when the "
      ∷ "user asks you to do something at a specific time or on a recurring basis "
      ∷ "(e.g. 'restart nginx at 1am every day'). \n\nBEFORE calling this tool, call "
      ∷ "`get_current_time` first to know the current server time. Then: \n- For "
      ∷ "**one-shot** tasks (e.g. 'remind me in 5 minutes', 'notify me at 2pm'): "
      ∷ "compute `delay_seconds` relative to now. \n- For **recurring** tasks (e.g. "
      ∷ "'every day at 1am'): set `cron` to a cron expression. \n\nWhen the task "
      ∷ "triggers, the full LLM processing flow runs again — the AI will re-read the "
      ∷ "task description, plan the steps, and execute them. The result is sent back "
      ∷ "to the user automatically." ∷ []);
  parameters = obj (
      ("type" := str "object")
      ∷ ("properties"
          := obj (
              ("cron"
                := obj (
                    ("type" := str "string")
                    ∷ ("description"
                        := string (
                            said (
                              "Cron expression in 6-field format (year optional). Use "
                              ∷ "for RECURRING tasks only. Omit for one-shot. "
                              ∷ "\nExamples:\n- '0 0 1 * * *'       = daily at 1am\n- '0 "
                              ∷ "*/5 * * * *'     = every 5 minutes\n- '0 0 9-17 * * 1-5'  "
                              ∷ "= every hour 9am-5pm weekdays\n- '0 0 0 * * 0'       = "
                              ∷ "weekly on Sunday midnight\nFields order: second minute "
                              ∷ "hour day-of-month month day-of-week [year]" ∷ [])))
                    ∷ []))
              ∷ ("delay_seconds"
                  := obj (
                      ("type" := str "integer")
                      ∷ ("description"
                          := string (
                              said (
                                "For one-shot tasks only. Number of seconds from now to "
                                ∷ "fire the task. Compute this AFTER calling "
                                ∷ "`get_current_time`. E.g. 'in 5 minutes' = 300, 'in 2 "
                                ∷ "hours' = 7200, 'next Friday' = ~518400. If the user "
                                ∷ "specifies a date without a time (e.g. 'June 18th'), ASK "
                                ∷ "them what time they want before scheduling. Mutually "
                                ∷ "exclusive with cron." ∷ [])))
                      ∷ []))
              ∷ ("task"
                  := obj (
                      ("type" := str "string")
                      ∷ ("description"
                          := string (
                              said (
                                "Natural language description of the task to execute when "
                                ∷ "the cron triggers. Same format as if the user typed it "
                                ∷ "directly." ∷ [])))
                      ∷ []))
              ∷ []))
      ∷ ("required" := arr (str "task" ∷ []))
      ∷ []);
  strict = false;
}

unfoldable pub get_current_time_definition : ToolDefinition
get_current_time_definition = record {
  name = codes "get_current_time";
  description = said (
      "Get the current server local time. Call this BEFORE `schedule_task` so you "
      ∷ "can compute delays for one-shot tasks or know the time context for "
      ∷ "recurring schedules. Returns the current date and time in the server's " ∷ "timezone."
      ∷ []);
  parameters =
      obj (("type" := str "object") ∷ ("properties" := obj []) ∷ ("required" := arr []) ∷ []);
  strict = false;
}

unfoldable pub list_scheduled_tasks_definition : ToolDefinition
list_scheduled_tasks_definition = record {
  name = codes "list_scheduled_tasks";
  description = said (
      "List all active scheduled tasks for the current user. Use this when the "
      ∷ "user asks what tasks are scheduled or wants to manage their tasks." ∷ []);
  parameters =
      obj (("type" := str "object") ∷ ("properties" := obj []) ∷ ("required" := arr []) ∷ []);
  strict = false;
}

unfoldable pub use_pro_model_definition : ToolDefinition
use_pro_model_definition = record {
  name = codes "use_pro_model";
  description = said (
      "Switch to the Pro model (DeepSeek-V4-Pro) for this turn. Use this when the "
      ∷ "user's request requires deep reasoning, complex analysis, debugging, "
      ∷ "design, or any task where you need more thinking capacity. The Pro model is "
      ∷ "more capable but slower and more expensive — only use when necessary. Call "
      ∷ "early in your response, before making tool calls." ∷ []);
  parameters = obj (
      ("type" := str "object")
      ∷ ("properties"
          := obj (
              ("reason"
                := obj (
                    ("type" := str "string")
                    ∷ ("description"
                        := string (
                            said
                              ("Why you need the Pro model (e.g. 'need deep log analysis')" ∷ [])))
                    ∷ []))
              ∷ []))
      ∷ ("required" := arr (str "reason" ∷ []))
      ∷ []);
  strict = false;
}

unfoldable pub cancel_scheduled_task_definition : ToolDefinition
cancel_scheduled_task_definition = record {
  name = codes "cancel_scheduled_task";
  description = said (
      "Pause or delete a scheduled task. Use this when the user asks to cancel, "
      ∷ "stop, pause, or remove a scheduled task. Pausing keeps the task in the "
      ∷ "database but prevents it from running. Deleting removes it permanently." ∷ []);
  parameters = obj (
      ("type" := str "object")
      ∷ ("properties"
          := obj (
              ("task_id"
                := obj (
                    ("type" := str "string")
                    ∷ ("description" := str "The ID of the task to cancel")
                    ∷ []))
              ∷ ("action"
                  := obj (
                      ("type" := str "string")
                      ∷ ("enum" := arr (str "pause" ∷ str "delete" ∷ []))
                      ∷ ("description"
                          := string (
                              said (
                                "\"pause\" to temporarily stop the task, \"delete\" to "
                                ∷ "remove it permanently" ∷ [])))
                      ∷ []))
              ∷ []))
      ∷ ("required" := arr (str "task_id" ∷ str "action" ∷ []))
      ∷ []);
  strict = false;
}
