-- ===== src/Lib.antt =====
-- A model of arcc, an agent that talks to a language model, runs its tools and keeps
-- conversations. The parts, and how they interact. A session (crates/arcc-core/src/session.rs)
-- keeps the messages of one conversation, their token count and a summary, and writes them to
-- SQLite if it has a connection. Before a request it repairs the order of tool messages and fills
-- in missing reasoning; when it grows over its budget it asks a model for a summary. The manager
-- keeps the live sessions. A model may write tool calls as markup in its text: the DSML parser
-- (crates/arcc-core/src/model/dsml.rs) takes them out, also from a stream. Commands pass the
-- confirmation test (crates/arcc-core/src/safety) and are run by crates/arcc-core/src/tools.rs.
-- Over ACP (crates/arcc-acp/src) a read loop dispatches the client's messages, a prompt begins a
-- turn of its session, and the turn asks the client for permission. The client of the DeepSeek
-- service (crates/arcc-core/src/model/deepseek.rs) writes requests, repeats those that are
-- refused for their rate, and reads replies and streams. Facts about users are kept by
-- crates/arcc-core/src/memory.rs. The computer tool (crates/arcc-core/src/computer) checks its
-- arguments and reads key combinations. The MCP scheduler (crates/arcc-core/src/mcp) keeps
-- subprocesses. On the server a queue (crates/arcc-server/src/feishu/chat_queue.rs) hands the
-- messages of each chat to one consumer task, and a loop (crates/arcc-server/src/scheduler.rs)
-- runs the scheduled tasks of the table in crates/arcc-storage/src/db/queries.rs. The messages
-- come in over a webhook (webhook.rs beside the queue), which checks who sends them and holds the
-- exchange with the model: requests, tool calls that send messages and change the table of tasks,
-- and the reply. The terminal interface (crates/arcc-tui/src) handles events one at a time: keys,
-- the stream of a turn, prompts and the dashboard. A registry
-- (crates/arcc-core/src/model/registry.rs) names the two models. The files. Base and its
-- children: shared names, texts as lists of code points, lists, and hash maps as association
-- lists. Model: the JSON values that are carried, the messages of
-- crates/arcc-core/src/model/types.rs and the provider's interface of provider.rs. Session: the
-- operations of session.rs, one function per method; Session/Sanitize the repair of the order,
-- Session/Request what a request is made of, Session/Images the pruning of images,
-- Session/Manager the manager; ToolOrder, Kept, Stable, Budget and Persistence hold proofs.
-- Safety: allowlist.rs and validator.rs; Confirmation the proofs. Dsml/Tags, Dsml/Parse and
-- Dsml/Stream: the three layers of dsml.rs; Bounds, Extraction, Fuel, Restart, Streaming, Holding
-- and Missed hold proofs. Mcp: scheduler.rs; Lifecycle the proofs. Computer: the arguments of
-- computer/mod.rs; Computer/Keys the key combinations of computer/input.rs; Laws the proofs.
-- ChatQueue: chat_queue.rs as a step relation; Order and Overlap the proofs. Acp: permission.rs
-- and the decision of prompt.rs; Consent the proofs. Acp/Protocol: protocol.rs; Acp/Sessions:
-- session.rs; Acp/Requests and Acp/Dispatch: lib.rs, with the proofs below Acp/Dispatch (Parts,
-- Guard, Turns, Responses, Cancellation); Acp/Talk and Acp/Prompt: prompt.rs, with the proofs
-- below Acp/Prompt (Answering, Dialogue, Rounds). DeepSeek: the requests and whole replies of
-- deepseek.rs; DeepSeek/Retry its retries, DeepSeek/Sse its stream, DeepSeek/Wire the reading of
-- tool calls, DeepSeek/Replies the method chat; Chunking and Builders hold proofs. Tools:
-- tools.rs, with the schemas in Tools/Definitions; Limits and Clearance the proofs. Memory:
-- memory.rs; Facts and Extracted the proofs. TaskLoop: scheduler.rs; Retries the proofs.
-- Model/Registry: registry.rs. Feishu: the repair of a chat's history in
-- crates/arcc-server/src/feishu/webhook.rs; Feishu/History the proofs. Feishu/Post: the contents
-- of messages there and in card.rs; Feishu/Handlers: the handle_ functions of the tools, with the
-- proofs Delivery and Tasks below it; Feishu/Chat: process_feishu_chat, with Turns, Rounds,
-- Orderly, Requests, Stored and Replies; Feishu/Webhook: handler, handle_message_event and
-- handle_card_action, with the proofs in Mentions and Gate. Tui: the state and the keys of the
-- input line in crates/arcc-tui/src/ui/app.rs; Tui/Editing the proofs. Tui/Commands:
-- crates/arcc-tui/src/commands.rs; Tui/Events: handle_event, with the proofs in Tui/Soundness;
-- Tui/Submit: submit and plan_submit up to the start of a turn, and proofs; Tui/Enter: what the
-- Enter key does in the main loop of run, with the proofs Handles and Turns. A file Tests applies
-- theorems at concrete inputs. How code becomes definitions. A method that changes its object
-- returns the new record; a method that writes to the database returns its statements too. A lock
-- that other tasks hold is a flag of the state: a busy session is one whose `try_read` fails, and
-- the scheduler's table says whether the running task holds its lock. Tasks that run concurrently
-- are steps of a relation, one step for what a task does between two awaits. Positions in a text
-- count characters where the source counts bytes; both name the same cut. Numbers are natural
-- numbers: `usize` sums of token counts do not come near its bound, and every subtraction is one
-- that saturates in the source or cannot go below zero. Fuel. The repairs of the order and of a
-- chat's history have one unit for each message. Each of the three loops of the DSML parser
-- starts with one unit more than the length of its text. `ingest`, which calls itself for the
-- text behind a block, has one unit for each character of its buffer and one more. The reader of
-- a stream has one unit for each byte of its buffer when it takes out frames. The retries have
-- one unit for each of the four attempts. The rounds of a turn have no bound in the source; their
-- fuel is an argument, and Acp/Prompt/Rounds says when two units are enough. The fuel of a chat's
-- exchange is an argument too: eleven units are enough, for ten rounds with tools and one
-- without. Not modelled. The model's answers, SQLite, JSON parsing, the operating system's
-- processes, the input library, the cron library, task executors and the handler of a chat event
-- are parameters. The writing and reading of HTTP, the decoding of bytes and the printing of
-- numbers are parameters too, and so are chrono, the answers of Feishu and the lower case of a
-- text. A turn's conversation is not part of the dispatch, the allowlist does not change in a
-- turn, and two facts that were updated in one second are listed in the order of the table. An
-- exchange of a chat is given its session and the facts about its user, and no other task changes
-- the table of tasks or compresses the session while it runs. A scheduled task's executor may
-- leave the table as it likes. Of the terminal interface the work of the slash commands, the
-- tool-calling loop and the drawing are not here, nor are the clients of HTTP, the HTTP routes,
-- the configuration, the audit log and the platform's screen and input calls: they are I/O, or
-- remain to be added.
pub mod Base
pub mod Model
pub mod Session
pub mod Safety
pub mod Dsml
pub mod Mcp
pub mod Computer
pub mod ChatQueue
pub mod Acp
pub mod TaskLoop
pub mod DeepSeek
pub mod Tools
pub mod Memory
pub mod Feishu
pub mod Tui
