-- ===== src/Lib.antt =====
-- The core of eda_agent, an agent that drives chip design flows. The planner turns a user's message
-- into requests to a language model and calls of tools, and keeps a memory of the conversation,
-- which the session store saves. Every call passes the guardrails; custom tools join the registry
-- by their loader; long flows go into a queue of jobs with a worker. The inference of root causes
-- ranks what the optimization loop then tries.
--
-- Base: shared tests, lists and texts. A text is the list of its code points; keys and names are
--   strings. Numbers are natural; a limit that is zero or negative in the program is 0.
-- Json: the dynamic values that Python code passes as dicts, a dict as an association list in
--   insertion order, and json.dumps with its defaults. Numbers with a point are of a type that
--   stays open, with their text as a parameter.
-- Memory: eda_agent/agent/memory.py. History has AgentMemory and the methods that add messages;
--   Groups and Eviction have _evict_if_needed; Wire has _serialise, to_dict, from_dict,
--   from_messages and _load_messages; Budget has shrink_to_byte_budget, _trim_to_token_budget and
--   get_messages; Scratchpad has set, get and update_context_from_tool. The loops that drop the
--   oldest group run on fuel, the length of the list: each round drops a message, so they end
--   before it. A message list that comes from outside has entries with the fields that the code
--   reads.
-- Queue: eda_agent/queue/store.py (Store) and eda_agent/queue/worker.py (Worker). The table is a
--   list of rows. System has the steps of one worker and any clients on one table: a step is one
--   statement or one transaction, and _fix_stale_jobs is a scan and a step for each repair.
--   Tracking, Changes, Evolution and Lifecycle follow its runs; list_jobs is the run that nothing
--   interrupts. The polling loop runs on rounds; Drain says how many are enough.
-- Tools: eda_agent/agent/guardrails.py (Guardrails, Check), and execute_tool with its audit of
--   eda_agent/agent/tools.py (Calls, Execute). The tools, the world that they change, the parsing
--   and printing of floats, the JSON text without ASCII escapes and whether the database takes an
--   audit row are parameters. A call that leaves with an exception has the answer none.
-- Optimize: eda_agent/agent/optimization_loop.py. The inference engine, the stage runner, the check
--   of the target, the confirmation and the decision trace are parameters that change a world. The
--   while loop is a recursion on the iterations that are left. The history belongs to the object
--   and outlives a call, so it is an argument and a result.
-- Inference: eda_agent/agent/inference. Engine has the conditions and scores of rules.py and infer
--   of engine.py; Weights has the adjustment of the multipliers of weights.py. Float arithmetic and
--   its constants are a parameter; the laws of the order leave NaN out.
-- Planner: eda_agent/agent/planner.py. Model has what a turn works on and the services it calls;
--   React has the loop of run, Cases _refresh_similar_cases and the whole of run; Prompt has
--   _build_system_prompt and _messages_for_prompt_mode, Request _build_payload,
--   _post_chat_completion and _call_llm, Reading the tool calls that stand in a text; Agents has
--   the cycle of eda_agent/agent/subagents. The language model, the tools, the search of cases,
--   fresh ids, JSON and the transport are parameters that change a world. The loop is a recursion
--   on the iterations that are left, and Bounds counts the calls of _call_llm, of which each sends
--   one request or more; the search for blocks in a text has its length as fuel (Blocks), and each
--   block that is found shortens it.
-- Params: eda_agent/agent/param_mapper.py, the parameters by stage and validate_params. The
--   catalogue of parameters and Python's equality of values are parameters.
-- CustomTools: eda_agent/agent/custom_tools.py, and _load_custom_tool_bindings of
--   eda_agent/agent/tools.py. Spec has the checks of a specification, Load the two loaders,
--   Bindings the registry. What reading the file gives (its JSON, a configuration error, or another
--   exception), the entry points and the process that a command starts are parameters. Gathered
--   says which names the loaders give.
-- Sessions: eda_agent/agent/session_store.py. The database is a list of rows with flags for its
--   schema, its ON CONFLICT and whether it can be reached; a stored value is read back as it was
--   written. Values that PostgreSQL rejects (a NUL character, an id of more than 256 characters),
--   for which the code saves nothing, are left out. The count of messages is the one in Python,
--   which the one in SQL replaces.
--
-- Not modelled: SQL and the connections behind it, time stamps as text, signals and process files,
--   the catalogues of inference rules and of parameters, the runner of custom commands, the report
--   parsers, the backends, the front ends and the event stream.
mod Base
pub mod Json
pub mod Memory
pub mod Queue
pub mod Tools
pub mod Optimize
pub mod Inference
pub mod CustomTools
pub mod Sessions
pub mod Params
pub mod Planner
