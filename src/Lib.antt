-- ===== src/Lib.antt =====
-- The proxy and the plugin of ida-pro-mcp, by which a language model drives IDA Pro: JSON-RPC from
-- the proxy to a server inside each IDA process, and a directory of files by which the proxy finds
-- those processes. Paths without src/ are below src/ida_pro_mcp/.
--
-- Inside IDA. HttpServer models `do_POST` of src/ida_pro_mcp/plugin/http_server.py as a function
-- from a request and the state of the database to what is sent, what stays unread on the
-- connection and the new state. It checks the envelope (JsonRpc, plugin/jsonrpc.py) and calls
-- `dispatch` of Registry (plugin/registry.py), which binds the arguments by name, converts each by
-- Coerce (plugin/coerce.py, plugin/doc.py), and runs the tool. A tool is a record of what
-- introspection says of it and a function on the state of the database, which is a type parameter.
-- Errors are values (Errors, plugin/errors.py). Format (plugin/format.py) reads and writes
-- addresses, NumberConversion (number_conversion.py) is the `convert_number` tool, and Paginate
-- (plugin/tools/_helpers.py) cuts lists into pages. Names models how a tool finds a function:
-- plugin/names.py with its cache of demangled names, plugin/caches.py, plugin/idb_hooks.py and
-- plugin/funcs.py. Stack models the tools on stack frames (plugin/tools/stack.py,
-- plugin/frames.py), Memory those that read memory and patch it (plugin/memory.py,
-- plugin/tools/data.py, plugin/tools/patch.py), Comments the tool that sets a comment
-- (plugin/tools/comments.py, and `decompile_checked` of plugin/decomp.py), and Sync the wrappers
-- of plugin/ida_sync.py that run a tool on the main thread.
--
-- The life of such a process. Server models `bind`, `serve_in_current_thread` and `stop` of
-- plugin/http_server.py, and Headless `main` of plugin/headless_bootstrap.py with the watcher of
-- the kill switch and the signal handler. Each is a thread that takes small steps, and a run is a
-- list of turns; a handler runs on top of the main thread. Headless/Phases is what holds of every
-- process that has run from its start.
--
-- In the proxy. Client (client.py) makes one call; HttpServer/EndToEnd puts it before the server.
-- SessionRegistry (session_registry.py) keeps a client for each session id, and finds the session
-- by Session (plugin/session.py, plugin/_pid_check.py): the directory of sidecars is an association
-- list from file names to bytes, and each operation gives the directory that it leaves, stale files
-- removed. SessionId derives the name of a sidecar. Spawner (`close` of spawner/core.py, and
-- spawner/kill_switch.py) and Spawner/Open (`open`, and spawner/idb_artifacts.py) stop and start
-- IDA processes. ProcessEnv (spawner/process_env.py) makes the environment of a child, and
-- SessionControl (session_control.py) stops a batch. ToolBridge (_tool_bridge.py) chooses the tools
-- that are offered and takes the session from the arguments of a call, and ToolBridge/Local has the
-- tools that run in the proxy. Cli models the commands behind the parser (cli.py), and Config what
-- `config` prints (installer/config.py, installer/proxy_python.py, runtime_args.py) and the search
-- for `idat` (spawner/locator.py).
--
-- Shared files. Prelude passes on the libraries' names and has text, lists and integers; PyInt is
-- Python's `int`, `hex` and `bin`; Value is the JSON value; Samples is data for the tests, which
-- are modules named Tests, and Codec inhabits the interface `Json` for them.
--
-- Loops. `discard_loop` runs on fuel, which its caller sets so high that it never ends a loop: a
-- read that brings nothing ends it before. The digits of a number are made on fuel above the
-- number, and its bits are counted on fuel no less than it, since each step divides. The waiting
-- loops of Spawner run on the list of what other processes do between two polls, of any length,
-- since each ends at a deadline. Every other loop is structural.
--
-- Parameters. The JSON codec (`Json`, `loads`, `dumps`), the rounding and reading of floats
-- (`Floats`), `os.kill` (`Probe`), SHA-1, path resolution and the test for a virtual environment
-- are arguments, since they are the interpreter's or the system's; so are the calls of IDA's SDK
-- in Names, Stack, Memory, Comments and Sync, the decoding of UTF-8, the files and the probe of
-- an interpreter in Config, and the wording of messages that quote `repr`.
--
-- Limits. Text is a list of code points, and the character classes are those of ASCII. Negative
-- zero is not told from zero. Session, and what uses it, is about directories of which no
-- sidecar makes `_load` or `is_pid_alive` raise; Session/Escapes has `list_all` and `get` for
-- all directories, where `json.loads` raises only `JSONDecodeError`. A method of
-- SessionRegistry, and a call of `open` behind the wait for its lock, is one step. A directory
-- with a name that ends in ".json" is not told from a file. A signal comes only behind the
-- installation of the handlers, and none while a handler runs.
--
-- Not modelled: the parser of the command line, the commands of the service and the assembly of
-- the server of FastMCP, which are calls of libraries; schemas.py, which makes annotations of
-- pydantic; Windows and its Task Scheduler; `atexit` and the wait for the analysis of IDA; input
-- and output errors other than a missing file; the limit of `int` on digits; and the tools that
-- only call the SDK of IDA, which is not in the repository.
pub mod Prelude
pub mod Errors
pub mod PyInt
pub mod Value
pub mod Coerce
pub mod JsonRpc
pub mod Registry
pub mod Paginate
pub mod HttpServer
pub mod Server
pub mod Headless
pub mod Client
pub mod Samples
pub mod Codec
pub mod SessionId
pub mod Spawner
pub mod SessionControl
pub mod ToolBridge
pub mod ProcessEnv
pub mod Session
pub mod SessionRegistry
pub mod Format
pub mod NumberConversion
pub mod Comments
pub mod Memory
pub mod Names
pub mod Sync
pub mod Config
pub mod Cli
pub mod Stack
