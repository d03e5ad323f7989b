-- ===== src/Lib.antt =====
-- DBAgent-tree: an agent that works on a transactional key-value database through tools.
--
-- The parts. A model calls tools by name (Agent/tool_registry.py); the tools (Agent/tools) check
-- and convert their arguments and call one client, `AgentDBClient` (Agent/db_client.py). The
-- client speaks a line protocol to a server over `TreeDBSession`, or, by its configuration or as a
-- fallback, calls `MiniDBClient`, an in-memory database with the same transactions: plain ones,
-- with a snapshot and private writes, and trees of candidate branches of which a winner is
-- committed. A benchmark (Agent/vitabench_delivery.py) writes tasks into the database, has a
-- reference agent order the best of some candidate stores by the same tools, in plain transactions
-- or in a tree, and compares the answer with the expected order.
--
-- The files.
--   Mini models TxContext, MiniTreeBranch, MiniTreeContext and MiniDBClient of Agent/db_client.py,
--     method by method with their names (`_require_tx` is `require_tx`), those of trees in Branches.
--     Invariant and Steps have the shape of its contexts, Calls the methods as one type of calls and
--     sequences of them, Lineage the walks from a branch to the root, Commit, Flow, Isolation and
--     TreeIsolation what transactions do and see.
--   Text models Python's texts and bytes: Codes the code points, Utf8 and Hex the codecs, Words the
--     methods of `str`.
--   Client models TreeDBSession (Session) and AgentDBClient: Protocol how answers are read, State the
--     object and its maps of sessions, Plain and Tree its methods, Ending the ends of tree
--     transactions. Reading, Values, Sessions, Retries and Batches are about what these do.
--   Tools models Agent/tools/kv_tools.py (Reply, Tx, TreeTx, Order, Context), Agent/tools/image_tools.py
--     (Context) and Agent/tool_registry.py (Schema, Router), over Python's JSON values (Json) and
--     conversions (Python). Submit, Quiet, Raising and Dispatch are about these.
--   Llm models the native chat loop of Agent/llm.py, with the model service and the router as
--     parameters; Actions and Manual are the loop for services without calls of tools, Choice the choice
--     between the two, and Exchange is about the messages that the native loop appends.
--   Delivery models Agent/vitabench_delivery.py: the choice of candidate stores; Projection the
--     projection of a task to keys and the transaction that writes them; Orders the expected order of a
--     task and the filter of tasks; Loading the loading of tasks; Ranking, Winner and Recheck the score
--     of a store, the choice among scores and the check before the commit; Evaluate the comparison of
--     an answer with the expected order; Statistics pass@k and pass^k. Agent has the state of
--     `_reference_agent_run` and its small steps, Agent/Baseline, Agent/TreeRun and Agent/TreeWinner
--     its two modes, Agent/Reference the run as a whole. Interference has one bump of the hotspot key.
--     Floats and Sorting have what these use of Python. The other modules are about these: Candidates,
--     Entries, Written, Orders/Compatible, Loading/Counting, Loading/Selection and Loading/Filtered,
--     Winner/Least, Recheck/Passing, Evaluate/Verdict and Evaluate/Submitted (with Agreement and
--     Reflexive), Statistics/Choose, Agent/Baseline/Rounds, and Agent/Counts and Agent/Honest, over Steady
--     and Reports, which carry a statement through the steps of a run.
--   Prelude, Dict and Exec are shared: names of the libraries, Python's dict in insertion order, and
--     the monad of a method, a function from a state to a result and a state. A result is `ok`, an
--     exception `err` with its text, or `hang` where fuel has run out.
--
-- The correspondence. A method of MiniDBClient holds its lock from start to end, so it is one
-- step; those on many items hold it for each item, and what comes between two items is a sequence
-- of the single calls. What `uuid.uuid4` draws is an argument of the methods that draw it, and
-- what the network delivers is one too: `Dial` is what connecting gives, `Event` what one `recv`
-- gives. Sending never fails here; a broken connection shows at the next `recv`. The sleep between
-- two rounds of `kv_get` is left out. Floats, `repr`, the `json` module and the file system are
-- records of functions (Python, Files) that the tools take, and so are arithmetic on floats, the
-- tables of Unicode and the data files that the benchmark takes (Floats, Unicode, Disk). A run of
-- the reference agent is a function on its local variables, a record, and the client among them;
-- the part of the body after each call of a tool is a function of its reply. A bump of the hotspot
-- key by the manager's threads is a step on the client that the run is given, done when the wait
-- for it is over; the draw of `random.random` is an argument. `dict(x)` of a list of pairs is
-- refused. The instructions of a task are a text and each of its stores is an object. Texts of
-- exceptions that Python itself makes up are shortened. Upper and lower case and digits are those
-- of ASCII.
--
-- The bounds. The walk from a branch to the root has `suc (suc next_branch_id)` rounds of fuel; a
-- parent's id is smaller than its child's, so a walk from a branch ends before that. `kv_get` has
-- the ten rounds of the source. The reading of a line recurses on the events. The rounds of the
-- baseline's winner have fuel, since a retry policy may ask for rounds without end; with a fixed
-- policy `max_attempts` is enough. All other loops recurse on lists.
--
-- Not modelled: the keyword arguments of a request to the model service and its cached client
-- (Agent/llm.py); of the benchmark runner (Agent/vitabench_delivery.py) the run with a language
-- model, the threads that bump the hotspot key and their queue, clocks, sleeping and latencies,
-- the 95th percentile, the aggregation over trials, the reports and the command line; the command
-- line of the chat (Agent/app.py), the load test (scripts/db_test.py), the server and the storage
-- engine in C++ (Server, Storage), of which only the answers reach this code.
pub mod Prelude
pub mod Dict
pub mod Exec
pub mod Mini
pub mod Text
pub mod Client
pub mod Tools
pub mod Llm
pub mod Delivery
