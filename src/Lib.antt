-- ===== src/Lib.antt =====
-- The administration console of the regional rate limiter: the server, quotaui/bff, and the program
-- in the browser, quotaui/frontend.
--
-- The server stands between people and two backends: quotamgmt keeps the limits and quotaenforcer
-- counts what is consumed. A request passes the session gate and the CSRF gate (session.ts), then
-- its handler validates the input (validation.ts), asks the decision function (rbac.ts) and, for a
-- change, the review policy (policy.ts). A change that needs a second person is filed (reviews.ts)
-- and answered with 202; another one is applied by an operation (operations.ts), which calls a
-- backend through rpc.ts with the user as the actor and then adds an entry to the action log
-- (actionlog.ts). An approval applies a filed change with the same operations. The pages call the
-- server through one client (api.ts), share one session (session.tsx), and offer what the mirror of
-- the decision function (util/rbac.ts) permits.
--
-- The files, with paths below quotaui/bff/src where no other is named:
--   Prelude       shared names; Boolean tests, lists, integers, and maps in insertion order
--   Js            JavaScript values and numbers; Runtime has what the engine and node:crypto do
--   Rbac          rbac.ts; Matrix states the rules that `authorize` decides, Editable is about
--                 `editableServices`, and Mirror models quotaui/frontend/src/util/rbac.ts
--   Validation    validation.ts, types.ts, and `validateServiceBody` of routes/services.ts
--   Reviews       reviews.ts; Policy models policy.ts, and Lifecycle has runs of the store
--   ActionLog     actionlog.ts; Order is about its numbers and lists
--   Rpc           rpc.ts; Backends is the interface of the backends
--   Session       session.ts: the two stores, the test of the CSRF token; Linked is about the
--                 references from the stores to user objects, Token about what the test asks
--   World         the mutable state of the process, actions over it, and the rules for what an
--                 action sends (Emits), logs (Logs) and does (Runs)
--   Operations    operations.ts, with what each operation sends, logs and does
--   Routes        routes/util.ts and deps.ts; Limits, Ops, Reviewing, Services and Audit model the
--                 files of routes/; the other children are about all of them
--   App           app.ts and the handlers of session.ts: `handle` takes a request and the world
--                 to a response and the next world. Gate and Turns analyse one request, and
--                 History sequences of requests; Authors is about who files reviews; Approval
--                 follows an approval to the mocked control plane
--   Mocks         quotaui/bff/dev/mocks.ts, an implementation of the interface of the backends;
--                 Reset and Audit are about resets and audit rows there; Table is an abstract
--                 table of settings, Refinement compares the limits with it, and Keys is about
--                 the texts of keys
--   Browser       quotaui/frontend/src/api.ts; its children model, in the same directory, Session
--                 session.tsx, Components components.tsx and util/diff.ts, Limits (with Editor)
--                 pages/LimitsBrowser.tsx, Usage pages/LiveUsage.tsx, Services, Audit and Reviews
--                 the pages of these names, Shell App.tsx, and Windows util/windowId.ts.
--                 Session/SignIn, Session/Reload, Limits/Held and Reviews/Approving put the
--                 model of the server behind the client; Affordances compares what is offered
--                 with what the server permits
--   Struct        struct.ts; Trip is about encoding and decoding an object
--   Start         index.ts and `makeDeps` of deps.ts; Sound is about what holds from the start on,
--                 Closed about AUTH_MODE=oidc, and Dev models quotaui/bff/dev/server.ts
--   Examples      a concrete engine and world; each theorem at a concrete input, and tests
--
-- The state of the process is a record, World: the state of the backends, the grant and session
-- stores, the review store, the action log, and counters for the random texts and clock readings
-- drawn so far. User objects are shared by reference between both stores, so they stand in a list
-- and the stores hold positions in it. An action takes a world to a result or a thrown error and a
-- world; what it wrote before a throw stays written. A request is one action, run from start to
-- end; what others do to the backends in between is part of their RPCs, which are arbitrary functions
-- of an arbitrary state. Node runs other requests while one waits for a backend: World/Runs splits
-- what a request does into moves, and App/Interleaving lets the moves of several people alternate.
-- There any move may follow any other: what a request has read does not restrict its next move.
--
-- A page is a record of its React state; a handler takes it, the client and the server's state to
-- their next values. `fetch` reaches the server at once: a handler runs from start to end, and no
-- other request comes between its calls.
--
-- All functions are total by structural recursion. The digits of a number (Browser/Windows) run on
-- fuel, which is more than the number and so more than its digits.
--
-- Not modelled: grpc.ts, which loads protocol files and opens channels; listening on a port; cookie
-- attributes and static files; the markup and styles of the pages, and React itself; and the services
-- quotamgmt and quotaenforcer, other programs behind RPCs. Express matches the path and parses the
-- body: a request of the model names its route and has JavaScript values. Numbers are exact; the
-- rounding of large integers to doubles happens in the engine's conversions. What the wire makes of a
-- struct and of the value of a limit on the way to the mocks is a parameter of theirs.
pub mod Prelude
pub mod Rbac
pub mod Js
pub mod Validation
pub mod Reviews
pub mod ActionLog
pub mod Rpc
pub mod Session
pub mod World
pub mod Operations
pub mod Routes
pub mod App
pub mod Mocks
pub mod Struct
pub mod Browser
pub mod Start
pub mod Examples
