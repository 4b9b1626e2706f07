-- ===== src/Lib.antt =====
-- repo-man serves a page with the git checkouts below one root directory, the repositories that their
-- owners have on a provider, and the jobs that clone or create more of them, behind a passphrase.
--
-- The parts, and the files that model them:
--  * Auth: the package internal/auth. Auth.RateLimit is ratelimit.go (locked, recordFailure,
--    recordSuccess, gc), Auth.Session is session.go (create, touch, markCookieIssued, delete, gc,
--    count), Auth.Oldest is the loop by which both choose an entry to drop, Auth.Next is next.go
--    (sanitizeNext), Auth.Ip is ip.go (clientIP), and Auth.Login is auth.go: Login, Logout, Require,
--    Authenticated and the tick of Run over the limiter and the store; Auth.Login.Body is
--    readLoginRequest.
--  * Safepath: internal/safepath/safepath.go (Resolve, Contains, ResolveExisting, ValidName, and Rel in
--    Safepath.Relative), which every path of a request passes. The file system is an argument.
--  * Jobs: internal/jobs/jobs.go. Jobs.Registry is the registry (Start, Get, List, Active, the tick of
--    Run), Jobs.Tail is tailBuffer, which keeps the tail of a job's output.
--  * Git: Git.Porcelain is parsePorcelainV2 of internal/git/status.go and Git.Inspect the rest of that
--    file, Git.Remote is internal/git/remote.go (ParseRemoteURL, ValidateCloneURL), Git.Commands is
--    internal/git/git.go (run, gitError, hint, hardenedEnv, CommonDir, Fetch, Pull, Init, Clone), and
--    Git.System what these ask of the operating system: a log of the requests, and answers that may
--    depend on all requests before.
--  * Scan: internal/scan/scan.go (Walk, walkChildren, processDir, classify).
--  * Actions: internal/actions/actions.go (InitRepo, Clone, DestFor), over Safepath, Git and Jobs.
--    Actions.Claims has the interleavings of beginInit and endInit.
--  * Config: internal/config/config.go: validate and ParseOwners, and Load with resolveRoot and the
--    settings of the environment in Config.Loading.
--  * Model: internal/model/model.go, the data that the parts share and what is derived from it.
--  * Tree: internal/tree/tree.go: the end of Build (pruneEmptyWorktreeDirs, Sort, summarize) and Find.
--    Tree.Build is the placement of the nodes before it, with dir, place and attach of builder. The
--    nodes are cells of a store there, which Tree.Assembly reads as a tree; it has Build as a whole.
--    Model.Node is Node and Sort of internal/model/model.go.
--  * Index: internal/index/index.go: New, the signals, refreshGhosts and ghostSnapshot. Index.Scanning
--    has scan with the snapshot that it publishes and reportInspectFailures, Index.Fetching fetchAll,
--    FetchRepo and PullRepo, and Index.Loop is Run, as steps that interleave with the signals of the
--    handlers. It calls Scan, Git.Inspect and Tree.Assembly.
--  * Web: Web.Funcs is internal/web/funcs.go (statusWord, badges, errSummary, short, ago). Web.Server is
--    internal/web/server.go: Web.Server.Routes the patterns of Handler, Web.Server.Handlers the handlers
--    of the API, which call Index, Actions, Jobs and Safepath, and Web.Server.Serving the public routes
--    and the gate, which is Require of Auth.Login.
--  * Github: ListOwner of internal/github/github.go with internal/github/parse.go, and the client that
--    runs gh in Github.Client. What gh prints and what encoding/json makes of it are arguments.
--  * Main: cmd/repoman/main.go: what run makes of the configuration before its loops start.
--  * Base: lists, texts, maps, integers, results and sorting, with the functions of Go's package
--    strings that the program calls.
--
-- How the code is read:
--  * State is passed on explicitly: an operation takes the state and returns the new one with its
--    result. A mutex makes each method one step, so a history of calls is a list of steps.
--  * A Go string is a list of code points, and is taken to be valid UTF-8; the buffers of Jobs.Tail and
--    the output of git are lists of bytes. Folding of case is that of ASCII.
--  * A time is the number of nanoseconds since the zero time, and a duration is one of nanoseconds;
--    where a theorem needs a clock that does not go back, it says so.
--  * A map is an association list, the order of which stands for the order of a range over it.
--  * Random ids, the clock and the results of url.Parse and time.Parse are arguments.
--  * The goroutines of a scan each meet a system of their own, so nothing is assumed of their order.
--  * Loops are structural recursions, and that of Scan goes by the levels that maxDepth leaves. Only
--    dir of internal/tree runs on fuel, one unit for each of its calls: it is given two units more than
--    its path has characters, which path.Dir, making the path shorter each time, does not use up.
--
-- Not modelled: what git and gh answer; the flag package and the parsers of encoding/json, net/http,
-- net/url, strconv and time, which are arguments; the templates, whose text for a page is an argument;
-- the redirects of the mux to another form of the path; what is written to the log; the pacing of
-- goroutines (the limits on how many run at once), timeouts but as ends of git with an error, and in
-- cmd/repoman the signals, the socket and the shutdown.
pub mod Base
pub mod Actions
pub mod Auth
pub mod Safepath
pub mod Scan
pub mod Tree
pub mod Jobs
pub mod Model
pub mod Git
pub mod Index
pub mod Main
pub mod Config
pub mod Web
pub mod Github
