-- ===== src/Lib.antt =====
-- A verification library of iceclimber, which drives a sandbox without network from a host that has
-- one. An agent in the sandbox leaves requests in a maildir; the host answers them (installs of
-- runtimes, packages and tools), and an egress gate decides which URLs the sandbox may reach.
--
-- The parts, and the code that they stand for (paths from the repository's root):
--   Common: texts as lists of character codes, package path (Clean, Base, Dir, Join), results, lists,
--     and boxes of files by name.
--   Egress: internal/egress. Glob is globMatch (rewrite.go); Url is Canonical, hostOf, hostMatch,
--     HostGlob and applyRewrite (rewrite.go); Validate is validate.go; Store is store.go, with Files
--     for load and writeJSONAtomic, Rules for AddAllow, AddDeny, RemoveAllow and RemoveDeny, and
--     Pending for the queue of held URLs; Policy is policy.go, which reads the store's rules and
--     matches canonical URLs by globs.
--   Protocol: internal/protocol and internal/wire. Layout is Tree and Maildir (wire.go), EnsureTree
--     and IsBootstrapped (maildir.go); Names is validRequestName, idFromName and RequestName; Keys is resourceKey; Mail is the maildir tree (maildir.go) over the methods of
--     remotefs.FS (internal/remotefs/fs.go); Dispatch is dispatch, serviceCurData, responseExists,
--     recover and gc (dispatch.go), which call Mail and Names; Pool is drainer
--     (dispatch.go), whose keys are those that Keys computes; Drain is drainNew with its
--     workers, RunOnce (Drain/Passes) and Serve (Drain/Serving), which call Mail, Dispatch and Pool;
--     Status is the heartbeat (dispatch.go) and capabilities.json (capabilities.go).
--   Packages: internal/pkg, the extra arguments that a request may pass on.
--   Catalog: internal/catalog. Catalog itself is validate (catalog.go), Resolve is resolve.go and
--     Load the merge of the sources (load.go).
--   Tail: internal/tail, the reader of growing log files.
--   Remote: internal/remote and internal/remotefs. Shell is ShellQuote (shell.go) with a reader of
--     shell lines to state what it is for; Exec is ExecFS (exec.go), a file system over the commands
--     that a Runner runs; Line is about commands of several words; Resolve is the pure
--     part of sshconfig.go.
--   Relay: internal/relay/fetch.go. Relay itself is Fetch with downloadTo and fetchUnpinned as one
--     process sees them; Peers is the same calls of several processes that share the cache; Installed
--     is Exists and VerifyRun, which call Remote.
--   Conda: internal/conda. Conda itself is the names of a condaRecord, Solve is mergeRecords and
--     synthesizeRepodata, Channel is downloadChannel, which calls Relay, and Push is pushChannel
--     (relay.go); Command is
--     condaSpec and installCmd (conda.go), offlineEnvCmd and controllerChannelArgs (relay.go), which
--     quote by Remote; Report is resultOutcome (conda.go).
--   Logfile: internal/logfile, the rotating log that several processes append to.
--   Config: internal/config/config.go, validate and the settings that the other parts take from it.
--   Tests: concrete parameters, and the theorems at concrete inputs.
--
-- State is passed explicitly. An operation of the rule store takes the file with its leftover
-- temporary files and a record of which system calls fail, and returns its error and the file after
-- it. A call of the protocol takes a Link, the tree of six folders with a list of what becomes of
-- the next calls, and returns its result and the Link after it: a call passes, is lost without an
-- effect, is carried out while its answer is lost, or is a write that leaves a part of its file. The drain and its workers run over a schedule,
-- which says where a worker finishes. The processes that share an asset of the relay's cache are a
-- step relation: they look, wait, lock, copy, publish and may die at any point. The relay's cache is a box of
-- files by name, without the lock files; a log is a function from the number of a generation to its
-- file, and each Append comes with the handle of its process and with the system calls that fail.
--
-- Parameters: url.Parse and strings.ToLower (UrlLib), encoding/json (Json for rules and for the
-- queue, Server for requests and responses), the clock, the registry of handlers and the operator's
-- gate (Server), commands on the other side and the printing of numbers (Runner, Numbers), sha256,
-- the network and the system calls of the cache (Host) and of the channel (Disk), and ParseDuration.
-- What is asked of them is that decoding takes back the encoding of rules and queue entries whose
-- texts are valid UTF-8 (Json), that parsing takes back printing where the theorem says so, and for canonical URLs that ToLower is idempotent. TrimSpace, Fields and,
-- outside of URLs, ToLower are modelled on ASCII.
--
-- Loops are structural recursion on lists or texts. Only the loop of RunOnce takes fuel: a pass for
-- each file that is queued, and one more, are enough. Serve is a function of the list of its cycles.
--
-- Not modelled: goroutines beyond the order of steps, contexts and timeouts, log output, observers,
-- dialing, SFTP and tar streams, the installers and the other package managers that
-- run remote commands, the proxy's HTTP code, the YAML of configuration files and the console.
pub mod Common
pub mod Egress
mod Tests
pub mod Protocol
pub mod Packages
pub mod Tail
pub mod Catalog
pub mod Remote
pub mod Relay
pub mod Conda
pub mod Logfile
pub mod Config
