-- ===== src/Lib.antt =====
-- The file-list server alist (module github.com/alist-org/alist/v3): users browse storages that
-- are mounted at paths, and the server decides which storage serves a path, who may see it and
-- what a request may change.
--
-- The parts and how they interact. A request names a path. The user's base path is put in front
-- of it (pkg/utils/path.go, internal/model/user.go), the nearest meta says who may see it
-- (internal/op/meta.go, server/common/check.go), the mount table says which storage serves it and
-- under which path (internal/op/storage.go, internal/op/path.go), and the handlers call the
-- operations on files (server/handles). Copies between storages run as tasks (pkg/task).
--
-- The files and what they model:
-- - Prelude: shared notation, numbers, lists, texts (a Go string is a list of bytes), and Go's
--   64-bit int with its wrap-around written out (Prelude/Int).
-- - Go: what the program uses of the standard library's strings, path and sort.
-- - Utils: pkg/utils/path.go (Utils/Path), pkg/utils/balance.go (Utils/Balance),
--   pkg/utils/slice.go (Utils/Slice) and the types of files in pkg/utils/file.go
--   (Utils/FileType); the children of Utils/Path read paths as the names that they go through.
-- - Model: the structs Storage, Config, User, Meta and SettingItem, and their methods
--   (Model/Setting: internal/model/setting.go).
-- - Op/Storages: getStoragesByPath, GetBalancedStorage and GetStorageAndActualPath; storagesMap
--   is an association list in any order, balanceMap another one.
-- - Op/Storages/Lifecycle and Op/Storages/Changes: the life cycle of storages in
--   internal/op/storage.go. The database and the drivers are parameters (records of operations);
--   the running storages, the table and the state of the services are one state. A driver of
--   storagesMap is a pointer in the program, and a value here, which is the same while it stands
--   under one path; UpdateStorage can leave it under two, where the old record has an unclean
--   mount path, and then the entry of the old path is written as well. The status and the
--   addition that are written to it after initStorage has stored it stand in the entry that the
--   model stores. Op/Storages/Kept follows the map through these operations.
-- - Op/Files: internal/op/fs.go over one storage. A driver is a set of operations on the state of
--   a service (Op/Files/Env), `none` where it does not implement one; steps on the state of the
--   service and of the two caches return a value or an error, or `none` out of fuel
--   (Op/Files/Monad). Op/Files/Listing changes cached listings as values; Op/Files/Shared does so
--   in the arrays that Go's slices share, where the sort that addCacheObj asks for is a step of
--   its own, with the room that append gives to a new array as a parameter. The slice that List
--   returns to its callers shares the array too, which is left out. Op/Files/Read has Get, List
--   and Link, Op/Files/Write and Op/Files/Upload the operations that change files. Get and
--   MakeDir go to the directory above with the length of the cleaned path and one more as fuel,
--   which exceeds the number of its names.
-- - Op/Metas: internal/op/meta.go, with the database and the cache as parameters (records of
--   operations and laws). Coherent says that the cache agrees with the table, Nearest which meta
--   is the nearest in a table. getNearestMeta is recursion on fuel, one more than the bytes of
--   the path, which is enough since each call drops a name.
-- - Op/Users: internal/op/user.go, with the database and the cache by name as parameters. The
--   database has unique user names; a query may return any row of a role.
-- - Op/Settings: internal/op/setting.go and the hooks of settings in internal/op/hook.go, with
--   the database, the two caches and the hooks as parameters. Op/Settings/Save has the operations
--   that write, Keys and Coherence say when the caches agree with the table, Writes and Fresh
--   that they do.
-- - Op/Virtual: GetStorageVirtualFilesByPath of internal/op/storage.go.
-- - Fs: list.go, get.go and link.go of internal/fs, over an interface for internal/op; Fs/Hides
--   is about what a listing shows. Fs/Changes: other.go, put.go and ClearCache of util.go; an
--   upload as a task is a value that a function runs.
-- - Fs/Copy: copy.go of internal/fs. A task is the function and the paths that it closes over,
--   and comes to the tasks that it submits and the files that it puts; Fs/Copy/Schedule runs any
--   task that is left, one after another, Fs/Copy/Plans says what a task leads to.
-- - Server/Check: server/common/check.go, getReadme and isEncrypt of server/handles/fsread.go,
--   needSign of server/middlewares/down.go and whetherHide of internal/fs/list.go. Regular
--   expressions are a parameter.
-- - Server/Manage: the handlers of server/handles/fsmanage.go that change files. What internal/fs
--   answers to a call is a parameter, which may depend on the calls before; a handler returns the
--   calls that it makes and its response.
-- - Server/Read: the handlers of server/handles/fsread.go that show files, and
--   server/common/sign.go. What internal/fs answers is a parameter, one answer for each call,
--   since no handler asks the same twice. Server/Read/Contents and Server/Read/Found say what an
--   answer is made of.
-- - Server/WebdavAuth: WebDAVAuth of server/webdav.go.
-- - Server/Login: Login of server/handles/auth.go, with the counts of wrong attempts by address.
--   Server/Login/Tally keeps the attempts beside the counts.
-- - Server/Down: server/middlewares/down.go and server/handles/down.go, ShouldProxy of
--   server/common/check.go and pkg/utils/url.go. A lookup of the storage goes on with the balance
--   of the storages, so lookups are steps on a state.
-- - Server/Upload: server/middlewares/fsup.go and server/handles/fsup.go.
-- - Server/Page: internal/model/req.go and the function pagination of server/handles/fsread.go.
-- - Tasks: pkg/task. Tasks lie in a heap that the manager and the goroutines share; an operation
--   of the manager and a step of a goroutine are steps of one relation, and Reaches is any
--   sequence of steps. An operation of the manager is one step, so two of them do not interleave
--   inside one another.
-- - Model/Objects: SortFiles, ExtractFolder and ObjMerge of internal/model/obj.go, over objects
--   that are what the methods of the interface return; regular expressions are a parameter.
-- - Server/Auth: server/middlewares/auth.go. The users of the database and the claims of a token
--   are parameters.
-- - Signs: pkg/sign/hmac.go. The HMAC, base64 and strconv are parameters: what is formatted
--   parses back, is not empty and holds no colon.
-- - Queues: pkg/generic/queue.go and pkg/mq/mq.go. A consumer stands for the messages that it is
--   given.
-- - UrlTree: drivers/url_tree, a driver whose folders are read from a text: what a line says
--   (UrlTree/Lines), the stack of open folders that BuildTree keeps (UrlTree/Build, with its
--   lemmas in UrlTree/Build/Depth), and the operations of the driver on the tree (UrlTree/Serve).
--   UrlTree/Forest has trees apart from the stack.
-- - Tests: runs and the theorems at concrete inputs.
--
-- Errors are values: an Option or a type of results for each place, `none` for a panic where a
-- comment says so. Log messages and the texts of errors are left out.
--
-- Not modelled: the other drivers, which are clients of remote services; the database; the start
-- of the server and its configuration; static files; the copies of other projects' libraries
-- (golang.org/x/net/webdav below server/webdav, pkg/gowebdav, pkg/aria2, pkg/singleflight,
-- pkg/generic_sync, pkg/http_range). singleflight.Do runs its function, a sync map is an
-- association list, and the entries of a cache are as they are before they expire. The hooks that
-- run in goroutines of their own, the registration of drivers, the stream behind the link of a
-- file and the walk of internal/fs, and the WebDAV handlers behind the authorisation are not
-- modelled; nor are the handlers of users, metas, storages, settings and tasks, nor the single
-- sign-on.
pub mod UrlTree
pub mod Fs
pub mod Prelude
pub mod Go
pub mod Utils
pub mod Model
pub mod Op
pub mod Server
pub mod Tasks
pub mod Queues
pub mod Signs
pub mod Tests
