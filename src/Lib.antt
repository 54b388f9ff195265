-- ===== src/Lib.antt =====
-- deviced keeps the Docker containers of a device as a configuration document wants them.
--
-- The program has two workers and a main loop. The container worker compares the running containers
-- with the targets, and deletes, creates and starts containers; the image worker pulls images that
-- are better than the local ones and wakes the container worker; the main loop reads the
-- configuration again when its file changes and wakes both. Two locks keep the passes apart.
--
-- Which file models which part:
--   Arch            pkg/arch/arch.go: the suffix of tags on ARM devices
--   Images          pkg/utils/images.go: image names with tags, the map of the local images
--   Config          pkg/config: the targets and their scores (Target), the Docker client (Client), the
--                   document (Document), its defaults (Defaults), its file (File) and how it changes
--                   while `Main` of pkg/daemon/system.go runs (Reload)
--   Types           pkg/types/container.go: Docker's description of a container
--   Docker          the requests to Docker and to registries, and the daemon that answers them; the
--                   requests made between two histories (Made)
--   ContainerSync   pkg/containersync/worker.go: `processNetworks` (Networks) and `processOnce`, loop by
--                   loop (Match, Choose, Execute) and as a whole (Pass); pkg/state/state.go (State).
--                   Requests, MoreRequests, Warrants, Realized and Unlisted carry the theorems on
--                   whole plans and passes; Changes, Shown, Orderly, Listing and Progress those on
--                   many passes that bring about their plans (Converge), and Answers and Obeyed those
--                   under a Docker that does what the requests ask (Rest)
--   ImageSync       pkg/imagesync/worker.go: `processOnce`, by loops (Needed, Query, Pull) and as a whole
--                   (Pass); PassPulls, Rounds and Offered carry the theorems on what a pass pulls
--   Registry        pkg/registry: insecure registries and index names (Config), certificates (Certs), the
--                   endpoints of a host (Service), tags and digests (Reference), pings (Ping)
--   Distribution    pkg/distribution/registry.go: connections to repositories
--   Agreement       what the image worker fetches and the container worker then runs
--   Ioutils         pkg/ioutils: the fixed buffer (Buffer) and the pipe of bytes (BytesPipe)
--   Workers         `Run` and `Quit` of both workers and `Main` of pkg/daemon/system.go as threads: their state
--                   (State) and what each does next (Steps)
--   Stringid        pkg/stringid/stringid.go: short and random identifiers; the loop for the latter is on
--                   fuel, of which each round takes one
--   Startup         cmd/root.go, `Main` of pkg/daemon/system.go up to its loop,
--                   pkg/reflection/deviced.go and `Init` of pkg/config/watcher.go
--   Base, Tests     shared names and lemmas; concrete runs
-- The other modules hold the lemmas and theorems on the module in whose folder they stand.
--
-- The state of a pass is passed on explicitly. The requests that it makes are a list, the latest
-- first; what Docker and the registries answer is a function of that list and an argument of the
-- model, as are the file system, YAML, the random numbers and the order in which Go walks a map.
-- Texts are lists of bytes, maps are association lists, and a nil-pointer or index panic is a result
-- of its own. The upper and lower case of `strings.EqualFold` is that of ASCII. `uint` scores are
-- natural numbers: they are an index of a list or 65535. `strconv.Itoa` is written out for numbers
-- below a thousand million; the program calls it for numbers below 100.
--
-- A pass of the image worker waits for good, or panics, where what it sends to the container worker is
-- never received or the channel is closed; when that is so is part of Workers. Threads make no step
-- after a panic or the end of `Main`.
--
-- Not modelled: the printed messages, the waits for stop hooks, the registration for Docker's
-- events, the limits of time of connections, null entries in the lists of the configuration (they
-- make the program read a nil pointer), and the race of two threads inside `killRecheckTimer`.
-- `ToAPI` of pkg/types is the identity: it copies a value by way of JSON into Docker's type of the
-- same fields, which is not in this repository. The packages that are adapted from Docker are left
-- out where the program does not call them: the sessions, logins and version 1 endpoints of
-- pkg/registry, the errors of pkg/distribution, pkg/tarsum, pkg/jsonlog, pkg/jsonmessage,
-- pkg/httputils, pkg/random and the rest of pkg/ioutils.
pub mod Base
pub mod Arch
pub mod Images
pub mod Config
pub mod Docker
pub mod ContainerSync
pub mod ImageSync
pub mod Registry
pub mod Ioutils
pub mod Startup
pub mod Stringid
pub mod Workers
pub mod Tests
pub mod Agreement
pub mod Distribution
pub mod Types
