-- ===== src/Lib.antt =====
-- container-builder-shim: the verification library.
--
-- The shim runs inside a virtual machine between the host's builder client and the BuildKit daemon.
-- One duplex gRPC stream carries a build: `pkg/stream` gives each packet to a stage and, within the
-- stage, to the handler of its id; `pkg/build` turns the metadata of a request into options, exports
-- and frontend attributes; `pkg/content` serves image content that is read through `pkg/prefetch`, a
-- cache of chunks with a sliding window, retries and read-ahead; `pkg/fileutils` receives the build
-- context as a tar archive and unpacks it to a cache, and `pkg/fssync` walks it for BuildKit and sends
-- the files that BuildKit asks for.
--
-- The files:
-- - Common: numbers, int64 arithmetic with its wrap-around (Int), Go strings as lists of bytes (Bytes),
--   package strings on ASCII text (Text), decimal numbers (Decimal), package filepath (Path), maps as
--   association lists (Dict), results with errors and their `do` blocks (Fallible).
-- - Prefetch/Cache: `chunkCache` of pkg/prefetch/cache.go. The state is `ChunkCache`, with the map, the
--   interval tree and the window's lower bound; each method is one function. Children: the tree
--   (Tree), eviction (Evict, Recent), the invariant (Invariant).
-- - Prefetch/Reader: `prefetcher` of pkg/prefetch/prefetch.go, from `New` to `ReadAt`. What the
--   underlying reader, the timers and the semaphore answer is a `Flight` for each chunk; what other
--   goroutines do to the cache before each chunk is a list of `Background` steps. Children: the
--   configuration and the windows (Window), retries (Retry), chunks as slices of a content (Slice),
--   the soundness of the cache (Sound), the copy (Refinement), and `ReadAt` (Ends, ReadAt).
-- - Prefetch/Lifecycle: `beginOperation`, the end of operations and `Close`, as a step relation; the
--   first call of `Close` is told apart from later ones, which return at once.
-- - Build: pkg/build. Request has the parsers of single keys in buildopts.go, Options the whole request
--   and the frontend's attributes, Export the outputs and exports of build.go, Solve the options of a
--   solve, Platforms the order of utils/platform.go, Frontend the images that a Dockerfile names and their
--   resolution (frontend.go). The libraries that they call are the parameters `Externals`,
--   `SolveLibraries` and `Sources`.
-- - Content: the reader of one blob (pkg/content/readerat.go) and the filter and request of the store, and
--   in Info the description of a blob as metadata (info.go, update.go, delete.go). The
--   host is a parameter; the reader's attempts are what the prefetcher's flights answer.
-- - Stdio: the progress stream and the terminal commands of pkg/stdio.
-- - Stream: pkg/stream. Filters and `dispatch` are functions; a stage that several goroutines share is a
--   state with a step relation: every demultiplexer that was made, under a number that stands for its
--   pointer, the table from ids to pointers, which a registration overwrites, and how far `Run` is
--   with a packet. Children: what demultiplexers hold (Handlers), in which order they deliver (Order).
-- - Archive: the receiver of pkg/fileutils/tarxfer.go. Tree is what lies below one directory with the
--   calls of package os, Unpack is `unpackTar` (children: the parents of a path, what is written, the
--   reserved paths), Cache the digest, the check and the publication of a cached context, Transfer the
--   packets of an archive and `Receive`.
-- - Fssync: Walk is `syntheticDockerfileWalker` of pkg/fssync/walk.go, which merges the Dockerfile
--   inputs of a request into a walk, with its order (Merge, Order). Context is `FS.Walk` around it, with
--   the metadata, the exclude patterns and the walk of a cached context; `filepath.Walk` is a loop over
--   what it meets, with what `fs.SkipDir` and `fs.SkipAll` skip. Its children describe what is listed
--   apart from the code (Listed, Inputs) and follow the walk (Walked, Whole). Sender is the sender of
--   pkg/fssync/diffcopy.go: the table of files and the channel as a step relation, a file's packets as a
--   function.
-- - The Tests files run the definitions on small inputs.
--
-- The loops of the program are structural recursion on the number of rounds that the code computes
-- (`rounds`, the attempts of a read). Reading a blob to its end takes fuel, of which one more than
-- its bytes is proved to be enough, and so does the decimal text of a number, with one more than the
-- number, as its round trip shows. Machine integers of the prefetcher wrap at 64 bits; theorems that
-- need a range below the maximum say so. The channels of errors and headers of an archive's receiver
-- are buffered and selected between; the model takes what is sent to them in the order in which it
-- is sent.
--
-- Not modelled: the shutdown of a pipeline, the services that a request creates, the walk of the
-- content store, the reads of single remote files of the file sync, the exporter, the resolver, and
-- the solve of the frontend, which is BuildKit's; the gRPC server, the daemon's configuration and the
-- command line, which are I/O; generated and vendored code.
pub mod Archive
pub mod Build
pub mod Common
pub mod Content
pub mod Fssync
pub mod Prefetch
pub mod Stdio
pub mod Stream
