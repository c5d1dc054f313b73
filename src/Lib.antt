-- ===== src/Lib.antt =====
-- Verm, a write-once file store over HTTP.
--
-- A client sends a file to a directory, by POST. The server stores it under the SHA-256 hash of its
-- contents, links it into place without overwriting anything, and queues it for its replication
-- targets, which receive it by PUT at the same location. GET and HEAD serve the files, whole or in
-- ranges. Servers exchange lists of locations to find what is missing.
--
-- The development models the following parts. States are passed explicitly, errors are results, and
-- the strings and files of the program are lists of bytes.
--
-- - Prelude: tests, lists, text, decimal numerals, and Go's `int64` with its wrap-around, in
--   Prelude.Int.
-- - Errors, Storage, Stream, Host, UrlPath: the `error` values; the files, a map from full paths to
--   nodes; `io.Reader` with content_encoding.go and the comparison of streams of file_uploader.go; the
--   system calls and libraries that the program relies on; `path.Clean` and `filepath.Ext`.
-- - Upload: file_uploader.go. `FileUploader` is Upload.Opening.file_uploader, `Finish` is
--   Upload.Finish.finish, `encodeHash` is Upload.HashName.encode_hash, and `UploadFile` is
--   Upload.upload_file. The other children are proofs.
-- - Ranges, Http, ServeContent: file_server.go. `parseRange` is Ranges.parse_range, `serveContent` is
--   ServeContent.serve_content, and the conditional requests are in ServeContent.Conditional.
-- - Replication: replication_backoff.go (Backoff), scan_whole_lines.go (Lines), replication_missing.go
--   and `queueMissingFiles` (Missing), the queues of replication_target.go as a step relation (Queue),
--   replication_jobs.go and `replicateFile` (Push), replication_targets.go (Targets). Of
--   replication_resync.go, `enumerateSubdirectory` is in Resync, `sendFileLists` in Batches, and
--   `sendFileListUntilSuccessful` with the resync that they make up in Sending.
-- - Seeker: the seeker of gzip_server.go, over an interface for the decoder, Seeker.Source, whose laws
--   are Seeker.Refines.IsSource.
-- - Connections: connection_tracker.go, the goroutine as a relation over the events that it receives.
-- - Server: the handlers for POST and PUT of server.go, and in Server.Files those for GET and HEAD of
--   files, with `unpackAndServeContent` of gzip_server.go and the reads that are forwarded.
--   They call `upload_file`, `serve_missing` and `serve_content`. `ServeHTTP` is
--   Server.Dispatch.serve_http; its children ReadBack and Unpacked are about a POST and a later GET, and
--   Delivered is about pushes from one server to another. The counters and the page of
--   log_statistics.go are in Server and Server.Statistics.
-- - Forwarding: replica_forwarding.go, the choice of the reads (Choice), the request to each replica
--   (Request) and the race of their responses (Winner).
-- - Mime: mimeext/type.go, the tables and `LoadMimeFile`. Health: health_check_server.go.
-- - Logger: response_logger.go, over the calls that a handler makes of its writer.
-- - Program: verm.go and http_server.go, the signals (Signals), the end of the process as a step
--   relation of its goroutines (Exit), and the flags from the environment (Flags).
--
-- Bounds. `int64` is kept in range by the low 64 bits; the counter of unfinished jobs is a number below
-- 2^64, and its changes wrap. The loop of `Finish`, and so `UploadFile`, runs on fuel, a bound on the
-- attempts; the number of files and four is enough when no other process adds files, since each attempt
-- but the last meets a file of its own. `sameContents` has the fuel that its streams need. The loop of
-- a scanner has one round for each byte, since a line takes at least one. `sendFileLists` takes at
-- least one location in each round, so the number of locations and one is enough. The seeker reads at
-- least one byte in each round, so its fuel is the number of decoded bytes and one. `replicateFile` and
-- `sendFileListUntilSuccessful` run until the target accepts, so their fuel is a bound on the attempts.
--
-- Parameters. `Host` holds the outcomes of system calls, the changes that other processes make, gzip,
-- SHA-256 and the parsing of media types; `IsHost` says what is relied on, and Upload.Samples.host is
-- an instance. `rand.Int63n`, the boundaries of multipart messages, the text of errors, the limit of a
-- scanner, the timer of a batch and its buffer, the decoder of the seeker, the HTTP clients, the order
-- in which responses arrive, which URLs `http.NewRequest` takes and how they are split, the environment
-- and the setting of a flag, and the format of the time are parameters of the definitions that use
-- them.
--
-- Not modelled: the set-up of HTTP clients, transports and servers; the listener with keep-alive of
-- http_server.go; the definitions and the parsing of flags in `main`, and its profile; the format of
-- the time in the log. They are calls of Go's library, without decisions of their own.
mod Prelude
pub mod Errors
pub mod Storage
pub mod Stream
pub mod Host
pub mod UrlPath
pub mod Upload
pub mod Ranges
pub mod Http
pub mod ServeContent
pub mod Replication
pub mod Connections
pub mod Server
pub mod Mime
pub mod Forwarding
pub mod Health
pub mod Seeker
pub mod Logger
pub mod Program
