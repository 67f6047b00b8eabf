-- ===== src/Lib.antt =====
-- A verification library for SplitBind, a service that issues a marked copy of a document to each
-- recipient and later tells which issuance a file comes from (services/api, Django) and the
-- reference implementation of its marks (research/python).
--
-- Which file models which part:
--
--   Base, Model         shared names; the database rows and the storage keys that components share
--                       (services/api/splitbind/*/models.py, integrations/storage/base.py)
--   Jobs                the job record and `transition_job` (services/api/splitbind/jobs)
--   Worker              the job queue: outbox rows and staging, claiming, retrying, and every
--                       interleaving of these with creations of jobs (splitbind/outbox,
--                       demo/worker.py, release/worker.py),
--                       the recovery of a stale output, and the upload, failure and cleanup of an
--                       output by its processor (demo/issuance.py)
--   Demo                the result rows of issuances and verifications: creation and every save
--                       (services/api/splitbind/demo/models.py)
--   JobServices         the creation of issuances and verifications around the promoted copy, as a
--                       step of the queue's interleavings, and cancellation
--                       (services/api/splitbind/jobs/services.py)
--   Uploads             upload requests: creation, completion, `UploadRequest.save` and
--                       `save_promotion` (services/api/splitbind/uploads)
--   Access              who may see which job (services/api/splitbind/access/selectors.py)
--   Audit               the rows of the audit trail and their redaction
--                       (services/api/splitbind/audit)
--   Retention           the deletion of the objects of uploads, its evidence, and the leased claims of
--                       the reconciliation (services/api/splitbind/retention)
--   Payload, Ecc        the payload and its error-correcting frame
--                       (research/python/src/splitbind_ref/payload.py, ecc.py)
--   Tiles               the placement of tiles on a page, versions 1 to 3
--                       (research/python/src/splitbind_ref/tile_layout.py, tile_layout_v2.py,
--                       tile_layout_v3.py)
--
-- How the code is read. A table is a list of rows. A transaction is a function from the tables to a
-- result: an exception is `err`, and then the tables are as before, as `transaction.atomic` has it.
-- UUIDs, digests and times are natural numbers, a time counts microseconds; the present time and
-- fresh identifiers are arguments. Rows that another transaction holds locked are an argument
-- (`locked`), since `skip_locked` passes over them. Object keys are data with the parts that the
-- regular expressions of the storage name.
--
-- What is a parameter: the JSON schema validator, urlparse of urllib, zlib's crc32, the Reed-Solomon
-- codec of reedsolo, HMAC-SHA256, and what the calls of the storage provider answer. The identifier
-- of a profile and the rounding of a page side by a crop scale are arguments, since both come from
-- floating-point numbers. What other transactions commit while an object is copied is an argument too.
--
-- Every loop is a recursion on a list, on a count that the code has (the depth of the interleaving),
-- on the rounds that halve the erasure budget (16 are given, 5 are used), on a number whose bits are
-- counted (it has at most as many bits as its value), on the bytes that are read (each round adds a
-- digest, so as many rounds as bytes are enough), on the end of a range (its step is positive), or on a
-- number of draws: the code draws until a candidate is accepted, and the model says when it stops.
--
-- What is not modelled: the rest of the processors' work, the choice and the order of the recoveries of a
-- worker, manifests, the web application, HTTP views and serializers, the S3 adapter, image processing
-- on floating-point arrays (NumPy, OpenCV), benchmarks and deployment scripts.
pub mod Access
pub mod Audit
pub mod Base
pub mod Demo
pub mod Ecc
pub mod JobServices
pub mod Jobs
pub mod Model
pub mod Payload
pub mod Retention
pub mod Tiles
pub mod Uploads
pub mod Worker
