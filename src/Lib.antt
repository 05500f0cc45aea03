-- ===== src/Lib.antt =====
-- A photo distribution platform for schools: photos of an event are matched to the enrolled students,
-- staff correct the matches, and each student sees and downloads the photos of their own.
--
-- Two services share one database. The ML service (services/ml_service/src/ml_service) takes event
-- jobs from a queue, runs detector, embedder and vector index over each photo of the event, decides
-- which students appear, and writes `matches`, the detection audit and the statuses. The backend
-- (services/backend/src/backend) only reads `matches`; it lays the staff's and students' corrections
-- over them, and answers galleries, downloads and the review lane from the two together.
--
-- Files and code:
--   Decision         domain/decision.py of the ML service: apply_threshold_and_gap
--   Identify         orchestration/identify.py: identify_in_frames and its results
--   Failure, Media   domain/errors.py and domain/models.py of the ML service
--   Matches          adapters/repository/postgres_matches.py: save_batch and the rest
--   EventStore       adapters/repository/backend_store.py: the status columns
--   Inference        orchestration/inference.py: process, and save_detections of
--                    adapters/repository/postgres_detections.py; Inference/Event: process_event
--   Worker           workers/runner.py and adapters/queue/inproc_queue.py
--   Backend          domain/models.py and domain/errors.py of the backend, and the reads by id
--   Corrections      adapters/repositories/postgres_match_corrections.py and ml_results.py
--   Gallery          services/gallery_service.py: the overlay helpers, views, gate and audit
--   Review           services/review_service.py: the verdicts and the review lane
--   VectorIndex      adapters/vector_index/faiss_per_school.py of the ML service
--   IndexCache       adapters/vector_index/_faiss_cache.py
--   Enrollment       orchestration/enrollment.py, with the purge of postgres_detections.py and
--                    adapters/repository/postgres_reference_photos.py
--   RateLimit        adapters/rate_limit/memory.py of the backend
--   EventService     services/event_service.py: the "Process" button and the archive, with the writes
--                    of adapters/repositories/postgres_events.py
--   Variant          services/whatsapp_image.py
--   SendLog          adapters/repositories/postgres_whatsapp_send_log.py
--   Share, Fanout    services/whatsapp_share_service.py: one student's photos, and an event's
--   Users            adapters/repositories/postgres_users.py
--   Auth             services/auth_service.py, adapters/security/jwt_tokens.py and get_current_user of
--                    api/deps.py
--   Onboarding       services/onboarding_service.py
--   Classes          services/class_service.py and, in Classes/Delegation, delegation_service.py, with
--                    the tables of classes, of their teachers and of their students
--   Prelude          shared helpers: integers, lists, dictionaries, sorting, best-of-key folds
--   Tests            the theorems at concrete inputs
-- The child modules of each file hold its theorems, named for what they prove.
--
-- How the code is modelled. A table is the list of its rows and a Python dictionary an association
-- list in insertion order. Ids, paths and model versions are only compared, so they are numbers.
-- Scores, floats in the code, are integers of one fixed unit, so comparisons are the program's and
-- a difference is exact. An exception is a failure value; the code's await points are its order of
-- steps, and one run is not interleaved with another, but for the press of "Process", where
-- anything may happen between its two writes. A load of an index reads its three files as one. A
-- statement of the database succeeds and is atomic; the order of a SELECT is the table's. Model
-- runtimes, the FAISS library, object storage, video decoding, the clock and the signing of URLs
-- are parameters, records of functions that may fail. A loop is structural recursion on the list
-- that the code iterates over, without fuel; the one `while` loop, over the qualities of an image,
-- has its first quality as fuel, which is more than the steps of ten that it can take. The
-- functions are total, and a run that the code could leave by an exception ends in a failure value.
--
-- Not modelled: the HTTP interface, wiring, migrations, metrics, the web frontend, the model
-- adapters and the object stores (glue or calls of libraries); the Redis queue, limiter and locks,
-- the services of students, uploads and notifications, and the listings of the backend and the
-- assignment by pasted email, which are not in this library yet; the exceptions that a database
-- raises and the isolation of its transactions.
pub mod Prelude
pub mod Failure
pub mod Decision
pub mod Identify
pub mod Media
pub mod Matches
pub mod EventStore
pub mod Inference
pub mod IndexCache
pub mod VectorIndex
pub mod Worker
pub mod Backend
pub mod Corrections
pub mod Gallery
pub mod Review
pub mod Enrollment
pub mod RateLimit
pub mod EventService
pub mod Variant
pub mod SendLog
pub mod Share
pub mod Fanout
pub mod Users
pub mod Auth
pub mod Onboarding
pub mod Classes
pub mod Tests
