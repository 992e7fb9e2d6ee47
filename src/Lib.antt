-- ===== src/Lib.antt =====
-- Verification of Catchment: items come in from connectors, a pipeline gives each its text and its
-- tags, and a human reviews what the taxonomy proposes.
--
-- The parts, and the files that model them:
--   Prelude            tests, lists, keyed tables, sorting, least values, JSON values, doubles,
--                      integers, str.strip, str.split
--   Storage            catchment/storage/models.py and repositories.py
--     Enums, Models    the closed sets of words, the rows, and the store that holds every table
--     Session          catchment/storage/db.py: actions, exceptions, rollback
--     Tags             TagRepository: get_or_create, add_edge, link_broader, ancestors, descendants,
--                      assign, labels_for_items, existing_slugs
--     Merge            TagRepository.merge_into with _move_assignments and _repoint_edges
--     Proposals        TaxonomyProposalRepository, the review queue
--     Items, Failures, Health   ItemRepository, PipelineFailureRepository, ConnectorHealthRepository
--     TagGraph         catchment/storage/tag_graph.py: what the explorer draws
--     Blobs            catchment/storage/blobs.py: keys, refs, and files under one root
--   Taxonomy           catchment/taxonomy/apply.py: executing approved proposals
--   Classification     catchment/classification: Slug (slug.py), Types (types.py), Prompt (prompt.py,
--                      the parser), Service (service.py, the decision path)
--   Ingestion          catchment/ingestion/base.py, with Media (media.py), Whatsapp (whatsapp.py: the
--                      parser; Webhook: the two routes), Substack (substack.py: reading an entry;
--                      Records: records and the poll), Mail (email_imap.py: the header
--                      parsers; Poll: the connector), Values (how Python tests and walks JSON)
--   Extraction         catchment/extraction/article.py
--   Redaction          catchment/redaction.py
--   Retrieval          catchment/retrieval/graphrag.py
--   Jobs               Stages and Pipeline: catchment/jobs/pipeline.py, with
--                      catchment/classification/placeholder.py and
--                      catchment/extraction/passthrough.py; Polling: catchment/jobs/polling.py
--   Interfaces         catchment/internal_auth.py, and the review route of catchment/internal_api.py
--
-- How they interact: poll_source fetches a batch, ingest_records writes its items, and a job is
-- queued for each new one; receive_webhook does the same for a signed delivery; process_item runs
-- the pipeline on one of them in one transaction: it fetches media, reads an article or takes the
-- text of the source, stores the extraction, and classifies; classify_item embeds, asks the
-- classifier with the labels of near items, caps the new tags and applies the rest to the tag
-- graph; a proposal is queued, decided by a reviewer, and applied by merging tags; search takes the
-- items near a query and those that share tags with them or with tags above or below. fetch_media
-- of Ingestion/Media and extract_article of Extraction are what the parameters of Jobs/Stages stand
-- for. Each Python method is a function of the same name, over the one store; a constructor of a
-- repository has no counterpart, and the depth that TagRepository is built with is the argument
-- own.
--
-- State and errors. An action takes the store and gives a result and the store. A raise keeps what
-- was written before it, as an open transaction does; nested rolls back, as session_scope and a
-- savepoint do. Where a statement violates a constraint, the action raises integrity_error. The
-- primary keys of new rows come from the store as a sequence of values, one for each call of
-- uuid.uuid4.
--
-- Numbers. Identifiers and times are natural numbers. A float is a whole number of units of 2 ^
-- -1074, so the comparisons that the code makes on confidences are exact; the operations that a
-- score of retrieval uses are a record with the laws of rounding to nearest.
--
-- Bounds and fuel. The recursive walks take as many rounds as the depth asked for, from 1 to 32;
-- each round follows one edge, so they need no further fuel. Every other loop is by recursion on
-- its list.
--
-- Files. A disk is a table from resolved paths to contents; a write, which ends in the rename of a
-- temporary file, either replaces one entry or leaves the disk as it was.
--
-- Parameters. Unicode normalisation, str.lower, repr, json.loads, HMAC and hashes, the clock, the
-- XML and date parsers, urlparse, trafilatura, the HTTP client, the IMAP server and the decoders of
-- headers, the file system, the embedder, the classifier, the distance of vectors, the collation of
-- the database, the names of exception classes, what a connector fetches, whether the queue takes a
-- job, and the text form of a UUID are arguments.
--
-- Limits of columns. A source_id of more than 512 characters and a reviewer of more than 128 are
-- refused with data_error, as an embedding of another dimension is with integrity_error; Postgres
-- lets a text through whose excess is spaces, cut, which the model refuses. The limits of the other
-- text columns, which take slugs that are bounded already, or names from the configuration, the
-- program or a service that it calls, are left out, and so is the refusal of NUL characters.
--
-- Not modelled: the insights queries, the read-only pages of the internal interface, the LLM router
-- and its providers, log set-up, migrations, the lint tool and the dashboard: either input and
-- output, or left for later. Log calls are left out everywhere.
pub mod Prelude
pub mod Storage
pub mod Taxonomy
pub mod Classification
pub mod Extraction
pub mod Ingestion
pub mod Redaction
pub mod Retrieval
pub mod Jobs
pub mod Interfaces
