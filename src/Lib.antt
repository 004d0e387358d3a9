-- ===== src/Lib.antt =====
-- The UBKI uploader: a service that sends lines of JSONL files to a credit bureau.
--
-- Parts, and the files that model them:
-- * Db (app/db.py): the SQLite tables as a record of lists, each helper as a function on it. A write
--   that SQLite refuses (IntegrityError) is none; `left_by_insert` is what `insert_file` leaves in the
--   open transaction then. Db/Schema has the rows, Db/Files, Db/Records and Db/Meta the helpers,
--   Db/Validity the invariant of the tables, Db/Reach the sequences of writes.
-- * RateLimit (app/ratelimit.py): `reserve` is the part of `acquire` under the lock. Floats are whole
--   numbers of a small tick, and their rounding arithmetic is an argument.
-- * Python (json, str, date): what the source uses of the values of `json.loads`, of `str.strip`, and
--   of `datetime.date`, with a proleptic Gregorian calendar of the years 1 to 9999.
-- * Client (app/ubki_client.py): Client/Envelope makes the request, Client/Body and Client/Interpret
--   read the response, Client/Session has `auth`, `_ensure_session`, `reauth` and `upload_record`.
--   The answer of the network to a request, with its parsed JSON, is an argument.
-- * Config (app/config.py): the settings that the modelled code reads, and in Config/Load
--   `load_config`, over the environment as a list of variables.
-- * Uploader (app/uploader.py): Uploader/SessionCache keeps the sessid in the table `meta`,
--   Uploader/Summary has the counters, Uploader/Wave has `run_wave` with `commit` and `send_one`,
--   Uploader/Send the rest of `send_records`, with the ValueError of settings that it refuses; Uploader/Folder scans and ingests the inbox, given as
--   the list of its entries, Uploader/Archive moves completed files, Uploader/Alert writes the
--   message, and Uploader/Pass is `_run_locked` and `run_pass`, with what they read from outside in
--   a record.
-- * Api (app/api.py): the handlers, over the database; Api/Retry and Api/Health have their theorems.
-- * Backfill (backfill_deallife.py): the chain of monthly slices of a deal, and its check. The loop
--   over the months has the number of months as fuel. Backfill/Months has the calendar's part of the
--   proof for the chain, Backfill/Deal is `expand_deal` and `expand_subject`.
-- * Enricher (app/enricher.py): Enricher/Cabinet has the rows of the cabinet, Enricher/Values the
--   phones, tax ids and document numbers, Enricher/Document `build_doc`, the peers and the address,
--   Enricher/Line `enrich_line`, with the texts of the reasons and the JSON of the subject in its
--   children; Enricher/Intake reads and unwraps the lines of a raw file, Enricher/Shelf writes into a
--   folder, Enricher/Summary has the counters and the alert, Enricher/Process is `process_file` and
--   Enricher/Run is `run_enrich`. The fetchers and `json` are arguments, an exception is a result that
--   carries the state it leaves.
-- * DeletePeriod (delete_period.py): the envelope, the check of the arguments, and the loop of `main`;
--   DeletePeriod/Reading has what it reads of packages and responses.
-- * Tests (no code): sample databases, responses and passes, and the theorems at these samples.
--
-- The threads of the executor share no state but the rate limiter, so a wave is modelled by the order
-- in which its requests are done: a list of events, each with the request that is done, the answer
-- and the time. A wave, and so `send_records`, is none where the events end before the requests do;
-- as many events as records are enough, which is a theorem.
--
-- The functions of Python that the code calls and that are not modelled (`repr`, `upper`, `lower`,
-- `int` of a text, the classes of digits) are the fields of `Builtins`, and `uuid4` and the time are
-- arguments.
--
-- Not modelled: a number in a response that is infinite, of which `int` raises OverflowError; infinite
-- floats and nan as the rate of requests; the counters of the backfill; HTTP, SQL, MySQL, threads and
-- the file system themselves, the log's fields, the command lines, and the alerts to Telegram.
pub mod Prelude
pub mod Db
pub mod RateLimit
pub mod Python
pub mod Client
pub mod Config
pub mod Uploader
pub mod Api
pub mod Backfill
pub mod Enricher
pub mod DeletePeriod
pub mod Tests
