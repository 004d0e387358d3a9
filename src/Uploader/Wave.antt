-- ===== src/Uploader/Wave.antt =====
-- `commit`, `send_one` and `run_wave` of `send_records` in app/uploader.py.
-- Requests are answered in any order: an `Event` says which of the requests in flight is done next,
-- what the network answered to it, and the time. A wave runs over a list of events; how many are
-- enough is a theorem.
pub mod Ends
pub mod Once
pub mod Keeps
pub mod Outcome
use Prim.Native.String.{len, ◌++◌ as ◌<>◌}
use ubki_uploader.Prelude.{
  ℕ, zero, suc, ◌+◌, String, Bool, true, false, ◌||◌, ◌&&◌, not, Option, none, some, List, [], ◌∷◌,
  ◌++◌, any, take, drop, ◌==◌, ltb, leb, is_blank, join, if◌then◌else◌,
}
use ubki_uploader.Config.{Config}
use ubki_uploader.Db.Schema.{Status, pending, partial, sent, failed, rejected, RecordRow, Db}
use ubki_uploader.Db.Records.{update_record_result}
use ubki_uploader.Python.Json.{Builtins, show}
use ubki_uploader.Client.Envelope.{build_envelope}
use ubki_uploader.Client.UploadResult.{Reply, UploadResult, upload_result}
use ubki_uploader.Client.Interpret.{send_prepared}
use ubki_uploader.Uploader.Summary.{RunSummary}
use ubki_uploader.Uploader.Folder.{Exception}

pub record Event : Type 0 where
  pub pick : ℕ
  pub reply : Reply
  pub now : String

-- One "record processed" line of the log.
pub record Processed : Type 0 where
  pub item : RecordRow
  pub result : UploadResult

-- What `send_records` changes: `touched` is a set of file ids, `raised` the ValueError that leaves
-- the call.
pub record Sending : Type 0 where
  pub db : Db
  pub summary : RunSummary
  pub touched : List ℕ
  pub streak : ℕ
  pub log : List Processed
  pub raised : Option Exception

abbrev pub add_id : ℕ → List ℕ → List ℕ
add_id i ids = if any (λ j. j == i) ids then ids else i ∷ ids

-- `",".join(result.warn_codes) or None`
abbrev joined_codes : List String → Option String
joined_codes codes = let text = join "," codes in if is_blank text then none else some text

abbrev one_if : Bool → ℕ
one_if b = if b then 1 else 0

-- The counters of the summary. A status other than SENT and REJECTED counts as failed.
unfoldable pub tally : UploadResult → RunSummary → RunSummary
tally result summary = elim result.status [
  | sent ↦ record summary {
    records_sent = summary.records_sent + 1;
    records_warnings = summary.records_warnings + one_if result.has_warnings;
    records_components_dropped =
        summary.records_components_dropped + one_if result.components_dropped;
  }
  | rejected ↦ record summary { records_rejected = summary.records_rejected + 1 }
  | failed ↦ record summary { records_failed = summary.records_failed + 1 }
  | pending ↦ record summary { records_failed = summary.records_failed + 1 }
  | partial ↦ record summary { records_failed = summary.records_failed + 1 }
]

unfoldable pub commit :
    (now : String) → RecordRow → UploadResult → (count_summary : Bool) → Sending → Sending
unfolding tally
commit now item result count_summary s = record s {
  db =
      update_record_result now s.db item.id result.status result.error result.response_text
        (joined_codes result.warn_codes) (not result.is_network_error);
  summary = if count_summary then tally result s.summary else s.summary;
  touched = add_id item.file_id s.touched;
  log = s.log ++ record { item = item; result = result } ∷ [];
}

-- `reply` is what the network answers if the request is made.
unfoldable pub send_one : Builtins → Config → RecordRow → Reply → UploadResult
send_one py config item reply =
    if ltb config.max_line_bytes (len (build_envelope item.raw_line item.uuid))
    then record (upload_result rejected (
        some ("request envelope exceeds " <> (show config.max_line_bytes <> " bytes, not sent")))) {
          is_local_reject = true;
        }
    else send_prepared py reply

-- The streak of network-like errors after one more result.
unfoldable pub next_streak : UploadResult → ℕ → ℕ
next_streak result streak =
    if result.is_network_error then suc streak else if result.is_local_reject then streak else 0

pub record Wave : Type 0 where
  pub waiting : List RecordRow
  pub in_flight : List RecordRow
  pub expired : List RecordRow
  pub aborted : Bool
  pub sending : Sending

-- `in_flight.pop(fut)`: the request that is done, and the others.
unfoldable pub pop : ℕ → RecordRow → List RecordRow → RecordRow × List RecordRow
pop zero x xs = (x, xs)
pop (suc n) x [] = (x, [])
pop (suc n) x (y ∷ ys) = let (done, rest) = pop n y ys in (done, x ∷ rest)

-- `next(pending, None)` and the submission of it.
unfoldable pub refill : Wave → Wave
refill w = elim w.waiting [
  | [] ↦ w
  | next ∷ rest ↦ record w { waiting = rest; in_flight = w.in_flight ++ next ∷ [] }
]

-- The body of `for fut in done` before the window is refilled, for a request `item` that is done,
-- where `rest` are in flight.
unfoldable pub answer :
    Builtins → Config → (final : Bool) → Event → RecordRow → List RecordRow → Wave → Wave
answer py config final e item rest w =
    let result = send_one py config item e.reply in
    let resend = result.session_expired && not final in
    let streak = next_streak result w.sending.streak in
    record {
      waiting = w.waiting;
      in_flight = rest;
      expired = if resend then w.expired ++ item ∷ [] else w.expired;
      aborted = w.aborted || result.is_network_error && leb config.network_abort_threshold streak;
      sending = record (commit e.now item result (not resend) w.sending) { streak = streak };
    }

-- The whole body: no new request is made once the wave is aborted.
unfoldable pub handle :
    Builtins → Config → (final : Bool) → Event → RecordRow → List RecordRow → Wave → Wave
handle py config final e item rest w =
    let after = answer py config final e item rest w in
    if after.aborted then after else refill after

-- `while in_flight`, with none where the events end before the requests do.
unfoldable pub drain : Builtins → Config → (final : Bool) → List Event → Wave → Option Wave
drain py config final [] w = elim w.in_flight [ [] ↦ some w | x ∷ xs ↦ none ]
drain py config final (e ∷ events) w = elim w.in_flight [
  | [] ↦ some w
  | x ∷ xs ↦
      let (item, rest) = pop e.pick x xs in
      drain py config final events (handle py config final e item rest w)
]

abbrev pub start_wave : Config → List RecordRow → Sending → Wave
start_wave config wave sending = record {
  waiting = drop config.ubki_concurrency wave;
  in_flight = take config.ubki_concurrency wave;
  expired = [];
  aborted = false;
  sending = sending;
}

-- `send_records` comes here with a window of at least one: ThreadPoolExecutor refuses any other, which
-- is the second test of `refusal` in Uploader/Send.
unfoldable pub run_wave :
    Builtins → Config → (final : Bool) → List Event → List RecordRow → Sending → Option Wave
run_wave py config final events wave sending =
    drain py config final events (start_wave config wave sending)
