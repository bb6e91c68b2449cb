-- ===== src/Sdk/FileSink.antt =====
-- file-sink.ts: `FileSink`, over a file system that acts on a world of its own.
use qe_report.Prelude.{
  ℕ, ◌+◌, String, Bool, true, false, Option, none, some, List, [], ◌∷◌, ◌++◌, length, ltb, ◌==◌,
  if◌then◌else◌,
}
use qe_report.Prelude.Text.{codes}
use qe_report.Protocol.Model.{Event}
use qe_report.Sdk.SafeName.{session_file_name}
use qe_report.Sdk.Session.Model.{
  Bytes, ReportSink, StoreResult, stored, attachment_too_large, store_failure,
}

-- Node's file system, its answers and what they do to a world; `false` and `none` are exceptions.
pub record Files (W : Type 0) : Type 0 where
  pub join : String → String → String
  pub make_directory : String → W → Bool × W
  -- openSync with the flag `wx`, writeSync with the number of bytes written, fsyncSync and closeSync
  pub open_new : String → W → Option ℕ × W
  pub write : ℕ → Bytes → W → Option ℕ × W
  pub sync : ℕ → W → Bool × W
  pub close : ℕ → W → Bool × W
  pub rename : String → String → W → Bool × W
  pub unlink : String → W → Bool × W
  -- statSync(path).size
  pub size_of : String → W → Option ℕ
  -- a write stream with the flag `wx` that is given these chunks, and whether more follow
  pub write_stream : String → List Bytes → Bool → W → Bool × W
  -- `.tmp-` with the process id and eight random bytes
  pub temp_name : W → String × W

-- SHA-256 in hexadecimal, `stringifyEvent` with a line feed as UTF-8, and how a stream of bytes comes
pub record Codings : Type 0 where
  pub sha256 : Bytes → String
  pub line : Event → Bytes
  pub chunks : Bytes → List Bytes
  -- the text of code points, and the SHA-256 of a text in hexadecimal, both over code points
  pub text : List ℕ → String
  pub text_sha256 : List ℕ → List ℕ

abbrev pub default_max_attachment_bytes : ℕ
default_max_attachment_bytes = 67108864

-- `options.maxAttachmentBytes ?? DEFAULT_MAX_ATTACHMENT_BYTES`
abbrev pub limit_of : Option ℕ → ℕ
limit_of none = default_max_attachment_bytes
limit_of (some n) = n

-- The fields of a `FileSink` that do not change.
pub record Opened : Type 0 where
  pub event_file : String
  pub attachments_dir : String
  pub fd : ℕ
  pub max_attachment_bytes : ℕ

-- `closed`, and the world
pub record FileSink (W : Type 0) : Type 0 where
  pub closed : Bool
  pub world : W

-- The counter in the pipeline: the chunks that it lets through, and whether it has let all through.
abbrev pub counted : ℕ → ℕ → List Bytes → List Bytes × Bool
counted limit size [] = ([], true)
counted limit size (chunk ∷ r) =
    let next = counted limit (size + length chunk) r in
    if ltb limit (size + length chunk) then ([], false) else (chunk ∷ next.0, next.1)

-- `hash.update` on each chunk, and the sum of the sizes
abbrev pub joined : List Bytes → Bytes
joined [] = []
joined (chunk ∷ r) = chunk ++ joined r

abbrev pub total : ℕ → List Bytes → ℕ
total size [] = size
total size (chunk ∷ r) = total (size + length chunk) r

module _ {W : Type 0} (f : Files W) (c : Codings) where
  abbrev pub opened_at : String → String → ℕ → Option ℕ × W → Option Opened × W
  opened_at event_file attachments max (none, w) = (none, w)
  opened_at event_file attachments max (some fd, w) = (
    some (record {
      event_file = event_file;
      attachments_dir = attachments;
      fd = fd;
      max_attachment_bytes = max;
    }),
    w,
  )

  abbrev pub open_events : String → String → ℕ → Bool × W → Option Opened × W
  open_events event_file attachments max (false, w) = (none, w)
  open_events event_file attachments max (true, w) =
      opened_at event_file attachments max (f.open_new event_file w)

  abbrev pub make_attachments : String → String → ℕ → Bool × W → Option Opened × W
  make_attachments event_file attachments max (false, w) = (none, w)
  make_attachments event_file attachments max (true, w) =
      open_events event_file attachments max (f.make_directory attachments w)

  -- `open`; a natural number is never below 0.
  unfoldable pub open_sink : String → String → Option ℕ → W → Option Opened × W
  unfolding session_file_name
  open_sink run_directory session_id max w =
      let events = f.join run_directory "events" in
      let file = c.text (session_file_name c.text_sha256 (codes session_id)) in
      make_attachments (f.join events file) (f.join run_directory "attachments") (limit_of max)
        (f.make_directory events w)

  module _ (o : Opened) where
    abbrev pub in_world : {A : Type 0} → FileSink W → A × W → A × FileSink W
    in_world s (a, w) = (a, record s { world = w })

    abbrev pub synced : Option ℕ × W → Bool × W
    synced (none, w) = (false, w)
    synced (some n, w) = f.sync o.fd w

    abbrev pub write : Event → FileSink W → Bool × FileSink W
    write event s =
        if s.closed then (false, s) else in_world s (synced (f.write o.fd (c.line event) s.world))

    -- the `finally` closes the file whether `writeSync` has thrown or not
    abbrev pub closed_after : ℕ → Option ℕ × W → Bool × W
    closed_after fd (none, w) = (false, (f.close fd w).1)
    closed_after fd (some n, w) = f.close fd w

    abbrev pub write_opened : Bytes → Option ℕ × W → Bool × W
    write_opened bytes (none, w) = (false, w)
    write_opened bytes (some fd, w) = closed_after fd (f.write fd bytes w)

    abbrev pub write_file : String → Bytes → W → Bool × W
    write_file path bytes w = write_opened bytes (f.open_new path w)

    abbrev pub discard : String → W → W
    discard temp w = (f.unlink temp w).1

    abbrev pub matches : Option ℕ → ℕ → Bool
    matches none size = false
    matches (some actual) size = actual == size

    abbrev pub published : String → String → String → ℕ → Bool × W → StoreResult × W
    published temp target sha256 size (true, w) =
        (stored (record { sha256 = sha256; size_bytes = size }), w)
    published temp target sha256 size (false, w) =
        if matches (f.size_of target w) size
        then (stored (record { sha256 = sha256; size_bytes = size }), discard temp w)
        else (store_failure, discard temp w)

    -- `publish`, and the digest that the callers return when it does not throw
    abbrev pub publish : String → String → ℕ → W → StoreResult × W
    publish temp sha256 size w =
        let target = f.join o.attachments_dir sha256 in
        published temp target sha256 size (f.rename temp target w)

    abbrev pub after_write : String → Bytes → Bool × W → StoreResult × W
    after_write temp bytes (false, w) = (store_failure, discard temp w)
    after_write temp bytes (true, w) = publish temp (c.sha256 bytes) (length bytes) w

    abbrev pub create_temp : W → String × W
    create_temp w = let (name, v) = f.temp_name w in (f.join o.attachments_dir name, v)

    abbrev pub store_at : Bytes → String × W → StoreResult × W
    store_at bytes (temp, w) = after_write temp bytes (write_file temp bytes w)

    unfoldable pub store_attachment : Bytes → FileSink W → StoreResult × FileSink W
    store_attachment bytes s =
        if s.closed
        then (store_failure, s)
        else if ltb o.max_attachment_bytes (length bytes)
        then (attachment_too_large, s)
        else in_world s (store_at bytes (create_temp s.world))

    abbrev pub after_stream : String → List Bytes → Bool → Bool × W → StoreResult × W
    after_stream temp chunks complete (false, w) = (store_failure, discard temp w)
    after_stream temp chunks false (true, w) = (attachment_too_large, discard temp w)
    after_stream temp chunks true (true, w) =
        publish temp (c.sha256 (joined chunks)) (total 0 chunks) w

    abbrev pub stream_to : List Bytes × Bool → String × W → StoreResult × W
    stream_to (chunks, complete) (temp, w) =
        after_stream temp chunks complete (f.write_stream temp chunks complete w)

    unfoldable pub store_stream : Bytes → FileSink W → StoreResult × FileSink W
    store_stream bytes s =
        if s.closed
        then (store_failure, s)
        else in_world s
            (stream_to (counted o.max_attachment_bytes 0 (c.chunks bytes)) (create_temp s.world))

    abbrev pub close_file : FileSink W → Bool × FileSink W
    close_file s =
        if s.closed then (true, s) else in_world (record s { closed = true }) (f.close o.fd s.world)

    -- The sink that a session is given.
    abbrev pub file_sink : ReportSink (FileSink W)
    unfolding store_attachment store_stream
    file_sink = record {
      max_attachment_bytes = o.max_attachment_bytes;
      write = write;
      store_attachment = store_attachment;
      store_stream = store_stream;
      close = close_file;
    }
