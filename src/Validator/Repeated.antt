-- ===== src/Validator/Repeated.antt =====
-- validator.ts: an event that is repeated word for word.
use qe_report.Prelude.{
  ◌+◌, String, Bool, true, false, some, ◌≡◌, refl, ◌||◌, subst, sym, if◌then◌else◌, Bool-cases, inl,
  inr,
}
use qe_report.Prelude.Keys.{text_keys, ===_refl}
use qe_report.Prelude.Assoc.{get}
use qe_report.Protocol.Json.{Json}
use qe_report.Protocol.Model.{Event}
use qe_report.Validator.Canonical.{canonical}
use qe_report.Validator.Model.{RunValidator, is_valid, push, duplicate, duplicate_event}
use qe_report.Validator.Decode.{Decoding, decoded, decode, is_blank}
use qe_report.Validator.Feed.{
  Call, Feed, skip, notice, archive, count_duplicate, repeated, check_seen, accept, take, feed_line,
  after_line,
}
use qe_report.Validator.Validity.{is_valid-push}

-- what a repetition may change
abbrev pub with_record : RunValidator → RunValidator → RunValidator
with_record v w = record v {
  diagnostics = w.diagnostics;
  source = w.source;
  duplicates = v.duplicates + 1;
}

pub record Inert (v w : RunValidator) : Type 0 where
  pub rest : w ≡ with_record v w
  pub valid : is_valid w ≡ is_valid v

check_seen-known :
    (c : Call) (raw key : String) (event : Event) (s : Feed) {previous : String}
    → get event.event_id s.run.seen ≡ some previous
    → check_seen c raw key event s ≡ skip (repeated c raw key event previous s)
unfolding check_seen
check_seen-known c raw key event s e = simp (e, check_seen)

accept-known :
    (c : Call) (raw : String) (json : Json) (event : Event) (s : Feed) {previous : String}
    → get event.event_id s.run.seen ≡ some previous
    → after_line (accept c raw json event s)
      ≡ repeated c raw (canonical c.externals json) event previous s
unfolding accept
accept-known c raw json event s e =
    rw (check_seen-known c raw (canonical c.externals json) event s e) refl

archived-Inert :
    (c : Call) (raw key : String) (event : Event) (s : Feed)
    → Inert s.run (
        push
          (notice c s duplicate_event event)
          (archive c raw key event duplicate (count_duplicate s)).run)
unfolding archive is_valid
archived-Inert c raw key event s = elim (Bool-cases s.run.options.retain_source_lines) [
  | inl on ↦ rw (on, archive) (record { rest = refl; valid = is_valid-push _ s.run })
  | inr off ↦ rw (off, archive) (record { rest = refl; valid = is_valid-push _ s.run })
]

repeated-Inert :
    (c : Call) (raw key : String) (event : Event) (s : Feed)
    → Inert s.run (repeated c raw key event key s).run
unfolding repeated
repeated-Inert c raw key event s = rw (===_refl, repeated) (archived-Inert c raw key event s)

repeated_line :
    (c : Call) (raw : String) (json : Json) (event : Event) (b : Bool) (d : Decoding) (s : Feed)
    → b ≡ false
    → d ≡ decoded json event
    → get event.event_id s.run.seen ≡ some (canonical c.externals json)
    → Inert s.run (if b then s else take c raw d s).run
repeated_line c raw json event true d s reads e known = cc (reads)
repeated_line c raw json event false d s reads e known =
    subst (λ d. Inert s.run (take c raw d s).run) (sym e)
      (subst (λ (t : Feed). Inert s.run t.run) (sym (accept-known c raw json event s known))
        (repeated-Inert c raw (canonical c.externals json) event s))

-- If a line that is read holds an event whose id was seen with the same canonical text, then the line
-- changes nothing of the run but its diagnostics, its source lines and the count of duplicates, and the
-- run is valid after it exactly if it was before.
pub feed_line-Inert :
    (c : Call) (raw : String) (s : Feed) {json : Json} {event : Event}
    → (s.abandoned || is_blank raw) ≡ false
    → decode c.externals s.run.options raw ≡ decoded json event
    → get event.event_id s.run.seen ≡ some (canonical c.externals json)
    → Inert s.run (feed_line c raw s).run
unfolding feed_line
feed_line-Inert c raw s {json = json} {event = event} reads e known =
    repeated_line c raw json event (s.abandoned || is_blank raw)
      (decode c.externals s.run.options raw) (record s { line = s.line + 1 }) reads e known
