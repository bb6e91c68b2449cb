-- ===== src/Protocol/Codec/FailuresBack.antt =====
-- codec.ts: components, places, failures and paths, written and read.
use qe_report.Prelude.{Option, none, some, List, [], ◌∷◌, ◌≡◌, refl, All, ◌∙◌}
use qe_report.Protocol.Errors.{Pointer, ◌▹◌, ok}
use qe_report.Protocol.Json.{text, Obj, member}
use qe_report.Protocol.Model.{
  Component, Executor, Source, Location, Failure, PathSegment, phase_name,
}
use qe_report.Protocol.Codec.Fields.{as_object, optional_object}
use qe_report.Protocol.Codec.Parts.{
  component, executor, source, location, failure, failures, path_segment, path_segments,
}
use qe_report.Protocol.Codec.Write.{
  write, whole, write_list, write_location, write_failure, write_failures, write_segment,
}
use qe_report.Protocol.Codec.Built.{
  Fields, build, member-build, required_string-member, optional_string-member,
  optional_integral-member, IsSafe, optional_object-member,
}
use qe_report.Protocol.Codec.Lists.{tidy, as_array-write, one_of-phase, name_of, write-name}

abbrev pub component_fields : Component → Fields
component_fields c = ("name", some (text c.name)) ∷ ("version", write text c.version) ∷ []

pub component-write :
    (c : Component) (p : Pointer) → component (build (component_fields c)) p ≡ ok c
unfolding component
component-write c p =
    let l : Fields = component_fields c in
    rw (
      required_string-member (build l) "name" p c.name (member-build "name" l refl),
      optional_string-member (build l) "version" p c.version (member-build "version" l refl),
    )

abbrev pub executor_fields : Executor → Fields
executor_fields e =
    ("name", write text e.name)
    ∷ ("buildId", write text e.build_id)
    ∷ ("buildUrl", write text e.build_url)
    ∷ []

pub executor-write : (e : Executor) (p : Pointer) → executor (build (executor_fields e)) p ≡ ok e
unfolding executor
executor-write e p =
    let l : Fields = executor_fields e in
    rw (
      optional_string-member (build l) "name" p e.name (member-build "name" l refl),
      optional_string-member (build l) "buildId" p e.build_id (member-build "buildId" l refl),
      optional_string-member (build l) "buildUrl" p e.build_url (member-build "buildUrl" l refl),
    )

abbrev pub source_fields : Source → Fields
source_fields s =
    ("repository", write text s.repository)
    ∷ ("revision", write text s.revision)
    ∷ ("branch", write text s.branch)
    ∷ []

pub source-write : (s : Source) (p : Pointer) → source (build (source_fields s)) p ≡ ok s
unfolding source
source-write s p =
    let l : Fields = source_fields s in
    rw (
      optional_string-member (build l) "repository" p s.repository
          (member-build "repository" l refl),
      optional_string-member (build l) "revision" p s.revision (member-build "revision" l refl),
      optional_string-member (build l) "branch" p s.branch (member-build "branch" l refl),
    )

-- Both numbers of a place are safe integers.
abbrev pub SafeLocation : Location → Type 0
SafeLocation l = IsSafe l.line × IsSafe l.column

abbrev pub location_fields : Location → Fields
location_fields l =
    ("file", some (text l.file))
    ∷ ("line", write whole l.line)
    ∷ ("column", write whole l.column)
    ∷ []

pub location-write :
    (a : Location) (p : Pointer) → SafeLocation a → location (build (location_fields a)) p ≡ ok a
unfolding location
location-write a p h =
    let l : Fields = location_fields a in
    rw (
      required_string-member (build l) "file" p a.file (member-build "file" l refl),
      optional_integral-member (build l) "line" p a.line h.0 (member-build "line" l refl),
      optional_integral-member (build l) "column" p a.column h.1 (member-build "column" l refl),
    )

-- The place of a value is safe where there is one.
abbrev pub SafePlace : Option Location → Type 0
SafePlace none = Unit
SafePlace (some l) = SafeLocation l

pub place-write :
    (o : Obj) (at : Pointer) (v : Option Location)
    → SafePlace v
    → member "location" o ≡ write write_location v
    → optional_object o "location" at location ≡ ok v
unfolding write_location
place-write o at none h e =
    optional_object-member o "location" at location (λ a. build (location_fields a)) none tt e
place-write o at (some l) h e =
    optional_object-member o "location" at location (λ a. build (location_fields a)) (some l)
      (λ p. location-write l p h) e

abbrev pub failure_fields : Failure → Fields
failure_fields f =
    ("message", some (text f.message))
    ∷ ("type", write text f.type)
    ∷ ("stackTrace", write text f.stack_trace)
    ∷ ("phase", write (λ p. text (phase_name p)) f.phase)
    ∷ ("location", write write_location f.location)
    ∷ []

pub failure-write :
    (f : Failure) (p : Pointer) → SafePlace f.location → failure (build (failure_fields f)) p ≡ ok f
unfolding failure
failure-write f p h =
    let l : Fields = failure_fields f in
    rw (
      optional_string-member (build l) "phase" p (name_of phase_name f.phase)
          (member-build "phase" l refl ∙ write-name phase_name f.phase),
      required_string-member (build l) "message" p f.message (member-build "message" l refl),
      optional_string-member (build l) "type" p f.type (member-build "type" l refl),
      optional_string-member (build l) "stackTrace" p f.stack_trace
          (member-build "stackTrace" l refl),
      one_of-phase (p ▹ "phase") f.phase,
      place-write (build l) p f.location h (member-build "location" l refl),
    )

-- The failures have safe places.
abbrev pub SafeFailures : Option (List Failure) → Type 0
SafeFailures none = Unit
SafeFailures (some fs) = All (λ f. SafePlace f.location) fs

each_failure :
    (fs : List Failure)
    → All (λ f. SafePlace f.location) fs
    → All (λ f. (p : Pointer) → as_object p failure (write_failure f) ≡ ok f) fs
unfolding write_failure
each_failure [] h = tt
each_failure (f ∷ fs) h = (λ p. failure-write f p h.0, each_failure fs h.1)

pub failures-write :
    (o : Obj) (at : Pointer) (v : Option (List Failure))
    → SafeFailures v
    → member "failures" o ≡ write_failures v
    → failures o at ≡ ok (tidy v)
unfolding failures write_failures
failures-write o at none h e = rw e
failures-write o at (some []) h e = rw e
failures-write o at (some (f ∷ fs)) h e = rw (
  e,
  as_array-write (at ▹ "failures") (λ p v. as_object p failure v) write_failure (f ∷ fs)
      (each_failure (f ∷ fs) h),
)

abbrev pub segment_fields : PathSegment → Fields
segment_fields s = ("kind", some (text s.kind)) ∷ ("name", some (text s.name)) ∷ []

segment-write : (s : PathSegment) (p : Pointer) → path_segment (build (segment_fields s)) p ≡ ok s
unfolding path_segment
segment-write s p =
    let l : Fields = segment_fields s in
    rw (
      required_string-member (build l) "kind" p s.kind (member-build "kind" l refl),
      required_string-member (build l) "name" p s.name (member-build "name" l refl),
    )

each_segment :
    (l : List PathSegment)
    → All (λ s. (p : Pointer) → as_object p path_segment (write_segment s) ≡ ok s) l
each_segment [] = tt
each_segment (s ∷ l) = (λ p. segment-write s p, each_segment l)

pub path-write :
    (l : List PathSegment) (p : Pointer) → path_segments (write_list write_segment l) p ≡ ok l
unfolding path_segments
path-write l p =
    as_array-write p (λ q v. as_object q path_segment v) write_segment l (each_segment l)
