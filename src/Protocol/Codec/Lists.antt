-- ===== src/Protocol/Codec/Lists.antt =====
-- codec.ts: lists, maps and names of enumerations, written and read. An empty list or map
-- that is not written comes back as none.
use qe_report.Prelude.{ℕ, ◌+◌, String, Option, none, some, List, [], ◌∷◌, ◌++◌, ◌≡◌, refl, All}
use qe_report.Protocol.Errors.{Pointer, index, ◌▹◌, Result, ok}
use qe_report.Protocol.Json.{Json, text, Obj, member, from_list, from_entries}
use qe_report.Protocol.Model.{
  StringMap, Status, SessionStatus, ExpectedStatus, HistoricalIdStability, FailurePhase,
  status_name, statuses, session_status_name, session_statuses, expected_status_name,
  expected_statuses, stability_name, historical_id_stabilities, phase_name, failure_phases, stable,
  uncertain, unavailable, setup, teardown,
}
use qe_report.Protocol.Codec.Fields.{
  as_string, one_of, one_of_optional, string_entries, string_map, read_items, as_array, string_list,
}
use qe_report.Protocol.Codec.Write.{write, write_list, nonempty_map, write_tags, map}

-- `some []` is written as nothing
abbrev pub tidy {ℓ} : {A : Type ℓ} → Option (List A) → Option (List A)
tidy none = none
tidy (some []) = none
tidy (some (x ∷ xs)) = some (x ∷ xs)

string_entries-write :
    (at : Pointer) (m : StringMap)
    → string_entries at (from_entries (map (λ (e : String × String). (e.0, text e.1)) m)) ≡ ok m
unfolding string_entries
string_entries-write at [] = refl
string_entries-write at ((k, s) ∷ m) = rw (string_entries-write at m)

pub read_items-write {ℓ} :
    {A : Type ℓ} (read : ℕ → Json → Result A) (writer : A → Json) (l : List A) (i : ℕ)
    → All (λ a. (j : ℕ) → read j (writer a) ≡ ok a) l
    → read_items read i (from_list (map writer l)) ≡ ok l
unfolding read_items
read_items-write read writer [] i h = refl
read_items-write read writer (a ∷ l) i h = rw (h.0 i, read_items-write read writer l (i + 1) h.1)

at_index {ℓ} :
    {A : Type ℓ} (at : Pointer) (read : Pointer → Json → Result A) (writer : A → Json) (l : List A)
    → All (λ a. (p : Pointer) → read p (writer a) ≡ ok a) l
    → All (λ a. (j : ℕ) → read (at ++ index j ∷ []) (writer a) ≡ ok a) l
at_index at read writer [] h = tt
at_index at read writer (a ∷ l) h = (λ j. h.0 (at ++ index j ∷ []), at_index at read writer l h.1)

pub as_array-write {ℓ} :
    {A : Type ℓ} (at : Pointer) (read : Pointer → Json → Result A) (writer : A → Json) (l : List A)
    → All (λ a. (p : Pointer) → read p (writer a) ≡ ok a) l
    → as_array at read (write_list writer l) ≡ ok l
as_array-write at read writer l h =
    read_items-write (λ i v. read (at ++ index i ∷ []) v) writer l 0 (at_index at read writer l h)

texts : (l : List String) → All (λ s. (p : Pointer) → as_string p (text s) ≡ ok s) l
texts [] = tt
texts (s ∷ l) = (λ p. refl, texts l)

module _ (o : Obj) (f : String) (at : Pointer) where
  pub string_map-member :
      (v : Option StringMap) → member f o ≡ nonempty_map v → string_map o f at ≡ ok (tidy v)
  unfolding string_map nonempty_map
  string_map-member none h = rw h
  string_map-member (some []) h = rw h
  string_map-member (some ((k, s) ∷ m)) h = rw (h, string_entries-write (at ▹ f) ((k, s) ∷ m))

  pub string_list-member :
      (v : Option (List String)) → member f o ≡ write_tags v → string_list o f at ≡ ok (tidy v)
  unfolding string_list write_tags
  string_list-member none h = rw h
  string_list-member (some []) h = rw h
  string_list-member (some (t ∷ ts)) h =
      rw (h, as_array-write (at ▹ f) as_string text (t ∷ ts) (texts (t ∷ ts)))

abbrev pub name_of {ℓ} : {A : Type ℓ} → (A → String) → Option A → Option String
name_of name none = none
name_of name (some a) = some (name a)

module _ (at : Pointer) where
  pub one_of-status : (s : Status) → one_of status_name (status_name s) statuses at ≡ ok s
  unfolding one_of
  one_of-status Status.passed = refl
  one_of-status Status.failed = refl
  one_of-status Status.skipped = refl
  one_of-status Status.inconclusive = refl

  pub one_of-stability :
      (s : HistoricalIdStability)
      → one_of stability_name (stability_name s) historical_id_stabilities at ≡ ok s
  unfolding one_of
  one_of-stability stable = refl
  one_of-stability uncertain = refl
  one_of-stability unavailable = refl

  pub one_of-session_status :
      (s : Option SessionStatus)
      → one_of_optional session_status_name (name_of session_status_name s) session_statuses at
        ≡ ok s
  unfolding one_of
  one_of-session_status none = refl
  one_of-session_status (some SessionStatus.passed) = refl
  one_of-session_status (some SessionStatus.failed) = refl
  one_of-session_status (some SessionStatus.inconclusive) = refl

  pub one_of-expected_status :
      (s : Option ExpectedStatus)
      → one_of_optional expected_status_name (name_of expected_status_name s) expected_statuses at
        ≡ ok s
  unfolding one_of
  one_of-expected_status none = refl
  one_of-expected_status (some ExpectedStatus.passed) = refl
  one_of-expected_status (some ExpectedStatus.failed) = refl
  one_of-expected_status (some ExpectedStatus.skipped) = refl

  pub one_of-phase :
      (s : Option FailurePhase)
      → one_of_optional phase_name (name_of phase_name s) failure_phases at ≡ ok s
  unfolding one_of
  one_of-phase none = refl
  one_of-phase (some setup) = refl
  one_of-phase (some FailurePhase.test) = refl
  one_of-phase (some teardown) = refl

-- a named value is written as a text
pub write-name {ℓ} :
    {A : Type ℓ} (name : A → String) (v : Option A)
    → write (λ a. text (name a)) v ≡ write text (name_of name v)
write-name name none = refl
write-name name (some a) = refl
