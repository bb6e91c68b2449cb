-- ===== src/Sdk/SinkTests.antt =====
-- A file system in memory, to which the theorem on file-sink.ts is applied.
use Prim.Native.Char.{char, code}
use qe_report.Prelude.{
  ap, zero, suc, sym, ◌∙◌, ℕ, String, Bool, true, false, Option, none, some, [], ◌∷◌, ◌≡◌, ◌≢◌,
  refl, length, is_some, ◌==◌, inl, inr, Bool-cases, arith, if◌then◌else◌,
}
use mathlib.Core.List.{append-nil}
use mathlib.Core.Option.{some-injective}
use qe_report.Prelude.Keys.{text_keys, ◌===◌}
use qe_report.Sdk.Session.Model.{Bytes}
use qe_report.Sdk.FileSink.{
  Files, Codings, Opened, FileSink, joined, store_attachment, store_stream,
}
use qe_report.Prelude.Text.{codes, take}
use qe_report.Sdk.SafeName.{safe_stem}
use qe_report.Sdk.SafeStem.{IsStem, safe_stem-IsStem}
use qe_report.Prelude.{◌⊎◌}
use qe_report.Sdk.Stored.{Laws, Stored, ShortWrite, temp_path, named_world, store-Stored}

-- the files by path, and the path that was opened last
abbrev Disk : Type 0
Disk = (String → Option Bytes) × String

abbrev put : String → Option Bytes → Disk → Disk
put path value (d, p) = (λ q. if q === path then value else d q, p)

abbrev opened_new : String → Disk → Option ℕ × Disk
opened_new path (d, p) = if is_some (d path) then (none, (d, p)) else (some 0, (d, path))

-- a call writes at most four bytes
abbrev written : Bytes → Disk → Option ℕ × Disk
written bytes d = (some (length (take 4 bytes)), put d.1 (some (take 4 bytes)) d)

abbrev renamed : String → String → Disk → Bool × Disk
renamed from to d =
    if is_some (d.0 from) then (true, put to (d.0 from) (put from none d)) else (false, d)

abbrev size : Option Bytes → Option ℕ
size none = none
size (some b) = some (length b)

abbrev disk_files : Files Disk
disk_files = record {
  join = λ d n. n;
  make_directory = λ p w. (true, w);
  open_new = opened_new;
  write = λ fd bytes w. written bytes w;
  sync = λ fd w. (true, w);
  close = λ fd w. (true, w);
  rename = renamed;
  unlink = λ p w. (true, put p none w);
  size_of = λ p w. size (w.0 p);
  write_stream = λ p l e w. (true, put p (some (joined l)) w);
  temp_name = λ w. (".tmp-1-a", w);
}

-- a text that tells the bytes apart
abbrev digest : Bytes → String
digest [] = ""
digest (x ∷ b) = String.◌∷◌ (if x == 0 then char 48 tt else char 49 tt) (digest b)

abbrev first : String → ℕ
first String.[] = 0
first (String.◌∷◌ c s) = code c

digest-not_temp : (b : Bytes) → digest b ≢ ".tmp-1-a"
digest-not_temp [] h = cc
digest-not_temp (x ∷ b) h =
    let k : first (digest (x ∷ b)) ≡ 46 = ap first h in
    elim (Bool-cases (x == 0)) [ inl e ↦ not_dot (rw e at k) | inr e ↦ not_dot_either (rw e at k) ]
  where
    not_dot : ◌≡◌ {A = ℕ} 48 46 → ⊥
    not_dot e = omega (arith, e)

    not_dot_either : ◌≡◌ {A = ℕ} 49 46 → ⊥
    not_dot_either e = omega (arith, e)

measured :
    (o : Option Bytes) (n : ℕ) → size o ≡ some n → (b : Bytes) × (o ≡ some b) × (length b ≡ n)
measured none n h = cc
measured (some b) n h = (b, refl, some-injective _ _ h)

abbrev codings : Codings
codings = record {
  sha256 = digest;
  line = λ e. [];
  chunks = λ b. b ∷ [];
  text = λ s. "s";
  text_sha256 = λ s. s;
}

abbrev opened : Opened
opened = record { event_file = "s"; attachments_dir = "a"; fd = 0; max_attachment_bytes = 8 }

abbrev content : String → Disk → Option Bytes
content p w = w.0 p

opened_path : (p : String) (fd : ℕ) (w v : Disk) → opened_new p w ≡ (some fd, v) → v.1 ≡ p
opened_path p fd w v e = elim (Bool-cases (is_some (w.0 p))) [
  | inl s ↦ absurd (refused (rw s at e))
  | inr s ↦ sym (ap (λ r. r.1.1) (rw s at e))
]
  where
    refused : {d : Disk} → ◌≡◌ {A = Option ℕ × Disk} (none, d) (some fd, v) → ⊥
    refused k = cc (ap (λ r. r.0) k)

taken_again : (n : ℕ) (b : Bytes) → take (length (take n b)) b ≡ take n b
taken_again zero b = refl
taken_again (suc n) [] = refl
taken_again (suc n) (x ∷ b) = ap (λ l. x ∷ l) (taken_again n b)

put_there : (p q : String) (o : Option Bytes) (v : Disk) → q ≡ p → content p (put q o v) ≡ o
put_there p q o v e = ground (arith, text_keys.beq_iff p q)

content_written :
    (p : String) (fd n : ℕ) (b : Bytes) (v u : Disk)
    → v.1 ≡ p
    → written b v ≡ (some n, u)
    → content p u ≡ some (take n b)
content_written p fd n b v u e k =
    ap (content p) (sym (ap (λ r. r.1) k))
    ∙ put_there p v.1 (some (take 4 b)) v e
    ∙ ap some (sym (taken_again 4 b))
    ∙ ap (λ z. some (take z b)) (some-injective _ _ (ap (λ r. r.0) k))

unwritten :
    (p q : String) (b : Bytes) (v : Disk)
    → v.1 ≡ p
    → q ≢ p
    → content q (written b v).1 ≡ content q v
unwritten p q b v e h = ground (arith, text_keys.beq_iff q v.1)

disk_laws : Laws disk_files codings opened content
disk_laws = record {
  opens_only = λ p q w h. ground arith;
  writes = λ p fd n b w v u e k. content_written p fd n b v u (opened_path p fd w v e) k;
  writes_only = λ p q fd b w v e h. unwritten p q b v (opened_path p fd w v e) h;
  closes_only = λ q fd w. refl;
  streams = λ p l w h. ground (arith, text_keys.beq_iff p p);
  streams_only = λ p q l e w h. ground (arith, text_keys.beq_iff q p);
  moves = λ p q w h. ground (arith, text_keys.beq_iff q q);
  moves_only = λ p q r w h k. ground (arith, text_keys.beq_iff r p, text_keys.beq_iff r q);
  stays = λ p q r w h. ground arith;
  unlinks_only = λ p q w h. ground (arith, text_keys.beq_iff q p);
  sizes = λ p n w h. measured (w.0 p) n h;
  names_only = λ p w. refl;
  whole = λ b. append-nil b;
  apart = λ b w h. digest-not_temp b h;
  addresses = λ a b h. h;
}

abbrev empty : FileSink Disk
empty = record { closed = false; world = (λ p. none, "s") }

store-Stored_example :
    (Stored disk_files codings opened content
        (1 ∷ 2 ∷ [])
        (store_attachment disk_files codings opened (1 ∷ 2 ∷ []) empty)
      ⊎ ShortWrite disk_files codings opened content
          (temp_path disk_files codings opened content empty)
          (1 ∷ 2 ∷ [])
          (named_world disk_files codings opened content empty))
    × Stored disk_files codings opened content
        (1 ∷ 2 ∷ [])
        (store_stream disk_files codings opened (1 ∷ 2 ∷ []) empty)
store-Stored_example =
    store-Stored disk_files codings opened content disk_laws (1 ∷ 2 ∷ []) empty (λ a b h. cc)

safe_stem-IsStem_example : IsStem (safe_stem (codes "NUL.txt"))
safe_stem-IsStem_example = safe_stem-IsStem (codes "NUL.txt")
