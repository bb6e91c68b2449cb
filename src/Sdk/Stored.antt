-- ===== src/Sdk/Stored.antt =====
-- file-sink.ts: what stands under the name of its hash.
use qe_report.Prelude.{
  if◌then◌else◌, zero, suc, ◌<◌, ◌⊎◌, ℕ, ◌+◌, ◌≤◌, String, Bool, true, false, Option, none, some,
  List, [], ◌∷◌, ◌≡◌, ◌≢◌, refl, sym, subst, ap, ◌∙◌, inl, inr, length, length-append, arith,
  Bool-cases, ltb, ◌==◌,
}
use mathlib.Core.Option.{some-injective}
use qe_report.Prelude.Text.{take}
use qe_report.Prelude.Keys.{text_keys, ◌===◌}
use qe_report.Sdk.Session.Model.{Bytes, StoreResult, stored, attachment_too_large, store_failure}
use qe_report.Sdk.FileSink.{
  Files, Codings, Opened, FileSink, counted, joined, total, write_file, write_opened, closed_after,
  matches, published, after_write, after_stream, store_attachment, store_stream, discard,
}

different : {a b : String} → a ≡ b → (a === b) ≡ false → ⊥
different {a} {b} e h = ground (arith, text_keys.beq_iff a b)

total-joined : (n : ℕ) (l : List Bytes) → n + length (joined l) ≡ total n l
total-joined n [] = omega arith
total-joined n (x ∷ l) = omega (arith, total-joined (n + length x) l, length-append x (joined l))

counted-whole :
    (limit n : ℕ) (l : List Bytes) → (counted limit n l).1 ≡ true → (counted limit n l).0 ≡ l
counted-whole limit n [] h = refl
counted-whole limit n (x ∷ l) h = ground (arith, counted-whole limit (n + length x) l)

counted-bounded :
    (limit n : ℕ) (l : List Bytes)
    → n ≤ limit
    → (counted limit n l).1 ≡ true
    → n + length (joined l) ≤ limit
counted-bounded limit n [] m h = omega arith
counted-bounded limit n (x ∷ l) m h =
    ground (arith, counted-bounded limit (n + length x) l, length-append x (joined l))

counted-within :
    (limit : ℕ) (l : List Bytes)
    → (counted limit 0 l).1 ≡ true
    → length (joined (counted limit 0 l).0) ≤ limit
counted-within limit l h =
    subst (λ x. length (joined x) ≤ limit) (sym (counted-whole limit 0 l h))
      (ground (arith, counted-bounded limit 0 l))

take-whole : (n : ℕ) (b : Bytes) → length b ≤ n → take n b ≡ b
take-whole zero [] h = refl
take-whole zero (x ∷ b) h = absurd (omega arith)
take-whole (suc n) [] h = refl
take-whole (suc n) (x ∷ b) h = ap (λ l. x ∷ l) (take-whole n b (omega arith))

module _ {W : Type 0} (f : Files W) (c : Codings) (o : Opened)
    (content : String → W → Option Bytes) where
  abbrev pub address : Bytes → String
  address bytes = f.join o.attachments_dir (c.sha256 bytes)

  -- What the file system documents: a new file holds as many of the bytes as `writeSync` says that it wrote; a
  -- rename moves a file or fails, each call touches no path but its own, and a size is that of the content; a
  -- stream's chunks make up its bytes; and neither a temporary name nor another hash gives the path of a hash.
  pub record Laws : Type 0 where
    pub opens_only : (p q : String) (w : W) → q ≢ p → content q (f.open_new p w).1 ≡ content q w
    pub writes :
        (p : String) (fd n : ℕ) (b : Bytes) (w v u : W)
        → f.open_new p w ≡ (some fd, v)
        → f.write fd b v ≡ (some n, u)
        → content p (f.close fd u).1 ≡ some (take n b)
    pub writes_only :
        (p q : String) (fd : ℕ) (b : Bytes) (w v : W)
        → f.open_new p w ≡ (some fd, v)
        → q ≢ p
        → content q (f.write fd b v).1 ≡ content q v
    pub closes_only : (q : String) (fd : ℕ) (w : W) → content q (f.close fd w).1 ≡ content q w
    pub streams :
        (p : String) (l : List Bytes) (w : W)
        → (f.write_stream p l true w).0 ≡ true
        → content p (f.write_stream p l true w).1 ≡ some (joined l)
    pub streams_only :
        (p q : String) (l : List Bytes) (e : Bool) (w : W)
        → q ≢ p
        → content q (f.write_stream p l e w).1 ≡ content q w
    pub moves :
        (p q : String) (w : W)
        → (f.rename p q w).0 ≡ true
        → content q (f.rename p q w).1 ≡ content p w
    pub moves_only :
        (p q r : String) (w : W) → r ≢ p → r ≢ q → content r (f.rename p q w).1 ≡ content r w
    pub stays :
        (p q r : String) (w : W)
        → (f.rename p q w).0 ≡ false
        → content r (f.rename p q w).1 ≡ content r w
    pub unlinks_only : (p q : String) (w : W) → q ≢ p → content q (f.unlink p w).1 ≡ content q w
    pub sizes :
        (p : String) (n : ℕ) (w : W)
        → f.size_of p w ≡ some n
        → (b : Bytes) × (content p w ≡ some b) × (length b ≡ n)
    pub names_only : (p : String) (w : W) → content p (f.temp_name w).1 ≡ content p w
    pub whole : (b : Bytes) → joined (c.chunks b) ≡ b
    pub apart : (b : Bytes) (w : W) → address b ≢ f.join o.attachments_dir (f.temp_name w).0
    pub addresses : (a b : Bytes) → address a ≡ address b → c.sha256 a ≡ c.sha256 b

  -- `writeSync` has written fewer bytes to the new file than it was given, and has not thrown.
  abbrev pub ShortWrite : String → Bytes → W → Type 0
  ShortWrite path bytes w =
      (fd : ℕ) × (v : W) × (n : ℕ) × (u : W) × (f.open_new path w ≡ (some fd, v))
      × (f.write fd bytes v ≡ (some n, u))
      × (n < length bytes)

  -- A file that stands under a hash has this hash.
  abbrev pub Addressed : W → Type 0
  Addressed w = (a b : Bytes) → content (address a) w ≡ some b → c.sha256 b ≡ c.sha256 a

  -- A result names the hash of the bytes that were given, and bytes of this hash, of the size that it names
  -- and within the limit, stand under it.
  abbrev pub Holds : Bytes → StoreResult × W → Type 0
  Holds given (stored a, w) =
      (a.sha256 ≡ c.sha256 given)
      × (b : Bytes) × (content (f.join o.attachments_dir a.sha256) w ≡ some b)
      × (c.sha256 b ≡ a.sha256)
      × (length b ≡ a.size_bytes)
      × (a.size_bytes ≤ o.max_attachment_bytes)
  Holds given (attachment_too_large, w) = Unit
  Holds given (store_failure, w) = Unit

  abbrev Good : Bytes → StoreResult × W → Type 0
  Good given r = Addressed r.1 × Holds given r

  module _ (l : Laws) (temp : String) (apart : (b : Bytes) → address b ≢ temp) where
    Addressed-same :
        (v w : W)
        → ((a : Bytes) → content (address a) w ≡ content (address a) v)
        → Addressed v
        → Addressed w
    Addressed-same v w s h a b e = h a b (sym (s a) ∙ e)

    Addressed-discard : (w : W) → Addressed w → Addressed (discard f c o temp w)
    Addressed-discard w =
        Addressed-same w (discard f c o temp w) (λ a. l.unlinks_only temp (address a) w (apart a))

    -- a rename that succeeded
    Addressed-moved :
        (b : Bytes) (w : W)
        → content temp w ≡ some b
        → Addressed w
        → (f.rename temp (address b) w).0 ≡ true
        → Addressed (f.rename temp (address b) w).1
    Addressed-moved b w k h t a x e = elim (Bool-cases (address a === address b)) [
      | inl s ↦
          let same = (text_keys.beq_iff (address a) (address b)).0 s in
          let there =
            ap (λ z. content z (f.rename temp (address b) w).1) same
            ∙ l.moves temp (address b) w t
            ∙ k in
          ap c.sha256 (some-injective _ _ (sym e ∙ there)) ∙ sym (l.addresses a b same)
      | inr s ↦
          h a x
            (sym (l.moves_only temp (address b) (address a) w (apart a) (λ q. different q s)) ∙ e)
    ]

    streamed :
        (p : List Bytes) (complete : Bool) (w v : W)
        → (f.write_stream temp p complete w).1 ≡ v
        → Addressed w
        → Addressed v
    streamed p complete w v e = Addressed-same w v (λ a.
        ap (content (address a)) (sym e) ∙ l.streams_only temp (address a) p complete w (apart a))

    taken-Good :
        (b : Bytes) (n : ℕ) (v : W) (z : Option ℕ)
        → f.size_of (address b) v ≡ z
        → n ≤ o.max_attachment_bytes
        → Addressed v
        → Good b (
            if matches f c o z n
            then (stored (record { sha256 = c.sha256 b; size_bytes = n }), discard f c o temp v)
            else (store_failure, discard f c o temp v))
    taken-Good b n v none e m h = (Addressed-discard v h, tt)
    taken-Good b n v (some size) e m h = elim (Bool-cases (size == n)) [
      | inl s ↦
          let (x, p, q) = l.sizes (address b) size v e in
          rw s (
            Addressed-discard v h,
            (
              refl,
              x,
              l.unlinks_only temp (address b) v (apart b) ∙ p,
              h b x p,
              q ∙ ground arith,
              m,
            ),
          )
      | inr s ↦ rw s (Addressed-discard v h, tt)
    ]

    published-Good :
        (b : Bytes) (n : ℕ) (w : W) (r : Bool × W)
        → f.rename temp (address b) w ≡ r
        → content temp w ≡ some b
        → length b ≡ n
        → n ≤ o.max_attachment_bytes
        → Addressed w
        → Good b (published f c o temp (address b) (c.sha256 b) n r)
    published-Good b n w (true, v) e k s m h =
        let there =
          ap (content (address b)) (sym (ap (λ r. r.1) e))
          ∙ l.moves temp (address b) w (ap (λ r. r.0) e)
          ∙ k in
        (
          subst Addressed (ap (λ r. r.1) e) (Addressed-moved b w k h (ap (λ r. r.0) e)),
          (refl, b, there, refl, s, m),
        )
    published-Good b n w (false, v) e k s m h = taken-Good b n v (f.size_of (address b) v) refl m (
        Addressed-same w v
          (λ a.
            ap (content (address a)) (sym (ap (λ r. r.1) e))
            ∙ l.stays temp (address b) (address a) w (ap (λ r. r.0) e))
          h)

    written_only :
        (q : String) (b : Bytes) (w : W) (r : Option ℕ × W)
        → q ≢ temp
        → f.open_new temp w ≡ r
        → content q (write_opened f c o b r).1 ≡ content q w
    written_only q b w (none, v) d e = ap (λ r. content q r.1) (sym e) ∙ l.opens_only temp q w d
    written_only q b w (some fd, v) d e =
        closed_only q b v fd (f.write fd b v) refl
        ∙ l.writes_only temp q fd b w v e d
        ∙ ap (λ r. content q r.1) (sym e)
        ∙ l.opens_only temp q w d
      where
        closed_only :
            (q : String) (b : Bytes) (v : W) (fd : ℕ) (z : Option ℕ × W)
            → f.write fd b v ≡ z
            → content q (closed_after f c o fd z).1 ≡ content q (f.write fd b v).1
        closed_only q b v fd (none, u) e = l.closes_only q fd u ∙ ap (λ r. content q r.1) (sym e)
        closed_only q b v fd (some n, u) e = l.closes_only q fd u ∙ ap (λ r. content q r.1) (sym e)

    written_whole :
        (b : Bytes) (w : W) (r : Option ℕ × W)
        → f.open_new temp w ≡ r
        → (write_opened f c o b r).0 ≡ true
        → (content temp (write_opened f c o b r).1 ≡ some b) ⊎ ShortWrite temp b w
    written_whole b w (none, v) e h = cc
    written_whole b w (some fd, v) e h = counted_bytes b w fd v (f.write fd b v) e refl h
      where
        counted_bytes :
            (b : Bytes) (w : W) (fd : ℕ) (v : W) (z : Option ℕ × W)
            → f.open_new temp w ≡ (some fd, v)
            → f.write fd b v ≡ z
            → (closed_after f c o fd z).0 ≡ true
            → (content temp (closed_after f c o fd z).1 ≡ some b) ⊎ ShortWrite temp b w
        counted_bytes b w fd v (none, u) e k h = cc
        counted_bytes b w fd v (some n, u) e k h = elim (Bool-cases (ltb n (length b))) [
          | inl s ↦ inr (fd, v, n, u, e, k, ground arith)
          | inr s ↦ inl (l.writes temp fd n b w v u e k ∙ ap some (take-whole n b (ground arith)))
        ]

    Addressed-written :
        (b : Bytes) (w v : W) → (write_file f c o temp b w).1 ≡ v → Addressed w → Addressed v
    Addressed-written b w v e = Addressed-same w v (λ a.
        ap (content (address a)) (sym e)
        ∙ written_only (address a) b w (f.open_new temp w) (apart a) refl)

    written-Good :
        (b : Bytes) (w : W) (r : Bool × W)
        → write_file f c o temp b w ≡ r
        → length b ≤ o.max_attachment_bytes
        → Addressed w
        → Good b (after_write f c o temp b r) ⊎ ShortWrite temp b w
    written-Good b w (true, v) e m h =
        elim (written_whole b w (f.open_new temp w) refl (ap (λ r. r.0) e)) [
          | inl k ↦ inl (
              published-Good b (length b) v (f.rename temp (address b) v) refl
                (ap (content temp) (sym (ap (λ r. r.1) e)) ∙ k) refl m
                (Addressed-written b w v (ap (λ r. r.1) e) h))
          | inr short ↦ inr short
        ]
    written-Good b w (false, v) e m h =
        inl (Addressed-discard v (Addressed-written b w v (ap (λ r. r.1) e) h), tt)

    streamed-Good :
        (given : Bytes) (p : List Bytes) (complete : Bool) (w : W) (r : Bool × W)
        → f.write_stream temp p complete w ≡ r
        → (complete ≡ true → (joined p ≡ given) × (length (joined p) ≤ o.max_attachment_bytes))
        → Addressed w
        → Good given (after_stream f c o temp p complete r)
    streamed-Good given p complete w (false, v) e m h =
        (Addressed-discard v (streamed p complete w v (ap (λ r. r.1) e) h), tt)
    streamed-Good given p false w (true, v) e m h =
        (Addressed-discard v (streamed p false w v (ap (λ r. r.1) e) h), tt)
    streamed-Good given p true w (true, v) e m h =
        let there =
          ap (content temp) (sym (ap (λ r. r.1) e)) ∙ l.streams temp p w (ap (λ r. r.0) e) in
        subst (λ g. Good g (after_stream f c o temp p true (true, v))) (m refl).0
          (published-Good (joined p) (total 0 p) v (f.rename temp (address (joined p)) v) refl there
            (omega (arith, total-joined 0 p)) (omega (arith, total-joined 0 p, (m refl).1))
            (streamed p true w v (ap (λ r. r.1) e) h))

  -- the same of a sink and its world
  abbrev pub Stored : Bytes → StoreResult × FileSink W → Type 0
  Stored given (r, s) = Addressed s.world × Holds given (r, s.world)

  guarded :
      (P : StoreResult × FileSink W → Type 0) (b : Bool) (x y : StoreResult × FileSink W)
      → P x
      → (b ≡ false → P y)
      → P (if b then x else y)
  guarded P true x y h k = h
  guarded P false x y h k = k refl

  -- the path of the temporary file, and the world after its name was drawn
  abbrev pub temp_path : FileSink W → String
  temp_path s = f.join o.attachments_dir (f.temp_name s.world).0

  abbrev pub named_world : FileSink W → W
  named_world s = (f.temp_name s.world).1

  module _ (l : Laws) (bytes : Bytes) (s : FileSink W) (h : Addressed s.world) where
    named : Addressed (f.temp_name s.world).1
    named a b e = h a b (sym (l.names_only (address a) s.world) ∙ e)

    abbrev Complete : StoreResult × FileSink W → Type 0
    Complete r = Stored bytes r ⊎ ShortWrite (temp_path s) bytes (named_world s)

    store_attachment-Stored : Complete (store_attachment f c o bytes s)
    unfolding store_attachment
    store_attachment-Stored =
        guarded Complete s.closed (store_failure, s) _ (inl (h, tt))
          (λ _.
            guarded Complete (ltb o.max_attachment_bytes (length bytes)) (attachment_too_large, s) _
              (inl (h, tt))
              (λ m.
                let v = named_world s in
                written-Good l (temp_path s) (λ b. l.apart b s.world) bytes v
                  (write_file f c o (temp_path s) bytes v) refl (ground (arith, m)) named))

    store_stream-Stored : Stored bytes (store_stream f c o bytes s)
    unfolding store_stream
    store_stream-Stored =
        let v = named_world s in
        let (p, complete) = counted o.max_attachment_bytes 0 (c.chunks bytes) in
        guarded (Stored bytes) s.closed (store_failure, s) _ (h, tt)
          (λ _.
            streamed-Good l (temp_path s) (λ b. l.apart b s.world) bytes p complete v
              (f.write_stream (temp_path s) p complete v) refl
              (λ e. (
                ap joined (counted-whole o.max_attachment_bytes 0 (c.chunks bytes) e)
                    ∙ l.whole bytes,
                counted-within o.max_attachment_bytes (c.chunks bytes) e,
              ))
              named)

    -- Where `storeAttachmentStream` is called, or `storeAttachment` and its `writeSync` does not write fewer
    -- bytes than it was given: if a file that stands under a hash has this hash, then this is so afterwards,
    -- whether the call returns or throws; and if it returns, the digest is that of the bytes given, and under it
    -- stand bytes of this hash and of the size returned, which is within the limit.
    pub store-Stored :
        (Stored bytes (store_attachment f c o bytes s)
          ⊎ ShortWrite (temp_path s) bytes (named_world s))
        × Stored bytes (store_stream f c o bytes s)
    store-Stored = (store_attachment-Stored, store_stream-Stored)
