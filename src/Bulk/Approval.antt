-- ===== src/Bulk/Approval.antt =====
-- What a dry run approves (app/application/bulk_service.py).
use queuelens.Prelude.{
  ℕ, ◌+◌, ◌≤◌, ◌≡◌, refl, inl, inr, String, Bool, true, false, ◌&&◌, not, Option, none, some, List,
  [], ◌∷◌, string_eq, is_some, length, length-map, contains, All, All-mono, take-All, filter-All,
  put, beq_self, arith, Bool-cases,
}
use queuelens.Failure.{Result, ok}
use queuelens.Domain.{MessageRecord, ReplayTarget}
use queuelens.Domain.Fingerprint.{Hashing}
use queuelens.Broker.{Broker, World}
use queuelens.Browser.{list_messages}
use queuelens.Operator.{Action}
use queuelens.Queues.Listing.{occurs}
use queuelens.Snapshots.{Scope}
use queuelens.Bulk.{
  Settings, Request, Batch, Batches, resolve, window, scan_limit, in_window, has_payload, selected,
  approved, fingerprints_of, unique, batch_of,
}

-- No element occurs twice.
unfoldable pub Distinct : List String → Type 0
Distinct [] = Unit
Distinct (x ∷ xs) = (contains xs x ≡ false) × Distinct xs

unique-Distinct : (fps : List String) → Distinct (unique fps)
unfolding unique Distinct
unique-Distinct [] = tt
unique-Distinct (fp ∷ rest) = elim (Bool-cases (contains (unique rest) fp)) [
  | inl again ↦ rw again (unique-Distinct rest)
  | inr new ↦ rw new (new, unique-Distinct rest)
]

unique-All : (P : String → Type 0) (fps : List String) → All P fps → All P (unique fps)
unfolding unique
unique-All P [] h = tt
unique-All P (fp ∷ rest) h = elim (Bool-cases (contains (unique rest) fp)) [
  | inl again ↦ rw again (unique-All P rest h.1)
  | inr new ↦ rw new (h.0, unique-All P rest h.1)
]

length-unique-le : (fps : List String) → length (unique fps) ≤ length fps
unfolding unique
length-unique-le [] = omega arith
length-unique-le (fp ∷ rest) = ground (arith, length-unique-le rest)

fingerprints_of-All :
    (P : String → Type 0) (ms : List MessageRecord)
    → All (λ m. P m.fingerprint) ms
    → All P (fingerprints_of ms)
fingerprints_of-All P [] h = tt
fingerprints_of-All P (m ∷ ms) h = (h.0, fingerprints_of-All P ms h.1)

module _ (P : MessageRecord → Type 0) where
  in_window-All :
      (s : Settings) (r : Request) (whole : Bool) (ms : List MessageRecord)
      → All P ms
      → All P (in_window s r whole ms)
  in_window-All s r whole ms h =
      elim (Bool-cases (whole && not (is_some r.selected_fingerprints))) [
        | inl head ↦ rw head (take-All P (window s r) ms h)
        | inr all_of ↦ rw all_of h
      ]

  has_payload-All :
      (needle : List ℕ) (ms : List MessageRecord) → All P ms → All P (has_payload needle ms)
  has_payload-All [] ms h = h
  has_payload-All (c ∷ cs) ms h = filter-All P (λ m. occurs (c ∷ cs) m.body) ms h

-- A selection, if there is one, has the fingerprint.
unfoldable pub Wanted : Option (List String) → String → Type 0
Wanted none fp = Unit
Wanted (some fps) fp = contains fps fp ≡ true

selected-Wanted :
    (P : String → Type 0) (choice : Option (List String)) (ms : List MessageRecord)
    → All (λ m. P m.fingerprint) ms
    → All (λ m. P m.fingerprint × Wanted choice m.fingerprint) (selected choice ms)
unfolding Wanted
selected-Wanted P none ms h =
    All-mono (λ m. P m.fingerprint) (λ m. P m.fingerprint × Unit) ms (λ m p. (p, tt)) h
selected-Wanted P (some fps) [] h = tt
selected-Wanted P (some fps) (m ∷ ms) h = elim (Bool-cases (contains fps m.fingerprint)) [
  | inl chosen ↦ rw chosen ((h.0, chosen), selected-Wanted P (some fps) ms h.1)
  | inr other ↦ rw other (selected-Wanted P (some fps) ms h.1)
]

scanned-seen :
    (ms : List MessageRecord) → All (λ m. contains (fingerprints_of ms) m.fingerprint ≡ true) ms
scanned-seen [] = tt
scanned-seen (m ∷ ms) = (
  rw (beq_self m.fingerprint) refl,
  All-mono (λ n. contains (fingerprints_of ms) n.fingerprint ≡ true)
      (λ n. contains (fingerprints_of (m ∷ ms)) n.fingerprint ≡ true) ms (λ n seen. ground arith)
      (scanned-seen ms),
)

-- A batch that a dry run of a queue's messages, as scanned, approved and stored.
pub record Approved {b : Broker} (h : Hashing) (s : Settings) (scope : Scope) (r : Request)
    (token : String) (now : ℕ) (guard : Result Bool) (batches : Batches) (w : World b)
    (batch : Batch) (after : Batches) (v : World b) : Type 0 where
  pub whole : Bool
  pub records : List MessageRecord
  pub allowed : guard ≡ ok whole
  pub seen : list_messages b h whole r.source_queue (scan_limit s r whole) w ≡ (ok records, v)
  pub kept : after ≡ put batches token batch
  pub named : batch.id ≡ token
  pub addressed :
      (batch.scope ≡ scope)
      × (batch.source_queue ≡ r.source_queue)
      × (batch.expires_at ≡ now + s.bulk_dry_run_ttl)
  pub commanded : resolve s r ≡ ok (batch.operator_action, batch.target)
  pub distinct : Distinct batch.fingerprints
  pub fewer : length batch.fingerprints ≤ batch.message_count
  pub justified :
      All
        (λ fp. (contains (fingerprints_of records) fp ≡ true) × Wanted r.selected_fingerprints fp)
        batch.fingerprints

module _ (h : Hashing) (b : Broker) (s : Settings) (scope : Scope) where
  approved-justified :
      (r : Request) (whole : Bool) (records : List MessageRecord)
      → All
          (λ fp. (contains (fingerprints_of records) fp ≡ true) × Wanted r.selected_fingerprints fp)
          (unique (fingerprints_of (approved s r whole records)))
  unfolding approved
  approved-justified r whole records =
      let P : String → Type 0 = λ fp. contains (fingerprints_of records) fp ≡ true in
      unique-All (λ fp. P fp × Wanted r.selected_fingerprints fp) _
        (fingerprints_of-All (λ fp. P fp × Wanted r.selected_fingerprints fp) _
          (selected-Wanted P r.selected_fingerprints _ (
            has_payload-All (λ m. P m.fingerprint) r.payload_contains _
              (in_window-All (λ m. P m.fingerprint) s r whole records (scanned-seen records)))))

  pub batch_of-Approved :
      (r : Request) (what : Action × Option ReplayTarget) (token : String) (now : ℕ)
      (guard : Result Bool) (batches : Batches) (w v : World b) (whole : Bool)
      (records : List MessageRecord)
      → resolve s r ≡ ok what
      → guard ≡ ok whole
      → list_messages b h whole r.source_queue (scan_limit s r whole) w ≡ (ok records, v)
      → Approved h s scope r token now guard batches w
          (batch_of s scope r what token now whole records)
          (put batches token (batch_of s scope r what token now whole records))
          v
  unfolding batch_of
  batch_of-Approved r what token now guard batches w v whole records asked allowed seen = record {
    whole = whole;
    records = records;
    allowed = allowed;
    named = refl;
    seen = seen;
    kept = refl;
    addressed = (refl, refl, refl);
    commanded = asked;
    distinct = unique-Distinct (fingerprints_of (approved s r whole records));
    fewer = ground (
      arith,
      length-unique-le (fingerprints_of (approved s r whole records)),
      length-map (λ m. m.fingerprint) (approved s r whole records),
    );
    justified = approved-justified r whole records;
  }
