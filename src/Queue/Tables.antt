-- ===== src/Queue/Tables.antt =====
-- The tables of the queue (app/models/message.py, app/models/queue_cursor.py), and the storage class
-- of an envelope type (app/routers/messages.py).
use rcq_server_ref.Base.{
  ℕ, String, Bool, true, Option, none, some, List, ◌∷◌, ◌==◌, same_text, any, if◌then◌else◌, [],
}

-- A row of `offline_messages`; `received_at` is a time in seconds.
pub record OfflineMessage : Type 0 where
  pub id : ℕ
  pub to_uin : ℕ
  pub envelope_type : String
  pub payload : String
  pub received_at : ℕ
  pub cls : Option ℕ
  pub seq : Option ℕ
  pub to_device_id : Option ℕ

-- A row of `offline_group_messages`.
pub record OfflineGroupMessage : Type 0 where
  pub id : ℕ
  pub group_id : ℕ
  pub to_uin : ℕ
  pub envelope_type : String
  pub payload : String
  pub received_at : ℕ
  pub cls : Option ℕ

-- A row of `queue_cursors`, whose key is `(uin, device_id)`.
pub record QueueCursor : Type 0 where
  pub uin : ℕ
  pub device_id : String
  pub last_direct_id : ℕ
  pub last_group_id : ℕ
  pub updated_at : Option ℕ

-- The tables that the drain reads and writes.
pub record Db : Type 0 where
  pub direct : List OfflineMessage
  pub group : List OfflineGroupMessage
  pub cursors : List QueueCursor

abbrev pub critical_types : List String
critical_types = "skdm" ∷ "sknack" ∷ []

abbrev pub ephemeral_types : List String
ephemeral_types = "typing" ∷ "read" ∷ "visit" ∷ "presence" ∷ "nudge" ∷ "bounce" ∷ []

-- `_cls_for`
unfoldable pub cls_for : String → ℕ
cls_for envelope_type =
    if any (same_text envelope_type) critical_types
    then 2
    else if any (same_text envelope_type) ephemeral_types
    then 0
    else 1

-- What `GET /messages/queue` and the ack need of a queue table: its columns, and whether it has the
-- column `to_device_id` at all (`hasattr(model, "to_device_id")`).
pub record Model (A : Type 0) : Type 0 where
  pub id : A → ℕ
  pub to_uin : A → ℕ
  pub to_device_id : Option (A → Option ℕ)

abbrev pub direct_model : Model OfflineMessage
direct_model = record {
  id = λ r. r.id;
  to_uin = λ r. r.to_uin;
  to_device_id = some (λ r. r.to_device_id);
}

abbrev pub group_model : Model OfflineGroupMessage
group_model = record { id = λ r. r.id; to_uin = λ r. r.to_uin; to_device_id = none }

-- `to_device_id IS NULL OR to_device_id = dev`
abbrev pub is_for_device : Option ℕ → ℕ → Bool
is_for_device none dev = true
is_for_device (some d) dev = d == dev

-- The device clause that `_acked_prefix` adds where both a device and the column are there.
abbrev pub device_clause : {A : Type 0} → Model A → Option ℕ → A → Bool
device_clause m none r = true
device_clause m (some dev) r = elim m.to_device_id [
  | none ↦ true
  | some column ↦ is_for_device (column r) dev
]
