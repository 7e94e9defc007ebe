-- ===== src/Notification/Service.antt =====
-- services/notification/app/models.py, service.py and routes.py. The column `created_at` is left
-- out; the log line of the mock email is the row's own content.
use ordermesh.Prelude.{take, ℕ, ◌+◌, String, Option, List, [], ◌∷◌, ◌++◌, Text, ltb, if◌then◌else◌}
use ordermesh.Shared.Event.{Payload}

pub record Notification : Type 0 where
  pub id : ℕ
  pub type : String
  pub recipient : Text
  pub payload : Text
  pub status : String
  pub order_id : Option ℕ

pub record Db : Type 0 where
  pub notifications : List Notification
  pub notification_seq : ℕ

abbrev pub new_notification :
    (Payload → Text) → ℕ → String → Text → Payload → Option ℕ → Notification
new_notification dumps id type recipient payload order_id = record {
  id = id;
  type = type;
  recipient = recipient;
  payload = dumps payload;
  status = "SENT";
  order_id = order_id;
}

-- `dumps` is `json.dumps(payload, default=str)`.
unfoldable pub send_notification :
    (Payload → Text) → String → Text → Payload → Option ℕ → Db → Notification × Db
send_notification dumps type recipient payload order_id db =
    let n = new_notification dumps db.notification_seq type recipient payload order_id in
    (
      n,
      record {
        notifications = db.notifications ++ n ∷ [];
        notification_seq = db.notification_seq + 1;
      },
    )

abbrev pub insert_desc : Notification → List Notification → List Notification
insert_desc n [] = n ∷ []
insert_desc n (m ∷ ms) = if ltb n.id m.id then m ∷ insert_desc n ms else n ∷ m ∷ ms

abbrev pub sort_desc : List Notification → List Notification
sort_desc [] = []
sort_desc (n ∷ ns) = insert_desc n (sort_desc ns)

-- `order_by(Notification.id.desc()).limit(limit)`
unfoldable pub list_notifications : ℕ → Db → List Notification
list_notifications limit db = take limit (sort_desc db.notifications)
