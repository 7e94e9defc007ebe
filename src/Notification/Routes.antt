-- ===== src/Notification/Routes.antt =====
-- services/notification/app/routes.py: the history, for an admin.
use ordermesh.Prelude.{ℕ, List, [], ◌∷◌}
use ordermesh.Shared.Outcome.{Result, ok, raise}
use ordermesh.Shared.Auth.{Identity, require_role}
use ordermesh.Notification.Service.{Notification, Db}
use ordermesh.Notification.Service

-- The default of `limit`.
abbrev pub default_limit : ℕ
default_limit = 100

abbrev listed_for : Result Identity → Db → Result (List Notification)
listed_for (ok _) db = ok (Service.list_notifications default_limit db)
listed_for (raise e) db = raise e

-- `GET /notifications`
unfoldable pub list_notifications : Identity → Db → Result (List Notification)
list_notifications identity db = listed_for (require_role ("ADMIN" ∷ []) identity) db
