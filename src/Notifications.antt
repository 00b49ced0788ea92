-- ===== src/Notifications.antt =====
-- app/services/notifications.py: permanent notifications, one for each terminal operation that has a
-- rule, and the markers by which a user reads and dismisses them.
pub mod Single
pub mod Listing
mod Examples
use mcmanager.Common.{
  ℕ, String, Bool, true, false, ◌&&◌, Option, none, some, List, [], ◌∷◌, ◌++◌, ◌==◌, string_eq,
  if◌then◌else◌, holds, find, ltb, leb, nat_eq, ◌||◌, sort_by, filter, map,
}
use mcmanager.Domain.Values.{
  OperationType, start, stop, kill, crash_detected, backup, restore, cleanup, sync, OperationStatus,
  completed, failed,
}

pub data NotificationSeverity : Type 0 where
  critical high normal informational : NotificationSeverity

-- The fixed categories; the check of `_validate` is the type.
pub data Category : Type 0 where
  world_lifecycle backup_restore sync_category security storage scheduler : Category

-- A row of the table `notifications`.
pub record Notification : Type 0 where
  pub notification_id : String
  pub category : Category
  pub severity : NotificationSeverity
  pub message : String
  pub related_operation_id : Option String
  pub related_world_id : Option String
  pub requires_action : Bool
  pub action_taken : Option String
  pub created_at : ℕ

-- A row of the table `notification_reads`, keyed by the notification and the user.
pub record NotificationRead : Type 0 where
  pub notification_id : String
  pub user_id : String
  pub read_at : Option ℕ
  pub dismissed_at : Option ℕ

abbrev pub Rule : Type 0
Rule = Category × NotificationSeverity × String

-- _TERMINAL_NOTIFICATION_RULES
unfoldable pub terminal_rule : OperationType → OperationStatus → Option Rule
terminal_rule start completed = some (world_lifecycle, informational, "World started.")
terminal_rule stop completed = some (world_lifecycle, informational, "World stopped.")
terminal_rule kill completed = some (world_lifecycle, informational, "World stopped.")
terminal_rule crash_detected completed = some (world_lifecycle, critical, "World crashed.")
terminal_rule backup completed = some (backup_restore, informational, "Backup completed.")
terminal_rule backup failed = some (backup_restore, high, "Backup failed.")
terminal_rule restore completed = some (backup_restore, informational, "Restore completed.")
terminal_rule restore failed = some (backup_restore, high, "Restore failed.")
terminal_rule cleanup completed = some (backup_restore, informational, "Cleanup completed.")
terminal_rule sync failed = some (sync_category, high, "Sync failed.")
terminal_rule _ _ = none

-- SELECT … FROM notifications WHERE related_operation_id = ?
unfoldable pub about_operation : String → List Notification → Option Notification
about_operation op_id = find (λ n. holds n.related_operation_id op_id)

-- `_insert`; the identifier is drawn by the caller
unfoldable pub notification_for : String → String → Option String → ℕ → Rule → Notification
notification_for notification_id op_id world_id now (category, severity, message) = record {
  notification_id = notification_id;
  category = category;
  severity = severity;
  message = message;
  related_operation_id = some op_id;
  related_world_id = world_id;
  requires_action = false;
  action_taken = none;
  created_at = now;
}

abbrev pub is_none {ℓ} : {A : Type ℓ} → Option A → Bool
is_none none = true
is_none (some a) = false

-- the insertion of `publish_terminal_operation`, unless the operation has its notification
unfoldable pub publish_once :
    String → String → Option String → ℕ → Option Rule → List Notification → List Notification
publish_once notification_id op_id world_id now none rows = rows
publish_once notification_id op_id world_id now (some rule) rows =
    if is_none (about_operation op_id rows)
    then rows ++ notification_for notification_id op_id world_id now rule ∷ []
    else rows

-- Insert a marker, or update the one of this notification and user.
unfoldable pub upsert_read :
    String
    → String
    → NotificationRead
    → (NotificationRead → NotificationRead)
    → List NotificationRead
    → List NotificationRead
upsert_read notification_id user_id fresh set [] = fresh ∷ []
upsert_read notification_id user_id fresh set (r ∷ reads) =
    if r.notification_id == notification_id && r.user_id == user_id
    then set r ∷ reads
    else r ∷ upsert_read notification_id user_id fresh set reads

unfoldable pub mark_read : String → String → ℕ → List NotificationRead → List NotificationRead
unfolding upsert_read
mark_read notification_id user_id now =
    upsert_read notification_id user_id
      (record {
        notification_id = notification_id;
        user_id = user_id;
        read_at = some now;
        dismissed_at = none;
      })
      (λ r. record r { read_at = some now })

unfoldable pub dismiss : String → String → ℕ → List NotificationRead → List NotificationRead
unfolding upsert_read
dismiss notification_id user_id now =
    upsert_read notification_id user_id
      (record {
        notification_id = notification_id;
        user_id = user_id;
        read_at = none;
        dismissed_at = some now;
      })
      (λ r. record r { dismissed_at = some now })

-- the marker of a user on a notification
unfoldable pub marker_of : String → String → List NotificationRead → Option NotificationRead
marker_of notification_id user_id =
    find (λ r. r.notification_id == notification_id && r.user_id == user_id)

abbrev pub read_time : Option NotificationRead → Option ℕ
read_time none = none
read_time (some r) = r.read_at

abbrev pub dismissed_time : Option NotificationRead → Option ℕ
dismissed_time none = none
dismissed_time (some r) = r.dismissed_at

-- `NotificationInput`
pub record NotificationInput : Type 0 where
  pub category : Category
  pub severity : NotificationSeverity
  pub message : String
  pub requires_action : Bool
  pub related_operation_id : Option String
  pub related_world_id : Option String

-- `publish`
unfoldable pub publish_notification :
    String → NotificationInput → ℕ → List Notification → List Notification
publish_notification notification_id n now rows =
    rows
    ++ record {
      notification_id = notification_id;
      category = n.category;
      severity = n.severity;
      message = n.message;
      related_operation_id = n.related_operation_id;
      related_world_id = n.related_world_id;
      requires_action = n.requires_action;
      action_taken = none;
      created_at = now;
    }
      ∷ []

-- A row of the dropdown: a notification with the times of the user.
pub record Listed : Type 0 where
  pub notification : Notification
  pub read_at : Option ℕ
  pub dismissed_at : Option ℕ

abbrev pub urgency : NotificationSeverity → ℕ
urgency critical = 0
urgency high = 1
urgency normal = 2
urgency informational = 3

-- ORDER BY the severity, created_at DESC
abbrev pub by_urgency : Listed → Listed → Bool
by_urgency a b =
    let x = urgency a.notification.severity in
    let y = urgency b.notification.severity in
    ltb x y || (x == y && leb b.notification.created_at a.notification.created_at)

-- LEFT JOIN notification_reads, of the user
abbrev pub joined : String → List NotificationRead → Notification → Listed
joined user_id reads n =
    let marker = marker_of n.notification_id user_id reads in
    record { notification = n; read_at = read_time marker; dismissed_at = dismissed_time marker }

abbrev pub is_visible : Bool → Listed → Bool
is_visible include_dismissed l = include_dismissed || is_none l.dismissed_at

unfoldable pub list_for_user :
    String → Bool → List NotificationRead → List Notification → List Listed
list_for_user user_id include_dismissed reads rows =
    sort_by by_urgency (filter (is_visible include_dismissed) (map (joined user_id reads) rows))
