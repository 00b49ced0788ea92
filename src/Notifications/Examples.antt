-- ===== src/Notifications/Examples.antt =====
-- Notifications of a concrete operation (app/services/notifications.py).
use mcmanager.Common.{
  Bool, String, string_eq, ◌≢◌, ◌==◌, ap, false, true, none, some, List, [], ◌∷◌, ◌≡◌, ◌≤◌, arith,
  All,
}
use mcmanager.Notifications.{
  Notification, Rule, NotificationRead, notification_for, publish_once, informational,
  world_lifecycle, critical, dismiss, list_for_user,
}
use mcmanager.Notifications.Single.{count_about, publish_once-single}
use mcmanager.Notifications.Listing.{Spares, dismissed_hidden}

abbrev rule : Rule
rule = (world_lifecycle, informational, "World started.")

abbrev rows : List Notification
rows = notification_for "n1" "op1" (some "w1") 5 rule ∷ []

publish_once-single_example :
    count_about "op1" (publish_once "n2" "op1" (some "w1") 6 (some rule) rows) ≤ 1
unfolding notification_for
publish_once-single_example =
    publish_once-single "op1" "n2" "op1" (some "w1") 6 (some rule) rows (omega arith)

abbrev reads : List NotificationRead
reads =
    record { notification_id = "n1"; user_id = "u1"; read_at = none; dismissed_at = some 3 } ∷ []

abbrev crash : Notification
crash = record (notification_for "n2" "op2" (some "w1") 4 rule) { severity = critical }

two_users : ◌≢◌ {A = String} "u2" "u1"
two_users q = let differ : ◌≡◌ {A = Bool} false true = ap (λ (s : String). s == "u1") q in cc differ

dismissed_hidden_example :
    All (Spares "n2") (list_for_user "u1" false (dismiss "n2" "u1" 9 reads) (crash ∷ rows))
    × (list_for_user "u2" true (dismiss "n2" "u1" 9 reads) (crash ∷ rows)
        ≡ list_for_user "u2" true reads (crash ∷ rows))
dismissed_hidden_example = dismissed_hidden "n2" "u1" "u2" 9 true reads (crash ∷ rows) two_users
