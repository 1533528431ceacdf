-- ===== src/Store/Notifications.antt =====
-- frontend/src/store/notificationSlice.ts.
pub mod Count
use cont_ained.Base.{
  ℕ, String, Bool, true, false, List, [], ◌∷◌, ◌==◌, not, filter, map, length, take, if◌then◌else◌,
}

pub data NotificationType : Type 0 where
  info success warning error : NotificationType

-- `Notification`; the timestamp is the milliseconds of `Date.now()`.
pub record Notification : Type 0 where
  pub id : String
  pub kind : NotificationType
  pub title : String
  pub message : String
  pub read : Bool
  pub timestamp : ℕ

-- What a caller of `addNotification` gives.
pub record NewNotification : Type 0 where
  pub kind : NotificationType
  pub title : String
  pub message : String

-- `NotificationState`.
pub record NotificationState : Type 0 where
  pub notifications : List Notification
  pub unread_count : ℕ

abbrev pub initial_notifications : NotificationState
initial_notifications = record { notifications = []; unread_count = 0 }

-- `notifications.filter((n) => !n.read).length`.
abbrev pub count_unread : List Notification → ℕ
count_unread ns = length (filter (λ n. not n.read) ns)

abbrev counted : List Notification → NotificationState
counted ns = record { notifications = ns; unread_count = count_unread ns }

-- `addNotification`; the id and the time come from the clock and the random numbers.
unfoldable pub add_notification :
    String → ℕ → NewNotification → NotificationState → NotificationState
add_notification id now item s = counted (
    take 50 (
      record {
        id = id;
        kind = item.kind;
        title = item.title;
        message = item.message;
        read = false;
        timestamp = now;
      }
      ∷ s.notifications))

abbrev pub as_read : Notification → Notification
as_read n = record n { read = true }

-- `markRead`.
unfoldable pub mark_read : String → NotificationState → NotificationState
mark_read id s = counted (map (λ n. if n.id == id then as_read n else n) s.notifications)

-- `markAllRead`.
unfoldable pub mark_all_read : NotificationState → NotificationState
mark_all_read s = record { notifications = map as_read s.notifications; unread_count = 0 }

-- `clearAll`.
unfoldable pub clear_all : NotificationState → NotificationState
clear_all s = initial_notifications

-- `removeNotification`.
unfoldable pub remove_notification : String → NotificationState → NotificationState
remove_notification id s = counted (filter (λ n. not (n.id == id)) s.notifications)

-- `NotificationActions`.
pub data NotificationCall : Type 0 where
  adds : String → ℕ → NewNotification → NotificationCall
  marks : String → NotificationCall
  marks_all clears : NotificationCall
  removes : String → NotificationCall

unfoldable pub notification_step : NotificationCall → NotificationState → NotificationState
notification_step (adds id now item) s = add_notification id now item s
notification_step (marks id) s = mark_read id s
notification_step marks_all s = mark_all_read s
notification_step clears s = clear_all s
notification_step (removes id) s = remove_notification id s

unfoldable pub notify : List NotificationCall → NotificationState → NotificationState
notify [] s = s
notify (c ∷ cs) s = notify cs (notification_step c s)
