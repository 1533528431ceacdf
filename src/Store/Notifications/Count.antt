-- ===== src/Store/Notifications/Count.antt =====
-- The counter and the cap of notificationSlice.ts.
use cont_ained.Base.{
  ◌≤◌, String, List, [], ◌∷◌, ◌==◌, ◌≡◌, refl, sym, not, filter, map, length, length-take,
  length-filter-le, if◌then◌else◌, arith, eq_iff,
}
use cont_ained.Store.Notifications.{
  Notification, NotificationState, count_unread, as_read, add_notification, mark_read,
  mark_all_read, clear_all, remove_notification, NotificationCall, adds, marks, marks_all, clears,
  removes, notification_step, notify,
}

-- The counter is the number of unread notifications, and at most fifty are kept.
pub record IsCounted (s : NotificationState) : Type 0 where
  pub counted : s.unread_count ≡ count_unread s.notifications
  pub capped : length s.notifications ≤ 50

length-map_read :
    (f : Notification → Notification) (ns : List Notification) → length (map f ns) ≡ length ns
length-map_read f [] = refl
length-map_read f (n ∷ ns) = omega (arith, length-map_read f ns)

count_unread-read : (ns : List Notification) → count_unread (map as_read ns) ≡ 0
count_unread-read [] = refl
count_unread-read (n ∷ ns) = count_unread-read ns

notification_step-IsCounted :
    (c : NotificationCall) (s : NotificationState) → IsCounted s → IsCounted (notification_step c s)
unfolding notification_step add_notification mark_read mark_all_read clear_all remove_notification
notification_step-IsCounted (adds id now item) s h = record {
  counted = refl;
  capped = omega (arith, length-take 49 s.notifications);
}
notification_step-IsCounted (marks id) s h = record {
  counted = refl;
  capped = rw (length-map_read (λ n. if n.id == id then as_read n else n) s.notifications) h.capped;
}
notification_step-IsCounted marks_all s h = record {
  counted = sym (count_unread-read s.notifications);
  capped = rw (length-map_read as_read s.notifications) h.capped;
}
notification_step-IsCounted clears s h = record { counted = refl; capped = omega arith }
notification_step-IsCounted (removes id) s h = record {
  counted = refl;
  capped = omega (arith, length-filter-le (λ n. not (n.id == id)) s.notifications, h.capped);
}

-- After any sequence of calls the counter is the number of unread notifications, and at most fifty
-- are kept, if that was so before them.
pub notify-IsCounted :
    (cs : List NotificationCall) (s : NotificationState) → IsCounted s → IsCounted (notify cs s)
unfolding notify
notify-IsCounted [] s h = h
notify-IsCounted (c ∷ cs) s h =
    notify-IsCounted cs (notification_step c s) (notification_step-IsCounted c s h)

-- The notifications with this id that are unread.
abbrev pub unread_with : String → List Notification → List Notification
unread_with id ns = filter (λ n. n.id == id) (filter (λ n. not n.read) ns)

mark_read-unread :
    (id j : String) (ns : List Notification)
    → unread_with j (map (λ n. if n.id == id then as_read n else n) ns)
      ≡ (if id == j then [] else unread_with j ns)
mark_read-unread id j [] = ground arith
mark_read-unread id j (n ∷ ns) =
    ground (arith, eq_iff n.id id, eq_iff n.id j, eq_iff id j, mark_read-unread id j ns)

-- `markRead` leaves nothing unread under its id, and the unread ones of every other id as they
-- were.
pub mark_read_lem :
    (id j : String) (s : NotificationState)
    → unread_with j (mark_read id s).notifications
      ≡ (if id == j then [] else unread_with j s.notifications)
unfolding mark_read
mark_read_lem id j s = mark_read-unread id j s.notifications
