-- ===== src/Mcp/Notification/Once.antt =====
-- A screen that has been checked fires nothing when it is checked again.
use tttt.Base.{
  ℕ, zero, suc, ◌≡◌, refl, Bool, true, false, not, ◌&&◌, Option, none, some, List, [], ◌∷◌, length,
  drop, retain, All, arith, Bool-cases, inl, inr, ◌⊎◌, ◌∙◌, ap,
}
use tttt.Base.Text.{Text, text_eq}
use tttt.Mcp.Notification
use tttt.Mcp.Notification.{
  Regex, NotificationWatcher, NotificationRegistry, Injection, common_bytes, is_char_boundary,
  boundary_at, new_content,
}

common_bytes-same : (s : Text) → common_bytes s s ≡ length s
unfolding common_bytes
common_bytes-same [] = refl
common_bytes-same (c ∷ s) = ground (arith, common_bytes-same s)

boundary_at-length : (s : Text) (n : ℕ) → n ≡ length s → boundary_at n s ≡ n
unfolding boundary_at is_char_boundary
boundary_at-length s zero h = refl
boundary_at-length s (suc n) h = ground arith

drop-length : (s : Text) → drop (length s) s ≡ []
drop-length [] = refl
drop-length (c ∷ s) = drop-length s

pub new_content-same : (s : Text) → new_content s s ≡ []
unfolding new_content
new_content-same s = rw (common_bytes-same s, boundary_at-length s (length s) refl) (drop-length s)

module _ (R : Regex) where
  -- A watcher of the whole screen fires once only.
  abbrev pub IsBounded : NotificationWatcher R → Type 0
  IsBounded w = (w.match_whole_screen && not w.one_shot) ≡ false

  check_diff-same :
      (screen : Text) (w : NotificationWatcher R)
      → (Notification.check_diff R screen w (some screen)).0 ≡ none
  unfolding Notification.check_diff
  check_diff-same screen w = rw (new_content-same screen)

  -- The snapshot is taken whatever the outcome, and nothing else but `fired` changes.
  record IsChecked (screen : Text) (w w' : NotificationWatcher R) : Type 0 where
    last_screen : w'.last_screen ≡ some screen
    watch_session_id : w'.watch_session_id ≡ w.watch_session_id
    match_whole_screen : w'.match_whole_screen ≡ w.match_whole_screen

  check_diff-IsChecked :
      (screen : Text) (w : NotificationWatcher R) (o : Option Text)
      → IsChecked screen w (Notification.check_diff R screen w o).1
  unfolding Notification.check_diff
  check_diff-IsChecked screen w none = record {
    last_screen = refl;
    watch_session_id = refl;
    match_whole_screen = refl;
  }
  check_diff-IsChecked screen w (some prev) = record {
    last_screen = ground arith;
    watch_session_id = ground arith;
    match_whole_screen = ground arith;
  }

  -- A watcher with a snapshot of the screen fires nothing.
  check_watcher-seen :
      (id screen : Text) (w : NotificationWatcher R)
      → w.last_screen ≡ some screen
      → w.match_whole_screen ≡ false
      → (Notification.check_watcher R id screen w).0 ≡ none
  unfolding Notification.check_watcher
  check_watcher-seen id screen w h k = ground (arith, check_diff-same screen w)

  check_watcher-whole :
      (id screen : Text) (w : NotificationWatcher R)
      → IsBounded w
      → w.match_whole_screen ≡ true
      → Notification.is_pending R (Notification.check_watcher R id screen w).1 ≡ true
      → Notification.check_watcher R id screen w ≡ (none, w)
  unfolding Notification.check_watcher
  check_watcher-whole id screen w h whole k = ground arith

  check_watcher-diff :
      (id screen : Text) (w : NotificationWatcher R)
      → w.match_whole_screen ≡ false
      → (Notification.check_watcher R id screen w ≡ (none, w))
        ⊎ (Notification.check_watcher R id screen w
            ≡ Notification.check_diff R screen w w.last_screen)
  unfolding Notification.check_watcher
  check_watcher-diff id screen w diff = elim (Bool-cases (text_eq w.watch_session_id id)) [
    | inr other ↦ inl (rw other)
    | inl watched ↦ elim (Bool-cases (w.fired && w.one_shot)) [
      | inl over ↦ inl (rw (watched, over))
      | inr ready ↦ inr (rw (watched, ready, diff))
    ]
  ]

  again-same :
      (id screen : Text) (w : NotificationWatcher R)
      → Notification.check_watcher R id screen w ≡ (none, w)
      → (Notification.check_watcher R id screen (Notification.check_watcher R id screen w).1).0
        ≡ none
  again-same id screen w e =
      ap (λ r. (Notification.check_watcher R id screen r.1).0) e ∙ ap (λ r. r.0) e

  check_watcher-again :
      (id screen : Text) (w : NotificationWatcher R)
      → IsBounded w
      → Notification.is_pending R (Notification.check_watcher R id screen w).1 ≡ true
      → (Notification.check_watcher R id screen (Notification.check_watcher R id screen w).1).0
        ≡ none
  check_watcher-again id screen w h k = elim (Bool-cases w.match_whole_screen) [
    | inl whole ↦ again-same id screen w (check_watcher-whole id screen w h whole k)
    | inr diff ↦ elim (check_watcher-diff id screen w diff) [
      | inl same ↦ again-same id screen w same
      | inr checked ↦
          let c = check_diff-IsChecked screen w w.last_screen in
          ap (λ r. (Notification.check_watcher R id screen r.1).0) checked
          ∙ check_watcher-seen id screen (Notification.check_diff R screen w w.last_screen).1
              c.last_screen (c.match_whole_screen ∙ diff)
    ]
  ]

  check_watchers-again :
      (id screen : Text) (ws : List (NotificationWatcher R))
      → All IsBounded ws
      → (Notification.check_watchers R id screen
          (retain (Notification.is_pending R) (Notification.check_watchers R id screen ws).1)).0
        ≡ []
  unfolding Notification.check_watchers
  check_watchers-again id screen [] h = refl
  check_watchers-again id screen (w ∷ ws) h =
      elim (Bool-cases (Notification.is_pending R (Notification.check_watcher R id screen w).1)) [
        | inl pending ↦ rw pending (
            rw (check_watcher-again id screen w h.0 pending)
              (check_watchers-again id screen ws h.1))
        | inr over ↦ rw over (check_watchers-again id screen ws h.1)
      ]

  -- Where only one-shot watchers match the whole screen: a second check of a session with the
  -- same screen injects nothing.
  pub check_session_twice :
      (id screen : Text) (r : NotificationRegistry R)
      → All IsBounded r.watchers
      → (Notification.check_session R id screen (Notification.check_session R id screen r).1).0 ≡ []
  unfolding Notification.check_session
  check_session_twice id screen r h = check_watchers-again id screen r.watchers h

  abbrev pub watches_other : Text → NotificationWatcher R → Bool
  watches_other id w = not (text_eq w.watch_session_id id)

  check_watcher-session :
      (id screen : Text) (w : NotificationWatcher R)
      → (Notification.check_watcher R id screen w).1.watch_session_id ≡ w.watch_session_id
  unfolding Notification.check_watcher
  check_watcher-session id screen w =
      ground (arith, (check_diff-IsChecked screen w w.last_screen).watch_session_id)

  check_watcher-other :
      (id screen : Text) (w : NotificationWatcher R)
      → watches_other id w ≡ true
      → Notification.check_watcher R id screen w ≡ (none, w)
  unfolding Notification.check_watcher
  check_watcher-other id screen w other = rw other

  check_watchers-others :
      (id screen : Text) (ws : List (NotificationWatcher R))
      → All (λ w. Notification.is_pending R w ≡ true) ws
      → retain
          (watches_other id)
          (retain (Notification.is_pending R) (Notification.check_watchers R id screen ws).1)
        ≡ retain (watches_other id) ws
  unfolding Notification.check_watchers
  check_watchers-others id screen [] h = refl
  check_watchers-others id screen (w ∷ ws) h =
      let w' = (Notification.check_watcher R id screen w).1 in
      let same : watches_other id w' ≡ watches_other id w =
        ap (λ t. not (text_eq t id)) (check_watcher-session id screen w) in
      let rest = check_watchers-others id screen ws h.1 in
      elim (Bool-cases (watches_other id w)) [
        | inl other ↦ rw (check_watcher-other id screen w other) (rw h.0 (rw (other, rest)))
        | inr here ↦ elim (Bool-cases (Notification.is_pending R w')) [
          | inl pending ↦ rw pending (rw (same ∙ here) (rw here rest))
          | inr over ↦ rw over (rw here rest)
        ]
      ]

  -- While no fired one-shot watcher is registered: a check of a session leaves the watchers of
  -- the other sessions as they are, in their order.
  pub check_session_others :
      (id screen : Text) (r : NotificationRegistry R)
      → All (λ w. Notification.is_pending R w ≡ true) r.watchers
      → retain (watches_other id) (Notification.check_session R id screen r).1.watchers
        ≡ retain (watches_other id) r.watchers
  unfolding Notification.check_session
  check_session_others id screen r h = check_watchers-others id screen r.watchers h
