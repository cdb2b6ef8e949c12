-- ===== src/Logger/Sender.antt =====
-- internal/logger/stats.go: `SenderStats`, the sessions and the timeouts that the sender reports.
use mathlib.Core.List.{append_assoc, append-nil}
use multicast_bridge.Common.{
  ℕ, ◌-◌, ◌≤◌, ◌≡◌, sym, ap, ◌∙◌, if◌then◌else◌, ltb, List, [], ◌∷◌, ◌++◌, length, drop, Option,
  none, some, arith, length-append, length-drop,
}
use multicast_bridge.Common.Assoc.{lookup, insert, delete}
use multicast_bridge.Data.Queue.Refinement.{keep_last, keep_last-keep_last, drop_by}
use multicast_bridge.Logger.Traffic.{Entry, add_traffic}

pub record SessionInfo : Type 0 where
  pub addr : ℕ
  pub joined_at : ℕ
  pub last_active : ℕ

pub record TimeoutHistory : Type 0 where
  pub addr : ℕ
  pub timeout_at : ℕ

pub record SenderStats : Type 0 where
  pub sessions : List (ℕ × SessionInfo)
  pub timeout_history : List TimeoutHistory
  pub traffic : List Entry

unfoldable pub new_sender_stats : SenderStats
new_sender_stats = record { sessions = []; timeout_history = []; traffic = [] }

unfoldable pub session_joined : ℕ → ℕ → SenderStats → SenderStats
session_joined addr now s = record s {
  sessions = insert addr (record { addr = addr; joined_at = now; last_active = now }) s.sessions;
}

abbrev pub refreshed : ℕ → ℕ → Option SessionInfo → SenderStats → SenderStats
refreshed addr now none s = s
refreshed addr now (some info) s = record s {
  sessions = insert addr (record info { last_active = now }) s.sessions;
}

unfoldable pub session_keep_alive : ℕ → ℕ → SenderStats → SenderStats
session_keep_alive addr now s = refreshed addr now (lookup addr s.sessions) s

-- The history keeps the latest 20.
unfoldable pub session_timeout : ℕ → ℕ → SenderStats → SenderStats
session_timeout addr now s =
    let history = s.timeout_history ++ (record { addr = addr; timeout_at = now } ∷ []) in
    record s {
      sessions = delete addr s.sessions;
      timeout_history = if ltb 20 (length history) then drop 1 history else history;
    }

unfoldable pub session_removed : ℕ → SenderStats → SenderStats
session_removed addr s = record s { sessions = delete addr s.sessions }

unfoldable pub add_sender_traffic : ℕ → ℕ → SenderStats → SenderStats
add_sender_traffic now bytes s = record s { traffic = add_traffic now bytes s.traffic }

-- Timeouts, one after the other.
unfoldable pub session_timeouts : List TimeoutHistory → SenderStats → SenderStats
session_timeouts [] s = s
session_timeouts (t ∷ ts) s = session_timeouts ts (session_timeout t.addr t.timeout_at s)

one_timeout :
    (xs : List TimeoutHistory) (t : TimeoutHistory)
    → length xs ≤ 20
    → (if ltb 20 (length (xs ++ (t ∷ []))) then drop 1 (xs ++ (t ∷ [])) else xs ++ (t ∷ []))
      ≡ keep_last 20 (xs ++ (t ∷ []))
one_timeout xs t h = ground (
  arith,
  length-append xs (t ∷ []),
  drop_by 0 (length (xs ++ (t ∷ [])) - 20) (xs ++ (t ∷ [])),
  drop_by 1 (length (xs ++ (t ∷ [])) - 20) (xs ++ (t ∷ [])),
)

-- After any timeouts the history is the latest 20 of what it was, at most 20 of them, and the new ones.
pub session_timeouts-latest :
    (ts : List TimeoutHistory) (s : SenderStats)
    → length s.timeout_history ≤ 20
    → (session_timeouts ts s).timeout_history ≡ keep_last 20 (s.timeout_history ++ ts)
unfolding session_timeouts session_timeout
session_timeouts-latest [] s h =
    sym (append-nil s.timeout_history)
    ∙ drop_by 0 (length (s.timeout_history ++ []) - 20) (s.timeout_history ++ [])
        (omega (arith, h, length-append s.timeout_history []))
session_timeouts-latest (t ∷ ts) s h =
    session_timeouts-latest ts (session_timeout t.addr t.timeout_at s) (
      omega (
        arith,
        ap length (one_timeout s.timeout_history t h),
        length-drop (length (s.timeout_history ++ (t ∷ [])) - 20) (s.timeout_history ++ (t ∷ [])),
        length-append s.timeout_history (t ∷ []),
      ))
    ∙ ap (λ l. keep_last 20 (l ++ ts)) (one_timeout s.timeout_history t h)
    ∙ keep_last-keep_last 20 (s.timeout_history ++ (t ∷ [])) ts
    ∙ ap (keep_last 20) (append_assoc s.timeout_history (t ∷ []) ts)
