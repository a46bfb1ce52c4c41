-- ===== src/Wake/Reports.antt =====
-- compat/auto_wake_store.py: `_quota`, `_session_busy`, `_same_source_recent`, `_batch_view`.
use hermes_app.Base.{
  ℕ, ◌+◌, ◌-◌, String, Bool, true, false, not, ◌&&◌, Option, none, some, List, ◌==◌, Result, ok,
  raised, ◌>>=◌, ltb, opt_eq, truthy,
}
use hermes_app.Base.Table.{select, find, exists, count, order_by}
use hermes_app.Wake.Defs.{
  WakeBatch, Consumption, WakeDb, Lease, ReportRow, Core, content_cooldown_seconds,
  session_wake_limit, profile_wake_limit, quota_window_seconds, is_released, is_consumed, batch_is,
}

-- `created_at > at - QUOTA_WINDOW_SECONDS AND state != 'released'`
unfoldable pub in_window : ℕ → WakeBatch → Bool
in_window at b = ltb at (b.created_at + quota_window_seconds) && not (is_released b.state)

unfoldable pub profile_used : WakeDb → ℕ → ℕ
profile_used db at = count (in_window at) db.batches

unfoldable pub session_used : WakeDb → String → ℕ → ℕ
session_used db s at = count (λ b. in_window at b && b.session_id == s) db.batches

pub record Quota : Type 0 where
  pub session_used : ℕ
  pub session_remaining : ℕ
  pub profile_used : ℕ
  pub profile_remaining : ℕ

-- `_quota`; the constant entries of its dictionary are left out.
unfoldable pub quota : WakeDb → String → ℕ → Quota
quota db s at = record {
  session_used = session_used db s at;
  session_remaining = session_wake_limit - session_used db s at;
  profile_used = profile_used db at;
  profile_remaining = profile_wake_limit - profile_used db at;
}

-- The body of the `try` of `_session_busy`.
unfoldable pub lease_held : Core → String → ℕ → Result Bool
lease_held core resolved at = do
  key ← core.lease_key resolved
  rows ← core.leases
  ok (exists (λ (l : Lease). l.conversation_id == key && ltb at l.expires_at) rows)

-- `_session_busy`: whatever raises, the session is busy.
unfoldable pub session_busy : Core → String → ℕ → Bool
session_busy core resolved at = elim (lease_held core resolved at) [ ok b ↦ b | raised e ↦ true ]

-- The SELECT of `_same_source_recent`; its order does not matter to whether one agrees.
unfoldable pub recent : String → ℕ → Consumption → Bool
recent resolved at c =
    c.session_id == resolved
    && (not c.ignored && (is_consumed c.state && ltb at (c.created_at + content_cooldown_seconds)))

-- The body of its loop: the message of a prior row has the same job and the same text.
unfoldable pub same_message : Core → String → String → Option (Option String × String) → Bool
same_message core job target none = false
same_message core job target (some (source, content)) =
    opt_eq source (some job) && core.source_text content == target

unfoldable pub same_source : Core → String → String → Consumption → Bool
same_source core job target c = elim c.message_id [
  | none ↦ false
  | some m ↦ same_message core job target (core.message_source m)
]

-- `_same_source_recent`: a report without a job matches nothing.
unfoldable pub same_source_recent : Core → WakeDb → String → ReportRow → ℕ → Bool
same_source_recent core db resolved row at = elim row.job_id [
  | none ↦ false
  | some job ↦
      truthy (some job)
      && exists (λ c. recent resolved at c && same_source core job (core.source_text row.content) c)
          db.consumption
]

-- `_batch_view`: the batch, with the rows of its consumption in the order of the reports.
unfoldable pub batch_view : WakeDb → String → Option (WakeBatch × List Consumption)
batch_view db i = elim (find (batch_is i) db.batches) [
  | none ↦ none
  | some b ↦
      some (
        b,
        order_by (λ c. c.report_order) (select (λ c. opt_eq c.batch_id (some i)) db.consumption),
      )
]
