-- ===== src/Controller/Alarm.antt =====
-- schedule_controller.go: what an alarm leaves of the state.
use agentic_preview.Common.{ℕ, ◌-◌, leb, ◌||◌, not, ◌≡◌, inl, inr, refl, Bool-cases, eq_text}
use agentic_preview.Text.{Text}
use agentic_preview.Controller.{ScheduleState, alarm, alarm_interval}

pub alarm-problem :
    (st : ScheduleState) (now : ℕ) (p : Text)
    → (at : ℕ) × (alarm st now p ≡ record st { problem = p; last_alarm = at })
unfolding alarm
alarm-problem st now p =
    elim (Bool-cases (not (eq_text st.problem p) || leb alarm_interval (now - st.last_alarm))) [
      | inl e ↦ (now, rw e refl)
      | inr e ↦ (st.last_alarm, rw e refl)
    ]
