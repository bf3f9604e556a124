-- ===== src/Queue/Connection/Losses.antt =====
-- What a lost connection leads to.
use v2_xrpl_tools.Prelude.{
  ℕ, suc, ◌+◌, ◌≤◌, ◌≡◌, ◌≢◌, inl, inr, refl, sym, ◌∙◌, subst, true, List, [], ◌∷◌, leb, length,
  any, All, ◌==◌, ◌-◌, ap, if◌then◌else◌, Bool-cases, arith,
}
use v2_xrpl_tools.Queue.Consumer.{Answer}
use v2_xrpl_tools.Queue.Connection.{
  ConnectionState, ConnectResult, connects, fails_connecting, fails_channel, fails_prefetch,
  connect, disconnect, without, handle_connection_error, ConnectionEvent, module_init,
  connection_error, connection_closed, timer_fires, module_destroy, on_event, run_events,
  get_queue_health,
}

abbrev pub Fails : ConnectionEvent → Type 0
Fails (module_init n r) = r ≢ connects
Fails (timer_fires due n r) = r ≢ connects
Fails _ = Unit

-- how many of the events are reconnections
unfoldable pub reconnections : List ConnectionEvent → ConnectionState → ℕ
unfolding on_event
reconnections [] s = 0
reconnections (timer_fires due n r ∷ es) s =
    (if any (λ t. t == due) s.timers then 1 else 0)
    + reconnections es (on_event (timer_fires due n r) s)
reconnections (e ∷ es) s = reconnections es (on_event e s)

length-without :
    (due : ℕ) (ts : List ℕ)
    → any (λ t. t == due) ts ≡ true
    → suc (length (without due ts)) ≡ length ts
unfolding without
length-without due [] h = grind arith
length-without due (t ∷ ts) h = ground (arith, length-without due ts)

-- what a failing call of `connect` leaves
connect-fails :
    (n : ℕ) (r : ConnectResult) (s : ConnectionState)
    → r ≢ connects
    → ((connect n r s).1.timers ≡ s.timers)
      × ((connect n r s).1.reconnect_attempts ≡ s.reconnect_attempts)
unfolding connect
connect-fails n connects s h = absurd (h refl)
connect-fails n fails_connecting s h = (refl, refl)
connect-fails n fails_channel s h = (refl, refl)
connect-fails n fails_prefetch s h = (refl, refl)

disconnect-keeps :
    (a b : Answer) (s : ConnectionState)
    → ((disconnect a b s).timers ≡ s.timers)
      × ((disconnect a b s).reconnect_attempts ≡ s.reconnect_attempts)
unfolding disconnect
disconnect-keeps a b s = (grind arith, grind arith)

-- As long as no connection is made, the reconnections end: there are at most as many as timers were set,
-- and as attempts were left of the five.
pub reconnections-bounded :
    (es : List ConnectionEvent) (s : ConnectionState)
    → All Fails es
    → reconnections es s ≤ length s.timers + (5 - s.reconnect_attempts)
unfolding reconnections on_event handle_connection_error
reconnections-bounded [] s h = omega arith
reconnections-bounded (module_init n r ∷ es) s (f, h) = omega (
  arith,
  reconnections-bounded es (connect n r s).1 h,
  (connect-fails n r s f).1,
  ap length (connect-fails n r s f).0,
)
reconnections-bounded (connection_error now ∷ es) s (f, h) =
    ground (arith, reconnections-bounded es (handle_connection_error now s) h)
reconnections-bounded (connection_closed now ∷ es) s (f, h) =
    ground (arith, reconnections-bounded es (handle_connection_error now s) h)
reconnections-bounded (timer_fires due n r ∷ es) s (f, h) =
    elim (Bool-cases (any (λ t. t == due) s.timers)) [
      | inr e ↦ rw (e) omega (arith, reconnections-bounded es s h)
      | inl e ↦
          let fired : ConnectionState = record s { timers = without due s.timers } in
          let (kept, same) = connect-fails n r fired f in
          rw (e) omega (
            arith,
            reconnections-bounded es (connect n r fired).1 h,
            same,
            ap length kept,
            length-without due s.timers e,
          )
    ]
reconnections-bounded (module_destroy a b ∷ es) s (f, h) = omega (
  arith,
  reconnections-bounded es (disconnect a b s) h,
  (disconnect-keeps a b s).1,
  ap length (disconnect-keeps a b s).0,
)

-- what happens while the broker cannot be reached: errors, closes, and timers whose call fails to connect
abbrev pub IsUnreachable : ConnectionEvent → Type 0
IsUnreachable (connection_error now) = Unit
IsUnreachable (connection_closed now) = Unit
IsUnreachable (timer_fires due n r) = r ≡ fails_connecting
IsUnreachable _ = ⊥

-- whether the state hands out the same channel, with the same health
abbrev pub IsUnnoticed : ConnectionState → ConnectionState → Type 0
IsUnnoticed s r = (r.channel ≡ s.channel) × (get_queue_health r ≡ get_queue_health s)

-- the timers that are set, and the attempts that are left of the five
abbrev pub attempts_left : ConnectionState → ℕ
attempts_left s = length s.timers + (5 - s.reconnect_attempts)

error-IsUnnoticed :
    (now : ℕ) (s : ConnectionState)
    → IsUnnoticed s (handle_connection_error now s)
      × (attempts_left (handle_connection_error now s) ≤ attempts_left s)
unfolding handle_connection_error get_queue_health
error-IsUnnoticed now s = elim (Bool-cases (leb 5 s.reconnect_attempts)) [
  | inl e ↦ rw (handle_connection_error, e) ((refl, refl), omega arith)
  | inr e ↦ rw (handle_connection_error, e) ((refl, refl), ground (arith, e))
]

timer-IsUnnoticed :
    (due n : ℕ) (s : ConnectionState)
    → let r = on_event (timer_fires due n fails_connecting) s in
      IsUnnoticed s r × (attempts_left r ≤ attempts_left s)
unfolding on_event connect get_queue_health
timer-IsUnnoticed due n s = elim (Bool-cases (any (λ t. t == due) s.timers)) [
  | inl e ↦ rw (on_event, e) ((refl, refl), omega (arith, length-without due s.timers e))
  | inr e ↦ rw (on_event, e) ((refl, refl), omega arith)
]

unreachable-step :
    (e : ConnectionEvent) (s : ConnectionState)
    → IsUnreachable e
    → IsUnnoticed s (on_event e s) × (attempts_left (on_event e s) ≤ attempts_left s)
unfolding on_event
unreachable-step (module_init n r) s h = elim h [ ]
unreachable-step (connection_error now) s h = error-IsUnnoticed now s
unreachable-step (connection_closed now) s h = error-IsUnnoticed now s
unreachable-step (timer_fires due n r) s h =
    subst
      (λ q.
        let after = on_event (timer_fires due n q) s in
        IsUnnoticed s after × (attempts_left after ≤ attempts_left s))
      (sym h) (timer-IsUnnoticed due n s)
unreachable-step (module_destroy a b) s h = elim h [ ]

-- As long as the broker cannot be reached, whatever errors, closes and timers there are, the service does
-- not see that its connection is lost: it hands out the old channel, and its health is as before. And the
-- timers together with the attempts that are left of the five never grow: where there are none, no event
-- sets a timer any more.
pub unreachable-IsUnnoticed :
    (es : List ConnectionEvent) (s : ConnectionState)
    → All IsUnreachable es
    → IsUnnoticed s (run_events es s) × (attempts_left (run_events es s) ≤ attempts_left s)
unfolding run_events
unreachable-IsUnnoticed [] s h = ((refl, refl), omega arith)
unreachable-IsUnnoticed (e ∷ es) s (u, h) =
    let ((c, q), k) = unreachable-step e s u in
    let ((c', q'), k') = unreachable-IsUnnoticed es (on_event e s) h in
    ((c' ∙ c, q' ∙ q), omega (arith, k, k'))
