-- ===== src/Health/Overall.antt =====
-- When the system counts as healthy.
use v2_xrpl_tools.Prelude.{
  ◌≡◌, ◌<◌, refl, sym, subst, ◌||◌, ◌∙◌, true, false, Option, none, some, List, [], ◌∷◌, String,
  str_eq, eq_iff, ltb, ◌==◌, All, Bool-cases, arith, inl, inr,
}
use v2_xrpl_tools.Prelude.Outcome.{Outcome, done, outcome_cases}
use v2_xrpl_tools.Prelude.Json.{Json, is_truthy}
use v2_xrpl_tools.Queue.Connection.{QueueHealth}
use v2_xrpl_tools.Xrpl.Nodes.{ConnectionHealthStatus}
use v2_xrpl_tools.Health.{
  HealthAnswers, ComponentHealth, get_system_health, overall_status, count_status,
  check_database_health, check_xrpl_connection_health, check_message_queue_health,
  check_redis_health, check_alert_processing_health, check_notification_health, connection_result,
}

-- neither degraded nor unhealthy
abbrev pub IsUp : String → Type 0
IsUp s = (str_eq s "unhealthy" ≡ false) × (str_eq s "degraded" ≡ false)

All-IsUp :
    (cs : List ComponentHealth)
    → count_status "unhealthy" cs ≡ 0
    → count_status "degraded" cs ≡ 0
    → All (λ c. IsUp c.status) cs
All-IsUp [] h k = tt
All-IsUp (c ∷ cs) h k = ((ground arith, ground arith), All-IsUp cs (ground arith) (ground arith))

down_text : (s : String) → str_eq s "healthy" ≡ false → s ≡ "healthy" → ⊥
down_text s h e = grind (arith, eq_iff s "healthy")

overall_status-healthy :
    (cs : List ComponentHealth) → overall_status cs ≡ "healthy" → All (λ c. IsUp c.status) cs
unfolding overall_status
overall_status-healthy cs h = elim (Bool-cases (ltb 0 (count_status "unhealthy" cs))) [
  | inl e ↦
      let no : overall_status cs ≡ "unhealthy" = rw (overall_status, e) refl in
      absurd (down_text "unhealthy" refl (sym no ∙ h))
  | inr e ↦ elim (Bool-cases (ltb 0 (count_status "degraded" cs))) [
    | inl f ↦
        let no : overall_status cs ≡ "degraded" = rw (overall_status, e, f) refl in
        absurd (down_text "degraded" refl (sym no ∙ h))
    | inr f ↦ All-IsUp cs (ground arith) (ground arith)
  ]
]

-- a status that is not up
down : (s t : String) → s ≡ t → IsUp s → str_eq t "unhealthy" || str_eq t "degraded" ≡ false
down s t e (h, k) =
    subst (λ x. str_eq x "unhealthy" || str_eq x "degraded" ≡ false) e (ground arith)

database-IsUp : (a : HealthAnswers) → IsUp (check_database_health a).status → a.database ≡ done tt
unfolding check_database_health
database-IsUp a up = elim (outcome_cases a.database) [
  | inr (x, e) ↦ e
  | inl (m, e) ↦
      let no : (check_database_health a).status ≡ "unhealthy" =
        rw (check_database_health, e) refl in
      absurd (grind (arith, down _ "unhealthy" no up))
]

xrpl-IsUp :
    (a : HealthAnswers)
    → IsUp (check_xrpl_connection_health a).status
    → (h : ConnectionHealthStatus) × ((a.xrpl ≡ done h)
        × ((0 < h.healthy_nodes) × (h.unhealthy_nodes ≡ 0)))
unfolding check_xrpl_connection_health connection_result
xrpl-IsUp a up = elim (outcome_cases a.xrpl) [
  | inl (m, e) ↦
      let no : (check_xrpl_connection_health a).status ≡ "unhealthy" =
        rw (check_xrpl_connection_health, e) refl in
      absurd (grind (arith, down _ "unhealthy" no up))
  | inr (h, e) ↦ elim (Bool-cases (h.healthy_nodes == 0)) [
    | inl f ↦
        let no : (check_xrpl_connection_health a).status ≡ "unhealthy" =
          rw (check_xrpl_connection_health, e, connection_result, f) refl in
        absurd (grind (arith, down _ "unhealthy" no up))
    | inr f ↦ elim (Bool-cases (ltb 0 h.unhealthy_nodes)) [
      | inl g ↦
          let no : (check_xrpl_connection_health a).status ≡ "degraded" =
            rw (check_xrpl_connection_health, e, connection_result, f, g) refl in
          absurd (grind (arith, down _ "degraded" no up))
      | inr g ↦ (h, (e, (ground arith, ground arith)))
    ]
  ]
]

queue-IsUp :
    (a : HealthAnswers)
    → IsUp (check_message_queue_health a).status
    → (q : QueueHealth) × ((a.queue ≡ done q) × IsUp q.status)
unfolding check_message_queue_health
queue-IsUp a up = elim (outcome_cases a.queue) [
  | inl (m, e) ↦
      let no : (check_message_queue_health a).status ≡ "unhealthy" =
        rw (check_message_queue_health, e) refl in
      absurd (grind (arith, down _ "unhealthy" no up))
  | inr (q, e) ↦
      let same : (check_message_queue_health a).status ≡ q.status =
        rw (check_message_queue_health, e) refl in
      (q, (e, subst IsUp same up))
]

-- a value that the check takes for the stored one: any that counts as true
abbrev pub IsTaken : Outcome (Option Json) → Type 0
IsTaken o = (v : Json) × ((o ≡ done (some v)) × (is_truthy v ≡ true))

redis-IsUp : (a : HealthAnswers) → IsUp (check_redis_health a).status → IsTaken a.redis_get
unfolding check_redis_health
redis-IsUp a up = elim (outcome_cases a.redis_set) [
  | inl (m, e) ↦
      let no : (check_redis_health a).status ≡ "unhealthy" = rw (check_redis_health, e) refl in
      absurd (grind (arith, down _ "unhealthy" no up))
  | inr (x, e) ↦ elim (outcome_cases a.redis_get) [
    | inl (m, f) ↦
        let no : (check_redis_health a).status ≡ "unhealthy" = rw (check_redis_health, e, f) refl in
        absurd (grind (arith, down _ "unhealthy" no up))
    | inr (none, f) ↦
        let no : (check_redis_health a).status ≡ "unhealthy" = rw (check_redis_health, e, f) refl in
        absurd (grind (arith, down _ "unhealthy" no up))
    | inr (some v, f) ↦ elim (Bool-cases (is_truthy v)) [
      | inl t ↦ (v, (f, t))
      | inr t ↦
          let no : (check_redis_health a).status ≡ "unhealthy" =
            rw (check_redis_health, e, f, t) refl in
          absurd (grind (arith, down _ "unhealthy" no up))
    ]
  ]
]

-- The system is reported as healthy only where the database answered, at least one node is healthy and none
-- is not, the cache gave some value that counts as true, be it the stored one or not, and what the queue, the
-- alerts and the notifications answered is neither degraded nor unhealthy.
pub get_system_health-healthy :
    (a : HealthAnswers)
    → (get_system_health a).status ≡ "healthy"
    → (a.database ≡ done tt)
      × (((h : ConnectionHealthStatus) × ((a.xrpl ≡ done h)
              × ((0 < h.healthy_nodes) × (h.unhealthy_nodes ≡ 0))))
          × (((q : QueueHealth) × ((a.queue ≡ done q) × IsUp q.status))
              × (IsTaken a.redis_get
                  × (IsUp (check_alert_processing_health a).status
                      × IsUp (check_notification_health a).status))))
unfolding get_system_health
get_system_health-healthy a h =
    let (database, (xrpl, (queue, (redis, (metadata, (alerts, (notifications, _))))))) =
      overall_status-healthy (get_system_health a).components h in
    (
      database-IsUp a database,
      (xrpl-IsUp a xrpl, (queue-IsUp a queue, (redis-IsUp a redis, (alerts, notifications)))),
    )
