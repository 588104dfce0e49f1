-- ===== src/Http/Retry.antt =====
-- `OktaRESTClient._send_request` of utils/http.py: one request, sent until it is answered, refused or
-- given up. What an attempt meets is a record of the environment; what it does to the throttle and the
-- telemetry is a list of actions. The waits themselves are in `Http.Admission` and `Http.Throttle`.
-- The calls of the throttle itself, and of the telemetry once the slot is released, do not raise here.
pub mod Permits
pub mod Termination
pub mod Outages
pub mod Outcomes
pub mod Refresh
use openhound_okta.Base.{
  ℕ, zero, suc, ◌+◌, ◌≤◌, min, Bool, true, false, not, ◌&&◌, Option, none, some, List, [], ◌∷◌,
  ◌++◌, leb, ltb, ◌==◌, nat_eq, if◌then◌else◌,
}
use openhound_okta.Http.Time.{probe_interval_seconds}
use openhound_okta.Http.Delay.{Formats, RetryHeaders, DelaySettings, retry_delay}

-- Where the handler of an `HTTPError` raises, if it gets there: in `_retry_after_unauthorized` or the
-- telemetry of its retry, or in `_retry_delay` or `_retry_context`.
pub data Fault : Type 0 where
  unauthorized_raises delay_raises : Fault

-- What `_send_measured` and `raise_for_status` make of one attempt.
pub data Outcome : Type 0 where
  responded : ℕ → RetryHeaders → Outcome
  responded_but : Fault → ℕ → RetryHeaders → Outcome
  -- one of `RETRYABLE_REQUEST_EXCEPTIONS`; true for a `ReadTimeout`
  transport_error : Bool → Outcome
  -- any other exception, also one of `_retry_context` or `_retry_delay` after a transport error
  other_exception : Outcome

-- An attempt and the readings it makes: the time since the request began, the wall clock, the
-- jitter, and whether the bearer handler says that a 401 is worth a retry.
pub record Attempt : Type 0 where
  pub outcome : Outcome
  pub elapsed : ℕ
  pub clock : ℕ
  pub jitter : ℕ
  pub refreshes : Bool

-- What `requests` and `dlt` decide: the status codes that `raise_for_status` raises for, and
-- `DEFAULT_RETRY_STATUS`.
pub record Statuses : Type 0 where
  pub is_error : ℕ → Bool
  pub is_retryable : ℕ → Bool

pub record InitialReadTimeoutBudget : Type 0 where
  pub max_attempts : ℕ
  pub consumed : Bool

pub record Settings : Type 0 where
  pub statuses : Statuses
  pub formats : Formats
  pub delays : DelaySettings
  pub max_attempts : ℕ
  pub rate_limit_max_elapsed : ℕ
  -- the cooldown caps of the family's throttle and of the throttle that takes outages
  pub family_cap : ℕ
  pub outage_cap : ℕ
  pub budget : Option InitialReadTimeoutBudget

pub data Category : Type 0 where
  authentication_refresh rate_limit server_error transport : Category

pub data Action : Type 0 where
  acquire send observe release : Action
  defer : ℕ → ℕ → Action
  defer_outage : ℕ → Action
  record_retry : Category → ℕ → Action
  consume_budget : Action

pub data Result : Type 0 where
  returned : ℕ → Result
  -- the `HTTPError` of a status that is final
  refused : ℕ → Result
  -- `OktaRetryExhaustedError`, with the status code and the attempts of its context
  exhausted : Option ℕ → ℕ → Result
  raised : Result

-- The variables of the loop.
pub record Loop : Type 0 where
  pub attempt : ℕ
  pub rate_limit_attempt : ℕ
  pub transient_attempt : ℕ
  pub read_timeout_attempt : ℕ
  pub unauthorized_retry_attempted : Bool

pub data Verdict : Type 0 where
  again : Loop → Verdict
  done : Result → Verdict

abbrev pub start : Loop
start = record {
  attempt = 0;
  rate_limit_attempt = 0;
  transient_attempt = 0;
  read_timeout_attempt = 0;
  unauthorized_retry_attempted = false;
}

abbrev pub is_unauthorized_fault : Option Fault → Bool
is_unauthorized_fault (some unauthorized_raises) = true
is_unauthorized_fault _ = false

abbrev is_delay_fault : Option Fault → Bool
is_delay_fault (some delay_raises) = true
is_delay_fault _ = false

-- `read_timeout_max_attempts`
unfoldable pub read_timeout_max_attempts : Settings → ℕ
read_timeout_max_attempts s = elim s.budget [
  | none ↦ s.max_attempts
  | some b ↦ if b.consumed then s.max_attempts else min b.max_attempts s.max_attempts
]

abbrev consumption : Option InitialReadTimeoutBudget → List Action
consumption none = []
consumption (some _) = consume_budget ∷ []

-- Goes on with the loop, or leaves it.
unfoldable pub follow :
    List Action × Verdict → (Loop → List Action × Option Result) → List Action × Option Result
follow (acts, done r) k = (acts, some r)
follow (acts, again next) k = let (rest, r) = k next in (acts ++ rest, r)

module _ (s : Settings) where
  abbrev pause : Option RetryHeaders → ℕ → Attempt → ℕ
  pause h attempt a = retry_delay s.formats s.delays h attempt a.clock a.jitter

  unfoldable pub on_success : ℕ → List Action × Verdict
  on_success status =
      (acquire ∷ send ∷ observe ∷ release ∷ consumption s.budget, done (returned status))

  unfoldable pub on_refresh : Loop → List Action × Verdict
  on_refresh l = (
    acquire ∷ send ∷ record_retry authentication_refresh 0 ∷ release ∷ [],
    again (record l { attempt = suc l.attempt; unauthorized_retry_attempted = true }),
  )

  unfoldable pub on_final : Result → List Action × Verdict
  on_final r = (acquire ∷ send ∷ release ∷ [], done r)

  unfoldable pub on_rate_limit : Loop → Attempt → RetryHeaders → List Action × Verdict
  on_rate_limit l a h =
      let retry_attempt = suc l.rate_limit_attempt in
      let delay = pause (some h) retry_attempt a in
      let effective = min delay s.family_cap in
      let published = acquire ∷ send ∷ defer delay probe_interval_seconds ∷ release ∷ [] in
      if leb s.rate_limit_max_elapsed (a.elapsed + effective)
      then (published, done (exhausted (some 429) (suc l.attempt)))
      else (
        published ++ (record_retry rate_limit effective ∷ []),
        again (record l { attempt = suc l.attempt; rate_limit_attempt = retry_attempt }),
      )

  -- A retry after an outage: `category` for the telemetry, `next` for the counters.
  unfoldable pub on_outage : Loop → Attempt → Option RetryHeaders → Category → List Action × Verdict
  on_outage next a h category =
      let delay = pause h next.transient_attempt a in
      (
        acquire
            ∷ send
            ∷ defer_outage delay
            ∷ release
            ∷ record_retry category (min delay s.outage_cap)
            ∷ [],
        again next,
      )

  unfoldable pub on_server_error : Loop → Attempt → RetryHeaders → ℕ → List Action × Verdict
  unfolding on_final on_outage
  on_server_error l a h status =
      let next = record l {
        attempt = suc l.attempt;
        transient_attempt = suc l.transient_attempt;
      } in
      if leb s.max_attempts (suc l.transient_attempt)
      then on_final (exhausted (some status) (suc l.attempt))
      else on_outage next a (some h) server_error

  unfoldable pub on_transport_error : Loop → Attempt → Bool → List Action × Verdict
  unfolding on_final on_outage read_timeout_max_attempts
  on_transport_error l a true =
      let next = record l {
        attempt = suc l.attempt;
        transient_attempt = suc l.transient_attempt;
        read_timeout_attempt = suc l.read_timeout_attempt;
      } in
      if leb (read_timeout_max_attempts s) (suc l.read_timeout_attempt)
      then on_final (exhausted none (suc l.attempt))
      else on_outage next a none transport
  on_transport_error l a false =
      let next = record l {
        attempt = suc l.attempt;
        transient_attempt = suc l.transient_attempt;
      } in
      if leb s.max_attempts (suc l.transient_attempt)
      then on_final (exhausted none (suc l.attempt))
      else on_outage next a none transport

  -- An exception of the unauthorized handler leaves the loop, and the slot is not released.
  unfoldable pub on_leak : List Action × Verdict
  on_leak = (acquire ∷ send ∷ [], done raised)

  -- `except requests.HTTPError`
  unfoldable pub on_http_error :
      Option Fault → Loop → Attempt → RetryHeaders → ℕ → List Action × Verdict
  unfolding on_leak on_refresh on_final on_rate_limit on_server_error
  on_http_error fault l a h status =
      let asks = (status == 401) && not l.unauthorized_retry_attempted in
      if asks && is_unauthorized_fault fault
      then on_leak
      else if asks && a.refreshes
      then on_refresh l
      else if not (s.statuses.is_retryable status)
      then on_final (refused status)
      else if is_delay_fault fault
      then on_final raised
      else if status == 429
      then on_rate_limit l a h
      else on_server_error l a h status

  -- One round of `while True`.
  unfoldable pub round : Loop → Attempt → List Action × Verdict
  unfolding on_success on_http_error on_transport_error on_final
  round l a = elim a.outcome [
    | responded status h ↦
        if s.statuses.is_error status then on_http_error none l a h status else on_success status
    | responded_but fault status h ↦
        if s.statuses.is_error status
        then on_http_error (some fault) l a h status
        else on_success status
    | transport_error is_read_timeout ↦ on_transport_error l a is_read_timeout
    | other_exception ↦ on_final raised
  ]

  -- The loop with a bound on its rounds; `none` says that the bound was met. Attempt `n` of the
  -- environment is the one after `n` others.
  unfoldable pub rounds : ℕ → (ℕ → Attempt) → Loop → List Action × Option Result
  unfolding follow
  rounds zero env l = ([], none)
  rounds (suc fuel) env l = follow (round l (env l.attempt)) (rounds fuel env)

  unfoldable pub send_request : ℕ → (ℕ → Attempt) → List Action × Option Result
  unfolding rounds round
  send_request fuel env = rounds fuel env start
