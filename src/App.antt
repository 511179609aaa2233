-- ===== src/App.antt =====
-- relayx/server/app.py, with the health routes of relayx/server/endpoint.py: what the application
-- keeps beside the replay cache, and how it shuts down.
-- FastAPI runs the requests: a request enters the middleware, and leaves it when its handler
-- returns, raises or is cancelled, in any order. The event loop's clock counts in some unit of time.
pub mod Requests
pub mod Shutdown
mod Tests
use relay_x.Prelude.{
  ℕ, zero, suc, ◌+◌, ◌≡◌, List, [], ◌∷◌, ◌++◌, Bool, true, false, ◌&&◌, not, ltb, filter, length,
  Option, some, none, if◌then◌else◌,
}
use relay_x.Prelude.Int.{ℤ, pos, negsuc, ltb_ℤ, pos_part}
use relay_x.Text.{Text, str}
use relay_x.Text.Equality.{one_of}
use relay_x.Errors.{Result, ok, err, ◌>>=◌, ◌>>◌, raise_if, http_exception}
use relay_x.Replay.{ReplayCache, new_cache}
use relay_x.Config.{RelaySettings, encryption_key_bytes}

-- app.state, and whether the HTTP client is closed
pub record AppState : Type 0 where
  pub replay_cache : Option ReplayCache
  pub outstanding_requests : ℤ
  pub shutting_down : Bool
  pub client_closed : Bool

abbrev pub add_one : ℤ → ℤ
add_one (pos n) = pos (suc n)
add_one (negsuc zero) = pos 0
add_one (negsuc (suc n)) = negsuc n

abbrev pub sub_one : ℤ → ℤ
sub_one (pos zero) = negsuc 0
sub_one (pos (suc n)) = pos n
sub_one (negsuc n) = negsuc (suc n)

-- create_app: the state that it puts into the application. Its router needs the key. That it also
-- sets up the logging is no part of that state: Ops.Machine.configure.
unfoldable pub create_app : RelaySettings → Result AppState
create_app settings = do
  key ← encryption_key_bytes settings
  ok (record {
    replay_cache = some (
        new_cache (pos_part settings.replay_window_seconds)
          (pos_part settings.replay_cache_max_entries)
          (pos_part settings.allowed_clock_skew_seconds));
    outstanding_requests = pos 0;
    shutting_down = false;
    client_closed = false;
  })

-- request.url.path in {"/health", "/ready"}
abbrev pub is_probe : Text → Bool
is_probe path = one_of path (str "/health" ∷ str "/ready" ∷ [])

-- track_outstanding_requests in front of call_next
unfoldable pub enter : Text → AppState → AppState
enter path s =
    if is_probe path then s else record s { outstanding_requests = add_one s.outstanding_requests }

-- the `finally` behind it
unfoldable pub leave : Text → AppState → AppState
leave path s =
    if is_probe path then s else record s { outstanding_requests = sub_one s.outstanding_requests }

-- The requests that are under way, by their paths, and the state.
pub record System : Type 0 where
  pub app : AppState
  pub running : List Text

pub data Step (s : System) : System → Type 0 where
  start : (path : Text) → Step s (record { app = enter path s.app; running = path ∷ s.running })
  stop :
      (before after : List Text) (path : Text)
      → s.running ≡ before ++ path ∷ after
      → Step s (record { app = leave path s.app; running = before ++ after })

pub data Reach (settings : RelaySettings) : System → Type 0 where
  created :
      {s : AppState}
      → create_app settings ≡ ok s
      → Reach settings (record { app = s; running = [] })
  next : {s t : System} → Reach settings s → Step s t → Reach settings t

-- What the loop of _wait_for_outstanding sees when it tests its condition for the k-th time.
pub record Watch : Type 0 where
  pub outstanding : ℕ → ℤ
  pub clock : ℕ → ℕ

abbrev pub must_wait : Watch → ℕ → ℕ → Bool
must_wait w deadline k = ltb_ℤ (pos 0) (w.outstanding k) && ltb (w.clock k) deadline

-- The loop, from the k-th test on: the test at which it ends, or `none` if the fuel runs out.
unfoldable pub wait_from : Watch → ℕ → ℕ → ℕ → Option ℕ
wait_from w deadline zero k = none
wait_from w deadline (suc fuel) k = elim (must_wait w deadline k) [
  | true ↦ wait_from w deadline fuel (suc k)
  | false ↦ some k
]

-- _wait_for_outstanding; `began` is the clock when it is called.
unfoldable pub wait_for_outstanding : Watch → ℕ → ℕ → ℕ → Option ℕ
wait_for_outstanding w fuel began timeout = wait_from w (began + timeout) fuel 0

-- the `finally` of the lifespan, with the number of the test at which the wait ended
unfoldable pub shut_down : Watch → ℕ → ℕ → ℕ → AppState → Option (ℕ × AppState)
shut_down w fuel began timeout s = elim (wait_for_outstanding w fuel began timeout) [
  | none ↦ none
  | some k ↦ some (k, record s { shutting_down = true; client_closed = true })
]

-- /health
abbrev pub health : List (Text × Text)
health = (str "status", str "ok") ∷ []

-- Forwarder.is_available
abbrev pub is_available : AppState → Bool
is_available s = not s.client_closed

abbrev pub has_cache : Option ReplayCache → Bool
has_cache none = false
has_cache (some cache) = true

-- /ready
unfoldable pub ready : AppState → Result (List (Text × Text))
ready s = do
  raise_if (not (has_cache s.replay_cache && is_available s)) (http_exception 503)
  ok (
      (str "status", str "ready")
      ∷ (str "replay_cache", str "initialized")
      ∷ (str "forwarder", str "available")
      ∷ [])
