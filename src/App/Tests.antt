-- ===== src/App/Tests.antt =====
-- Three requests of which one is a probe, and a shutdown that two tests of the condition end.
use relay_x.Prelude.{
  ℕ, zero, suc, ◌+◌, ◌*◌, ◌≤◌, ◌<◌, ◌≡◌, refl, [], ◌∷◌, true, false, ◌⊎◌, some, arith,
}
use relay_x.Prelude.Int.{ℤ, pos, ltb_ℤ}
use relay_x.Text.{Text, str}
use relay_x.Text.Equality.{text_eq, one_of}
use relay_x.Errors.{ok}
use relay_x.Replay.{new_cache}
use relay_x.Keys.{decode_encryption_key}
use relay_x.Keys.Base64.{sextet, b64decode}
use relay_x.Config.{encryption_key_bytes}
use relay_x.Samples.{default_settings}
use relay_x.App.{
  AppState, System, start, stop, Reach, created, next, Watch, enter, leave, create_app, shut_down,
}
use relay_x.App.Requests.{counted, Reach-IsCounted}
use relay_x.App.Shutdown.{closed, shut_down_ends, shut_down-drained}

abbrev relay : Text
relay = str "/relay"

abbrev probe : Text
probe = str "/health"

abbrev fresh : AppState
fresh = record {
  replay_cache = some (new_cache 300 100000 30);
  outstanding_requests = pos 0;
  shutting_down = false;
  client_closed = false;
}

made : create_app default_settings ≡ ok fresh
unfolding create_app encryption_key_bytes decode_encryption_key b64decode sextet
made = refl

abbrev at_start : System
at_start = record { app = fresh; running = [] }

abbrev after_start : Text → System → System
after_start path s = record { app = enter path s.app; running = path ∷ s.running }

abbrev three : System
three = after_start relay (after_start probe (after_start relay at_start))

abbrev two : System
two = record { app = leave relay three.app; running = probe ∷ relay ∷ [] }

two_reached : Reach default_settings two
two_reached =
    next (next (next (next (created made) (start relay)) (start probe)) (start relay))
      (stop [] (probe ∷ relay ∷ []) relay refl)

Reach-IsCounted_example : two.app.outstanding_requests ≡ pos (counted (probe ∷ relay ∷ []))
Reach-IsCounted_example = Reach-IsCounted two_reached

one_counted : counted (probe ∷ relay ∷ []) ≡ 1
unfolding counted one_of text_eq
one_counted = refl

-- Two requests are under way, then one, then none; 50 units of time pass between the tests.
abbrev left : ℕ → ℤ
left zero = pos 2
left (suc zero) = pos 1
left (suc (suc k)) = pos 0

abbrev watch : Watch
watch = record { outstanding = left; clock = λ k. 7 + k * 50 }

watch_advances : (k : ℕ) → watch.clock k + 50 ≤ watch.clock (suc k)
watch_advances k = omega arith

shut_down_ends_example :
    (k : ℕ) × (shut_down watch 21 7 1000 fresh ≡ some (k, closed fresh))
    × ((ltb_ℤ (pos 0) (watch.outstanding k) ≡ false) ⊎ (7 + 1000 ≤ watch.clock k))
    × ((j : ℕ) → j < k → (ltb_ℤ (pos 0) (watch.outstanding j) ≡ true) × (watch.clock j < 7 + 1000))
shut_down_ends_example =
    shut_down_ends watch 50 20 7 1000 fresh watch_advances (omega arith) (omega arith)

shut_down-drained_example :
    (k : ℕ) × (shut_down watch 21 7 1000 fresh ≡ some (k, closed fresh))
    × (k ≤ 2)
    × (ltb_ℤ (pos 0) (watch.outstanding k) ≡ false)
shut_down-drained_example =
    shut_down-drained watch 50 20 7 1000 2 fresh watch_advances (omega arith) (omega arith) refl
      (omega arith)
