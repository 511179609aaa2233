-- ===== src/App/Requests.antt =====
-- The counter of requests under way.
use relay_x.Prelude.{ℕ, ◌+◌, ◌≡◌, refl, sym, ap, List, [], ◌∷◌, ◌++◌, arith, if◌then◌else◌}
use relay_x.Prelude.Int.{pos}
use relay_x.Text.{Text}
use relay_x.Config.{RelaySettings, encryption_key_bytes}
use relay_x.Errors.{ok, >>=-eq-ok, ok-injective}
use relay_x.App.{
  AppState, System, Step, start, stop, Reach, created, next, is_probe, enter, leave, create_app,
}

-- How many of the requests under way are counted.
unfoldable pub counted : List Text → ℕ
counted [] = 0
counted (path ∷ paths) = (if is_probe path then 0 else 1) + counted paths

counted-append :
    (before after : List Text) (path : Text)
    → counted (before ++ path ∷ after)
      ≡ (if is_probe path then 0 else 1) + counted (before ++ after)
unfolding counted
counted-append [] after path = refl
counted-append (p ∷ before) after path = omega (arith, counted-append before after path)

abbrev IsCounted : System → Type 0
IsCounted s = s.app.outstanding_requests ≡ pos (counted s.running)

Step-IsCounted : {s t : System} → Step s t → IsCounted s → IsCounted t
unfolding enter leave counted
Step-IsCounted {s} (start path) h = ground (arith, h)
Step-IsCounted {s} (stop before after path e) h =
    ground (arith, h, ap counted e, counted-append before after path)

create_app_idle :
    (settings : RelaySettings) (s : AppState)
    → create_app settings ≡ ok s
    → s.outstanding_requests ≡ pos 0
unfolding create_app
create_app_idle settings s made =
    let (key, e, h) = >>=-eq-ok (encryption_key_bytes settings) _ made in
    ap (λ (t : AppState). t.outstanding_requests) (sym (ok-injective h))

-- In every state that requests coming and going in any order can reach from create_app, the
-- counter of outstanding requests is the number of the requests under way that are not health
-- probes.
pub Reach-IsCounted :
    {settings : RelaySettings} {s : System}
    → Reach settings s
    → s.app.outstanding_requests ≡ pos (counted s.running)
unfolding counted
Reach-IsCounted {settings} (created made) = create_app_idle settings _ made
Reach-IsCounted (next r step) = Step-IsCounted step (Reach-IsCounted r)
