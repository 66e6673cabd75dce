-- ===== src/Service/Resources.antt =====
-- `NewResources` of internal/http/resources.go.
use anicetus.Prelude.{Option, none, some, [], ◌∷◌}
use anicetus.Prelude.Int.{ℤ, pos}
use anicetus.Anicetus.{new_anicetus}
use anicetus.Detector.Options.{
  minute, with_limiters_burst, with_limiters_interval, with_cool_down_interval,
}
use anicetus.Detector.InMemory.{new_token_bucket_in_memory}
use anicetus.Detector.Timed.{Clock}
use anicetus.Envs.{Settings}
use anicetus.Service.{Service}
use anicetus.Storage.{new_in_memory}

-- The logger is known by its level and the client of the backend by its timeout.
pub record Resources (F R L : Type 0) : Type 0 where
  pub logger : L
  pub anicetus : Service F R
  pub backend_client : ℤ

-- The clock is the one that `time.Now()` reads from then on; `none` is the panic of a ticker in the
-- goroutine of a map.
unfoldable pub new_resources :
    {F R L U : Type 0} → Clock → Settings L ℤ U → Option (Resources F R L)
new_resources {F} {R} {L} clock config =
    elim (new_token_bucket_in_memory {F = F} {R = R} {L = L} (
      with_limiters_burst config.requests_per_minute
      ∷ with_limiters_interval (pos minute)
      ∷ with_cool_down_interval config.cool_down
      ∷ [])) [
        | none ↦ none
        | some detector ↦ some (record {
          logger = config.logger_level;
          anicetus = new_anicetus (record { buckets = detector; clock = clock }) new_in_memory;
          backend_client = config.timeout;
        })
      ]
