-- ===== src/Tests/Readiness.antt =====
-- A run of the theorem on the worker's readiness, with a Redis URL that does not parse.
use webhook_service.Prelude.{◌≡◌, ◌↔◌, true, false, ◌&&◌, none, some, [], ◌∷◌, lit}
use webhook_service.Observability.{ready_response, status_code_of}
use webhook_service.App.Readiness.{
  Dependencies, kafka_ping, worker_checks, redis_usable, redis_broken, worker_checks_iff,
}

abbrev dependencies : Dependencies
dependencies = record {
  pool_ping = true;
  dial = λ broker. some (λ topic. some 3);
  redis_parses = λ url. false;
  redis_ping = λ url. true;
}

worker_checks_iff_example :
    let response =
      ready_response true (worker_checks dependencies (lit "b" ∷ []) (lit "t") (lit "redis")) in
    ((status_code_of response ≡ some 200) ↔ (
      (true
        && (true
            && kafka_ping dependencies (lit "b" ∷ []) (lit "t")
            && redis_usable dependencies (lit "redis")))
      ≡ true))
    × ((response ≡ none) ↔ (redis_broken dependencies (lit "redis") ≡ true))
worker_checks_iff_example =
    worker_checks_iff true dependencies (lit "b" ∷ []) (lit "t") (lit "redis")
