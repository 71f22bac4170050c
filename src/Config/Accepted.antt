-- ===== src/Config/Accepted.antt =====
-- go/internal/config/config.go: which configurations `Validate` accepts.
use cronix.Prelude.{List, ◌∷◌, ◌≡◌, [], ◌↔◌, refl, not}
use cronix.Config.{
  config_issues, Config, validate, filled, issue_if, log_level_issue, sources_issues,
  lock_default_issue, redis_issues, outside, timeout_issue, attempts_issue, seconds_issue,
}
use cronix.Prelude.Text.{Text, codes, contains}
use cronix.Config.Filled.{
  IsConfig, append-empty, In→contains, sources_issues-none, redis_issues-none, within-outside,
  leℤ-ltℤ, contains→In, not-false, issue_if-empty, sources_issues-empty, redis_issues-empty,
  outside-false, ltℤ-false,
}

abbrev levels : List Text
levels = codes "debug" ∷ codes "info" ∷ codes "warn" ∷ codes "error" ∷ []

abbrev lock_backends : List Text
lock_backends = codes "flock" ∷ codes "redis" ∷ []

config_issues-empty : (c : Config) → config_issues c ≡ [] → IsConfig c
unfolding config_issues
config_issues-empty c h =
    let (a, r1) = append-empty (issue_if (not (contains levels c.log_level)) log_level_issue) _ h in
    let (b, r2) = append-empty (sources_issues 0 c.manifest_sources) _ r1 in
    let (d, r3) =
      append-empty (issue_if (not (contains lock_backends c.locks.default)) lock_default_issue) _
        r2 in
    let (e, r4) = append-empty (redis_issues c.locks.redis) _ r3 in
    let (f, r5) =
      append-empty (issue_if (outside c.defaults.timeout_seconds 600) timeout_issue) _ r4 in
    let (g, r6) =
      append-empty (issue_if (outside c.defaults.retries.max_attempts 10) attempts_issue) _ r5 in
    record {
      level = contains→In levels c.log_level (not-false _ (issue_if-empty _ log_level_issue a));
      sources = sources_issues-empty 0 c.manifest_sources b;
      lock =
          contains→In lock_backends c.locks.default
            (not-false _ (issue_if-empty _ lock_default_issue d));
      addr = redis_issues-empty c.locks.redis e;
      timeout = outside-false c.defaults.timeout_seconds 600 (issue_if-empty _ timeout_issue f);
      attempts =
          outside-false c.defaults.retries.max_attempts 10 (issue_if-empty _ attempts_issue g);
      wait =
          ltℤ-false c.defaults.retries.min_seconds c.defaults.retries.max_seconds
            (issue_if-empty _ seconds_issue r6);
    }

config_issues-none : (c : Config) → IsConfig c → config_issues c ≡ []
unfolding config_issues
config_issues-none c h =
    rw
      (
        In→contains levels c.log_level h.level,
        config_issues,
        sources_issues-none 0 c.manifest_sources h.sources,
        In→contains lock_backends c.locks.default h.lock,
        redis_issues-none c.locks.redis h.addr,
        within-outside c.defaults.timeout_seconds 600 h.timeout,
        within-outside c.defaults.retries.max_attempts 10 h.attempts,
        leℤ-ltℤ c.defaults.retries.min_seconds c.defaults.retries.max_seconds h.wait,
      )
      refl

-- `Validate` reports nothing exactly for a configuration that, with the defaults filled in, has a
-- known log level and lock backend, sources with an app, an allowed URL and secret references with
-- a scheme and a value, an address for Redis where it is configured, a timeout of 1 to 600 seconds,
-- 1 to 10 attempts and a least wait that is at most the greatest.
pub validate_iff : (c : Config) → ((validate c).1 ≡ []) ↔ IsConfig (validate c).0
unfolding validate
validate_iff c = (config_issues-empty (filled c), config_issues-none (filled c))
