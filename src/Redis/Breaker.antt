-- ===== src/Redis/Breaker.antt =====
-- The circuit breaker, from the failures that open it to the end of the cooldown.
use rbatis_cache.Common.{
  ℕ, ◌+◌, ◌≤◌, ◌<◌, ◌≡◌, refl, max, inl, inr, none, some, Option, List, [], ◌∷◌, All, All-map, Text,
  Bytes, Duration, length, ltb, arith, as_u32, saturating_add, Bool-cases, wrapping_add,
  le→ltb-false, ap, ◌∙◌, ok, err,
}
use rbatis_cache.Error.{CacheResult}
use rbatis_cache.Redis.{
  Server, Backend, Outcome, value, error, elapsed, RedisCacheBackend, RedisCacheConfig, count,
  duration_ms, open_circuit, record_failure, settle, run, get, put, generation, bump_generation,
  generation_key, entry_key, after_incr,
}
use rbatis_cache.Redis.Circuit.{circuit_is_open, operations-open}

-- Failures in a row that open the circuit.
abbrev pub limit : RedisCacheConfig → ℕ
limit config = max config.circuit_failure_threshold 1

-- The reading of the clock after a command that did not succeed.
abbrev pub failed_at : {T : Type 0} → Outcome T → Option ℕ
failed_at (value v) = none
failed_at (error at message) = some at
failed_at (elapsed at) = some at

module _ {Store : Type 0} where
  -- The count stays below the limit, and the limit is a u32.
  abbrev pub IsCounting : RedisCacheBackend Store → Type 0
  IsCounting r = (r.consecutive_failures < limit r.config) × (limit r.config ≤ 4294967295)

  record_failure-IsCounting :
      (now : ℕ) (r : RedisCacheBackend Store) → IsCounting r → IsCounting (record_failure now r)
  unfolding record_failure open_circuit as_u32
  record_failure-IsCounting now r (below, word) = ground arith

  settle-IsCounting :
      {T : Type 0}
      → (o : Outcome T) (r : RedisCacheBackend Store) → IsCounting r
      → IsCounting (settle o r).1
  unfolding settle
  settle-IsCounting (value v) r (below, word) = (omega arith, word)
  settle-IsCounting (error at message) r h =
      record_failure-IsCounting at (count (λ m. record m { errors = wrapping_add m.errors 1 }) r) h
  settle-IsCounting (elapsed at) r h =
      record_failure-IsCounting at
        (count (λ m. record m { timeouts = wrapping_add m.timeouts 1 }) r) h

  -- Whatever a command does, the count of failures in a row stays below the limit.
  run-IsCounting :
      {T : Type 0}
      → (now : ℕ) (op : Store → Outcome T × Store) (r : RedisCacheBackend Store) → IsCounting r
      → IsCounting (run now op r).1
  unfolding run
  run-IsCounting now op r h = elim (Bool-cases (ltb now r.circuit_open_until_ms)) [
    | inl closed ↦ rw closed h
    | inr sent ↦
        rw sent
          (settle-IsCounting (op r.connection).0 (record r { connection = (op r.connection).1 }) h)
  ]

  -- What a failure does, below the limit and at it.
  record Failed (at : ℕ) (r after : RedisCacheBackend Store) : Type 0 where
    config : after.config ≡ r.config
    below :
        r.consecutive_failures + 1 < limit r.config
        → (after.consecutive_failures ≡ r.consecutive_failures + 1)
          × (after.circuit_open_until_ms ≡ r.circuit_open_until_ms)
    reached :
        r.consecutive_failures + 1 ≡ limit r.config
        → after.circuit_open_until_ms ≡ saturating_add at (duration_ms r.config.circuit_cooldown)

  record_failure-Failed :
      (at : ℕ) (r : RedisCacheBackend Store) → IsCounting r → Failed at r (record_failure at r)
  unfolding record_failure open_circuit as_u32
  record_failure-Failed at r (below, word) = record {
    config = ground arith;
    below = λ h. ground arith;
    reached = λ h. ground arith;
  }

  settle-Failed :
      {T : Type 0}
      → (at : ℕ) (o : Outcome T) (r : RedisCacheBackend Store) → failed_at o ≡ some at
      → IsCounting r
      → Failed at r (settle o r).1
  unfolding settle
  settle-Failed at (value v) r f h = cc
  settle-Failed at (error at' message) r f h =
      let same : at' ≡ at = cc in
      let m =
        record_failure-Failed at (count (λ m. record m { errors = wrapping_add m.errors 1 }) r) h in
      rw same (record { config = m.config; below = m.below; reached = m.reached })
  settle-Failed at (elapsed at') r f h =
      let same : at' ≡ at = cc in
      let m =
        record_failure-Failed at (count (λ m. record m { timeouts = wrapping_add m.timeouts 1 }) r)
          h in
      rw same (record { config = m.config; below = m.below; reached = m.reached })

  run-Failed :
      {T : Type 0}
      → (now at : ℕ) (op : Store → Outcome T × Store) (r : RedisCacheBackend Store)
      → failed_at (op r.connection).0 ≡ some at
      → r.circuit_open_until_ms ≤ now
      → IsCounting r
      → Failed at r (run now op r).1
  unfolding run
  run-Failed now at op r f sent h = rw (le→ltb-false now r.circuit_open_until_ms sent) (
      let m =
        settle-Failed at (op r.connection).0 (record r { connection = (op r.connection).1 }) f h in
      record { config = m.config; below = m.below; reached = m.reached })

-- A call of one of the four methods.
pub data Call : Type 0 where
  get_call : Text → Call
  put_call : Text → Bytes → Duration → Call
  generation_call bump_call : Text → Call

-- A server that no command reaches: each fails, and when it has failed the clock stands at
-- `clock` of the time at which it was sent.
pub record Unreachable (server : Server) (clock : ℕ → ℕ) : Type 0 where
  pub get :
      (now : ℕ) (key : Text) (s : server.Store)
      → failed_at (server.get now key s).0 ≡ some (clock now)
  pub psetex :
      (now ms : ℕ) (key : Text) (bytes : Bytes) (s : server.Store)
      → failed_at (server.psetex now key ms bytes s).0 ≡ some (clock now)
  pub get_u64 :
      (now : ℕ) (key : Text) (s : server.Store)
      → failed_at (server.get_u64 now key s).0 ≡ some (clock now)
  pub incr :
      (now : ℕ) (key : Text) (s : server.Store)
      → failed_at (server.incr now key s).0 ≡ some (clock now)

module _ (blake3_hex : Bytes → Text) (server : Server) where
  -- The backend after a call at a time.
  unfoldable pub called : ℕ × Call → Backend blake3_hex server → Backend blake3_hex server
  called (now, get_call key) r = (get blake3_hex server now key r).1
  called (now, put_call key bytes ttl) r = (put blake3_hex server now key bytes ttl r).1
  called (now, generation_call namespace) r = (generation blake3_hex server now namespace r).1
  called (now, bump_call namespace) r = (bump_generation blake3_hex server now namespace r).1

  unfoldable pub all_called :
      List (ℕ × Call) → Backend blake3_hex server → Backend blake3_hex server
  unfolding called
  all_called [] r = r
  all_called (c ∷ calls) r = all_called calls (called c r)

  after_incr-state :
      (p : CacheResult ℕ × Backend blake3_hex server)
      → ((after_incr blake3_hex server p).1.consecutive_failures ≡ p.1.consecutive_failures)
        × ((after_incr blake3_hex server p).1.config ≡ p.1.config)
        × ((after_incr blake3_hex server p).1.circuit_open_until_ms ≡ p.1.circuit_open_until_ms)
  unfolding after_incr
  after_incr-state (ok g, r) = (refl, refl, refl)
  after_incr-state (err e, r) = (refl, refl, refl)

  called-IsCounting :
      (c : ℕ × Call) (r : Backend blake3_hex server) → IsCounting r → IsCounting (called c r)
  unfolding called get put generation bump_generation
  called-IsCounting (now, get_call key) r h =
      run-IsCounting now (server.get now (entry_key key r)) r h
  called-IsCounting (now, put_call key bytes ttl) r h =
      run-IsCounting now (server.psetex now (entry_key key r) (max (duration_ms ttl) 1) bytes) r h
  called-IsCounting (now, generation_call namespace) r h =
      run-IsCounting now (server.get_u64 now (generation_key blake3_hex server namespace r)) r h
  called-IsCounting (now, bump_call namespace) r h =
      let ran = run now (server.incr now (generation_key blake3_hex server namespace r)) r in
      let (failures, config, until) = after_incr-state ran in
      rw (failures, config)
        (run-IsCounting now (server.incr now (generation_key blake3_hex server namespace r)) r h)

  module _ (clock : ℕ → ℕ) (down : Unreachable server clock) where
    called-Failed :
        (c : ℕ × Call) (r : Backend blake3_hex server)
        → r.circuit_open_until_ms ≤ c.0
        → IsCounting r
        → Failed (clock c.0) r (called c r)
    unfolding called get put generation bump_generation
    called-Failed (now, get_call key) r sent h =
        run-Failed now (clock now) (server.get now (entry_key key r)) r
          (down.get now (entry_key key r) r.connection) sent h
    called-Failed (now, put_call key bytes ttl) r sent h =
        run-Failed now (clock now)
          (server.psetex now (entry_key key r) (max (duration_ms ttl) 1) bytes) r
          (down.psetex now (max (duration_ms ttl) 1) (entry_key key r) bytes r.connection) sent h
    called-Failed (now, generation_call namespace) r sent h =
        run-Failed now (clock now)
          (server.get_u64 now (generation_key blake3_hex server namespace r)) r
          (down.get_u64 now (generation_key blake3_hex server namespace r) r.connection) sent h
    called-Failed (now, bump_call namespace) r sent h =
        let op = server.incr now (generation_key blake3_hex server namespace r) in
        let (failures, config, until) = after_incr-state (run now op r) in
        let m =
          run-Failed now (clock now) op r
            (down.incr now (generation_key blake3_hex server namespace r) r.connection) sent h in
        record {
          config = config ∙ m.config;
          below = λ b. (failures ∙ (m.below b).0, until ∙ (m.below b).1);
          reached = λ e. until ∙ m.reached e;
        }

    -- While every command fails, with an error or by its timeout, from a closed circuit with a count
    -- below the limit, which is a u32: as many calls of any methods, at any times after the last
    -- cooldown, as leave one more failure to the limit do not open the circuit; one more such call
    -- opens it for the cooldown from the time at which that call has failed; and until the end of it
    -- every method returns the error of an open circuit and changes nothing.
    pub all_called-opens :
        (calls : List (ℕ × Call)) (last : ℕ × Call) (later : ℕ) (key namespace : Text)
        (bytes : Bytes) (ttl : Duration) (r : Backend blake3_hex server)
        → All (λ (c : ℕ × Call). r.circuit_open_until_ms ≤ c.0) calls
        → r.circuit_open_until_ms ≤ last.0
        → IsCounting r
        → r.consecutive_failures + length calls + 1 ≡ limit r.config
        → later < saturating_add (clock last.0) (duration_ms r.config.circuit_cooldown)
        → let opened = called last (all_called calls r) in
          ((all_called calls r).circuit_open_until_ms ≡ r.circuit_open_until_ms)
          × (opened.circuit_open_until_ms
              ≡ saturating_add (clock last.0) (duration_ms r.config.circuit_cooldown))
          × (get blake3_hex server later key opened ≡ (err circuit_is_open, opened))
          × (put blake3_hex server later key bytes ttl opened ≡ (err circuit_is_open, opened))
          × (generation blake3_hex server later namespace opened ≡ (err circuit_is_open, opened))
          × (bump_generation blake3_hex server later namespace opened
              ≡ (err circuit_is_open, opened))
    unfolding all_called
    all_called-opens [] last later key namespace bytes ttl r sent sent_last h limit_reached during =
        let until = (called-Failed last r sent_last h).reached (omega arith) in
        let (got, written, read, bumped) =
          operations-open blake3_hex server later key namespace bytes ttl (called last r)
            (rw until during) in
        (refl, until, got, written, read, bumped)
    all_called-opens (c ∷ calls) last later key namespace bytes ttl r sent sent_last h limit_reached
          during =
        let failed = called-Failed c r sent.0 h in
        let (counted, unchanged) = failed.below (omega arith) in
        let (closed, until, got, written, read, bumped) =
          all_called-opens calls last later key namespace bytes ttl (called c r)
            (All-map (λ d g. rw unchanged g) calls sent.1) (rw unchanged sent_last)
            (called-IsCounting c r h) (rw (failed.config, counted) (omega (arith, limit_reached)))
            (rw (failed.config) during) in
        (
          closed ∙ unchanged,
          until
              ∙ ap
                  (λ (config : RedisCacheConfig).
                    saturating_add (clock last.0) (duration_ms config.circuit_cooldown))
                  failed.config,
          got,
          written,
          read,
          bumped,
        )
