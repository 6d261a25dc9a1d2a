-- ===== src/Redis/Keyspace.antt =====
-- The entries and the generations of a RedisCacheBackend share the keys of one server: what an
-- operation on one of them does to the others.
use rbatis_cache.Common.{
  ℕ, ◌+◌, ◌<◌, ◌≤◌, ◌≡◌, max, refl, false, some, Option, Text, Bytes, Duration, ascii, ◌++◌, ok,
  err, text_same, text_same-++, le→ltb-false, arith,
}
use mathlib.Core.Option
use rbatis_cache.Error.{CacheResult}
use rbatis_cache.Redis.{
  Server, Backend, value, settle, run, get, put, generation, bump_generation, generation_key,
  after_incr, entry_key, duration_ms,
}
use rbatis_cache.Redis.Honest.{HonestServer, run-value, run-same, run-ok}

module _ (blake3_hex : Bytes → Text) (server : Server) (honest : HonestServer server) where
  -- Entries and generations never meet.
  apart :
      (key namespace : Text) (r : Backend blake3_hex server)
      → text_same (entry_key key r) (generation_key blake3_hex server namespace r) ≡ false
  unfolding entry_key generation_key
  apart key namespace r =
      text_same-++ r.config.key_prefix (ascii ":entry:" ++ key)
        (ascii ":generation:" ++ blake3_hex namespace)

  apart_too :
      (key namespace : Text) (r : Backend blake3_hex server)
      → text_same (generation_key blake3_hex server namespace r) (entry_key key r) ≡ false
  unfolding entry_key generation_key
  apart_too key namespace r =
      text_same-++ r.config.key_prefix (ascii ":generation:" ++ blake3_hex namespace)
        (ascii ":entry:" ++ key)

  generations_apart :
      (namespace other : Text) (r : Backend blake3_hex server)
      → text_same (blake3_hex namespace) (blake3_hex other) ≡ false
      → text_same
          (generation_key blake3_hex server namespace r)
          (generation_key blake3_hex server other r)
        ≡ false
  unfolding generation_key
  generations_apart namespace other r h =
      rw
        (
          text_same-++ r.config.key_prefix (ascii ":generation:" ++ blake3_hex namespace)
              (ascii ":generation:" ++ blake3_hex other),
          text_same-++ (ascii ":generation:") (blake3_hex namespace) (blake3_hex other),
        )
        h

  entries_apart :
      (key other : Text) (r : Backend blake3_hex server)
      → text_same key other ≡ false
      → text_same (entry_key key r) (entry_key other r) ≡ false
  unfolding entry_key
  entries_apart key other r h =
      rw
        (
          text_same-++ r.config.key_prefix (ascii ":entry:" ++ key) (ascii ":entry:" ++ other),
          text_same-++ (ascii ":entry:") key other,
        )
        h

  get-answer :
      (later : ℕ) (key : Text) (found : Option Bytes) (r r' : Backend blake3_hex server)
      → r'.config ≡ r.config
      → r'.circuit_open_until_ms ≤ later
      → (server.get later (entry_key key r) r'.connection).0 ≡ value found
      → (get blake3_hex server later key r').0 ≡ ok found
  unfolding get entry_key
  get-answer later key found r r' same closed answer =
      (run-value later (server.get later (entry_key key r')) found r' closed (rw same answer)).0

  get-same :
      (later : ℕ) (key : Text) (r r' : Backend blake3_hex server)
      → r'.config ≡ r.config
      → r'.circuit_open_until_ms ≡ r.circuit_open_until_ms
      → (server.get later (entry_key key r) r'.connection).0
        ≡ (server.get later (entry_key key r) r.connection).0
      → (get blake3_hex server later key r').0 ≡ (get blake3_hex server later key r).0
  unfolding get entry_key
  get-same later key r r' same times answers =
      run-same later (server.get later (entry_key key r')) (server.get later (entry_key key r)) r' r
        (rw same answers) times

  generation-same :
      (later : ℕ) (namespace : Text) (r r' : Backend blake3_hex server)
      → r'.config ≡ r.config
      → r'.circuit_open_until_ms ≡ r.circuit_open_until_ms
      → (server.get_u64 later (generation_key blake3_hex server namespace r) r'.connection).0
        ≡ (server.get_u64 later (generation_key blake3_hex server namespace r) r.connection).0
      → (generation blake3_hex server later namespace r').0
        ≡ (generation blake3_hex server later namespace r).0
  unfolding generation generation_key
  generation-same later namespace r r' same times answers =
      rw
        (
          generation,
          run-same later (server.get_u64 later (generation_key blake3_hex server namespace r'))
              (server.get_u64 later (generation_key blake3_hex server namespace r)) r' r
              (rw same answers) times,
        )
        refl

  -- With a server that keeps its documentation (HonestServer: what an answered PSETEX has written
  -- is there for its milliseconds, and a command on one key leaves the others): after a `put`
  -- that has returned Ok, a `get` of the digest at a time before the end of its TTL, at which the
  -- circuit is closed, returns the bytes that were put; and at any time, on an open or a closed
  -- circuit, a `get` of another digest and the reading of any generation return what they would
  -- have returned without the `put`.
  pub put-keyspace :
      (now later time : ℕ) (key other namespace : Text) (bytes : Bytes) (ttl : Duration)
      (r : Backend blake3_hex server)
      → (put blake3_hex server now key bytes ttl r).0 ≡ ok tt
      → r.circuit_open_until_ms ≤ later
      → later < now + max (duration_ms ttl) 1
      → text_same key other ≡ false
      → ((get blake3_hex server later key (put blake3_hex server now key bytes ttl r).1).0
          ≡ ok (some bytes))
        × ((get blake3_hex server time other (put blake3_hex server now key bytes ttl r).1).0
            ≡ (get blake3_hex server time other r).0)
        × ((generation blake3_hex server time namespace
              (put blake3_hex server now key bytes ttl r).1).0
            ≡ (generation blake3_hex server time namespace r).0)
  unfolding put
  put-keyspace now later time key other namespace bytes ttl r written closed_later live differ =
      let ms = max (duration_ms ttl) 1 in
      let op = server.psetex now (entry_key key r) ms bytes in
      let (closed, answer) = run-ok now op tt r written in
      let (answered, stored, same, times) = run-value now op tt r closed answer in
      let after = (run now op r).1 in
      (
        get-answer later key (some bytes) r after same (omega (arith, times, closed_later)) (
            rw stored
              (honest.get-psetex now later ms (entry_key key r) bytes r.connection answer live)),
        get-same time other r after same times (
            rw stored (
              honest.get-psetex_other now time ms (entry_key key r) (entry_key other r) bytes
                r.connection (entries_apart key other r differ))),
        generation-same time namespace r after same times (
            rw stored (
              honest.get_u64-psetex_other now time ms (entry_key key r)
                (generation_key blake3_hex server namespace r) bytes r.connection
                (apart key namespace r))),
      )

  generation-answer :
      (later n : ℕ) (namespace : Text) (r r' : Backend blake3_hex server)
      → r'.config ≡ r.config
      → r'.circuit_open_until_ms ≤ later
      → (server.get_u64 later (generation_key blake3_hex server namespace r) r'.connection).0
        ≡ value (some n)
      → (generation blake3_hex server later namespace r').0 ≡ ok n
  unfolding generation generation_key
  generation-answer later n namespace r r' same closed answer =
      rw
        (
          generation,
          (run-value later (server.get_u64 later (generation_key blake3_hex server namespace r'))
              (some n) r' closed (rw same answer)).0,
        )
        refl

  -- What the caller of an INCR that answers gets, and what is left of the backend.
  bump_generation-answer :
      (now n : ℕ) (namespace : Text) (r : Backend blake3_hex server)
      → r.circuit_open_until_ms ≤ now
      → (server.incr now (generation_key blake3_hex server namespace r) r.connection).0 ≡ value n
      → let after = (bump_generation blake3_hex server now namespace r).1 in
        ((bump_generation blake3_hex server now namespace r).0 ≡ ok n)
        × (after.connection
            ≡ (server.incr now (generation_key blake3_hex server namespace r) r.connection).1)
        × (after.config ≡ r.config)
        × (after.circuit_open_until_ms ≡ r.circuit_open_until_ms)
  unfolding bump_generation after_incr run settle
  bump_generation-answer now n namespace r closed answer =
      rw (le→ltb-false now r.circuit_open_until_ms closed, answer) (refl, refl, refl, refl)

  -- A bump that returns a value was sent on a closed circuit, and its INCR was answered with it.
  bump_generation-ok :
      (now g : ℕ) (namespace : Text) (r : Backend blake3_hex server)
      → (bump_generation blake3_hex server now namespace r).0 ≡ ok g
      → (r.circuit_open_until_ms ≤ now)
        × ((server.incr now (generation_key blake3_hex server namespace r) r.connection).0
            ≡ value g)
  unfolding bump_generation after_incr
  bump_generation-ok now g namespace r bumped =
      let op = server.incr now (generation_key blake3_hex server namespace r) in
      run-ok now op g r (after_incr-ok (run now op r) bumped)
    where
      after_incr-ok :
          (p : CacheResult ℕ × Backend blake3_hex server)
          → (after_incr blake3_hex server p).0 ≡ ok g
          → p.0 ≡ ok g
      after_incr-ok (ok n, after) h = h
      after_incr-ok (err e, after) h = h

  -- With a server that keeps its documentation (HonestServer: an answered INCR has added one and
  -- leaves the key's lifetime, and a command on one key leaves the others): a `bump_generation`
  -- that has returned a generation has returned one more than what the server had for the
  -- namespace (0 if it had nothing); this is what `generation` returns at a time at which the
  -- circuit is closed and until which the server would have kept the old generation; and at any
  -- time, on an open or a closed circuit, a `get` of any digest and the generation of a namespace
  -- with another hash are what they would have been without the bump.
  pub bump_generation-keyspace :
      (now later time g : ℕ) (key namespace other : Text) (found : Option ℕ)
      (r : Backend blake3_hex server)
      → (bump_generation blake3_hex server now namespace r).0 ≡ ok g
      → r.circuit_open_until_ms ≤ later
      → (server.get_u64 now (generation_key blake3_hex server namespace r) r.connection).0
        ≡ value found
      → (server.get_u64 later (generation_key blake3_hex server namespace r) r.connection).0
        ≡ value found
      → text_same (blake3_hex namespace) (blake3_hex other) ≡ false
      → (g ≡ Option.get_or found 0 + 1)
        × ((generation blake3_hex server later namespace
              (bump_generation blake3_hex server now namespace r).1).0
            ≡ ok g)
        × ((get blake3_hex server time key (bump_generation blake3_hex server now namespace r).1).0
            ≡ (get blake3_hex server time key r).0)
        × ((generation blake3_hex server time other
              (bump_generation blake3_hex server now namespace r).1).0
            ≡ (generation blake3_hex server time other r).0)
  bump_generation-keyspace now later time g key namespace other found r bumped closed_later there
        still differ =
      let name = generation_key blake3_hex server namespace r in
      let (closed, counted) = bump_generation-ok now g namespace r bumped in
      let (answered, stored, same, times) =
        bump_generation-answer now g namespace r closed counted in
      let after = (bump_generation blake3_hex server now namespace r).1 in
      (
        honest.incr-adds now g name r.connection found there counted,
        generation-answer later g namespace r after same (omega (arith, times, closed_later)) (
            rw stored
              (honest.get_u64-incr now later g name r.connection found there still counted)),
        get-same time key r after same times (
            rw stored (
              honest.get-incr_other now time name (entry_key key r) r.connection
                (apart_too key namespace r))),
        generation-same time other r after same times (
            rw stored (
              honest.get_u64-incr_other now time name (generation_key blake3_hex server other r)
                r.connection (generations_apart namespace other r differ))),
      )
