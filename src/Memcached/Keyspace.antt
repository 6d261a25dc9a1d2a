-- ===== src/Memcached/Keyspace.antt =====
-- The entries and the generations of a MemcachedCacheBackend share the keys of one server: what an
-- operation on one of them does to the others.
use rbatis_cache.Common.{
  ℕ, ◌+◌, ◌<◌, ◌≡◌, refl, ◌∙◌, false, some, Option, Text, Bytes, ascii, ◌++◌, ok, text_same,
  text_same-++, u64_max, map_err, Result, err, ap,
}
use mathlib.Core.Option
use rbatis_cache.Error.{CacheError}
use rbatis_cache.Memcached.{
  MemcacheClient, Backend, get_object, client_incr, entry_key, counter, get, generation,
  bump_generation, generation_key,
}
use rbatis_cache.Memcached.Honest.{HonestClient}

module _ (blake3_hex : Bytes → Text) (c : MemcacheClient) (honest : HonestClient c) where
  -- Entries and generations never meet.
  apart :
      (key namespace : Text) (m : Backend c)
      → (text_same (entry_key c key m) (generation_key c blake3_hex namespace m) ≡ false)
        × (text_same (generation_key c blake3_hex namespace m) (entry_key c key m) ≡ false)
  unfolding entry_key generation_key
  apart key namespace m = (
    text_same-++ m.key_prefix (ascii ":entry:" ++ key)
        (ascii ":generation:" ++ blake3_hex namespace),
    text_same-++ m.key_prefix (ascii ":generation:" ++ blake3_hex namespace)
        (ascii ":entry:" ++ key),
  )

  generations_apart :
      (namespace other : Text) (m : Backend c)
      → text_same (blake3_hex namespace) (blake3_hex other) ≡ false
      → text_same (generation_key c blake3_hex namespace m) (generation_key c blake3_hex other m)
        ≡ false
  unfolding generation_key
  generations_apart namespace other m h =
      text_same-++ m.key_prefix (ascii ":generation:" ++ blake3_hex namespace)
        (ascii ":generation:" ++ blake3_hex other)
      ∙ text_same-++ (ascii ":generation:") (blake3_hex namespace) (blake3_hex other)
      ∙ h

  -- What a reading returns depends on what the client answers.
  get-same :
      (later : ℕ) (key : Text) (m : Backend c) (s : c.Store)
      → (c.get later (entry_key c key m) s).0 ≡ (c.get later (entry_key c key m) m.client).0
      → (get c later key (record m { client = s })).0 ≡ (get c later key m).0
  unfolding get get_object entry_key
  get-same later key m s answers = rw answers refl

  counter-same :
      (p q : Result Text (Option ℕ) × c.Store)
      → p.0 ≡ q.0
      → (counter c blake3_hex p).0 ≡ (counter c blake3_hex q).0
  unfolding counter
  counter-same (ok raw, s) (ok raw', s') h = cc
  counter-same (ok raw, s) (err e, s') h = cc
  counter-same (err e, s) (ok raw, s') h = cc
  counter-same (err e, s) (err e', s') h = cc

  generation-same :
      (later : ℕ) (namespace : Text) (m : Backend c) (s : c.Store)
      → (c.get_u64 later (generation_key c blake3_hex namespace m) s).0
        ≡ (c.get_u64 later (generation_key c blake3_hex namespace m) m.client).0
      → (generation c blake3_hex later namespace (record m { client = s })).0
        ≡ (generation c blake3_hex later namespace m).0
  unfolding generation counter generation_key
  generation-same later namespace m s answers = ap (map_err CacheError.backend) (
      counter-same (c.get_u64 later (generation_key c blake3_hex namespace m) s)
        (c.get_u64 later (generation_key c blake3_hex namespace m) m.client) answers)

  generation-answer :
      (later n : ℕ) (namespace : Text) (m : Backend c) (s : c.Store)
      → (c.get_u64 later (generation_key c blake3_hex namespace m) s).0 ≡ ok (some n)
      → (generation c blake3_hex later namespace (record m { client = s })).0 ≡ ok n
  unfolding generation counter generation_key
  generation-answer later n namespace m s answer = rw answer refl

  -- If the client answers and keeps what it is told (HonestClient), `bump_generation` returns one
  -- more than the generation that the server has for the namespace (0 if it has none), as long as
  -- that is below the largest u64; this is what `generation` returns then; and what a `get` of
  -- any digest and the generation of a namespace with another hash return, at any time, is what
  -- they returned without it.
  pub bump_generation-keys :
      (now later : ℕ) (key namespace other : Text) (found : Option ℕ) (m : Backend c)
      → (c.get_u64 now (generation_key c blake3_hex namespace m) m.client).0 ≡ ok found
      → Option.get_or found 0 < u64_max
      → text_same (blake3_hex namespace) (blake3_hex other) ≡ false
      → ((bump_generation c blake3_hex now namespace m).0 ≡ ok (Option.get_or found 0 + 1))
        × ((generation c blake3_hex later namespace
              (bump_generation c blake3_hex now namespace m).1).0
            ≡ ok (Option.get_or found 0 + 1))
        × ((get c later key (bump_generation c blake3_hex now namespace m).1).0
            ≡ (get c later key m).0)
        × ((generation c blake3_hex later other (bump_generation c blake3_hex now namespace m).1).0
            ≡ (generation c blake3_hex later other m).0)
  unfolding bump_generation client_incr
  bump_generation-keys now later key namespace other found m there small differ =
      let name = generation_key c blake3_hex namespace m in
      let g = Option.get_or found 0 in
      let added = (c.add now name 0 0 m.client).1 in
      let s = (c.increment now name 1 added).1 in
      let counted =
        honest.increment-ok now g name added (honest.get_u64-add now name m.client found there)
          small in
      let entry = (apart key namespace m).1 in
      let elsewhere = generations_apart namespace other m differ in
      (
        ap (map_err CacheError.backend) counted,
        generation-answer later (g + 1) namespace m s
            (honest.get_u64-increment now later (g + 1) name added counted),
        get-same later key m s (
            honest.get-increment_other now later name (entry_key c key m) added entry
            ∙ honest.get-add_other now later name (entry_key c key m) m.client entry),
        generation-same later other m s (
            honest.get_u64-increment_other now later name (generation_key c blake3_hex other m)
              added elsewhere
            ∙ honest.get_u64-add_other now later name (generation_key c blake3_hex other m) m.client
                elsewhere),
      )
