-- ===== src/Redis/Honest.antt =====
-- What is assumed of a Redis server, and what a command that is answered leaves of the backend.
use rbatis_cache.Common.{
  ℕ, ◌+◌, ◌<◌, ◌≤◌, ◌≡◌, refl, inl, inr, false, some, Option, Text, Bytes, ascii, ok, err,
  text_same, le→ltb-false, ltb-false→le, ltb, Bool, true, sym, ◌∙◌, Bool-cases, if◌then◌else◌,
}
use mathlib.Core.Option
use rbatis_cache.Error.{CacheError, CacheResult}
use rbatis_cache.Redis.{Server, RedisCacheBackend, Outcome, value, error, elapsed, settle, run}

-- What Redis documents of the four commands, with the policy `noeviction`: what a PSETEX has
-- written is there for its milliseconds; an INCR that is answered has added one, and leaves the
-- key's lifetime; and a command on one key leaves the others, whether it is answered or not.
pub record HonestServer (server : Server) : Type 0 where
  pub get-psetex :
      (now later ms : ℕ) (key : Text) (bytes : Bytes) (s : server.Store)
      → (server.psetex now key ms bytes s).0 ≡ value tt
      → later < now + ms
      → (server.get later key (server.psetex now key ms bytes s).1).0 ≡ value (some bytes)
  pub get-psetex_other :
      (now later ms : ℕ) (key other : Text) (bytes : Bytes) (s : server.Store)
      → text_same key other ≡ false
      → (server.get later other (server.psetex now key ms bytes s).1).0
        ≡ (server.get later other s).0
  pub get_u64-psetex_other :
      (now later ms : ℕ) (key other : Text) (bytes : Bytes) (s : server.Store)
      → text_same key other ≡ false
      → (server.get_u64 later other (server.psetex now key ms bytes s).1).0
        ≡ (server.get_u64 later other s).0
  pub incr-adds :
      (now n : ℕ) (key : Text) (s : server.Store) (found : Option ℕ)
      → (server.get_u64 now key s).0 ≡ value found
      → (server.incr now key s).0 ≡ value n
      → n ≡ Option.get_or found 0 + 1
  pub get_u64-incr :
      (now later n : ℕ) (key : Text) (s : server.Store) (found : Option ℕ)
      → (server.get_u64 now key s).0 ≡ value found
      → (server.get_u64 later key s).0 ≡ value found
      → (server.incr now key s).0 ≡ value n
      → (server.get_u64 later key (server.incr now key s).1).0 ≡ value (some n)
  pub get_u64-incr_other :
      (now later : ℕ) (key other : Text) (s : server.Store)
      → text_same key other ≡ false
      → (server.get_u64 later other (server.incr now key s).1).0 ≡ (server.get_u64 later other s).0
  pub get-incr_other :
      (now later : ℕ) (key other : Text) (s : server.Store)
      → text_same key other ≡ false
      → (server.get later other (server.incr now key s).1).0 ≡ (server.get later other s).0

-- What the caller gets for the end of a command.
reply : {T : Type 0} → Outcome T → CacheResult T
reply (value v) = ok v
reply (error at message) = err (CacheError.backend message)
reply (elapsed at) = err (CacheError.backend (ascii "redis operation timed out"))

reply-ok : {T : Type 0} → (o : Outcome T) (v : T) → reply o ≡ ok v → o ≡ value v
unfolding reply
reply-ok (value w) v h = cc
reply-ok (error at message) v h = cc
reply-ok (elapsed at) v h = cc

module _ {Store : Type 0} where
  -- What a command that answers leaves of the backend.
  pub run-value :
      {T : Type 0}
      → (now : ℕ) (op : Store → Outcome T × Store) (v : T) (r : RedisCacheBackend Store)
      → r.circuit_open_until_ms ≤ now
      → (op r.connection).0 ≡ value v
      → ((run now op r).0 ≡ ok v)
        × ((run now op r).1.connection ≡ (op r.connection).1)
        × ((run now op r).1.config ≡ r.config)
        × ((run now op r).1.circuit_open_until_ms ≡ r.circuit_open_until_ms)
  unfolding run settle
  run-value now op v r closed answer =
      rw (le→ltb-false now r.circuit_open_until_ms closed, answer) (refl, refl, refl, refl)

  settle-reply :
      {T : Type 0} → (o : Outcome T) (r : RedisCacheBackend Store) → (settle o r).0 ≡ reply o
  unfolding settle reply
  settle-reply (value v) r = refl
  settle-reply (error at message) r = refl
  settle-reply (elapsed at) r = refl

  run-reply :
      {T : Type 0}
      → (now : ℕ) (op : Store → Outcome T × Store) (r : RedisCacheBackend Store)
      → (run now op r).0 ≡ (
          if ltb now r.circuit_open_until_ms
          then err (CacheError.backend (ascii "redis circuit is open"))
          else reply (op r.connection).0)
  unfolding run
  run-reply now op r = elim (Bool-cases (ltb now r.circuit_open_until_ms)) [
    | inl is_open ↦ rw is_open refl
    | inr closed ↦
        rw closed (settle-reply (op r.connection).0 (record r { connection = (op r.connection).1 }))
  ]

  -- A command that ends in the same way gives the same result.
  pub run-same :
      {T : Type 0}
      → (now : ℕ) (op op' : Store → Outcome T × Store) (r r' : RedisCacheBackend Store)
      → (op r.connection).0 ≡ (op' r'.connection).0
      → r.circuit_open_until_ms ≡ r'.circuit_open_until_ms
      → (run now op r).0 ≡ (run now op' r').0
  run-same now op op' r r' answers times =
      rw (run-reply now op r, run-reply now op' r', answers, times) refl

  -- A call that returns a value found the circuit closed, and its command was answered with the
  -- value.
  pub run-ok :
      {T : Type 0}
      → (now : ℕ) (op : Store → Outcome T × Store) (v : T) (r : RedisCacheBackend Store)
      → (run now op r).0 ≡ ok v
      → (r.circuit_open_until_ms ≤ now) × ((op r.connection).0 ≡ value v)
  run-ok now op v r returned =
      go (ltb now r.circuit_open_until_ms) refl (sym (run-reply now op r) ∙ returned)
    where
      go :
          (t : Bool)
          → ltb now r.circuit_open_until_ms ≡ t
          → (if t
              then err (CacheError.backend (ascii "redis circuit is open"))
              else reply (op r.connection).0)
            ≡ ok v
          → (r.circuit_open_until_ms ≤ now) × ((op r.connection).0 ≡ value v)
      go true is_open h = cc
      go false closed h =
          (ltb-false→le now r.circuit_open_until_ms closed, reply-ok (op r.connection).0 v h)
