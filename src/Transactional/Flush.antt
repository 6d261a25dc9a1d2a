-- ===== src/Transactional/Flush.antt =====
-- What a flush into a LocalBackend does to the generations.
use rbatis_cache.Common.{
  ℕ, ◌+◌, ◌≤◌, ◌≡◌, refl, ◌∙◌, inl, inr, Bool, false, List, [], ◌∷◌, Text, Bytes, Duration,
  text_key, text_same, text_same_iff, u64_max, ok, err, arith, subst, ap, length, not, ◌&&◌, ◌||◌,
  Bool-cases, if◌then◌else◌, map_err,
}
use rbatis_cache.DashMap.{IsDistinct, IsMissing}
use rbatis_cache.Envelope
use rbatis_cache.Error.{CacheError, CacheResult}
use rbatis_cache.External.{External}
use rbatis_cache.Key.{CacheKey}
use rbatis_cache.Local.{LocalBackend, local_backend, put, bump_generation, read_generation}
use rbatis_cache.Local.Generations.{
  bump_generation-adds, bump_generation-other, read_generation-put,
}
use rbatis_cache.Transactional.{
  TransactionalCacheBuffer, bump_all, put_all, put_payload, put_encoded, flush_to, and_then,
}

-- One more for a marked namespace.
abbrev raised : Text → List (Text × Unit {0}) → ℕ → ℕ
raised namespace [] g = g
raised namespace ((marked, _) ∷ rest) g =
    if text_same marked namespace then g + 1 else raised namespace rest g

abbrev pub marks : Text → List (Text × Unit {0}) → Bool
marks namespace [] = false
marks namespace ((marked, _) ∷ rest) = text_same marked namespace || marks namespace rest

raised-marks :
    (namespace : Text) (list : List (Text × Unit {0})) (g : ℕ)
    → raised namespace list g ≡ (if marks namespace list then g + 1 else g)
raised-marks namespace [] g = refl
raised-marks namespace ((marked, _) ∷ rest) g = ground (arith, raised-marks namespace rest g)

module _ (x : External) (blake3_hex : Bytes → Text) (now : ℕ) where
  bumped : Text → LocalBackend → LocalBackend
  bumped marked s = (bump_generation blake3_hex now marked s).1

  -- Every bump of the local backend succeeds, so the loop goes on.
  bump_all-bumped :
      (marked : Text) (rest : List (Text × Unit {0})) (s : LocalBackend)
      → bump_all x (local_backend blake3_hex) now ((marked, tt) ∷ rest) s
        ≡ bump_all x (local_backend blake3_hex) now rest (bumped marked s)
  unfolding bump_all bumped bump_generation
  bump_all-bumped marked rest s = refl

  -- One entry, and what comes after it.
  put_encoded-generation :
      (key : CacheKey) (ttl : Duration) (r : CacheResult Bytes) (namespace : Text)
      (k : LocalBackend → CacheResult (Unit {0}) × LocalBackend) (s : LocalBackend)
      → ((s : LocalBackend) → read_generation namespace (k s).1 ≡ read_generation namespace s)
      → read_generation namespace
          (and_then x
            (local_backend blake3_hex)
            now
            (put_encoded x (local_backend blake3_hex) now key ttl r s)
            k).1
        ≡ read_generation namespace s
  unfolding put
  put_encoded-generation key ttl (err e) namespace k s after = refl
  put_encoded-generation key ttl (ok envelope) namespace k s after =
      after (put now key.digest envelope ttl s).1
      ∙ (read_generation-put now key.digest namespace envelope ttl s).0

  put_payload-generation :
      (key : CacheKey) (ttl : Duration) (r : CacheResult Bytes) (namespace : Text)
      (k : LocalBackend → CacheResult (Unit {0}) × LocalBackend) (s : LocalBackend)
      → ((s : LocalBackend) → read_generation namespace (k s).1 ≡ read_generation namespace s)
      → read_generation namespace
          (and_then x
            (local_backend blake3_hex)
            now
            (put_payload x (local_backend blake3_hex) now key ttl r s)
            k).1
        ≡ read_generation namespace s
  put_payload-generation key ttl (err e) namespace k s after = refl
  put_payload-generation key ttl (ok payload) namespace k s after =
      put_encoded-generation key ttl (Envelope.encode x (Envelope.new now key payload ttl))
        namespace k s after

  put_all-generation :
      (ttl : Duration) (entries : List (Text × (CacheKey × x.Value))) (namespace : Text)
      (s : LocalBackend)
      → read_generation namespace (put_all x (local_backend blake3_hex) now ttl entries s).1
        ≡ read_generation namespace s
  unfolding put_all
  put_all-generation ttl [] namespace s = refl
  put_all-generation ttl ((digest, (key, value)) ∷ rest) namespace s =
      put_payload-generation key ttl (map_err CacheError.codec (x.encode_value value)) namespace
        (put_all x (local_backend blake3_hex) now ttl rest) s
        (put_all-generation ttl rest namespace)

  raised-missing :
      (namespace : Text) (marks : List (Text × Unit {0})) (g : ℕ)
      → IsMissing namespace marks
      → raised namespace marks g ≡ g
  raised-missing namespace [] g h = refl
  raised-missing namespace ((marked, _) ∷ rest) g h = rw (h.0) (raised-missing namespace rest g h.1)

  bumped-generation :
      (marked namespace : Text) (s : LocalBackend)
      → read_generation marked s + 1 ≤ u64_max
      → read_generation namespace (bumped marked s) ≡ (
          if text_same marked namespace
          then read_generation namespace s + 1
          else read_generation namespace s)
  unfolding bumped
  bumped-generation marked namespace s h = elim (Bool-cases (text_same marked namespace)) [
    | inl same ↦ rw same (
        subst
          (λ n.
            read_generation n (bump_generation blake3_hex now marked s).1 ≡ read_generation n s + 1)
          ((text_same_iff marked namespace).0 same)
          (bump_generation-adds blake3_hex now marked s h).1)
    | inr other ↦ rw other (bump_generation-other blake3_hex now marked namespace s other)
  ]

  bump_all-generation :
      (marks : List (Text × Unit {0})) (namespace : Text) (s : LocalBackend)
      → IsDistinct marks
      → ((n : Text) → read_generation n s + length marks ≤ u64_max)
      → read_generation namespace (bump_all x (local_backend blake3_hex) now marks s).1
        ≡ raised namespace marks (read_generation namespace s)
  unfolding bump_all
  bump_all-generation [] namespace s d h = refl
  bump_all-generation ((marked, _) ∷ rest) namespace s d h =
      let after = bumped-generation marked namespace s (omega (arith, h marked)) in
      let ih =
        bump_all-generation rest namespace (bumped marked s) d.1
          (λ n. ground (arith, h n, bumped-generation marked n s (omega (arith, h marked)))) in
      elim (Bool-cases (text_same marked namespace)) [
        | inl same ↦
            let missing =
              subst (λ n. IsMissing n rest) ((text_same_iff marked namespace).0 same) d.0 in
            rw (bump_all-bumped marked rest s, same)
              (ih
                ∙ raised-missing namespace rest (read_generation namespace (bumped marked s))
                    missing
                ∙ ground (arith, after))
        | inr other ↦
            rw (bump_all-bumped marked rest s, other)
              (ih ∙ ap (raised namespace rest) (ground (arith, after)))
      ]

  -- Whether the first part ends with an error or not, the second changes no generation.
  and_then-generation :
      (namespace : Text) (first : CacheResult (Unit {0}) × LocalBackend)
      (k : LocalBackend → CacheResult (Unit {0}) × LocalBackend)
      → ((s : LocalBackend) → read_generation namespace (k s).1 ≡ read_generation namespace s)
      → read_generation namespace (and_then x (local_backend blake3_hex) now first k).1
        ≡ read_generation namespace first.1
  and_then-generation namespace (ok _, s) k keeps = keeps s
  and_then-generation namespace (err e, s) k keeps = refl

  flush_to-marks :
      (buf : TransactionalCacheBuffer x.Value) (namespace : Text) (s : LocalBackend)
      → IsDistinct buf.clear_namespaces
      → ((n : Text) → read_generation n s + length buf.clear_namespaces ≤ u64_max)
      → read_generation namespace (flush_to x (local_backend blake3_hex) now buf s).1 ≡ (
          if marks namespace buf.clear_namespaces
          then read_generation namespace s + 1
          else read_generation namespace s)
  unfolding flush_to
  flush_to-marks buf namespace s d h =
      and_then-generation namespace
        (bump_all x (local_backend blake3_hex) now buf.clear_namespaces s)
        (put_all x (local_backend blake3_hex) now buf.ttl buf.pending_add)
        (put_all-generation buf.ttl buf.pending_add namespace)
      ∙ bump_all-generation buf.clear_namespaces namespace s d h
      ∙ raised-marks namespace buf.clear_namespaces (read_generation namespace s)

  -- As long as no generation passes the largest u64, a flush into a local backend raises the
  -- generation of each namespace that is marked by one and leaves the others, whether or not it ends
  -- with an error; an entry of a marked namespace that was filed under the generation before is not
  -- fresh afterwards, at any time.
  pub flush_to-generation :
      (buf : TransactionalCacheBuffer x.Value) (namespace : Text) (s : LocalBackend)
      (key : CacheKey) (payload : Bytes) (ttl : Duration) (written later : ℕ)
      → IsDistinct buf.clear_namespaces
      → ((n : Text) → read_generation n s + length buf.clear_namespaces ≤ u64_max)
      → key.generation ≡ read_generation namespace s
      → (read_generation namespace (flush_to x (local_backend blake3_hex) now buf s).1 ≡ (
          if marks namespace buf.clear_namespaces
          then read_generation namespace s + 1
          else read_generation namespace s))
        × (Envelope.is_fresh later
              (read_generation namespace (flush_to x (local_backend blake3_hex) now buf s).1)
              (Envelope.new written key payload ttl)
            ≡ (not (marks namespace buf.clear_namespaces)
                && Envelope.is_fresh later key.generation (Envelope.new written key payload ttl)))
  unfolding Envelope.is_fresh Envelope.new
  flush_to-generation buf namespace s key payload ttl written later d h same =
      let after = flush_to-marks buf namespace s d h in
      (
        after,
        elim (Bool-cases (marks namespace buf.clear_namespaces)) [
          | inl marked ↦ rw (after, marked, same) (ground arith)
          | inr unmarked ↦ rw (after, unmarked, same) refl
        ],
      )
