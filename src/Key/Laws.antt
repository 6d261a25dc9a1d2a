-- ===== src/Key/Laws.antt =====
-- Keys keep apart what must be kept apart.
use mathlib.Core.Option
use rbatis_cache.Common.{
  ℕ, ◌≤◌, ◌≡◌, refl, sym, ap, ◌∙◌, ◌≢◌, ◌⊎◌, inl, inr, none, some, List, [], ◌∷◌, Text, Bytes,
  ascii, ok, length, All, arith, to_le_bytes, to_le_bytes-injective, u64_max, text_same,
  text_same_iff, Bool-cases,
}
use rbatis_cache.External.{External}
use rbatis_cache.Sql
use rbatis_cache.Sql.{SqlMetadata}
use rbatis_cache.Key.{CacheKeyInput, CacheKey, components, preimage, build, key_of}
use rbatis_cache.Key.Preimage.{frames, foldl-frames, frames-injective}

-- What the doc of CacheKeyInput calls the boundaries, with the parsed statement for the SQL. An
-- absent tenant counts as the tenant "-".
pub record SameBounds (i j : CacheKeyInput) (sql sql' : Text) (g h : ℕ) : Type 0 where
  pub version : i.version ≡ j.version
  pub data_source : i.data_source ≡ j.data_source
  pub driver : i.driver ≡ j.driver
  pub tenant : Option.get_or i.tenant (ascii "-") ≡ Option.get_or j.tenant (ascii "-")
  pub namespace : i.namespace ≡ j.namespace
  pub statement_id : i.statement_id ≡ j.statement_id
  pub canonical_sql : sql ≡ sql'
  pub generation : g ≡ h
  pub parameters : i.parameters ≡ j.parameters

-- What a 64-bit machine can hold.
pub record Fits (i : CacheKeyInput) (canonical_sql : Text) (g : ℕ) : Type 0 where
  pub texts : All (λ t. length t ≤ u64_max) (components i canonical_sql)
  pub counter : g ≤ u64_max
  pub arguments : length i.parameters ≤ u64_max

abbrev hashed : CacheKeyInput → Text → ℕ → List Bytes
hashed i sql g =
    i.version
    ∷ i.data_source
    ∷ i.driver
    ∷ Option.get_or i.tenant (ascii "-")
    ∷ i.namespace
    ∷ i.statement_id
    ∷ sql
    ∷ to_le_bytes g
    ∷ i.parameters
    ∷ []

preimage-frames :
    (i : CacheKeyInput) (sql : Text) (g : ℕ) → preimage i sql g ≡ frames (hashed i sql g)
unfolding preimage
preimage-frames i sql g = foldl-frames (hashed i sql g) []

hashed-Fits :
    (i : CacheKeyInput) (sql : Text) (g : ℕ)
    → Fits i sql g
    → All (λ c. length c ≤ u64_max) (hashed i sql g)
unfolding to_le_bytes
hashed-Fits i sql g f = omega (arith, f.texts, f.arguments)

-- The bytes that are hashed determine every boundary.
pub preimage-injective :
    (i j : CacheKeyInput) (sql sql' : Text) (g h : ℕ)
    → Fits i sql g
    → Fits j sql' h
    → preimage i sql g ≡ preimage j sql' h
    → SameBounds i j sql sql' g h
preimage-injective i j sql sql' g h f f' e =
    let same : hashed i sql g ≡ hashed j sql' h =
      frames-injective (hashed i sql g) (hashed j sql' h) (hashed-Fits i sql g f)
        (hashed-Fits j sql' h f') refl
        (sym (preimage-frames i sql g) ∙ (e ∙ preimage-frames j sql' h)) in
    record {
      version = cc;
      data_source = cc;
      driver = cc;
      tenant = cc;
      namespace = cc;
      statement_id = cc;
      canonical_sql = cc;
      generation = to_le_bytes-injective g h f.counter f'.counter (cc);
      parameters = cc;
    }

preimage-same :
    (i j : CacheKeyInput) (sql sql' : Text) (g h : ℕ)
    → SameBounds i j sql sql' g h
    → preimage i sql g ≡ preimage j sql' h
preimage-same i j sql sql' g h s =
    let same : hashed i sql g ≡ hashed j sql' h =
      rw
        (
          s.version, s.data_source, s.driver, s.tenant, s.namespace, s.statement_id,
          s.canonical_sql, s.generation, s.parameters,
        )
        refl in
    preimage-frames i sql g ∙ (ap frames same ∙ sym (preimage-frames j sql' h))

module _ (x : External) where
  -- Of two keys, built of SQL that can be parsed and of parts that fit a machine of 64 bits: if
  -- the inputs agree on every boundary, where no tenant counts as the tenant "-", the digests are
  -- equal; and if the digests are equal, the inputs agree on every boundary in that sense, or
  -- what is hashed for the two keys is different and blake3 does not tell it apart.
  pub build-isolates :
      (i j : CacheKeyInput) (g h : ℕ) (m m' : SqlMetadata) (k k' : CacheKey)
      → Sql.parse x i.sql ≡ ok m
      → Sql.parse x j.sql ≡ ok m'
      → Fits i m.canonical_sql g
      → Fits j m'.canonical_sql h
      → build x i g ≡ ok k
      → build x j h ≡ ok k'
      → (SameBounds i j m.canonical_sql m'.canonical_sql g h → k.digest ≡ k'.digest)
        × (k.digest ≡ k'.digest
            → SameBounds i j m.canonical_sql m'.canonical_sql g h
              ⊎ ((preimage i m.canonical_sql g ≢ preimage j m'.canonical_sql h)
                  × (x.blake3_hex (preimage i m.canonical_sql g)
                      ≡ x.blake3_hex (preimage j m'.canonical_sql h))))
  unfolding build
  build-isolates i j g h m m' k k' pi pj f f' bi bj =
      let a : Bytes = preimage i m.canonical_sql g in
      let b : Bytes = preimage j m'.canonical_sql h in
      let digest : k.digest ≡ x.blake3_hex a = ground arith in
      let digest' : k'.digest ≡ x.blake3_hex b = ground arith in
      (
        λ s.
            digest
            ∙ (ap x.blake3_hex (preimage-same i j m.canonical_sql m'.canonical_sql g h s)
                ∙ sym digest'),
        λ e. elim (Bool-cases (text_same a b)) [
          | inl same ↦ inl (
              preimage-injective i j m.canonical_sql m'.canonical_sql g h f f'
                ((text_same_iff a b).0 same))
          | inr differ ↦
              inr ((λ p. ground (arith, (text_same_iff a b).1 p)), sym digest ∙ (e ∙ digest'))
        ],
      )

  -- A key is built exactly when the SQL can be parsed.
  pub build-parse :
      (i : CacheKeyInput) (g : ℕ)
      → ((m : SqlMetadata) → Sql.parse x i.sql ≡ ok m → build x i g ≡ ok (key_of x i g m))
        × ((k : CacheKey) → build x i g ≡ ok k → (k.generation ≡ g) × (k.namespace ≡ i.namespace))
  unfolding build
  build-parse i g = (λ m p. rw (p, build), λ k b. ground arith)

  -- No tenant and the tenant "-" share their keys.
  pub build_tenant :
      (i : CacheKeyInput) (g : ℕ)
      → build x (record i { tenant = none }) g ≡ build x (record i { tenant = some (ascii "-") }) g
  unfolding build preimage
  build_tenant i g = refl
