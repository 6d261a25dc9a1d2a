-- ===== src/Tests/Keys.antt =====
-- The theorems on SQL and keys, at concrete inputs.
use rbatis_cache.Common.{ℕ, ◌≡◌, ◌≢◌, ◌⊎◌, refl, [], ◌∷◌, ascii, ok, arith}
use rbatis_cache.Key
use rbatis_cache.Key.{CacheKey, CacheKeyInput}
use rbatis_cache.Key.Laws.{SameBounds, Fits, build-isolates}
use rbatis_cache.Sql
use rbatis_cache.Tests.Fixtures.{libraries, request_key, select_one}

abbrev key_at : ℕ → CacheKey
key_at g = Key.key_of libraries request_key g (Sql.metadata_of libraries (select_one ∷ []))

fits : Fits request_key select_one 7
fits = record { texts = omega arith; counter = omega arith; arguments = omega arith }

parsed : Sql.parse libraries select_one ≡ ok (Sql.metadata_of libraries (select_one ∷ []))
unfolding Sql.parse
parsed = refl

built : Key.build libraries request_key 7 ≡ ok (key_at 7)
unfolding Key.build Sql.parse
built = refl

build-isolates_example :
    (SameBounds request_key request_key select_one select_one 7 7
      → (key_at 7).digest ≡ (key_at 7).digest)
    × ((key_at 7).digest ≡ (key_at 7).digest
        → SameBounds request_key request_key select_one select_one 7 7
          ⊎ ((Key.preimage request_key select_one 7 ≢ Key.preimage request_key select_one 7)
              × (libraries.blake3_hex (Key.preimage request_key select_one 7)
                  ≡ libraries.blake3_hex (Key.preimage request_key select_one 7))))
unfolding Sql.metadata_of Sql.join
build-isolates_example =
    build-isolates libraries request_key request_key 7 7
      (Sql.metadata_of libraries (select_one ∷ [])) (Sql.metadata_of libraries (select_one ∷ []))
      (key_at 7) (key_at 7) parsed parsed fits fits built built

lowered : Sql.to_ascii_lowercase (ascii "FOR Update") ≡ ascii "for update"
unfolding Sql.to_ascii_lowercase
lowered = refl
