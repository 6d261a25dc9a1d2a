-- ===== src/Local/Lawful.antt =====
-- LocalBackend fills the interface that the rest of the program relies on.
use rbatis_cache.Common.{
  ℕ, ◌<◌, ◌≤◌, ◌+◌, ◌≡◌, refl, ap, [], Text, Bytes, ok, arith, u64_max, saturating_add,
}
use rbatis_cache.Backend.Laws.{LawfulBackend}
use rbatis_cache.Local.{
  LocalBackend, local_backend, deadline, generation, bump_generation, read_generation,
}
use rbatis_cache.Local.Reads.{get-put}
use rbatis_cache.Local.Generations.{bump_generation-adds, read_generation-put}

module _ (blake3_hex : Bytes → Text) where
  below_largest :
      (now g : ℕ) (namespace : Text) (b : LocalBackend)
      → (bump_generation blake3_hex now namespace b).0 ≡ ok g
      → g < u64_max
      → read_generation namespace b + 1 ≤ u64_max
  unfolding bump_generation saturating_add
  below_largest now g namespace b h small = ground arith

  bumped_below :
      (now g : ℕ) (namespace : Text) (b : LocalBackend)
      → (bump_generation blake3_hex now namespace b).0 ≡ ok g
      → g < u64_max
      → read_generation namespace (bump_generation blake3_hex now namespace b).1 ≡ g
  bumped_below now g namespace b h small =
      let (returned, read) =
        bump_generation-adds blake3_hex now namespace b (below_largest now g namespace b h small) in
      ground arith

  -- A LocalBackend keeps the laws of a backend, with the deadline that `put` computes.
  pub local_backend-IsLawful : LawfulBackend (local_backend blake3_hex) deadline
  unfolding generation
  local_backend-IsLawful = record {
    get-put = λ now later key value ttl s h _. get-put now later key value ttl s h;
    generation-bump =
        λ now later g namespace s h small. ap ok (bumped_below now g namespace s h small);
    generation-put = λ now later key namespace value ttl s.
        ap ok (read_generation-put now key namespace value ttl s).0;
    generation-get =
        λ now later key namespace s. ap ok (read_generation-put now key namespace [] 0 s).1;
    generation-generation = λ now later namespace other s. refl;
    get-generation = λ now later key namespace s. refl;
  }
