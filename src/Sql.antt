-- ===== src/Sql.antt =====
-- src/sql.rs: what the cache reads off a statement.
pub mod Contains
pub mod Laws
use mathlib.Core.List.{foldl}
use rbatis_cache.Common.{
  ℕ, ◌+◌, Bool, true, false, not, ◌&&◌, ◌||◌, List, [], ◌∷◌, ◌++◌, map, Text, ascii, ok, err, leb,
  if◌then◌else◌,
}
use rbatis_cache.Error.{CacheResult, CacheError}
use rbatis_cache.External.{External}
use rbatis_cache.BTreeSet
use Contains.{contains}

pub data StatementKind : Type 0 where
  select other : StatementKind

abbrev pub is_select : StatementKind → Bool
is_select select = true
is_select other = false

pub record SqlMetadata : Type 0 where
  pub canonical_sql : Text
  pub table_tags : List Text
  pub kind : StatementKind
  pub locking_select : Bool

-- to_ascii_lowercase
unfoldable pub to_ascii_lowercase : Text → Text
to_ascii_lowercase = map (λ c. if leb 65 c && leb c 90 then c + 32 else c)

-- join("; ")
unfoldable pub join : List Text → Text
join [] = []
join (t ∷ []) = t
join (t ∷ u ∷ ts) = t ++ (ascii "; " ++ join (u ∷ ts))

module _ (x : External) where
  -- exactly one statement, and that a query
  unfoldable pub kind_of : List x.Statement → StatementKind
  kind_of (s ∷ []) = if x.is_query s then select else other
  kind_of _ = other

  unfoldable pub tags_of : List x.Statement → List Text
  tags_of statements =
      foldl (λ tags relation. BTreeSet.insert (to_ascii_lowercase relation) tags) []
        (x.relations statements)

  unfoldable pub metadata_of : List x.Statement → SqlMetadata
  unfolding kind_of tags_of
  metadata_of statements =
      let canonical = join (map x.render statements) in
      let lower = to_ascii_lowercase canonical in
      record {
        canonical_sql = canonical;
        table_tags = tags_of statements;
        kind = kind_of statements;
        locking_select =
            is_select (kind_of statements)
            && (contains (ascii "for update") lower || contains (ascii "for share") lower);
      }

  unfoldable pub parse : Text → CacheResult SqlMetadata
  unfolding metadata_of
  parse sql = elim (x.parse_sql sql) [
    | ok statements ↦ ok (metadata_of statements)
    | err message ↦ err (CacheError.sql message)
  ]

unfoldable pub is_cacheable : SqlMetadata → Bool
is_cacheable m = is_select m.kind && not m.locking_select
