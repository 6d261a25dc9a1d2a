-- ===== src/Memcached/StringUtils.antt =====
-- rbatis-cache-memcached/src/string_utils.rs.
use rbatis_cache.Common.{Bool, Option, none, some, Text, if◌then◌else◌}
use rbatis_cache.Properties.{trim}
use rbatis_cache.Properties as Str

unfoldable pub is_empty : Text → Bool
is_empty text = Str.is_empty (trim text)

unfoldable pub trim_to_none : Text → Option Text
trim_to_none text = let trimmed = trim text in if Str.is_empty trimmed then none else some trimmed
