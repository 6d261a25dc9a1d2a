-- ===== src/Error.antt =====
-- src/error.rs: the errors of the cache contract.
use rbatis_cache.Common.{Text, ascii, Result, ◌++◌}

pub data CacheError : Type 0 where
  sql codec backend loader : Text → CacheError

-- fmt::Display
unfoldable pub display : CacheError → Text
display (sql message) = ascii "cache SQL parse failed: " ++ message
display (codec message) = ascii "cache envelope codec failed: " ++ message
display (backend message) = ascii "cache backend failed: " ++ message
display (loader message) = ascii "cache loader failed: " ++ message

-- CacheResult<T>
abbrev pub CacheResult : Type 0 → Type 0
CacheResult A = Result CacheError A
