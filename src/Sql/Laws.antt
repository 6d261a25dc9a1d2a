-- ===== src/Sql/Laws.antt =====
-- Which statements may be cached.
use rbatis_cache.Common.{
  ◌≡◌, refl, ap, true, false, ◌&&◌, [], ◌∷◌, ◌++◌, Text, ascii, arith, leb, ◌+◌, if◌then◌else◌,
}
use rbatis_cache.External.{External}
use rbatis_cache.Sql.{metadata_of, kind_of, is_cacheable, to_ascii_lowercase, join}
use rbatis_cache.Sql.Contains.{contains, contains-append}

to_ascii_lowercase-append :
    (s t : Text) → to_ascii_lowercase (s ++ t) ≡ to_ascii_lowercase s ++ to_ascii_lowercase t
unfolding to_ascii_lowercase
to_ascii_lowercase-append [] t = refl
to_ascii_lowercase-append (c ∷ s) t =
    ap (λ u. (if leb 65 c && leb c 90 then c + 32 else c) ∷ u) (to_ascii_lowercase-append s t)

module _ (x : External) where
  -- A query that locks its rows, in whatever case that is written, is not cached.
  pub is_cacheable_locking :
      (s : x.Statement) (before lock after : Text)
      → x.render s ≡ before ++ (lock ++ after)
      → to_ascii_lowercase lock ≡ ascii "for update"
      → is_cacheable (metadata_of x (s ∷ [])) ≡ false
  unfolding is_cacheable metadata_of kind_of join
  is_cacheable_locking s before lock after e l =
      let found : contains (ascii "for update") (to_ascii_lowercase (x.render s)) ≡ true =
        rw
          (
            e,
            to_ascii_lowercase-append before (lock ++ after),
            to_ascii_lowercase-append lock after,
            l,
          )
          (contains-append (ascii "for update") (to_ascii_lowercase before)
            (to_ascii_lowercase after)) in
      ground arith
