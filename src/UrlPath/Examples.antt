-- ===== src/UrlPath/Examples.antt =====
-- `path.Clean` and `filepath.Ext` at concrete paths.
use verm.Prelude.{[], codes, bytes_eq, split, drop, contains_byte, last_index, ◌≡◌, refl}
use verm.UrlPath.{clean, ext}
use verm.UrlPath.Clean.{IsClean, clean-IsClean, clean-clean}

cleans : clean (codes "/a//b/./../c/../../../d") ≡ codes "/d"
unfolding clean split bytes_eq
cleans = refl

cleans_relative : clean (codes "a/../../b/") ≡ codes "../b"
unfolding clean split bytes_eq drop
cleans_relative = refl

ext_of_name : (ext (codes "/x.y/a.tar.gz") ≡ codes ".gz") × (ext (codes "/x.y/a") ≡ [])
unfolding ext last_index contains_byte drop
ext_of_name = (refl, refl)

cleans_to_names : IsClean (clean (codes "/a//b/../c"))
cleans_to_names = clean-IsClean (codes "a//b/../c")

cleans_twice : clean (clean (codes "/a//b/../c")) ≡ clean (codes "/a//b/../c")
cleans_twice = clean-clean (codes "a//b/../c")
